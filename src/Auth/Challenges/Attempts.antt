-- ===== src/Auth/Challenges/Attempts.antt =====
-- apps/im-server/src/modules/auth/services/auth-command.service.ts: how often `consumeChallenge`
-- lets a code be guessed.
use slowchat.Base.{
  ◌≡◌, ap, sym, subst, ◌∙◌, first, ◌≤◌, ◌+◌, Bool, true, false, ◌==◌, leb, none, some, arith, All,
  upsert, Option-cases, Bool-cases, inl, inr, is_some,
}
use slowchat.Base.Rows.{AtMostOne, find_one-first}
use slowchat.Base.Saves.{All-upsert, first-upsert}
use slowchat.Base.Action.{ok, err, app_error, verification_invalid}
use slowchat.Base.Database.{Database}
use slowchat.Model.{Uuid, Time, Text, Store, AuthChallenge, ChallengePurpose, same_purpose}
use slowchat.Auth.Tokens.{Crypto, AuthConfig}
use slowchat.Auth.Challenges.{
  same_challenge, save_challenge, consume_challenge, refusal, attempted, code_matches,
}

module _ (db : Database) (crypto : Crypto) (config : AuthConfig) (now : Time) (id : Uuid)
    (code : Text) (purpose : ChallengePurpose) (s : Store) where
  abbrev pub WithinLimit : AuthChallenge → Type 0
  WithinLimit c = c.attempts ≤ config.challenge_max_attempts

  abbrev key : AuthChallenge → Bool
  key c = c.id == id

  counted :
      (c : AuthChallenge)
      → db.find_one key s.challenges ≡ some c
      → refusal db crypto config now purpose c ≡ none
      → code_matches db crypto config id code c ≡ false
      → consume_challenge db crypto config now id code purpose s ≡ (
        ok (err (app_error verification_invalid 400)),
        record s { challenges = upsert same_challenge (attempted db crypto config c) s.challenges },
      )
  unfolding consume_challenge save_challenge
  counted c e none_refused wrong =
      ground (arith, db.save_lem same_challenge (attempted db crypto config c) s.challenges)

  bounded :
      All WithinLimit s.challenges
      → All WithinLimit (consume_challenge db crypto config now id code purpose s).1.challenges
  unfolding consume_challenge
  bounded within = elim (Option-cases (db.find_one key s.challenges)) [
    | inl e ↦ unwritten (ground arith)
    | inr (c, e) ↦ elim (Option-cases (refusal db crypto config now purpose c)) [
      | inr (refused, r) ↦ unwritten (ground arith)
      | inl r ↦ elim (Bool-cases (code_matches db crypto config id code c)) [
        | inl right ↦ unwritten (ground arith)
        | inr wrong ↦ rw (counted c e r wrong) (
            All-upsert WithinLimit same_challenge (attempted db crypto config c) s.challenges
              (ground arith) within)
      ]
    ]
  ]
    where
      unwritten :
          (consume_challenge db crypto config now id code purpose s).1 ≡ s
          → All WithinLimit (consume_challenge db crypto config now id code purpose s).1.challenges
      unwritten same = subst (λ t. All WithinLimit t.challenges) (sym same) within

  -- A code is accepted only for a challenge of the purpose that is neither used up nor expired, has
  -- had fewer wrong codes than the limit, and whose code it is; nothing is written then. A wrong
  -- code for such a challenge is refused as VERIFICATION_INVALID (400) and counted in its row, and
  -- whatever the answer, the wrong codes counted of any challenge stay within the limit, if they
  -- were before. Condition: challenges are told apart by their ids.
  pub consume_challenge-Limited :
      AtMostOne key s.challenges
      → All WithinLimit s.challenges
      → ((c : AuthChallenge) (s' : Store)
          → consume_challenge db crypto config now id code purpose s ≡ (ok (ok c), s')
          → (s' ≡ s)
            × (same_purpose c.purpose purpose ≡ true)
            × (is_some c.consumed_at ≡ false)
            × (leb c.expires_at now ≡ false)
            × (leb config.challenge_max_attempts c.attempts ≡ false)
            × (code_matches db crypto config id code c ≡ true))
        × ((c : AuthChallenge)
            → first key s.challenges ≡ some c
            → refusal db crypto config now purpose c ≡ none
            → code_matches db crypto config id code c ≡ false
            → let (answer, s') = consume_challenge db crypto config now id code purpose s in
              (answer ≡ ok (err (app_error verification_invalid 400)))
              × (first key s'.challenges ≡ some (record c { attempts = c.attempts + 1 })))
        × All WithinLimit (consume_challenge db crypto config now id code purpose s).1.challenges
  unfolding consume_challenge save_challenge
  consume_challenge-Limited one within = (
    (λ c s' done. elim (Option-cases (db.find_one key s.challenges)) [
      | inl e ↦ absurd (ground arith)
      | inr (x, e) ↦ ground arith
    ]),
    (λ c there r wrong.
        let e = find_one-first db key s.challenges one ∙ there in
        let run = counted c e r wrong in
        let mine : c.id == id ≡ true = db.find_one_some key s.challenges c e in
        (
          ap (λ p. p.0) run,
          ap (λ p. first key p.1.challenges) run
              ∙ first-upsert same_challenge key (attempted db crypto config c) s.challenges
                  (λ x. ground arith) mine,
        )),
    bounded within,
  )
