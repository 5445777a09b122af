-- ===== src/Auth/Challenges/Once.antt =====
-- apps/im-server/src/modules/auth/services/auth-command.service.ts: a challenge that was used up is
-- refused by `consumeChallenge`, and one that is accepted stands in the table.
use slowchat.Base.{
  ◌≡◌, refl, ◌∙◌, Bool, ◌==◌, some, List, arith, first, upsert, Option-cases, inl, inr,
}
use slowchat.Base.Rows.{AtMostOne, find_one-first}
use slowchat.Base.Saves.{first-upsert, AtMostOne-upsert}
use slowchat.Base.Action.{ok, err, app_error, verification_invalid}
use slowchat.Base.Database.{Database}
use slowchat.Model.{Uuid, Time, Text, Store, AuthChallenge, ChallengePurpose}
use slowchat.Auth.Tokens.{Crypto, AuthConfig}
use slowchat.Auth.Challenges.{same_challenge, consume_challenge}

module _ (db : Database) (crypto : Crypto) (config : AuthConfig) (id : Uuid) where
  abbrev pub of_id : AuthChallenge → Bool
  of_id c = c.id == id

  -- The row of the challenge is used up.
  abbrev pub IsSpent : List AuthChallenge → Type 0
  IsSpent rows =
      AtMostOne of_id rows
      × ((c : AuthChallenge) × (t : Time) × (first of_id rows ≡ some c) × (c.consumed_at ≡ some t))

  pub spent-Refused :
      (now : Time) (code : Text) (purpose : ChallengePurpose) (s : Store)
      → IsSpent s.challenges
      → consume_challenge db crypto config now id code purpose s
        ≡ (ok (err (app_error verification_invalid 400)), s)
  unfolding consume_challenge
  spent-Refused now code purpose s (one, (c, t, there, spent)) =
      let found = find_one-first db of_id s.challenges one ∙ there in ground arith

  pub accepted-stored :
      (now : Time) (code : Text) (purpose : ChallengePurpose) (s s' : Store) (c : AuthChallenge)
      → consume_challenge db crypto config now id code purpose s ≡ (ok (ok c), s')
      → (s' ≡ s) × (c.id ≡ id) × (db.find_one of_id s.challenges ≡ some c)
  unfolding consume_challenge
  accepted-stored now code purpose s s' c done =
      elim (Option-cases (db.find_one of_id s.challenges)) [
        | inl e ↦ absurd (ground arith)
        | inr (x, e) ↦ let passes = db.find_one_some of_id s.challenges x e in ground arith
      ]

  pub consumed-IsSpent :
      (now : Time) (c : AuthChallenge) (rows : List AuthChallenge)
      → c.id ≡ id
      → AtMostOne of_id rows
      → IsSpent (upsert same_challenge (record c { consumed_at = some now }) rows)
  consumed-IsSpent now c rows same one =
      let row : AuthChallenge = record c { consumed_at = some now } in
      (
        AtMostOne-upsert same_challenge of_id row rows (λ x e. ground arith) (λ x e f. ground arith)
            one,
        (
          row,
          now,
          first-upsert same_challenge of_id row rows (λ x. ground arith) (ground arith),
          refl,
        ),
      )
