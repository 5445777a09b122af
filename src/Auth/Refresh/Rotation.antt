-- ===== src/Auth/Refresh/Rotation.antt =====
-- apps/im-server/src/modules/auth/services/auth-command.service.ts: what a `refresh` that succeeds
-- has found, and what it leaves.
use slowchat.Base.{
  ◌≡◌, refl, sym, ap, ◌∙◌, Bool, true, false, ◌==◌, Option, none, some, [], arith, upsert,
  Option-cases, Bool-cases, inl, inr,
}
use slowchat.Base.Action.{Result, Result-cases, ok}
use slowchat.Base.Database.{Database}
use slowchat.Model.{
  Uuid, Text, Store, User, Device, AuthSession, RefreshToken, RequestMetadata, RevokedReason,
  token_is_used,
}
use slowchat.Sessions.{Env, same_session}
use slowchat.Auth.Tokens.{
  Crypto, AuthConfig, ParsedToken, NewRefreshToken, create_refresh_token, parse_refresh_token,
  refresh_hash_matches,
}
use slowchat.Auth.Revoking.{find_token}
use slowchat.Auth.Revoking.Family.{revoke_family-ok}
use slowchat.Auth.Issue.{
  TokenResponse, SessionIssue, token_response, same_token, save_session, save_token,
}
use slowchat.Auth.Refresh.{
  Refreshed, refresh, refresh_body, refresh_with, refresh_found, refresh_active, rotate, is_current,
  subject_of, used_token, next_token, touched_session, reuse_detected,
}

abbrev pub token_id : Uuid → RefreshToken → Bool
token_id id t = t.id == id

module _ (db : Database) (crypto : Crypto) (config : AuthConfig) (token : Text) where
  -- The rows that a token names: its own and the one of its session.
  abbrev pub Names : ParsedToken → Uuid → RefreshToken → AuthSession → Store → Type 0
  Names parsed id t x s =
      (parse_refresh_token crypto config token ≡ ok parsed)
      × (crypto.read_uuid parsed.id ≡ some id)
      × (db.find_one (token_id id) s.refresh_tokens ≡ some t)
      × (refresh_hash_matches t.token_hash parsed.hash ≡ true)
      × (db.find_one (λ (x : AuthSession). x.id == t.session_id) s.sessions ≡ some x)

  module _ (env : Env) (secret : Text) (metadata : RequestMetadata) where
    abbrev pub next : NewRefreshToken
    next = create_refresh_token crypto config (env.uuid 0) secret

    abbrev pub rotated : RefreshToken → AuthSession → Store → Store
    rotated t x s = record s {
      refresh_tokens =
          upsert same_token (next_token next x)
            (upsert same_token (used_token env.now next.id t) s.refresh_tokens);
      sessions = upsert same_session (touched_session env.now metadata x) s.sessions;
    }

    -- What the writes make of the store, and the answer.
    rotate-run :
        (t : RefreshToken) (x : AuthSession) (device : Device) (user : User) (s : Store)
        → rotate db crypto config env secret metadata t x (device, user) s ≡ (
          ok (
              Refreshed.renewed user (record {
                device = device;
                refresh_token = next.token;
                session = touched_session env.now metadata x;
                revoked_sessions = [];
                new_device = false;
              })),
          rotated t x s,
        )
    unfolding rotate save_token save_session
    rotate-run t x device user s =
        let first_save = db.save_lem same_token (used_token env.now next.id t) s.refresh_tokens in
        let second_save =
          db.save_lem same_token (next_token next x)
            (upsert same_token (used_token env.now next.id t) s.refresh_tokens) in
        let session_save =
          db.save_lem same_session (touched_session env.now metadata x) s.sessions in
        rw (first_save, second_save, session_save) refl

    module _ (s : Store) (user : User) (issue : SessionIssue) (s' : Store) where
      abbrev Renews : Result Refreshed × Store → Type 0
      Renews run = run ≡ (ok (Refreshed.renewed user issue), s')

      with-Renews :
          (t : RefreshToken) (o : Option AuthSession)
          → Renews (refresh_with db crypto config env secret metadata t o s)
          → (x : AuthSession) × (o ≡ some x)
            × (token_is_used t.status ≡ false)
            × (is_current env.now t x ≡ true)
            × (subject : Device × User) × (subject_of db crypto config x s ≡ some subject)
            × Renews (rotate db crypto config env secret metadata t x subject s)
      unfolding refresh_with refresh_active reuse_detected
      with-Renews t none done = absurd (ground arith)
      with-Renews t (some x) done = elim (Bool-cases (token_is_used t.status)) [
        | inl e ↦ absurd (reused t x e done)
        | inr unused ↦ elim (Bool-cases (is_current env.now t x)) [
          | inr e ↦ absurd (ground arith)
          | inl current ↦ elim (Option-cases (subject_of db crypto config x s)) [
            | inl nobody ↦ absurd (ground arith)
            | inr (subject, there) ↦ (x, refl, unused, current, subject, there, ground arith)
          ]
        ]
      ]
        where
          reused :
              (t : RefreshToken) (x : AuthSession)
              → token_is_used t.status ≡ true
              → Renews (refresh_with db crypto config env secret metadata t (some x) s)
              → ⊥
          reused t x e done =
              let (revoked, run) =
                revoke_family-ok db env.now RevokedReason.refresh_token_reused t.token_family_id
                  s in
              ground (arith, run)

      found-Renews :
          (parsed : ParsedToken) (o : Option RefreshToken)
          → Renews (refresh_found db crypto config env secret metadata parsed o s)
          → (t : RefreshToken) × (o ≡ some t)
            × (refresh_hash_matches t.token_hash parsed.hash ≡ true)
            × Renews (
                refresh_with db crypto config env secret metadata t
                  (db.find_one (λ (x : AuthSession). x.id == t.session_id) s.sessions)
                  s)
      unfolding refresh_found
      found-Renews parsed none done = absurd (ground arith)
      found-Renews parsed (some t) done =
          elim (Bool-cases (refresh_hash_matches t.token_hash parsed.hash)) [
            | inl e ↦ (t, refl, e, ground arith)
            | inr e ↦ absurd (ground arith)
          ]

      body-Renews :
          (parsed : ParsedToken)
          → Renews (refresh_body db crypto config env secret metadata parsed s)
          → (id : Uuid) × (crypto.read_uuid parsed.id ≡ some id)
            × Renews (
                refresh_found db crypto config env secret metadata parsed
                  (db.find_one (token_id id) s.refresh_tokens)
                  s)
      unfolding refresh_body find_token
      body-Renews parsed done = elim (Option-cases (crypto.read_uuid parsed.id)) [
        | inl e ↦ absurd (ground arith)
        | inr (id, e) ↦ (id, e, ground arith)
      ]

      rotates :
          (parsed : ParsedToken)
          → parse_refresh_token crypto config token ≡ ok parsed
          → Renews (refresh_body db crypto config env secret metadata parsed s)
          → (id : Uuid) × (t : RefreshToken) × (x : AuthSession) × Names parsed id t x s
            × (is_current env.now t x ≡ true)
            × (issue.refresh_token ≡ next.token)
            × (issue.session.id ≡ x.id)
            × (s' ≡ rotated t x s)
      rotates parsed read done =
          let (id, named, body) = body-Renews parsed done in
          let (t, found, hash, with) =
            found-Renews parsed (db.find_one (token_id id) s.refresh_tokens) body in
          let (x, opened, unused, current, (device, who), there, run) =
            with-Renews t (db.find_one (λ (x : AuthSession). x.id == t.session_id) s.sessions)
              with in
          let law = rotate-run t x device who s in
          (
            id,
            t,
            x,
            (read, named, found, hash, opened),
            current,
            ground (arith, run, law),
            ground (arith, run, law),
            ap (λ r. r.1) (sym run ∙ law),
          )

    -- A refresh that succeeds.
    pub refresh-rotates :
        (s : Store) (response : TokenResponse) (s' : Store)
        → refresh db crypto config env secret metadata token s ≡ (ok response, s')
        → (parsed : ParsedToken) × (id : Uuid) × (t : RefreshToken) × (x : AuthSession) × Names
            parsed id t x s
          × (is_current env.now t x ≡ true)
          × (response.refresh_token ≡ next.token)
          × (response.session.id ≡ x.id)
          × (s' ≡ rotated t x s)
    unfolding refresh token_response
    refresh-rotates s response s' done =
        elim (Result-cases (parse_refresh_token crypto config token)) [
          | inr (e, unread) ↦ absurd (ground arith)
          | inl (parsed, read) ↦
              let law =
                db.transaction_lem (refresh_body db crypto config env secret metadata parsed) s in
              let run = refresh_body db crypto config env secret metadata parsed s in
              elim (Result-cases run.0) [
                | inr (e, failed) ↦ absurd (ground (arith, law))
                | inl (Refreshed.refused e reused, refused) ↦ absurd (ground (arith, law))
                | inl (Refreshed.renewed user issue, renewed) ↦
                    let whole : run ≡ (ok (Refreshed.renewed user issue), s') =
                      ground (arith, law) in
                    let (id, t, x, names, current, new_token, same, after) =
                      rotates s user issue s' parsed read whole in
                    (
                      parsed,
                      id,
                      t,
                      x,
                      names,
                      current,
                      ground (arith, law),
                      ground (arith, law),
                      after,
                    )
              ]
        ]
