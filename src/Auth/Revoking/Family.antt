-- ===== src/Auth/Revoking/Family.antt =====
-- apps/im-server/src/modules/auth/services/auth-command.service.ts: what `revokeFamily` leaves.
use slowchat.Base.{
  ◌≡◌, refl, sym, subst, ap, true, false, ◌==◌, none, List, [], arith, All, select, inl, inr,
  Option-cases,
}
use slowchat.Base.Rows.{All-Among}
use slowchat.Base.Action.{ok}
use slowchat.Base.Database.{Database}
use slowchat.Model.{Uuid, Time, Store, AuthSession, AuthContext, RevokedReason}
use slowchat.Sessions.{session_of, session_is_good}
use slowchat.Auth.Revoking.{in_family, revoke_tokens, revoke_each, revoke_family}
use slowchat.Auth.Revoking.Loop.{
  HasUniqueIds, Outstanding, revoke_each-ok, revoke_each-Inactive, revoke_each-All,
  Outstanding-select,
}

module _ (db : Database) (now : Time) (reason : RevokedReason) (family_id : Uuid) (s : Store) where
  abbrev members : List AuthSession
  members = select (in_family family_id) s.sessions

  abbrev stripped : Store
  stripped = revoke_tokens db family_id s

  abbrev pub family_after : Store
  family_after = (revoke_family db now reason family_id s).1

  loop : revoke_family db now reason family_id s ≡ revoke_each db now reason none members stripped
  unfolding revoke_family revoke_tokens
  loop =
      ap (λ rows. revoke_each db now reason none rows (revoke_tokens db family_id s))
        (db.find_by_lem (in_family family_id) s.sessions)

  pub revoke_family-ok :
      (revoked : List AuthSession) × (revoke_family db now reason family_id s
        ≡ (ok revoked, family_after))
  revoke_family-ok =
      let (revoked, done) = revoke_each-ok db now reason none members stripped in
      (revoked, ground (arith, loop, done))

  -- No session of the family is active.
  pub family-Inactive :
      HasUniqueIds s.sessions
      → All (Outstanding db now reason (in_family family_id) none []) family_after.sessions
  unfolding revoke_tokens
  family-Inactive unique =
      let start =
        Outstanding-select db now reason (in_family family_id) none (in_family family_id) s.sessions
          (λ x passes act. passes) in
      subst (λ run. All (Outstanding db now reason (in_family family_id) none []) run.1.sessions)
        (sym loop)
        (revoke_each-Inactive db now reason (in_family family_id) none members stripped unique
          start).1

  -- If all sessions of an id are of the family, nobody's session of this id is good.
  pub family-SignedOut :
      HasUniqueIds s.sessions
      → (id : Uuid)
      → All (λ (x : AuthSession). x.id == id ≡ true → in_family family_id x ≡ true) s.sessions
      → (auth : AuthContext) (later : Time) → auth.session_id ≡ id
      → session_is_good db later auth family_after ≡ false
  unfolding session_is_good revoke_tokens
  family-SignedOut unique id all auth later same =
      let inactive = family-Inactive unique in
      let Of : AuthSession → Type 0 = λ x. x.id == id ≡ true → in_family family_id x ≡ true in
      let still : All Of family_after.sessions =
        subst (λ run. All Of run.1.sessions) (sym loop)
          (revoke_each-All db now reason Of (λ x h. h) none members stripped unique all) in
      elim (Option-cases (db.find_one (session_of auth) family_after.sessions)) [
        | inl e ↦ ground arith
        | inr (x, e) ↦
            let among = db.find_one_among (session_of auth) family_after.sessions x e in
            let found = db.find_one_some (session_of auth) family_after.sessions x e in
            let passes = All-Among Of x family_after.sessions still among (ground arith) in
            let none_left =
              All-Among (Outstanding db now reason (in_family family_id) none []) x
                family_after.sessions inactive among passes refl in
            ground (arith, none_left)
      ]
