-- ===== src/Auth/Revoking/Everywhere.antt =====
-- apps/im-server/src/modules/auth/services/auth-command.service.ts: what
-- `revokeUserSessionsInManager` and `logoutAll` leave.
use slowchat.Base.{
  ◌≡◌, refl, sym, subst, ap, Bool, true, false, ◌==◌, Option, none, some, List, [], arith, All,
  first, select,
}
use slowchat.Base.Action.{ok}
use slowchat.Base.Database.{Database}
use slowchat.Model.{Uuid, Time, Store, AuthSession, AuthContext, RevokedReason}
use slowchat.Sessions.{Env, session_of, session_is_good}
use slowchat.Auth.Revoking.{
  is_excepted, active_of, revoke_each, revoke_user_sessions_in_manager, logout_all,
}
use slowchat.Auth.Revoking.Loop.{
  HasUniqueIds, Outstanding, revoke_each-ok, revoke_each-Inactive, Outstanding-select, not_good,
}
use slowchat.Auth.Revoking.Kept.{apart, revoke_each-apart, revoke_each-spares}

abbrev pub of_user : Uuid → AuthSession → Bool
of_user user_id x = x.user_id == user_id

module _ (db : Database) (now : Time) (user_id : Uuid) (reason : RevokedReason)
    (except : Option Uuid) (s : Store) where
  abbrev active : List AuthSession
  active = select (active_of user_id) s.sessions

  abbrev pub after : Store
  after = (revoke_user_sessions_in_manager db now user_id reason except s).1

  loop :
      revoke_user_sessions_in_manager db now user_id reason except s
      ≡ revoke_each db now reason except active s
  unfolding revoke_user_sessions_in_manager
  loop =
      ap (λ rows. revoke_each db now reason except rows s)
        (db.find_by_lem (active_of user_id) s.sessions)

  pub revoked-ok :
      (revoked : List AuthSession) × (revoke_user_sessions_in_manager db now user_id reason except s
        ≡ (ok revoked, after))
  revoked-ok =
      let (revoked, done) = revoke_each-ok db now reason except active s in
      (revoked, ground (arith, loop, done))

  pub after-apart : apart after ≡ apart s
  after-apart =
      subst (λ run. apart run.1 ≡ apart s) (sym loop)
        (revoke_each-apart db now reason except active s)

  pub after-SignedOut :
      HasUniqueIds s.sessions
      → (auth : AuthContext) (later : Time) → auth.user_id ≡ user_id
      → ((x : AuthSession) → session_of auth x ≡ true → is_excepted except x ≡ false)
      → session_is_good db later auth after ≡ false
  after-SignedOut unique auth later same kept =
      let start =
        Outstanding-select db now reason (of_user user_id) except (active_of user_id) s.sessions
          (λ x passes act. ground arith) in
      let (still, done) =
        revoke_each-Inactive db now reason (of_user user_id) except active s unique start in
      not_good db now reason (of_user user_id) except auth later after
        (subst (λ run. All (Outstanding db now reason (of_user user_id) except []) run.1.sessions)
          (sym loop) done)
        (λ x found. ground arith) kept

module _ (db : Database) (now : Time) (user_id : Uuid) (reason : RevokedReason) (id : Uuid)
    (s : Store) where
  -- The session that is excepted stays as it was, and the ids are unique still.
  pub after-Spared :
      HasUniqueIds s.sessions
      → (first (λ (x : AuthSession). x.id == id) (after db now user_id reason (some id) s).sessions
          ≡ first (λ (x : AuthSession). x.id == id) s.sessions)
        × HasUniqueIds (after db now user_id reason (some id) s).sessions
  after-Spared unique =
      subst
        (λ run.
          (first (λ (x : AuthSession). x.id == id) run.1.sessions
            ≡ first (λ (x : AuthSession). x.id == id) s.sessions)
          × HasUniqueIds run.1.sessions)
        (sym (loop db now user_id reason (some id) s))
        (revoke_each-spares db now reason id (active db now user_id reason (some id) s) s unique)

module _ (db : Database) (env : Env) (context : AuthContext) (s : Store)
    (unique : HasUniqueIds s.sessions) where
  -- After `logoutAll`, which always succeeds, no session of the user is good, at any time.
  -- Condition: sessions are told apart by their ids.
  pub logout_all-SignedOut :
      (revoked : List AuthSession) × (s' : Store) × (logout_all db env context s ≡ (ok revoked, s'))
      × ((auth : AuthContext) (later : Time)
          → auth.user_id ≡ context.user_id
          → session_is_good db later auth s' ≡ false)
  unfolding logout_all
  logout_all-SignedOut =
      let reason = RevokedReason.logout_all in
      let law =
        db.transaction_lem (revoke_user_sessions_in_manager db env.now context.user_id reason none)
          s in
      let (revoked, done) = revoked-ok db env.now context.user_id reason none s in
      (
        revoked,
        after db env.now context.user_id reason none s,
        ground (arith, law, done),
        λ auth later same.
            after-SignedOut db env.now context.user_id reason none s unique auth later same
              (λ x found. refl),
      )
