-- ===== src/Auth/Revoking/Loop.antt =====
-- apps/im-server/src/modules/auth/services/auth-command.service.ts: what the loop over the sessions
-- leaves (`revokeFamily`, `revokeUserSessionsInManager`, `issueSession`).
use slowchat.Base.{
  ◌≡◌, refl, sym, ◌∙◌, Bool, true, false, ◌&&◌, ◌==◌, Option, none, some, List, [], ◌∷◌, arith, All,
  any, update_where, select, Option-cases, Bool-cases, inl, inr,
}
use slowchat.Base.Rows.{
  AtMostOne, any-false, find_one-first, All-update_where, All-map, AtMostOne-update_where,
  any-Among, All-Among,
}
use slowchat.Base.Saves.{upsert-update_where, update_where-none, any-of_first}
use slowchat.Base.Search.{Among-select, All-of_Among}
use slowchat.Base.Action.{ok}
use slowchat.Base.Database.{Database}
use slowchat.Model.{Uuid, Time, Store, AuthSession, AuthContext, RevokedReason, access_is_active}
use slowchat.Sessions.{session_of, same_session, revoke_session, revoked_session, session_is_good}
use slowchat.Auth.Revoking.{is_excepted, revoke_each}

-- Sessions are told apart by their ids.
abbrev pub HasUniqueIds : List AuthSession → Type 0
HasUniqueIds xs = (id : Uuid) → AtMostOne (λ (x : AuthSession). x.id == id) xs

abbrev pub hits : Uuid → AuthSession → Bool
hits id x = x.id == id && access_is_active x.status

module _ (db : Database) (now : Time) (reason : RevokedReason) where
  pub revoke_session-sessions :
      (id : Uuid) (s : Store)
      → HasUniqueIds s.sessions
      → (revoke_session db now id reason s).1.sessions
        ≡ update_where (hits id) (revoked_session db now reason) s.sessions
  unfolding revoke_session
  revoke_session-sessions id s unique =
      let key : AuthSession → Bool = λ x. x.id == id in
      let revoke = revoked_session db now reason in
      let found = find_one-first db key s.sessions (unique id) in
      let narrow : (x : AuthSession) → hits id x ≡ true → key x ≡ true = λ x h. ground arith in
      let unchanged = update_where-none (hits id) revoke s.sessions in
      elim (Option-cases (db.find_one key s.sessions)) [
        | inl e ↦
            let nobody =
              any-false key (hits id) s.sessions narrow (db.find_one_none key s.sessions e) in
            ground (arith, unchanged nobody)
        | inr (y, e) ↦
            let passes : y.id == id ≡ true = db.find_one_some key s.sessions y e in
            elim (Bool-cases (access_is_active y.status)) [
              | inl active ↦
                  let saved = db.save_lem same_session (revoke y) s.sessions in
                  let law =
                    upsert-update_where same_session (hits id) key revoke y s.sessions
                      (λ x. ground arith) narrow (ground arith) (unique id) (sym found ∙ e) in
                  ground (arith, saved, law)
              | inr inactive ↦
                  let nobody =
                    any-of_first (hits id) key y s.sessions narrow (ground arith) (unique id)
                      (sym found ∙ e) in
                  ground (arith, unchanged nobody)
            ]
      ]

  pub HasUniqueIds-revoke_session :
      (id : Uuid) (s : Store)
      → HasUniqueIds s.sessions
      → HasUniqueIds (revoke_session db now id reason s).1.sessions
  HasUniqueIds-revoke_session id s unique = λ other. rw (revoke_session-sessions id s unique) (
      AtMostOne-update_where (λ (x : AuthSession). x.id == other) (hits id)
        (revoked_session db now reason) s.sessions (λ x. refl) (unique other))

  revoke_session-ok :
      (id : Uuid) (s : Store)
      → (value : Option AuthSession) × ((revoke_session db now id reason s).0 ≡ ok value)
  unfolding revoke_session
  revoke_session-ok id s = elim (Option-cases (db.find_one (λ x. x.id == id) s.sessions)) [
    | inl e ↦ (none, ground arith)
    | inr (y, e) ↦ elim (Bool-cases (access_is_active y.status)) [
      | inl active ↦ (some (revoked_session db now reason y), ground arith)
      | inr inactive ↦ (some y, ground arith)
    ]
  ]

  pub revoke_each-ok :
      (except : Option Uuid) (xs : List AuthSession) (s : Store)
      → (revoked : List AuthSession) × ((revoke_each db now reason except xs s).0 ≡ ok revoked)
  unfolding revoke_each
  revoke_each-ok except [] s = ([], refl)
  revoke_each-ok except (y ∷ ys) s = elim (Bool-cases (is_excepted except y)) [
    | inl e ↦ rw e (revoke_each-ok except ys s)
    | inr e ↦
        let (value, first_ok) = revoke_session-ok y.id s in
        let (revoked, rest_ok) = revoke_each-ok except ys (revoke_session db now y.id reason s).1 in
        (elim value [ none ↦ revoked | some session ↦ session ∷ revoked ], ground arith)
  ]

  -- The store after the loop is what the rest of it makes of the store after the first revocation.
  pub revoke_each-next :
      (except : Option Uuid) (y : AuthSession) (ys : List AuthSession) (s : Store)
      → is_excepted except y ≡ false
      → (revoke_each db now reason except (y ∷ ys) s).1
        ≡ (revoke_each db now reason except ys (revoke_session db now y.id reason s).1).1
  unfolding revoke_each
  revoke_each-next except y ys s e = ground (
    arith,
    revoke_session-ok y.id s,
    revoke_each-ok except ys (revoke_session db now y.id reason s).1,
  )

  -- What a revocation keeps of a row, the loop keeps of all rows.
  pub revoke_each-All :
      (P : AuthSession → Type 0)
      → ((x : AuthSession) → P x → P (revoked_session db now reason x))
      → (except : Option Uuid) (xs : List AuthSession) (s : Store) → HasUniqueIds s.sessions
      → All P s.sessions
      → All P (revoke_each db now reason except xs s).1.sessions
  unfolding revoke_each
  revoke_each-All P keeps except [] s unique all = all
  revoke_each-All P keeps except (y ∷ ys) s unique all = elim (Bool-cases (is_excepted except y)) [
    | inl e ↦ rw e (revoke_each-All P keeps except ys s unique all)
    | inr e ↦
        let s1 : Store = (revoke_session db now y.id reason s).1 in
        let kept : All P s1.sessions = rw (revoke_session-sessions y.id s unique) (
          All-update_where P P (hits y.id) (revoked_session db now reason) s.sessions
            (λ x h hit. keeps x h) (λ x h miss. h) all) in
        rw (revoke_each-next except y ys s e)
          (revoke_each-All P keeps except ys s1 (HasUniqueIds-revoke_session y.id s unique) kept)
  ]

  module _ (test : AuthSession → Bool) (except : Option Uuid) where
    -- A session that passes, is not excepted and is still active has its turn to come.
    abbrev pub Outstanding : List AuthSession → AuthSession → Type 0
    Outstanding xs x =
        test x ≡ true
        → is_excepted except x ≡ false
        → access_is_active x.status ≡ true
        → any (λ (l : AuthSession). x.id == l.id) xs ≡ true

    skipped :
        (y : AuthSession) (ys : List AuthSession) (x : AuthSession)
        → is_excepted except y ≡ true
        → Outstanding (y ∷ ys) x
        → Outstanding ys x
    skipped y ys x e out passes kept active = ground (arith, out passes kept active)

    -- After the loop no session of those that it was for is active, but for the one excepted.
    pub revoke_each-Inactive :
        (xs : List AuthSession) (s : Store)
        → HasUniqueIds s.sessions
        → All (Outstanding xs) s.sessions
        → HasUniqueIds (revoke_each db now reason except xs s).1.sessions
          × All (Outstanding []) (revoke_each db now reason except xs s).1.sessions
    unfolding revoke_each
    revoke_each-Inactive [] s unique all = (unique, all)
    revoke_each-Inactive (y ∷ ys) s unique all = elim (Bool-cases (is_excepted except y)) [
      | inl e ↦ rw e (
          revoke_each-Inactive ys s unique (
            All-map (Outstanding (y ∷ ys)) (Outstanding ys) s.sessions
              (λ x out. skipped y ys x e out) all))
      | inr e ↦
          let s1 : Store = (revoke_session db now y.id reason s).1 in
          let later : All (Outstanding ys) s1.sessions =
            rw (revoke_session-sessions y.id s unique) (
              All-update_where (Outstanding (y ∷ ys)) (Outstanding ys) (hits y.id)
                (revoked_session db now reason) s.sessions
                (λ x out hit passes kept active. absurd (ground arith))
                (λ x out miss passes kept active. ground (arith, out passes kept active)) all) in
          rw (revoke_each-next except y ys s e)
            (revoke_each-Inactive ys s1 (HasUniqueIds-revoke_session y.id s unique) later)
    ]

    -- At the start all sessions that pass and are active have their turn to come.
    pub Outstanding-select :
        (p : AuthSession → Bool) (rows : List AuthSession)
        → ((x : AuthSession) → test x ≡ true → access_is_active x.status ≡ true → p x ≡ true)
        → All (Outstanding (select p rows)) rows
    Outstanding-select p rows covers =
        All-of_Among (Outstanding (select p rows)) rows (λ x among passes kept active.
          any-Among (λ (l : AuthSession). x.id == l.id) x (select p rows)
            (Among-select p x rows among (covers x passes active)) (ground arith))

    -- A session that the loop was for is good for nobody.
    pub not_good :
        (auth : AuthContext) (later : Time) (s : Store)
        → All (Outstanding []) s.sessions
        → ((x : AuthSession) → session_of auth x ≡ true → test x ≡ true)
        → ((x : AuthSession) → session_of auth x ≡ true → is_excepted except x ≡ false)
        → session_is_good db later auth s ≡ false
    unfolding session_is_good
    not_good auth later s all passes kept =
        elim (Option-cases (db.find_one (session_of auth) s.sessions)) [
          | inl e ↦ ground arith
          | inr (x, e) ↦
              let found = db.find_one_some (session_of auth) s.sessions x e in
              let none_left =
                All-Among (Outstanding []) x s.sessions all
                  (db.find_one_among (session_of auth) s.sessions x e) (passes x found)
                  (kept x found) in
              ground (arith, none_left)
        ]
