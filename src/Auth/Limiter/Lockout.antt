-- ===== src/Auth/Limiter/Lockout.antt =====
-- apps/im-server/src/modules/auth/services/auth-rate-limiter.service.ts: failed logins of an identity
-- lock it out.
use slowchat.Base.{
  ℕ, ◌≡◌, ◌≤◌, ◌<◌, ◌+◌, ◌==◌, or_else, Option, List, [], ◌∷◌, arith, length, Bool-cases, inl, inr,
}
use slowchat.Base.Action.{ok, err, app_error, rate_limited}
use slowchat.Model.{Digest}
use slowchat.Auth.Tokens.{AuthConfig}
use slowchat.Auth.Limiter.{
  Redis, RateKey, RateKind, check, consume, assert_login_allowed, record_login_failure,
}

-- What Redis does within the window of the counters, while it is up: INCR counts, and neither it
-- nor EXPIRE takes from a counter.
pub record Counting {Cache : Type 0} (redis : Redis Cache) : Type 0 where
  pub count : RateKey → Cache → ℕ
  pub incr_answer : (key : RateKey) (c : Cache) → (redis.incr key c).0 ≡ ok (count key c + 1)
  pub incr_counts : (key : RateKey) (c : Cache) → count key (redis.incr key c).1 ≡ count key c + 1
  pub incr_keeps :
      (key other : RateKey) (c : Cache) → count other c ≤ count other (redis.incr key c).1
  pub expire_answer : (key : RateKey) (ttl : ℕ) (c : Cache) → (redis.expire key ttl c).0 ≡ ok tt
  pub expire_keeps :
      (key other : RateKey) (ttl : ℕ) (c : Cache)
      → count other c ≤ count other (redis.expire key ttl c).1
  pub get_answer :
      (key : RateKey) (c : Cache)
      → (value : Option ℕ) × ((redis.get key c).0 ≡ ok value) × (or_else value 0 ≡ count key c)
  pub get_keeps :
      (key other : RateKey) (c : Cache) → count other (redis.get key c).1 ≡ count other c

module _ {Cache : Type 0} (redis : Redis Cache) (counting : Counting redis) where
  open counting use {
    count, incr_answer, incr_counts, incr_keeps, expire_answer, expire_keeps, get_answer, get_keeps,
  }

  module _ (key : RateKey) (limit ttl : ℕ) (c : Cache) where
    abbrev counted : Cache
    counted = (redis.incr key c).1

    consume-keeps :
        (other : RateKey) → count other counted ≤ count other (consume redis key limit ttl c).1
    unfolding consume
    consume-keeps other = elim (Bool-cases (count key c + 1 == 1)) [
      | inl e ↦ ground (
        arith,
        incr_answer key c,
        expire_answer key ttl counted,
        expire_keeps key other ttl counted,
      )
      | inr e ↦ ground (arith, incr_answer key c)
    ]

  check-answer :
      (key : RateKey) (limit : ℕ) (c : Cache)
      → ((limit ≤ count key c) → (check redis key limit c).0 ≡ err (app_error rate_limited 429))
        × ((count key c < limit) → (check redis key limit c).0 ≡ ok tt)
        × ((other : RateKey) → count other (check redis key limit c).1 ≡ count other c)
  unfolding check
  check-answer key limit c =
      let (value, answered, is_count) = get_answer key c in
      (
        (λ h. ground (arith, answered, is_count)),
        (λ h. ground (arith, answered, is_count)),
        (λ other. ground (arith, answered, is_count, get_keeps key other c)),
      )

  module _ (config : AuthConfig) (identity_hash : Digest) where
    abbrev identity_key : RateKey
    identity_key = RateKey.auth_rate RateKind.identity identity_hash

    -- Failed logins of the identity, each from some address.
    abbrev pub after_failures : List Digest → Cache → Cache
    after_failures [] c = c
    after_failures (ip_hash ∷ rest) c =
        after_failures rest (record_login_failure redis config identity_hash ip_hash c).1

    failure-counts :
        (ip_hash : Digest) (c : Cache)
        → count identity_key c + 1
          ≤ count identity_key (record_login_failure redis config identity_hash ip_hash c).1
    unfolding record_login_failure
    failure-counts ip_hash c =
        let limit = config.login_identity_limit in
        let window = config.login_window_seconds in
        let one = (consume redis identity_key limit window c).1 in
        let ip_key = RateKey.auth_rate RateKind.ip ip_hash in
        let first_step = consume-keeps identity_key limit window c identity_key in
        let second_step = consume-keeps ip_key config.login_ip_limit window one identity_key in
        let kept = incr_keeps ip_key identity_key one in
        ground (arith, incr_counts identity_key c, first_step, second_step, kept)

    failures-count :
        (ips : List Digest) (c : Cache)
        → count identity_key c + length ips ≤ count identity_key (after_failures ips c)
    failures-count [] c = ground arith
    failures-count (ip_hash ∷ rest) c =
        let next = (record_login_failure redis config identity_hash ip_hash c).1 in
        ground (arith, failure-counts ip_hash c, failures-count rest next)

    -- After as many failed logins of an identity as its limit, from whatever addresses, a login of it
    -- from any address is refused as RATE_LIMITED (429); while the counters of the identity and of
    -- the address are below their limits, it is let through. Condition: Redis is up and the
    -- counters are within their window.
    pub assert_login_allowed-Lockout :
        ((ips : List Digest) (c : Cache) (ip_hash : Digest)
          → config.login_identity_limit ≤ length ips
          → (assert_login_allowed redis config identity_hash ip_hash (after_failures ips c)).0
            ≡ err (app_error rate_limited 429))
        × ((c : Cache) (ip_hash : Digest)
            → count identity_key c < config.login_identity_limit
            → count (RateKey.auth_rate RateKind.ip ip_hash) c < config.login_ip_limit
            → (assert_login_allowed redis config identity_hash ip_hash c).0 ≡ ok tt)
    unfolding assert_login_allowed
    assert_login_allowed-Lockout = (
      (λ ips c ip_hash enough.
          let later = after_failures ips c in
          let (refused, _, _) = check-answer identity_key config.login_identity_limit later in
          let many = failures-count ips c in ground (arith, refused (ground (arith, many)))),
      (λ c ip_hash few few_ip.
          let (_, allowed, kept) = check-answer identity_key config.login_identity_limit c in
          let ip_key = RateKey.auth_rate RateKind.ip ip_hash in
          let next = (check redis identity_key config.login_identity_limit c).1 in
          let (_, allowed_ip, _) = check-answer ip_key config.login_ip_limit next in
          ground (arith, allowed few, allowed_ip (ground (arith, kept ip_key)))),
    )
