-- ===== src/Auth/Limiter.antt =====
-- apps/im-server/src/modules/auth/services/auth-rate-limiter.service.ts over Redis, a parameter: its
-- commands change a cache and may fail. Keys: platform/redis/redis-key.factory.ts, `authRate`.
pub mod Lockout
use slowchat.Base.{ℕ, Bool, not, leb, ltb, ◌==◌, Option, or_else, if◌then◌else◌}
use slowchat.Base.Action.{
  Action, Result, ok, err, Error, app_error, unique_violation, check_violation, failure, pure,
  throw_if, ◌>>=◌, ◌>>◌, rate_limited, service_unavailable,
}
use slowchat.Model.{Digest}
use slowchat.Auth.Tokens.{AuthConfig}

pub data RateKind : Type 0 where
  identity ip challenge challenge_cooldown : RateKind

pub data RateKey : Type 0 where
  auth_rate : RateKind → Digest → RateKey

pub record Redis (Cache : Type 0) : Type 0 where
  -- SET key 1 EX seconds NX: was the key set?
  pub set_nx : RateKey → ℕ → Action Cache Bool
  pub get : RateKey → Action Cache (Option ℕ)
  pub incr : RateKey → Action Cache ℕ
  pub expire : RateKey → ℕ → Action Cache Unit
  pub del : RateKey → Action Cache Unit

-- catch (error) { if (error instanceof AppError) throw error; … }
abbrev pub as_unavailable : Error → Error
as_unavailable (app_error code status) = app_error code status
as_unavailable (unique_violation c) = app_error service_unavailable 503
as_unavailable (check_violation c) = app_error service_unavailable 503
as_unavailable failure = app_error service_unavailable 503

abbrev joined : {A : Type 0} → Result A → Result A → Result A
joined (ok _) r = r
joined (err e) r = err e

module _ {Cache : Type 0} where
  abbrev pub guarded : {A : Type 0} → Action Cache A → Action Cache A
  guarded m c =
      let (r, c') = m c in elim r [ ok a ↦ (ok a, c') | err e ↦ (err (as_unavailable e), c') ]

  -- Promise.all: both run, and an error of either is the error.
  abbrev pub both : Action Cache Unit → Action Cache Unit → Action Cache Unit
  both m n c = let (r, c') = m c in let (r', c'') = n c' in (joined r r', c'')

  module _ (redis : Redis Cache) where
    open redis use {set_nx, get, incr, expire, del}

    abbrev pub check_body : RateKey → ℕ → Action Cache Unit
    check_body key limit = do
      count ← get key
      throw_if (leb limit (or_else count 0)) rate_limited 429

    unfoldable pub check : RateKey → ℕ → Action Cache Unit
    check key limit = guarded (check_body key limit)

    abbrev pub expire_first : RateKey → ℕ → ℕ → Action Cache Unit
    expire_first key ttl_seconds count c =
        if count == 1 then expire key ttl_seconds c else (ok tt, c)

    abbrev pub consume_body : RateKey → ℕ → ℕ → Action Cache Unit
    consume_body key limit ttl_seconds = do
      count ← incr key
      expire_first key ttl_seconds count
      throw_if (ltb limit count) rate_limited 429

    unfoldable pub consume : RateKey → ℕ → ℕ → Action Cache Unit
    consume key limit ttl_seconds = guarded (consume_body key limit ttl_seconds)

    module _ (config : AuthConfig) where
      unfoldable pub assert_challenge_allowed : Digest → Digest → Action Cache Unit
      unfolding consume
      assert_challenge_allowed identity_hash ip_hash = guarded (do
        acquired ←
            set_nx (auth_rate RateKind.challenge_cooldown identity_hash)
              config.challenge_resend_seconds
        throw_if (not acquired) rate_limited 429
        both (consume (auth_rate RateKind.challenge identity_hash) 5 3600) (
            consume (auth_rate RateKind.ip ip_hash) config.login_ip_limit
              config.login_window_seconds))

      unfoldable pub assert_login_allowed : Digest → Digest → Action Cache Unit
      unfolding check
      assert_login_allowed identity_hash ip_hash =
          both (check (auth_rate RateKind.identity identity_hash) config.login_identity_limit)
            (check (auth_rate RateKind.ip ip_hash) config.login_ip_limit)

      unfoldable pub record_login_failure : Digest → Digest → Action Cache Unit
      unfolding consume
      record_login_failure identity_hash ip_hash =
          both
            (consume (auth_rate RateKind.identity identity_hash) config.login_identity_limit
              config.login_window_seconds)
            (consume (auth_rate RateKind.ip ip_hash) config.login_ip_limit
              config.login_window_seconds)

    unfoldable pub clear_login_failures : Digest → Action Cache Unit
    clear_login_failures identity_hash = del (auth_rate RateKind.identity identity_hash)
