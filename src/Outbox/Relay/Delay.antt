-- ===== src/Outbox/Relay/Delay.antt =====
-- apps/im-server/src/modules/outbox/services/outbox-relay.service.ts: the bounds of
-- `outboxRetryDelay`.
use slowchat.Base.{ℕ, ◌≡◌, ◌≤◌, ◌*◌, ◌^◌, ◌-◌, suc, min, ap, ◌∙◌, arith}
use native.Mathlib.Omega.{pow_step}
use slowchat.Outbox.Relay.{outbox_retry_delay, exponential}

-- The delay lies between the exponential back-off and the limit, whatever the random number; the
-- back-off is the base at the first attempt and doubles from one attempt to the next, up to the
-- limit.
pub outbox_retry_delay-bounds :
    (attempt base_ms max_ms : ℕ) (random : ℕ × ℕ)
    → (exponential attempt base_ms max_ms ≤ outbox_retry_delay attempt base_ms max_ms random)
      × (outbox_retry_delay attempt base_ms max_ms random ≤ max_ms)
      × (exponential 1 base_ms max_ms ≡ min max_ms base_ms)
      × (exponential (suc (suc attempt)) base_ms max_ms
          ≡ min max_ms (2 * exponential (suc attempt) base_ms max_ms))
unfolding outbox_retry_delay
outbox_retry_delay-bounds attempt base_ms max_ms random =
    let power : 2 ^ suc attempt ≡ 2 * 2 ^ attempt = pow_step 2 attempt in
    let here : suc attempt - 1 ≡ attempt = ground arith in
    let next : suc (suc attempt) - 1 ≡ suc attempt = ground arith in
    let doubled : exponential (suc (suc attempt)) base_ms max_ms
        ≡ min max_ms (2 * exponential (suc attempt) base_ms max_ms) =
      rw (next, here)
        (doubles (base_ms * 2 ^ attempt) (base_ms * 2 ^ suc attempt)
          (ap (λ t. base_ms * t) power ∙ swap base_ms (2 ^ attempt))) in
    (ground arith, ground arith, ground arith, doubled)
  where
    swap : (a b : ℕ) → a * (2 * b) ≡ 2 * (a * b)
    swap a b = ground arith

    doubles :
        (amount next : ℕ) → next ≡ 2 * amount → min max_ms next ≡ min max_ms (2 * min max_ms amount)
    doubles amount next e = ground arith
