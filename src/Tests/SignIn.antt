-- ===== src/Tests/SignIn.antt =====
-- A new session and the limit of failed logins at concrete inputs.
use slowchat.Base.{
  ℕ, ◌≡◌, ◌≤◌, ◌<◌, ◌+◌, refl, Bool, true, ◌&&◌, ◌==◌, none, some, List, [], ◌∷◌, arith, All,
  length, count_where, if◌then◌else◌,
}
use slowchat.Base.Action.{Result, ok, err, app_error, rate_limited}
use slowchat.Model.{Digest, Store}
use slowchat.Devices.{active_on}
use slowchat.Auth.Limiter.{Redis, RateKey, RateKind, assert_login_allowed}
use slowchat.Auth.Limiter.Lockout.{Counting, after_failures, assert_login_allowed-Lockout}
use slowchat.Auth.Issue.{DeviceInput, SessionIssue, active_device_of, issue_session}
use slowchat.Auth.Issue.Alone.{issue_session-Alone}
use slowchat.Tests.World.{list_database, env_at, is_ok, answer_of, is_answer}
use slowchat.Tests.Toy.{toy_crypto, settings, nowhere, account, account-HasUniqueIds}

abbrev tablet : DeviceInput
tablet = record {
  client_device_id = 113 ∷ [];
  platform = "IOS";
  name = "tablet";
  app_version = none;
}

abbrev issue_run : Result SessionIssue × Store
issue_run =
    issue_session list_database toy_crypto settings (env_at 5 500) (65 ∷ []) 1 tablet nowhere
      account

issue_run-ok : is_ok issue_run.0 ≡ true
unfolding issue_session slowchat.Auth.Revoking.revoke_each slowchat.Devices.save_device
issue_run-ok = refl

abbrev issue : SessionIssue
issue = answer_of issue_run.0 issue_run-ok

issue_session-Alone_example :
    (All (λ x. active_on 1 issue.device.id x ≡ true → x ≡ issue.session) issue_run.1.sessions)
    × (active_on 1 issue.device.id issue.session ≡ true)
    × (issue.new_device ≡ true → count_where (active_device_of 1) issue_run.1.devices ≤ 5)
issue_session-Alone_example =
    issue_session-Alone list_database toy_crypto settings (env_at 5 500) (65 ∷ []) 1 tablet nowhere
      account account-HasUniqueIds issue issue_run.1 (is_answer issue_run issue_run-ok)

abbrev kind_number : RateKind → ℕ
kind_number RateKind.identity = 0
kind_number RateKind.ip = 1
kind_number RateKind.challenge = 2
kind_number RateKind.challenge_cooldown = 3

abbrev same_key : RateKey → RateKey → Bool
same_key (RateKey.auth_rate a x) (RateKey.auth_rate b y) = kind_number a == kind_number b && x == y

abbrev Counters : Type 0
Counters = RateKey → ℕ

abbrev counted : RateKey → Counters → Counters
counted key c other = if same_key key other then c other + 1 else c other

-- Counters that never expire.
abbrev counters : Redis Counters
counters = record {
  set_nx = λ key ttl c. (ok (c key == 0), counted key c);
  get = λ key c. (ok (some (c key)), c);
  incr = λ key c. (ok (c key + 1), counted key c);
  expire = λ key ttl c. (ok tt, c);
  del = λ key c. (ok tt, c);
}

same_key-same : (key : RateKey) → same_key key key ≡ true
same_key-same (RateKey.auth_rate kind x) = ground arith

abbrev counting : Counting counters
counting = record {
  count = λ key c. c key;
  incr_answer = λ key c. refl;
  incr_counts = λ key c. ground (arith, same_key-same key);
  incr_keeps = λ key other c. ground arith;
  expire_answer = λ key ttl c. refl;
  expire_keeps = λ key other ttl c. ground arith;
  get_answer = λ key c. (some (c key), refl, refl);
  get_keeps = λ key other c. refl;
}

assert_login_allowed-Lockout_example :
    ((ips : List Digest) (c : Counters) (ip_hash : Digest)
      → 3 ≤ length ips
      → (assert_login_allowed counters settings 77 ip_hash
          (after_failures counters counting settings 77 ips c)).0
        ≡ err (app_error rate_limited 429))
    × ((c : Counters) (ip_hash : Digest)
        → c (RateKey.auth_rate RateKind.identity 77) < 3
        → c (RateKey.auth_rate RateKind.ip ip_hash) < 20
        → (assert_login_allowed counters settings 77 ip_hash c).0 ≡ ok tt)
assert_login_allowed-Lockout_example = assert_login_allowed-Lockout counters counting settings 77
