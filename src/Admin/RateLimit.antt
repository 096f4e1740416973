-- ===== src/Admin/RateLimit.antt =====
-- app/order-service/src/modules/admin-security: admin-rate-limit.guard.ts and the two stores of
-- admin-rate-limit.store.ts. A call takes the clock of the process, or that of Redis.
pub mod Laws
pub mod Agreement
use kafka_nest_playground.Prelude.{
  ℕ, ◌+◌, ◌-◌, String, Bool, true, false, List, [], ◌∷◌, Option, none, some, ltb, leb,
  if◌then◌else◌, ◌==◌, ◌&&◌,
}
use Prim.Native.String.{◌++◌}
use kafka_nest_playground.Prelude.Text.{is_empty}
use kafka_nest_playground.Kafka.Headers.{Node}
use kafka_nest_playground.Prelude.Tx.{Result, ok, err, Error}

-- `AdminRateLimitStore`: what `increment` answers, and the store after it.
pub record AdminRateLimitStore (S : Type 0) : Type 0 where
  pub increment : (now : ℕ) (key : String) (window_ms : ℕ) → S → Result ℕ × S

-- A `Map` as its entries, the latest first.
module _ {V : Type 0} where
  unfoldable pub lookup : String → List (String × V) → Option V
  lookup key [] = none
  lookup key ((k, v) ∷ entries) = if k == key then some v else lookup key entries

  abbrev pub put : String → V → List (String × V) → List (String × V)
  put key v entries = (key, v) ∷ entries

pub record RateBucket : Type 0 where
  pub window_started_at : ℕ
  pub requests : ℕ

-- The bucket after a request. A clock that went back gives a difference below 0, which ends no
-- window; here it is 0.
abbrev pub next_bucket : (now window_ms : ℕ) → Option RateBucket → RateBucket
next_bucket now window_ms none = record { window_started_at = now; requests = 1 }
next_bucket now window_ms (some bucket) =
    if leb window_ms (now - bucket.window_started_at)
    then record { window_started_at = now; requests = 1 }
    else record bucket { requests = bucket.requests + 1 }

abbrev pub Buckets : Type 0
Buckets = List (String × RateBucket)

-- `InMemoryAdminRateLimitStore.increment`.
unfoldable pub increment_in_memory :
    (now : ℕ) (key : String) (window_ms : ℕ) → Buckets → ℕ × Buckets
increment_in_memory now key window_ms buckets =
    let bucket = next_bucket now window_ms (lookup key buckets) in
    (bucket.requests, put key bucket buckets)

abbrev pub in_memory_store : AdminRateLimitStore Buckets
in_memory_store = record {
  increment = λ now key window_ms buckets.
      let (requests, buckets') = increment_in_memory now key window_ms buckets in
      (ok requests, buckets');
}

-- A counter in Redis, with the time at which it expires.
pub record RedisCounter : Type 0 where
  pub value : ℕ
  pub expires_at : ℕ

-- The script: `INCR`, which starts at a key that is missing or has expired, and `PEXPIRE` at 1. A key
-- has expired when the clock of the server is past its time.
abbrev pub next_counter : (now window_ms : ℕ) → Option RedisCounter → RedisCounter
next_counter now window_ms none = record { value = 1; expires_at = now + window_ms }
next_counter now window_ms (some counter) =
    if ltb counter.expires_at now
    then record { value = 1; expires_at = now + window_ms }
    else record counter { value = counter.value + 1 }

-- What becomes of one command: it does not reach the server, or its reply does not come back.
pub data Delivery : Type 0 where
  answered unsent unanswered : Delivery

-- `RedisAdminRateLimitStore.increment`.
unfoldable pub increment_in_redis :
    (key_prefix : String) (delivery : ℕ → Delivery) (now : ℕ) (key : String) (window_ms : ℕ)
    → List (String × RedisCounter)
    → Result ℕ × List (String × RedisCounter)
increment_in_redis key_prefix delivery now key window_ms counters =
    let full_key = key_prefix ++ (":" ++ key) in
    let counter = next_counter now window_ms (lookup full_key counters) in
    let counters' = put full_key counter counters in
    elim (delivery now) [
      | answered ↦ (ok counter.value, counters')
      | unsent ↦ (err (Error.plain_error "redis"), counters)
      | unanswered ↦ (err (Error.plain_error "redis"), counters')
    ]

abbrev pub redis_store :
    String → (ℕ → Delivery) → AdminRateLimitStore (List (String × RedisCounter))
redis_store key_prefix delivery = record { increment = increment_in_redis key_prefix delivery }

-- `windowMs` and `maxRequests` of the guard.
pub record Limits : Type 0 where
  pub window_ms : ℕ
  pub max_requests : ℕ

-- `Number.isInteger(value) && value > 0 ? value : defaultValue`.
abbrev pub positive_or : ℕ → Option ℕ → ℕ
positive_or default none = default
positive_or default (some value) = if ltb 0 value then value else default

-- `readPositiveInt`, of the value that the environment has.
unfoldable pub read_positive_int : Node → Option String → (default : ℕ) → ℕ
read_positive_int node none default = default
read_positive_int node (some raw) default =
    if is_empty raw then default else positive_or default (node.number raw)

-- The two fields that the guard reads when it is made.
unfoldable pub read_limits : Node → (String → Option String) → Limits
unfolding read_positive_int
read_limits node env = record {
  window_ms = read_positive_int node (env "ADMIN_RATE_LIMIT_WINDOW_MS") 60000;
  max_requests = read_positive_int node (env "ADMIN_RATE_LIMIT_MAX_REQUESTS") 60;
}

-- From the answer of the store on; a store that fails closes the endpoint.
abbrev pub decide_rate : ℕ → Result ℕ → Result Bool
decide_rate max_requests (err thrown) = err Error.too_many_requests
decide_rate max_requests (ok requests) =
    if ltb max_requests requests then err Error.too_many_requests else ok true

-- `AdminRateLimitGuard.canActivate`; the principal by its fingerprint.
unfoldable pub can_activate :
    {S : Type 0} → AdminRateLimitStore S → Limits → ℕ → Option String → S → Result Bool × S
can_activate store limits now none s = (err Error.unauthorized, s)
can_activate store limits now (some fingerprint) s =
    let (rate, s') = store.increment now ("admin:" ++ fingerprint) limits.window_ms s in
    (decide_rate limits.max_requests rate, s')

-- One request to the administration API.
pub record Call : Type 0 where
  pub now : ℕ
  pub principal : Option String

abbrev pub is_ok : Result Bool → Bool
is_ok (err thrown) = false
is_ok (ok value) = value

abbrev pub is_by : String → Option String → Bool
is_by fingerprint none = false
is_by fingerprint (some other) = other == fingerprint

-- How many requests of one principal pass the guard, among the requests of all, one after another.
unfoldable pub admitted : {S : Type 0} → AdminRateLimitStore S → Limits → String → List Call → S → ℕ
admitted store limits fingerprint [] s = 0
admitted store limits fingerprint (c ∷ cs) s =
    let (answer, s') = can_activate store limits c.now c.principal s in
    (if is_by fingerprint c.principal && is_ok answer then 1 else 0)
    + admitted store limits fingerprint cs s'

-- The answers to the requests, one after another.
unfoldable pub answers :
    {S : Type 0} → AdminRateLimitStore S → Limits → List Call → S → List (Result Bool)
answers store limits [] s = []
answers store limits (c ∷ cs) s =
    let (answer, s') = can_activate store limits c.now c.principal s in
    answer ∷ answers store limits cs s'
