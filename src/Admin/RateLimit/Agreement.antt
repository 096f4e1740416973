-- ===== src/Admin/RateLimit/Agreement.antt =====
-- The store in Redis counts as the one in memory does.
use kafka_nest_playground.Prelude.{
  ℕ, suc, ltb, ◌+◌, ◌-◌, String, ◌≡◌, refl, ap, ap₂, ◌∙◌, Bool, List, [], ◌∷◌, Option, none, some,
  leb, ◌==◌, eq_iff, arith, Bool-cases, inl, inr,
}
use Prim.Native.String.{◌++◌}
use text.Mathlib.TextLemmas.{append_cancel_left}
use kafka_nest_playground.Prelude.Tx.{Result, ok}
use kafka_nest_playground.Kafka.Headers.{Node}
use kafka_nest_playground.Admin.RateLimit.{
  lookup, RateBucket, next_bucket, Buckets, increment_in_memory, in_memory_store, RedisCounter,
  next_counter, answered, increment_in_redis, redis_store, Limits, can_activate, decide_rate, Call,
  answers, read_limits,
}

abbrev pub one_longer : Limits → Limits
one_longer limits = record limits { window_ms = suc limits.window_ms }

-- The counter that stands for a bucket.
abbrev counter_of : ℕ → Option RateBucket → Option RedisCounter
counter_of window_ms none = none
counter_of window_ms (some b) =
    some (record { value = b.requests; expires_at = b.window_started_at + window_ms })

abbrev value_or_zero : Option RedisCounter → ℕ
value_or_zero none = 0
value_or_zero (some counter) = counter.value

next_counter-counter_of :
    (now window_ms : ℕ) (b : Option RateBucket)
    → some (next_counter now window_ms (counter_of window_ms b))
      ≡ counter_of window_ms (some (next_bucket now (suc window_ms) b))
next_counter-counter_of now window_ms none = refl
next_counter-counter_of now window_ms (some b) =
    let same_end : ltb (b.window_started_at + window_ms) now
        ≡ leb (suc window_ms) (now - b.window_started_at) =
      ground arith in
    elim (Bool-cases (leb (suc window_ms) (now - b.window_started_at))) [
      | inl e ↦ rw (same_end, e)
      | inr e ↦ rw (same_end, e)
    ]

module _ (key_prefix : String) where
  abbrev full_key : String → String
  full_key key = key_prefix ++ (":" ++ key)

  full_key_eq : (a b : String) → (full_key a == full_key b) ≡ (a == b)
  full_key_eq a b =
      let injective = λ (h : full_key a ≡ full_key b).
        append_cancel_left ":" a b (append_cancel_left key_prefix (":" ++ a) (":" ++ b) h) in
      ground (arith, eq_iff a b, eq_iff (full_key a) (full_key b), injective)

  abbrev Agrees : ℕ → Buckets → List (String × RedisCounter) → Type 0
  Agrees window_ms buckets counters =
      (key : String) → lookup (full_key key) counters ≡ counter_of window_ms (lookup key buckets)

  module _ (limits : Limits) where
    abbrev redis :
        ℕ
        → Option String
        → List (String × RedisCounter)
        → Result Bool × List (String × RedisCounter)
    redis now principal counters =
        can_activate (redis_store key_prefix (λ _. answered)) limits now principal counters

    abbrev memory : ℕ → Option String → Buckets → Result Bool × Buckets
    memory now principal buckets =
        can_activate in_memory_store (one_longer limits) now principal buckets

    can_activate-Agrees :
        (now : ℕ) (principal : Option String) (buckets : Buckets)
        (counters : List (String × RedisCounter))
        → Agrees limits.window_ms buckets counters
        → ((redis now principal counters).0 ≡ (memory now principal buckets).0)
          × Agrees limits.window_ms
              (memory now principal buckets).1
              (redis now principal counters).1
    unfolding can_activate increment_in_memory increment_in_redis lookup
    can_activate-Agrees now none buckets counters h = (refl, h)
    can_activate-Agrees now (some fingerprint) buckets counters h =
        let key : String = "admin:" ++ fingerprint in
        let next : some (next_counter now limits.window_ms (lookup (full_key key) counters))
            ≡ counter_of limits.window_ms
                (some (next_bucket now (suc limits.window_ms) (lookup key buckets))) =
          ap (λ (o : Option RedisCounter). some (next_counter now limits.window_ms o)) (h key)
          ∙ next_counter-counter_of now limits.window_ms (lookup key buckets) in
        let counted : (next_counter now limits.window_ms (lookup (full_key key) counters)).value
            ≡ (next_bucket now (suc limits.window_ms) (lookup key buckets)).requests =
          ap value_or_zero next in
        (
          ap (λ (n : ℕ). decide_rate limits.max_requests (ok n)) counted,
          λ other.
              rw (full_key_eq key other)
                (elim (Bool-cases (key == other)) [ inl e ↦ rw e next | inr e ↦ rw e (h other) ]),
        )

    answers-Agrees :
        (cs : List Call) (buckets : Buckets) (counters : List (String × RedisCounter))
        → Agrees limits.window_ms buckets counters
        → answers (redis_store key_prefix (λ _. answered)) limits cs counters
          ≡ answers in_memory_store (one_longer limits) cs buckets
    unfolding answers
    answers-Agrees [] buckets counters h = refl
    answers-Agrees (c ∷ cs) buckets counters h =
        let (same, agrees) = can_activate-Agrees c.now c.principal buckets counters h in
        ap₂ (λ (a : Result Bool) (as_ : List (Result Bool)). a ∷ as_) same
          (answers-Agrees cs (memory c.now c.principal buckets).1
            (redis c.now c.principal counters).1 agrees)

-- The guard gives every sequence of requests the same answers with the store in Redis, one counter
-- with an expiry for a key, as with the store in memory and a window that is one millisecond longer,
-- from empty stores and with one clock, as long as Redis answers each command; whatever the
-- environment sets. (A bucket ends once its window has passed, and a key of Redis one millisecond
-- later.)
pub redis_store-as-memory :
    (node : Node) (env : String → Option String) (key_prefix : String) (cs : List Call)
    → answers (redis_store key_prefix (λ _. answered)) (read_limits node env) cs []
      ≡ answers in_memory_store (one_longer (read_limits node env)) cs []
redis_store-as-memory node env key_prefix cs =
    answers-Agrees key_prefix (read_limits node env) cs [] [] (λ key. unfold lookup in refl)
