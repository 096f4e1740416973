-- ===== src/Admin/RateLimit/Laws.antt =====
-- What the fixed windows of the rate limit let through.
use kafka_nest_playground.Prelude.{
  ℕ, ◌+◌, ◌-◌, ◌*◌, ◌≤◌, ◌<◌, String, ◌≡◌, refl, ap, ◌∙◌, true, false, List, [], ◌∷◌, Option, none,
  some, ltb, leb, if◌then◌else◌, ◌==◌, not, eq_iff, eq_refl, arith, Bool-cases, Option-cases, ◌⊎◌,
  inl, inr,
}
use Prim.Native.String.{◌++◌}
use text.Mathlib.TextLemmas.{append_cancel_left}
use kafka_nest_playground.Prelude.Decimal.{All}
use kafka_nest_playground.Prelude.Text.{is_empty}
use kafka_nest_playground.Kafka.Headers.{Node}
use kafka_nest_playground.Prelude.Tx.{ok}
use kafka_nest_playground.Admin.RateLimit.{
  lookup, put, RateBucket, next_bucket, Buckets, increment_in_memory, in_memory_store, Limits,
  decide_rate, can_activate, Call, is_ok, is_by, admitted, read_limits, read_positive_int,
  positive_or,
}

pub lookup-put :
    {V : Type 0} (key other : String) (v : V) (entries : List (String × V))
    → lookup key (put other v entries) ≡ (if other == key then some v else lookup key entries)
unfolding lookup
lookup-put key other v entries = refl

-- The key of a principal.
abbrev key_of : String → String
key_of fingerprint = "admin:" ++ fingerprint

key_of-injective : (a b : String) → key_of a ≡ key_of b → a ≡ b
key_of-injective a b h = append_cancel_left "admin:" a b h

key_of_eq : (a b : String) → (key_of a == key_of b) ≡ (a == b)
key_of_eq a b = ground (arith, eq_iff a b, eq_iff (key_of a) (key_of b), key_of-injective a b)

is_ok-decide_rate : (max n : ℕ) → is_ok (decide_rate max (ok n)) ≡ not (ltb max n)
is_ok-decide_rate max n = elim (Bool-cases (ltb max n)) [ inl e ↦ rw e | inr e ↦ rw e ]

-- The time of a request in a span.
abbrev pub IsWithin : ℕ → ℕ → Call → Type 0
IsWithin lo span c = (lo ≤ c.now) × (c.now < lo + span)

abbrev IsBefore : ℕ → Call → Type 0
IsBefore end c = c.now < end

All-IsBefore :
    (lo span now : ℕ) (cs : List Call)
    → lo ≤ now
    → All (IsWithin lo span) cs
    → All (IsBefore (now + span)) cs
All-IsBefore lo span now [] h hs = tt
All-IsBefore lo span now (c ∷ cs) h ((from, to), hs) =
    (omega arith, All-IsBefore lo span now cs h hs)

abbrev room_in : ℕ → Option RateBucket → ℕ
room_in max none = max
room_in max (some b) = max - b.requests

room_in-le : (max : ℕ) (b : Option RateBucket) → room_in max b ≤ max
room_in-le max none = omega arith
room_in-le max (some b) = omega arith

positive_or_pos : (default : ℕ) (value : Option ℕ) → 0 < default → 0 < positive_or default value
positive_or_pos default none h = h
positive_or_pos default (some value) h = ground arith

admit_over :
    (max n before after rest : ℕ)
    → before ≡ max - n
    → after ≡ max - (n + 1)
    → rest ≤ after + max
    → (if not (ltb max (n + 1)) then 1 else 0) + rest ≤ before + max
admit_over max n before after rest b a h = ground arith

-- One more request, and what is left after it.
admit_one :
    (max n rest : ℕ)
    → rest ≤ max - (n + 1)
    → (if not (ltb max (n + 1)) then 1 else 0) + rest ≤ max - n
admit_one max n rest h = ground arith

module _ (limits : Limits) (fingerprint : String) (positive : 0 < limits.window_ms) where
  abbrev bucket_of : Buckets → Option RateBucket
  bucket_of s = lookup (key_of fingerprint) s

  abbrev after : ℕ → Option String → Buckets → Buckets
  after now principal s = (can_activate in_memory_store limits now principal s).1

  -- A request of another principal, or of none.
  bucket_of-other :
      (now : ℕ) (principal : Option String) (s : Buckets)
      → is_by fingerprint principal ≡ false
      → bucket_of (after now principal s) ≡ bucket_of s
  unfolding can_activate increment_in_memory lookup
  bucket_of-other now none s h = refl
  bucket_of-other now (some other) s h = rw (key_of_eq other fingerprint, h)

  abbrev next_of : ℕ → Buckets → RateBucket
  next_of now s = next_bucket now limits.window_ms (bucket_of s)

  bucket_of-own :
      (now : ℕ) (principal : Option String) (s : Buckets)
      → is_by fingerprint principal ≡ true
      → (bucket_of (after now principal s) ≡ some (next_of now s))
        × (is_ok (can_activate in_memory_store limits now principal s).0
            ≡ not (ltb limits.max_requests (next_of now s).requests))
  unfolding can_activate increment_in_memory lookup
  bucket_of-own now none s h = cc
  bucket_of-own now (some other) s h =
      let same : other ≡ fingerprint = (eq_iff other fingerprint).0 h in
      rw (same, eq_refl (key_of fingerprint))
        (refl, is_ok-decide_rate limits.max_requests (next_of now s).requests)

  abbrev passing : List Call → Buckets → ℕ
  passing cs s = admitted in_memory_store limits fingerprint cs s

  -- A request in the window of a bucket is counted in it.
  next_bucket_within :
      (now : ℕ) (b : RateBucket)
      → now < b.window_started_at + limits.window_ms
      → next_bucket now limits.window_ms (some b) ≡ record b { requests = b.requests + 1 }
  next_bucket_within now b h =
      let open_window : leb limits.window_ms (now - b.window_started_at) ≡ false = ground arith in
      rw open_window

  -- Before the window of the principal's bucket ends, only the rest of it passes.
  admitted-le-room :
      (cs : List Call) (s : Buckets) (b : RateBucket)
      → bucket_of s ≡ some b
      → All (IsBefore (b.window_started_at + limits.window_ms)) cs
      → passing cs s ≤ limits.max_requests - b.requests
  unfolding admitted
  admitted-le-room [] s b e h = omega arith
  admitted-le-room (c ∷ cs) s b e (h, hs) = elim (Bool-cases (is_by fingerprint c.principal)) [
    | inr other ↦
        let rest =
          admitted-le-room cs (after c.now c.principal s) b
            (bucket_of-other c.now c.principal s other ∙ e) hs in
        rw other (omega (arith, rest))
    | inl own ↦
        let (kept, answer) = bucket_of-own c.now c.principal s own in
        let counted : next_of c.now s ≡ record b { requests = b.requests + 1 } =
          ap (next_bucket c.now limits.window_ms) e ∙ next_bucket_within c.now b h in
        let rest =
          admitted-le-room cs (after c.now c.principal s) (record b { requests = b.requests + 1 })
            (kept ∙ ap some counted) hs in
        rw (own, answer, counted) (admit_one limits.max_requests b.requests _ rest)
  ]

  -- A bucket that a request at `now` opens.
  abbrev Opens : ℕ → Buckets → Type 0
  Opens now s = next_of now s ≡ record { window_started_at = now; requests = 1 }

  next_of-cases :
      (now : ℕ) (s : Buckets)
      → Opens now s
        ⊎ ((b : RateBucket) × (bucket_of s ≡ some b)
            × (next_of now s ≡ record b { requests = b.requests + 1 }))
  next_of-cases now s = elim (Option-cases (bucket_of s)) [
    | inl fresh ↦ inl (ap (next_bucket now limits.window_ms) fresh)
    | inr (b, e) ↦ elim (Bool-cases (leb limits.window_ms (now - b.window_started_at))) [
      | inl over ↦ inl (ap (next_bucket now limits.window_ms) e ∙ rw over)
      | inr within ↦ inr (b, e, ap (next_bucket now limits.window_ms) e ∙ rw within)
    ]
  ]

  abbrev room : Buckets → ℕ
  room s = room_in limits.max_requests (bucket_of s)

  -- A span as long as a window meets the rest of one window and one window more.
  admitted-le :
      (lo : ℕ) (cs : List Call) (s : Buckets)
      → All (IsWithin lo limits.window_ms) cs
      → passing cs s ≤ room s + limits.max_requests
  unfolding admitted
  admitted-le lo [] s h = omega arith
  admitted-le lo (c ∷ cs) s ((from, to), hs) = elim (Bool-cases (is_by fingerprint c.principal)) [
    | inr other ↦
        let rest = admitted-le lo cs (after c.now c.principal s) hs in
        let same = ap (room_in limits.max_requests) (bucket_of-other c.now c.principal s other) in
        rw other (omega (arith, rest, same))
    | inl own ↦
        let (kept, answer) = bucket_of-own c.now c.principal s own in
        elim (next_of-cases c.now s) [
          | inl opens ↦
              let rest =
                admitted-le-room cs (after c.now c.principal s) _ (kept ∙ ap some opens)
                  (All-IsBefore lo limits.window_ms c.now cs from hs) in
              rw (own, answer, opens) (omega (arith, admit_one limits.max_requests 0 _ rest))
          | inr (b, e, counted) ↦
              let rest = admitted-le lo cs (after c.now c.principal s) hs in
              let less = ap (room_in limits.max_requests) (kept ∙ ap some counted) in
              let before = ap (room_in limits.max_requests) e in
              rw (own, answer, counted)
                (admit_over limits.max_requests b.requests _ _ _ before less rest)
        ]
  ]

read_positive_int_pos :
    (node : Node) (raw : Option String) (default : ℕ)
    → 0 < default
    → 0 < read_positive_int node raw default
unfolding read_positive_int
read_positive_int_pos node none default h = h
read_positive_int_pos node (some raw) default h = elim (Bool-cases (is_empty raw)) [
  | inl e ↦ rw e h
  | inr e ↦ rw e (positive_or_pos default (node.number raw) h)
]

-- The window lasts.
pub read_limits_pos :
    (node : Node) (env : String → Option String) → 0 < (read_limits node env).window_ms
unfolding read_limits
read_limits_pos node env =
    read_positive_int_pos node (env "ADMIN_RATE_LIMIT_WINDOW_MS") 60000 (omega arith)

-- Whatever the environment sets and whatever was counted before, among requests whose times lie in
-- any span as long as the window, at most twice the maximum of one principal pass the guard with the
-- store in memory, whatever the other principals send. (Fixed windows let a span meet two of them.)
pub admitted-le-twice :
    (node : Node) (env : String → Option String) (fingerprint : String) (lo : ℕ) (cs : List Call)
    (s : Buckets)
    → All (IsWithin lo (read_limits node env).window_ms) cs
    → admitted in_memory_store (read_limits node env) fingerprint cs s
      ≤ 2 * (read_limits node env).max_requests
admitted-le-twice node env fingerprint lo cs s h =
    let limits = read_limits node env in
    omega (
      arith,
      admitted-le limits fingerprint (read_limits_pos node env) lo cs s h,
      room_in-le limits.max_requests (lookup (key_of fingerprint) s),
    )
