-- ===== src/Outbox/Store/Lease.antt =====
-- The outbox table over time: the statements of all publishers, one after another, as the row locks
-- of PostgreSQL serialise them.
use kafka_nest_playground.Prelude.{
  ℕ, ◌+◌, String, ◌≡◌, refl, Bool, true, false, not, List, [], ◌∷◌, Option, none, some, any, leb,
  ◌==◌, ◌&&◌, ◌||◌, arith, ◌⊎◌, inl, inr, ltb,
}
use kafka_nest_playground.Outbox.Entity.{OutboxEvent, OutboxStatus}
use kafka_nest_playground.Kafka.Errors.{Thrown}
use kafka_nest_playground.Outbox.Store.{
  has_passed, is_due, is_publishable, candidates, has_id, find_publishable, as_published, as_failed,
  mark_published, mark_failed, retry_delay_ms,
}
use kafka_nest_playground.Outbox.Store.Claim.{
  breaks, candidates-none, lease_rows-keeps, lease_rows-gains, update_row-other, update_row-gains,
  update_row_self-gains, any-map-leased,
}

-- A call of the store by some publisher.
pub data StoreCall : Type 0 where
  claim : (limit : ℕ) (owner_id : String) (lease_ms : ℕ) → StoreCall
  published : (id : String) → StoreCall
  failed : (id : String) (attempts : ℕ) → Thrown → StoreCall

-- The rows that a call hands to its publisher, and the table that it leaves.
unfoldable pub serve_store : ℕ → StoreCall → List OutboxEvent → List OutboxEvent × List OutboxEvent
serve_store now (claim limit owner_id lease_ms) rows =
    find_publishable now limit owner_id lease_ms rows
serve_store now (published id) rows = ([], mark_published now id rows)
serve_store now (failed id attempts thrown) rows = ([], mark_failed now id attempts thrown rows)

-- Does any of the calls hand out the row `k`?
unfoldable pub hands_out : String → List (ℕ × StoreCall) → List OutboxEvent → Bool
hands_out k [] rows = false
hands_out k ((now, call) ∷ calls) rows =
    let rest = hands_out k calls (serve_store now call rows).1 in
    any (has_id k) (serve_store now call rows).0 || rest

-- Each call comes at a time, and is of a kind, that `A` admits.
abbrev pub Every : (ℕ → StoreCall → Bool) → List (ℕ × StoreCall) → Type 0
Every a [] = Unit
Every a ((now, call) ∷ calls) = (a now call ≡ true) × Every a calls

-- A test of the row `k` that rules its publication out and that every admitted call keeps.
pub record IsBarrier (k : String) (a : ℕ → StoreCall → Bool) (p : OutboxEvent → Bool) : Type 0 where
  pub blocks :
      (now : ℕ) (limit : ℕ) (o : String) (l : ℕ) (r : OutboxEvent)
      → a now (claim limit o l) ≡ true
      → p r ≡ true
      → is_publishable now r ≡ false
  pub on_published :
      (now : ℕ) (id : String)
      → a now (published id) ≡ true
      → ((id == k) ≡ false) ⊎ ((r : OutboxEvent) → p (as_published now r) ≡ true)
  pub on_failed :
      (now : ℕ) (id : String) (n : ℕ) (t : Thrown)
      → a now (failed id n t) ≡ true
      → (id == k) ≡ false

module _ (k : String) (a : ℕ → StoreCall → Bool) (p : OutboxEvent → Bool)
    (b : IsBarrier k a p) where
  step-keeps :
      (now : ℕ) (call : StoreCall) (rows : List OutboxEvent)
      → a now call ≡ true
      → any (breaks k p) rows ≡ false
      → (any (has_id k) (serve_store now call rows).0 ≡ false)
        × (any (breaks k p) (serve_store now call rows).1 ≡ false)
  unfolding serve_store find_publishable mark_published mark_failed
  step-keeps now (claim limit owner_id lease_ms) rows admitted h =
      let left =
        candidates-none k p now limit rows (λ r. b.blocks now limit owner_id lease_ms r admitted)
          h in
      (rw any-map-leased left, lease_rows-keeps k p owner_id (now + lease_ms) _ rows left h)
  step-keeps now (published id) rows admitted h = elim (b.on_published now id admitted) [
    | inl other ↦ (refl, update_row-other k p id (as_published now) rows (λ r. refl) other h)
    | inr gains ↦ (refl, update_row-gains k p id (as_published now) rows (λ r. refl) gains h)
  ]
  step-keeps now (failed id n t) rows admitted h = (
    refl,
    update_row-other k p id (as_failed now n t) rows (λ r. refl) (b.on_failed now id n t admitted)
        h,
  )

  pub barrier-holds :
      (calls : List (ℕ × StoreCall)) (rows : List OutboxEvent)
      → Every a calls
      → any (breaks k p) rows ≡ false
      → hands_out k calls rows ≡ false
  unfolding hands_out
  barrier-holds [] rows admitted h = refl
  barrier-holds ((now, call) ∷ calls) rows admitted h =
      let (not_now, kept) = step-keeps now call rows admitted.0 h in
      rw (not_now, barrier-holds calls (serve_store now call rows).1 admitted.1 kept) refl

-- The calls that leave the row `k` to the holder of its lease: the others claim while it lasts, and
-- report on other rows.
abbrev pub leaves_to_holder : (k : String) (until : ℕ) → ℕ → StoreCall → Bool
leaves_to_holder k until now (claim limit owner_id lease_ms) = ltb now until
leaves_to_holder k until now (published id) = not (id == k)
leaves_to_holder k until now (failed id attempts thrown) = not (id == k)

abbrev is_held : (until : ℕ) → OutboxEvent → Bool
is_held until r = elim r.locked_until [ none ↦ false | some t ↦ leb until t ]

held-IsBarrier : (k : String) (until : ℕ) → IsBarrier k (leaves_to_holder k until) (is_held until)
held-IsBarrier k until = record {
  blocks = λ now limit o l r early held.
      blocked now r.locked_until early held r.status r.next_attempt_at;
  on_published = λ now id other. inl (ground arith);
  on_failed = λ now id n t other. ground arith;
}
  where
    blocked :
        (now : ℕ) (lock : Option ℕ)
        → ltb now until ≡ true
        → (elim lock [ none ↦ false | some t ↦ leb until t ]) ≡ true
        → (s : OutboxStatus) (next : Option ℕ) → (is_due now s next && has_passed now lock) ≡ false
    blocked now none early held s next = ground arith
    blocked now (some t) early held s next = ground arith

-- After a claim that hands out the row, no claim of any publisher made before the end of its lease
-- hands it out again, whatever is claimed in that time and reported of other rows.
pub lease_excludes :
    (k : String) (now limit : ℕ) (owner_id : String) (lease_ms : ℕ) (rows : List OutboxEvent)
    (calls : List (ℕ × StoreCall))
    → any (has_id k) (find_publishable now limit owner_id lease_ms rows).0 ≡ true
    → Every (leaves_to_holder k (now + lease_ms)) calls
    → hands_out k calls (find_publishable now limit owner_id lease_ms rows).1 ≡ false
unfolding find_publishable
lease_excludes k now limit owner_id lease_ms rows calls given others =
    barrier-holds k _ (is_held (now + lease_ms)) (held-IsBarrier k (now + lease_ms)) calls _ others
      (lease_rows-gains k (is_held (now + lease_ms)) owner_id (now + lease_ms)
        (candidates now limit rows) rows (rw any-map-leased at given) (λ r. ground arith))

-- No failure of the row is reported.
abbrev pub no_failure : (k : String) → ℕ → StoreCall → Bool
no_failure k now (failed id attempts thrown) = not (id == k)
no_failure k now _ = true

abbrev is_published : OutboxEvent → Bool
is_published r = elim r.status [ OutboxStatus.published ↦ true | _ ↦ false ]

published-IsBarrier : (k : String) → IsBarrier k (no_failure k) is_published
published-IsBarrier k = record {
  blocks = λ now limit o l r a done. blocked now r.status r.next_attempt_at r.locked_until done;
  on_published = λ now id a. inr (λ r. refl);
  on_failed = λ now id n t other. ground arith;
}
  where
    blocked :
        (now : ℕ) (s : OutboxStatus) (next lock : Option ℕ)
        → (elim s [ OutboxStatus.published ↦ true | _ ↦ false ]) ≡ true
        → (is_due now s next && has_passed now lock) ≡ false
    blocked now OutboxStatus.published next lock done = refl
    blocked now OutboxStatus.pending next lock done = cc
    blocked now OutboxStatus.failed next lock done = cc
    blocked now OutboxStatus.ignored next lock done = cc

-- A row that is marked published is never handed out again, by any claims and reports at any times,
-- as long as no publisher reports a failure of it later.
pub published_not_handed_out :
    (k : String) (now : ℕ) (rows : List OutboxEvent) (calls : List (ℕ × StoreCall))
    → Every (no_failure k) calls
    → hands_out k calls (mark_published now k rows) ≡ false
unfolding mark_published
published_not_handed_out k now rows calls others =
    barrier-holds k _ is_published (published-IsBarrier k) calls _ others
      (update_row_self-gains k is_published (as_published now) rows (λ r. refl))

abbrev is_waiting : (until : ℕ) → OutboxEvent → Bool
is_waiting until r = elim r.status [
  | OutboxStatus.failed ↦ elim r.next_attempt_at [ none ↦ false | some t ↦ leb until t ]
  | _ ↦ false
]

waiting-IsBarrier :
    (k : String) (until : ℕ) → IsBarrier k (leaves_to_holder k until) (is_waiting until)
waiting-IsBarrier k until = record {
  blocks = λ now limit o l r early w. blocked now r.status r.next_attempt_at r.locked_until early w;
  on_published = λ now id other. inl (ground arith);
  on_failed = λ now id n t other. ground arith;
}
  where
    blocked :
        (now : ℕ) (s : OutboxStatus) (next lock : Option ℕ)
        → ltb now until ≡ true
        → (elim s [
          | OutboxStatus.failed ↦ elim next [ none ↦ false | some t ↦ leb until t ]
          | _ ↦ false
        ])
          ≡ true
        → (is_due now s next && has_passed now lock) ≡ false
    blocked now OutboxStatus.failed none lock early w = cc
    blocked now OutboxStatus.failed (some t) lock early w = ground arith
    blocked now OutboxStatus.published next lock early w = refl
    blocked now OutboxStatus.pending next lock early w = cc
    blocked now OutboxStatus.ignored next lock early w = refl

-- After a failure is reported with a number of attempts, no claim before the retry delay of that
-- number has passed hands the row out, whatever is claimed and reported of other rows meanwhile.
pub failed_waits :
    (k : String) (now attempts : ℕ) (thrown : Thrown) (rows : List OutboxEvent)
    (calls : List (ℕ × StoreCall))
    → Every (leaves_to_holder k (now + retry_delay_ms attempts)) calls
    → hands_out k calls (mark_failed now k attempts thrown rows) ≡ false
unfolding mark_failed
failed_waits k now attempts thrown rows calls others =
    let until = now + retry_delay_ms attempts in
    barrier-holds k _ (is_waiting until) (waiting-IsBarrier k until) calls _ others (
      update_row_self-gains k (is_waiting until) (as_failed now attempts thrown) rows
        (λ r. ground arith))
