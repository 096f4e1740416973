-- ===== src/Retention/Laws.antt =====
-- What retention leaves alone.
use kafka_nest_playground.Prelude.{
  ℕ, ◌+◌, ◌≤◌, ◌≡◌, refl, ap, sym, ◌∙◌, String, Bool, true, false, not, List, [], ◌∷◌, map, any,
  count_by, ◌==◌, ◌&&◌, ◌||◌, eq_refl, arith, Bool-cases, inl, inr,
}
use kafka_nest_playground.Prelude.Decimal.{All}
use kafka_nest_playground.Kafka.Headers.{Node}
use kafka_nest_playground.Kafka.Inbox.{is_completed}
use kafka_nest_playground.Outbox.Entity.{OutboxEvent, OutboxStatus}
use kafka_nest_playground.Outbox.Store.{
  take, has_passed, is_publishable, is_due, publishable_rows, candidates, find_publishable, leased,
}
use kafka_nest_playground.Outbox.Store.Claim.{any-take}
use kafka_nest_playground.Dlq.Rows.{All-map}
use kafka_nest_playground.Dlq.Tables.{filter}
use kafka_nest_playground.Retention.{
  Target, insert_by, ordered, batch, is_kept, delete_batch, is_published, is_before,
  published_outbox, CompletedRow, completed_inbox, Config, cleanup_target, RetentionDb, Conditions,
  cleanup,
}

true_ne_false : true ≡ false → ⊥
true_ne_false h = cc

module _ {A : Type 0} where
  filter-filter :
      (p keep : A → Bool) (xs : List A)
      → All (λ x. p x ≡ true → keep x ≡ true) xs
      → filter p (filter keep xs) ≡ filter p xs
  unfolding filter
  filter-filter p keep [] h = refl
  filter-filter p keep (x ∷ xs) (h, hs) = elim (Bool-cases (keep x)) [
    | inl e ↦ rw (e, filter-filter p keep xs hs)
    | inr e ↦ elim (Bool-cases (p x)) [
      | inl own ↦ absurd (true_ne_false (sym (h own) ∙ e))
      | inr other ↦ rw (e, other) (filter-filter p keep xs hs)
    ]
  ]

module _ {A : Type 0} (target : Target A) where
  any-insert_by :
      (p : A → Bool) (x : A) (xs : List A) → any p (insert_by target x xs) ≡ (p x || any p xs)
  unfolding insert_by
  any-insert_by p x [] = refl
  any-insert_by p x (y ∷ ys) = ground (arith, any-insert_by p x ys)

  -- The finished rows that share a row's key, and the others.
  abbrev finished_alike : A → A → Bool
  finished_alike x y = target.same_key x y && target.is_finished y

  abbrev unfinished_alike : A → A → Bool
  unfinished_alike x y = target.same_key x y && not (target.is_finished y)

  ordered-none :
      (x : A) (rows : List A)
      → count_by (finished_alike x) rows ≡ 0
      → any (target.same_key x) (ordered target rows) ≡ false
  unfolding ordered
  ordered-none x [] h = refl
  ordered-none x (y ∷ ys) h =
      ground (arith, ordered-none x ys, any-insert_by (target.same_key x) y (ordered target ys))

  batch-none :
      (batch_size : ℕ) (x : A) (rows : List A)
      → count_by (finished_alike x) rows ≡ 0
      → any (target.same_key x) (batch target batch_size rows) ≡ false
  unfolding batch
  batch-none batch_size x rows h =
      any-take (target.same_key x) batch_size (ordered target rows) (ordered-none x rows h)

  count_by-split :
      (x : A) (rows : List A)
      → count_by (target.same_key x) rows
        ≡ count_by (finished_alike x) rows + count_by (unfinished_alike x) rows
  count_by-split x [] = omega arith
  count_by-split x (y ∷ ys) = ground (arith, count_by-split x ys)

  -- A key names one row, as a primary key does.
  abbrev pub HasKeys : List A → Type 0
  HasKeys rows = (x : A) → count_by (target.same_key x) rows ≤ 1

  module _ (same_refl : (x : A) → target.same_key x x ≡ true) where
    count_by-le :
        (x y : A) (ys : List A)
        → 1 ≤ count_by (unfinished_alike x) ys
        → 1 ≤ count_by (unfinished_alike x) (y ∷ ys)
    count_by-le x y ys h = ground arith

    present :
        (rows : List A)
        → All (λ x. target.is_finished x ≡ false → 1 ≤ count_by (unfinished_alike x) rows) rows
    present [] = tt
    present (y ∷ ys) = (
      λ e. rw (same_refl y, e) (omega arith),
      All-map _ _ ys (λ x h e. count_by-le x y ys (h e)) (present ys),
    )

    -- A row that is not finished stays, whatever is deleted.
    unfinished-kept :
        (batch_size : ℕ) (rows : List A)
        → HasKeys rows
        → All
            (λ x.
              target.is_finished x ≡ false → is_kept target (batch target batch_size rows) x ≡ true)
            rows
    unfinished-kept batch_size rows keys =
        All-map _ _ rows
          (λ x here e.
            ap not
              (batch-none batch_size x rows (omega (arith, here e, keys x, count_by-split x rows))))
          (present rows)

    -- The rows of a kind that is never finished are the same after a batch.
    pub filter-delete_batch :
        (batch_size : ℕ) (p : A → Bool) (rows : List A)
        → HasKeys rows
        → ((x : A) → p x ≡ true → target.is_finished x ≡ false)
        → filter p (delete_batch target batch_size rows).1 ≡ filter p rows
    unfolding delete_batch
    filter-delete_batch batch_size p rows keys never =
        filter-filter p (is_kept target (batch target batch_size rows)) rows
          (All-map _ _ rows (λ x h own. h (never x own)) (unfinished-kept batch_size rows keys))

-- A pass over one table, whether its query throws or not.
pub filter-cleanup_target :
    {A : Type 0} (node : Node) (config : Config) (now : ℕ) (setting : String)
    (default_days batch_size : ℕ) (throws : Bool) (target : ℕ → Target A) (p : A → Bool)
    (rows : List A)
    → ((cutoff : ℕ) → (x : A) → (target cutoff).same_key x x ≡ true)
    → ((cutoff : ℕ) → HasKeys (target cutoff) rows)
    → ((cutoff : ℕ) → (x : A) → p x ≡ true → (target cutoff).is_finished x ≡ false)
    → filter p (cleanup_target node config now setting default_days batch_size throws target rows)
      ≡ filter p rows
unfolding cleanup_target
filter-cleanup_target node config now setting default_days batch_size true target p rows r k n =
    refl
filter-cleanup_target node config now setting default_days batch_size false target p rows r k n =
    filter-delete_batch _ (r _) batch_size p rows (k _) (n _)

publishable_rows-filter :
    (now : ℕ) (rows : List OutboxEvent)
    → publishable_rows now (filter (is_publishable now) rows) ≡ publishable_rows now rows
unfolding publishable_rows filter
publishable_rows-filter now [] = refl
publishable_rows-filter now (x ∷ xs) = elim (Bool-cases (is_publishable now x)) [
  | inl e ↦ rw (e, e, publishable_rows-filter now xs)
  | inr e ↦ rw e (publishable_rows-filter now xs)
]

publishable-unfinished :
    (t cutoff : ℕ) (row : OutboxEvent) (s : OutboxStatus)
    → (is_due t s row.next_attempt_at && has_passed t row.locked_until) ≡ true
    → (is_published s && is_before cutoff row.published_at) ≡ false
publishable-unfinished t cutoff row OutboxStatus.published h = cc
publishable-unfinished t cutoff row OutboxStatus.pending h = refl
publishable-unfinished t cutoff row OutboxStatus.failed h = refl
publishable-unfinished t cutoff row OutboxStatus.ignored h = refl

abbrev pub is_unfinished : {R : Type 0} → CompletedRow R → Bool
is_unfinished r = not (is_completed r.row.status)

-- The primary keys of the two tables.
abbrev pub HasUniqueIds : List OutboxEvent → Type 0
HasUniqueIds rows = (x : OutboxEvent) → count_by (λ (y : OutboxEvent). y.id == x.id) rows ≤ 1

abbrev pub HasUniqueEvents : {R : Type 0} → List (CompletedRow R) → Type 0
HasUniqueEvents {R} rows =
    (x : CompletedRow R)
    → count_by
        (λ (y : CompletedRow R).
          (y.row.consumer_name == x.row.consumer_name) && (y.row.event_id == x.row.event_id))
        rows
      ≤ 1

not-true : (b : Bool) → not b ≡ true → b ≡ false
not-true true h = sym h
not-true false h = refl

-- Whatever the settings, the locks and the failures of its queries, a pass of retention leaves a
-- publisher the same rows to claim at any time, in the same order, and leaves every row of the inbox
-- that is still `PROCESSING` or `PREPARED`: where the primary keys hold, it loses no event.
pub cleanup-unfinished :
    {R : Type 0} (node : Node) (config : Config) (given : Conditions R) (db : RetentionDb R)
    (t limit : ℕ) (owner_id : String) (lease_ms : ℕ)
    → HasUniqueIds db.outbox
    → HasUniqueEvents db.inbox
    → ((find_publishable t limit owner_id lease_ms (cleanup node config given db).outbox).0
        ≡ (find_publishable t limit owner_id lease_ms db.outbox).0)
      × (filter is_unfinished (cleanup node config given db).inbox ≡ filter is_unfinished db.inbox)
unfolding cleanup find_publishable candidates
cleanup-unfinished node config given db t limit owner_id lease_ms ids events = (
  ap (λ (rows : List OutboxEvent). map (leased owner_id (t + lease_ms)) (take limit rows))
      (sym (publishable_rows-filter t _)
        ∙ (ap (publishable_rows t) (
              filter-cleanup_target node config given.now "OUTBOX_RETENTION_DAYS" 30 _
                given.outbox_throws (λ cutoff. published_outbox cutoff given.outbox_locked)
                (is_publishable t) db.outbox (λ cutoff x. eq_refl x.id) (λ cutoff. ids)
                (λ cutoff x. publishable-unfinished t cutoff x x.status))
            ∙ publishable_rows-filter t db.outbox)),
  filter-cleanup_target node config given.now "KAFKA_CONSUMER_INBOX_RETENTION_DAYS" 90 _
      given.inbox_throws (λ cutoff. completed_inbox cutoff given.inbox_locked) is_unfinished
      db.inbox (λ cutoff x. rw (eq_refl x.row.consumer_name) (eq_refl x.row.event_id))
      (λ cutoff. events) (λ cutoff x h. rw (not-true _ h)),
)
