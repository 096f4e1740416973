-- ===== src/Orders/OutboxAdmin/Laws.antt =====
-- What the operator's calls mean for the publishers.
use kafka_nest_playground.Prelude.{
  ℕ, String, ◌≡◌, refl, ap, sym, ◌∙◌, Bool, true, false, not, List, Option, none, some, ◌==◌, ◌&&◌,
  arith, inl, eq_refl,
}
use kafka_nest_playground.Prelude.Tx.{Result, ok, >>=-eq-ok, >>-eq-ok, guard}
use kafka_nest_playground.Dlq.Conforms.{ok-injective}
use kafka_nest_playground.Outbox.Entity.{OutboxEvent, OutboxStatus}
use kafka_nest_playground.Outbox.Store.{has_passed, is_due, is_publishable, find_row, update_row}
use kafka_nest_playground.Outbox.Store.Claim.{update_row_self-gains}
use kafka_nest_playground.Outbox.Store.Rows.{find_row-update_row}
use kafka_nest_playground.Outbox.Store.Lease.{
  StoreCall, claim, published, failed, hands_out, Every, IsBarrier, barrier-holds,
}
use kafka_nest_playground.Orders.OutboxAdmin.{
  is_retryable, is_ignorable, lock_outbox_event, assert_retryable, assert_ignorable, retried,
  retry_one, ignored, require_reason, ignore,
}

-- No publisher reports on the row.
abbrev pub no_report : (k : String) → ℕ → StoreCall → Bool
no_report k now (claim limit owner_id lease_ms) = true
no_report k now (published id) = not (id == k)
no_report k now (failed id attempts thrown) = not (id == k)

abbrev is_ignored : OutboxEvent → Bool
is_ignored r = elim r.status [ OutboxStatus.ignored ↦ true | _ ↦ false ]

ignored-IsBarrier : (k : String) → IsBarrier k (no_report k) is_ignored
ignored-IsBarrier k = record {
  blocks = λ now limit o l r a done. blocked now r.status r.next_attempt_at r.locked_until done;
  on_published = λ now id other. inl (ground arith);
  on_failed = λ now id n t other. ground arith;
}
  where
    blocked :
        (now : ℕ) (s : OutboxStatus) (next lock : Option ℕ)
        → (elim s [ OutboxStatus.ignored ↦ true | _ ↦ false ]) ≡ true
        → (is_due now s next && has_passed now lock) ≡ false
    blocked now OutboxStatus.ignored next lock done = refl
    blocked now OutboxStatus.pending next lock done = cc
    blocked now OutboxStatus.failed next lock done = cc
    blocked now OutboxStatus.published next lock done = cc

locked :
    {A : Type 0} (found : Option OutboxEvent) (action : OutboxEvent → Result A) (a : A)
    → lock_outbox_event found action ≡ ok a
    → (r : OutboxEvent) × (found ≡ some r) × (action r ≡ ok a)
unfolding lock_outbox_event
locked none action a h = ground arith
locked (some r) action a h = (r, refl, h)

-- A row that an operator has ignored was pending or failed before, and is never handed out again by
-- any claims, as long as no publisher reports on it.
pub ignored_not_handed_out :
    (k operator_id reason : String) (rows rows' : List OutboxEvent) (outbox : OutboxEvent)
    (calls : List (ℕ × StoreCall))
    → ignore k operator_id reason rows ≡ ok (outbox, rows')
    → Every (no_report k) calls
    → ((r : OutboxEvent) × (find_row k rows ≡ some r) × (is_ignorable r.status ≡ true))
      × (hands_out k calls rows' ≡ false)
unfolding ignore assert_ignorable
ignored_not_handed_out k operator_id reason rows rows' outbox calls h others =
    let (text, checked, rest) = >>=-eq-ok (require_reason reason) _ h in
    let (r, there, done) = locked (find_row k rows) _ (outbox, rows') rest in
    let (allowed, committed) = >>-eq-ok (guard (is_ignorable r.status) _) _ done in
    let shape : rows' ≡ update_row k (ignored operator_id text) rows = ground arith in
    (
      (r, there, ground arith),
      rw shape (
          barrier-holds k (no_report k) is_ignored (ignored-IsBarrier k) calls _ others
            (update_row_self-gains k is_ignored (ignored operator_id text) rows (λ x. refl))),
    )

-- A failed row as it is made ready again: everything else is what it was.
abbrev pub ready_again : OutboxEvent → OutboxEvent
ready_again r = record r { next_attempt_at = none; locked_by = none; locked_until = none }

-- A row that an operator retries was failed before, and may be published at once: its row in the
-- table, which is also the answer, keeps its status, its attempts and its last error, and all else
-- but the time of its next attempt and its lease, which are cleared, and every claim finds it due
-- and unlocked.
pub retried-is_publishable :
    (k : String) (rows rows' : List OutboxEvent) (outbox : OutboxEvent) (now : ℕ)
    → retry_one k rows ≡ ok (outbox, rows')
    → (r : OutboxEvent) × (find_row k rows ≡ some r)
      × (r.status ≡ OutboxStatus.failed)
      × (find_row k rows' ≡ some outbox)
      × (outbox ≡ ready_again r)
      × (outbox.status ≡ OutboxStatus.failed)
      × (outbox.attempts ≡ r.attempts)
      × (outbox.last_error ≡ r.last_error)
      × (is_publishable now outbox ≡ true)
unfolding retry_one assert_retryable
retried-is_publishable k rows rows' outbox now h =
    let (r, there, done) = locked (find_row k rows) _ (outbox, rows') h in
    let (allowed, committed) = >>-eq-ok (guard (is_retryable r.status) _) _ done in
    let is_failed : r.status ≡ OutboxStatus.failed = ground arith in
    let shape : rows' ≡ update_row k retried rows = ground arith in
    let answer : outbox ≡ ready_again r =
      ap (λ (x : OutboxEvent × List OutboxEvent). x.0) (sym (ok-injective committed)) in
    let in_table : find_row k rows' ≡ some (ready_again r) =
      rw shape (rw (find_row-update_row k k retried rows (λ x. refl), eq_refl k, there) refl) in
    (
      r,
      there,
      is_failed,
      in_table ∙ ap some (sym answer),
      answer,
      ap (λ (x : OutboxEvent). x.status) answer ∙ is_failed,
      ap (λ (x : OutboxEvent). x.attempts) answer,
      ap (λ (x : OutboxEvent). x.last_error) answer,
      ap (is_publishable now) answer ∙ rw is_failed refl,
    )
