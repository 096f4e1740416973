-- ===== src/Orders/OutboxAdmin.antt =====
-- app/order-service/src/modules/outbox-admin/outbox-admin.service.ts: what an operator does to one
-- row of the outbox. A call ends with the row and the table.
pub mod Laws
use kafka_nest_playground.Prelude.{
  ℕ, String, Bool, true, false, List, [], ◌∷◌, Option, none, some, if◌then◌else◌, leb, ◌&&◌, ◌==◌,
}
use Prim.Native.String.{◌++◌}
use kafka_nest_playground.Prelude.Text.{trim, utf16_length}
use kafka_nest_playground.Prelude.Tx.{Result, ok, err, Error, ◌>>=◌, ◌>>◌, guard}
use kafka_nest_playground.Outbox.Entity.{OutboxEvent, OutboxStatus}
use kafka_nest_playground.Outbox.Store.{find_row, update_row}

abbrev pub is_retryable : OutboxStatus → Bool
is_retryable OutboxStatus.failed = true
is_retryable _ = false

abbrev pub is_ignorable : OutboxStatus → Bool
is_ignorable OutboxStatus.failed = true
is_ignorable OutboxStatus.pending = true
is_ignorable _ = false

-- `assertRetryable`.
unfoldable pub assert_retryable : OutboxEvent → Result (Unit {0})
assert_retryable outbox = guard (is_retryable outbox.status) Error.conflict

-- `assertIgnorable`.
unfoldable pub assert_ignorable : OutboxEvent → Result (Unit {0})
assert_ignorable outbox = guard (is_ignorable outbox.status) Error.conflict

-- `lockOutboxEvent`: the row, under its lock.
unfoldable pub lock_outbox_event :
    {A : Type 0} → Option OutboxEvent → (OutboxEvent → Result A) → Result A
lock_outbox_event none action = err Error.not_found
lock_outbox_event (some entity) action = action entity

abbrev pub retried : OutboxEvent → OutboxEvent
retried outbox = record outbox { next_attempt_at = none; locked_by = none; locked_until = none }

-- `retryOne`; the publisher is woken after it.
unfoldable pub retry_one : String → List OutboxEvent → Result (OutboxEvent × List OutboxEvent)
retry_one id rows =
    lock_outbox_event (find_row id rows)
      (λ outbox. assert_retryable outbox >> ok (retried outbox, update_row id retried rows))

-- `requireReason`.
unfoldable pub require_reason : String → Result String
require_reason value = do
  let reason = trim value
  guard (leb 5 (utf16_length reason) && leb (utf16_length reason) 1000) Error.conflict
  ok reason

abbrev pub ignored : (operator_id reason : String) → OutboxEvent → OutboxEvent
ignored operator_id reason outbox = record outbox {
  status = OutboxStatus.ignored;
  next_attempt_at = none;
  locked_by = none;
  locked_until = none;
  last_error = some ("Ignored by " ++ (operator_id ++ (": " ++ reason)));
}

unfoldable pub ignore :
    String
    → (operator_id reason : String) → List OutboxEvent
    → Result (OutboxEvent × List OutboxEvent)
ignore id operator_id value rows = do
  reason ← require_reason value
  lock_outbox_event (find_row id rows) (λ outbox.
      assert_ignorable outbox
      >> ok (ignored operator_id reason outbox, update_row id (ignored operator_id reason) rows))
