-- ===== src/Examples/OutboxOperator.antt =====
-- An operator at the rows of the outbox.
use kafka_nest_playground.Prelude.{ℕ, ◌≡◌, refl, true, false, List, [], ◌∷◌, some}
use kafka_nest_playground.Prelude.Text.{trim, trim_start, trim_end, utf16_length}
use kafka_nest_playground.Outbox.Entity.{OutboxEvent, OutboxStatus}
use kafka_nest_playground.Outbox.Store.{
  find_row, update_row, is_publishable, as_failed, retry_delay_ms, find_publishable, candidates,
  publishable_rows, insert_sorted, mark_failed, lease_rows, text_leb,
}
use kafka_nest_playground.Outbox.Store.Lease.{StoreCall, claim, failed, hands_out, serve_store}
use kafka_nest_playground.Orders.OutboxAdmin.{
  is_ignorable, lock_outbox_event, assert_retryable, assert_ignorable, retried, retry_one, ignored,
  require_reason, ignore,
}
use kafka_nest_playground.Orders.OutboxAdmin.Laws.{
  ready_again, ignored_not_handed_out, retried-is_publishable,
}
use kafka_nest_playground.Examples.OutboxFlow.{row, rows, broker_down}

-- Claims of any publisher, and a report on another row.
abbrev later : List (ℕ × StoreCall)
later =
    (110, claim 5 "second" 1000)
    ∷ (120, failed "b" 1 broker_down)
    ∷ (9000, claim 5 "third" 1000)
    ∷ []

abbrev after_ignore : List OutboxEvent
unfolding update_row
after_ignore = update_row "a" (ignored "operator-1" "sent by hand") rows

ignored_not_handed_out_example :
    ((r : OutboxEvent) × (find_row "a" rows ≡ some r) × (is_ignorable r.status ≡ true))
    × (hands_out "a" later after_ignore ≡ false)
ignored_not_handed_out_example =
    ignored_not_handed_out "a" "operator-1" " sent by hand " rows after_ignore
      (ignored "operator-1" "sent by hand" (row "a" 10)) later
      (unfold ignore require_reason trim trim_start trim_end utf16_length lock_outbox_event
          assert_ignorable find_row update_row after_ignore in
        refl)
      (refl, (refl, (refl, tt)))

-- The publisher that had the row when the operator ignored it reports its failure: the row is
-- published after all.
ignore_undone :
    hands_out "a"
      ((100, failed "a" 1 broker_down) ∷ (2000, claim 5 "second" 1000) ∷ [])
      after_ignore
    ≡ true
unfolding hands_out serve_store find_publishable candidates publishable_rows insert_sorted
    mark_failed update_row retry_delay_ms text_leb lease_rows after_ignore
ignore_undone = refl

-- The row `a` after a failure, and the table after its retry.
abbrev failed_row : OutboxEvent
failed_row = as_failed 100 1 broker_down (row "a" 10)

abbrev failed_rows : List OutboxEvent
failed_rows = row "b" 20 ∷ failed_row ∷ []

retried-is_publishable_example :
    (r : OutboxEvent) × (find_row "a" failed_rows ≡ some r)
    × (r.status ≡ OutboxStatus.failed)
    × (find_row "a" (row "b" 20 ∷ retried failed_row ∷ []) ≡ some (retried failed_row))
    × (retried failed_row ≡ ready_again r)
    × ((retried failed_row).status ≡ OutboxStatus.failed)
    × ((retried failed_row).attempts ≡ r.attempts)
    × ((retried failed_row).last_error ≡ r.last_error)
    × (is_publishable 101 (retried failed_row) ≡ true)
retried-is_publishable_example =
    retried-is_publishable "a" failed_rows (row "b" 20 ∷ retried failed_row ∷ [])
      (retried failed_row) 101
      (unfold retry_one lock_outbox_event assert_retryable find_row update_row in refl)
