-- ===== src/Examples/OutboxFlow.antt =====
-- Two rows of the outbox, and two publishers.
use kafka_nest_playground.Prelude.{
  ℕ, ◌≡◌, refl, String, true, false, List, [], ◌∷◌, none, if◌then◌else◌, ◌==◌,
}
use kafka_nest_playground.Contracts.Events.{DomainEvent, Payload}
use kafka_nest_playground.Outbox.Entity.{OutboxEvent, OutboxStatus}
use kafka_nest_playground.Kafka.Errors.{Thrown}
use kafka_nest_playground.Outbox.Store.{
  candidates, publishable_rows, insert_sorted, text_leb, find_publishable, mark_published,
  mark_failed, retry_delay_ms, lease_rows, update_row,
}
use kafka_nest_playground.Outbox.Store.Lease.{
  StoreCall, claim, published, failed, serve_store, hands_out, lease_excludes,
  published_not_handed_out, failed_waits,
}
use kafka_nest_playground.Outbox.Store.Order.{IsOldestFirst, candidates-IsOldestFirst}
use kafka_nest_playground.Outbox.Publisher.{Attempt, Publisher}

abbrev event : String → DomainEvent
event id = record {
  event_id = id;
  event_version = 1;
  occurred_at = "2026-01-01T00:00:00.000Z";
  correlation_id = "correlation-1";
  causation_id = none;
  producer = "payment-service";
  payload =
      Payload.payment_failed (record {
        payment_id = none;
        order_id = "order-1";
        reason = "no funds";
        provider = "bank";
      });
}

abbrev pub row : String → ℕ → OutboxEvent
row id created_at = record {
  id = id;
  topic = "payment.payment-events";
  message_key = "order-1";
  event_type = "PaymentFailed";
  event_id = id;
  event = event id;
  trace_context = none;
  status = OutboxStatus.pending;
  attempts = 0;
  next_attempt_at = none;
  locked_by = none;
  locked_until = none;
  published_at = none;
  last_error = none;
  created_at = created_at;
}

-- The younger row stands first.
abbrev pub rows : List OutboxEvent
rows = row "b" 20 ∷ row "a" 10 ∷ []

abbrev pub broker_down : Thrown
broker_down = Thrown.error "Error" "broker is down" none

oldest_first : candidates 100 1 rows ≡ row "a" 10 ∷ []
unfolding candidates publishable_rows insert_sorted
oldest_first = refl

candidates-IsOldestFirst_example :
    (left : List OutboxEvent) × IsOldestFirst 100 1 rows (candidates 100 1 rows) left
candidates-IsOldestFirst_example = candidates-IsOldestFirst 100 1 rows

-- A second publisher claims and reports while the first has the row `a`.
abbrev pub calls : List (ℕ × StoreCall)
calls =
    (110, claim 5 "second" 1000)
    ∷ (120, failed "b" 1 broker_down)
    ∷ (1099, claim 5 "third" 1000)
    ∷ []

lease_excludes_example : hands_out "a" calls (find_publishable 100 1 "first" 1000 rows).1 ≡ false
lease_excludes_example =
    lease_excludes "a" 100 1 "first" 1000 rows calls
      (unfold find_publishable candidates publishable_rows insert_sorted in refl)
      (refl, (refl, (refl, tt)))

-- The lease ends at 1100: a claim of that time gets the row.
lease_ends :
    hands_out "a" ((1100, claim 5 "second" 1000) ∷ []) (find_publishable 100 1 "first" 1000 rows).1
    ≡ true
unfolding hands_out serve_store find_publishable candidates publishable_rows insert_sorted
    lease_rows
lease_ends = refl

published_not_handed_out_example :
    hands_out "a" ((100, published "a") ∷ calls) (mark_published 90 "a" rows) ≡ false
published_not_handed_out_example =
    published_not_handed_out "a" 90 rows ((100, published "a") ∷ calls)
      (refl, (refl, (refl, (refl, tt))))

-- A publisher that reports its failure late brings a published row back.
late_failure :
    hands_out "a"
      ((100, failed "a" 1 broker_down) ∷ (2000, claim 5 "second" 1000) ∷ [])
      (mark_published 90 "a" rows)
    ≡ true
unfolding hands_out serve_store find_publishable candidates publishable_rows insert_sorted
    mark_published mark_failed update_row retry_delay_ms text_leb lease_rows
late_failure = refl

failed_waits_example : hands_out "a" calls (mark_failed 100 "a" 1 broker_down rows) ≡ false
failed_waits_example =
    failed_waits "a" 100 1 broker_down rows calls
      (unfold retry_delay_ms in (refl, (refl, (refl, tt))))

-- The message of `a` is refused, and that of any other row delivered.
abbrev attempt : OutboxEvent → Attempt
attempt r = if r.id == "a" then Attempt.refused 105 broker_down else Attempt.delivered 106

abbrev publisher : Publisher
publisher = record { rows = rows; sent = []; is_publishing = false }
