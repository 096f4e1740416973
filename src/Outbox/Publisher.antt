-- ===== src/Outbox/Publisher.antt =====
-- packages/outbox/src/outbox-publisher.service.ts: one batch; spans, log lines and metrics are left
-- out. Whether a message is delivered is up to Kafka: an `Attempt` for each row.
pub mod Batch
use kafka_nest_playground.Prelude.{
  ℕ, ◌+◌, String, Bool, true, false, List, [], ◌∷◌, ◌++◌, Option, none, some, eqb, if◌then◌else◌,
}
use kafka_nest_playground.Prelude.Text.{is_empty}
use kafka_nest_playground.Prelude.Tx.{Result, ok, err}
use kafka_nest_playground.Contracts.Events.{DomainEvent}
use kafka_nest_playground.Outbox.Entity.{OutboxEvent}
use kafka_nest_playground.Kafka.Errors.{Thrown}
use kafka_nest_playground.Outbox.Store.{
  find_publishable, as_published, as_failed, mark_published, mark_failed,
}

-- What `MessagePublisher.publish` is called with.
pub record OutboxMessage : Type 0 where
  pub topic : String
  pub key : String
  pub event : DomainEvent
  pub correlation_id : String
  pub causation_id : Option String

abbrev pub message_of : OutboxEvent → OutboxMessage
message_of row = record {
  topic = row.topic;
  key = row.message_key;
  event = row.event;
  correlation_id = row.event.correlation_id;
  causation_id = row.event.causation_id;
}

-- `publish` and `markPublished` succeed; `publish` throws; it succeeds and `markPublished` throws.
pub data Attempt : Type 0 where
  delivered : (at : ℕ) → Attempt
  refused : (at : ℕ) → Thrown → Attempt
  unmarked : (at : ℕ) → Thrown → Attempt

-- The table and the messages that Kafka took, and `isPublishing`.
pub record Publisher : Type 0 where
  pub rows : List OutboxEvent
  pub sent : List OutboxMessage
  pub is_publishing : Bool

-- The body of the `try`, and the `catch` of its errors.
unfoldable pub publish_one : OutboxEvent → Attempt → Publisher → Publisher
publish_one row (Attempt.delivered at) p = record p {
  sent = p.sent ++ message_of row ∷ [];
  rows = mark_published at row.id p.rows;
}
publish_one row (Attempt.refused at thrown) p = record p {
  rows = mark_failed at row.id (row.attempts + 1) thrown p.rows;
}
publish_one row (Attempt.unmarked at thrown) p = record p {
  sent = p.sent ++ message_of row ∷ [];
  rows = mark_failed at row.id (row.attempts + 1) thrown p.rows;
}

-- `for (const outboxEvent of events)`.
unfoldable pub publish_each : (OutboxEvent → Attempt) → List OutboxEvent → Publisher → Publisher
publish_each attempt [] p = p
publish_each attempt (row ∷ rows) p = publish_each attempt rows (publish_one row (attempt row) p)

pub record BatchParams : Type 0 where
  pub batch_size : ℕ
  pub owner_id : Option String
  pub lease_ms : Option ℕ

-- `params.ownerId && params.leaseMs ? { … } : undefined`, and the default of `findPublishable`.
abbrev pub claim_options : Option String → Option ℕ → String × ℕ
claim_options (some owner_id) (some lease_ms) =
    if is_empty owner_id
    then ("outbox-publisher", 30000)
    else if eqb lease_ms 0
    then ("outbox-publisher", 30000)
    else (owner_id, lease_ms)
claim_options none lease_ms = ("outbox-publisher", 30000)
claim_options (some owner_id) none = ("outbox-publisher", 30000)

-- After `setPublishing(true)`: the claim, at a time or with an error, and the loop.
unfoldable pub publish_claimed :
    BatchParams → Result ℕ → (OutboxEvent → Attempt) → Publisher → Result (Unit {0}) × Publisher
publish_claimed params (err e) attempt p = (err e, p)
publish_claimed params (ok now) attempt p =
    let (owner_id, lease_ms) = claim_options params.owner_id params.lease_ms in
    let (claimed, rows) = find_publishable now params.batch_size owner_id lease_ms p.rows in
    (ok tt, publish_each attempt claimed (record p { rows = rows }))

-- `publishOutboxBatch`, with its `finally`.
unfoldable pub publish_outbox_batch :
    BatchParams → Result ℕ → (OutboxEvent → Attempt) → Publisher → Result (Unit {0}) × Publisher
publish_outbox_batch params claim attempt p =
    if p.is_publishing
    then (ok tt, p)
    else (let (result, p') =
          publish_claimed params claim attempt (record p { is_publishing = true }) in
        (result, record p' { is_publishing = false }))

-- `publishPending` of a replica, by its `ownerId`.
abbrev pub publish_pending_params : String → BatchParams
publish_pending_params owner_id = record {
  batch_size = 25;
  owner_id = some owner_id;
  lease_ms = some 30000;
}
