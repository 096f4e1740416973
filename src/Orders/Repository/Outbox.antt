-- ===== src/Orders/Repository/Outbox.antt =====
-- What `manager.save(createOutboxEventEntity(...))` leaves behind.
use kafka_nest_playground.Prelude.{ℕ, String, ◌≡◌, ap, List, [], ◌∷◌, ◌++◌, none, arith}
use kafka_nest_playground.Prelude.Tx.{ok, >>=-eq-ok}
use kafka_nest_playground.Contracts.Events.{DomainEvent, event_type, event_topic_map}
use kafka_nest_playground.Outbox.Entity.{OutboxEvent, OutboxStatus, create_outbox_event_entity}
use kafka_nest_playground.Orders.Entity.{Draws}
use kafka_nest_playground.Orders.Tables.{Db, insert_outbox}
use kafka_nest_playground.Orders.Repository.{save_outbox}

-- The pending row of an event.
abbrev pub outbox_row : Draws → ℕ → String → DomainEvent → OutboxEvent
outbox_row draws n message_key event = record {
  id = draws.row_id n;
  topic = event_topic_map event.payload;
  message_key = message_key;
  event_type = event_type event;
  event_id = event.event_id;
  event = event;
  trace_context = draws.trace;
  status = OutboxStatus.pending;
  attempts = 0;
  next_attempt_at = none;
  locked_by = none;
  locked_until = none;
  published_at = none;
  last_error = none;
  created_at = draws.now;
}

pub create_outbox_event_entity-eq-ok :
    (draws : Draws) (n : ℕ) (key : String) (event : DomainEvent) (row : OutboxEvent)
    → create_outbox_event_entity
        (draws.row_id n)
        draws.now
        (event_topic_map event.payload)
        key
        event
        draws.trace
      ≡ ok row
    → row ≡ outbox_row draws n key event
unfolding create_outbox_event_entity
create_outbox_event_entity-eq-ok draws n key event row h = ground arith

pub insert_outbox-eq-ok :
    (e : OutboxEvent) (es es' : List OutboxEvent) → insert_outbox e es ≡ ok es' → es' ≡ es ++ e ∷ []
unfolding insert_outbox
insert_outbox-eq-ok e es es' h = ground arith

-- A save that succeeds appends the pending row of the event, and touches no other table.
pub save_outbox-eq-ok :
    (draws : Draws) (n : ℕ) (key : String) (event : DomainEvent) (db db' : Db)
    → save_outbox draws n key event db ≡ ok db'
    → db' ≡ record db { outbox = db.outbox ++ outbox_row draws n key event ∷ [] }
unfolding save_outbox
save_outbox-eq-ok draws n key event db db' h =
    let (row, made, rest) = >>=-eq-ok _ _ h in
    let (rows, inserted, done) = >>=-eq-ok (insert_outbox row db.outbox) _ rest in
    ground (
      arith,
      create_outbox_event_entity-eq-ok draws n key event row made,
      insert_outbox-eq-ok row db.outbox rows inserted,
    )

-- The other tables, and the new row.
module _ (draws : Draws) (n : ℕ) (key : String) (event : DomainEvent) (db db' : Db)
    (saved : save_outbox draws n key event db ≡ ok db') where
  pub orders-save_outbox : db'.orders ≡ db.orders
  orders-save_outbox = ap (λ (d : Db). d.orders) (save_outbox-eq-ok draws n key event db db' saved)

  pub processed-save_outbox : db'.processed ≡ db.processed
  processed-save_outbox =
      ap (λ (d : Db). d.processed) (save_outbox-eq-ok draws n key event db db' saved)

  pub idempotency-save_outbox : db'.idempotency ≡ db.idempotency
  idempotency-save_outbox =
      ap (λ (d : Db). d.idempotency) (save_outbox-eq-ok draws n key event db db' saved)

  pub outbox-save_outbox : db'.outbox ≡ db.outbox ++ outbox_row draws n key event ∷ []
  outbox-save_outbox = ap (λ (d : Db). d.outbox) (save_outbox-eq-ok draws n key event db db' saved)
