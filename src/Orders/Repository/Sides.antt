-- ===== src/Orders/Repository/Sides.antt =====
-- The tables of processed events and of idempotency keys change only where their rows are written.
use kafka_nest_playground.Prelude.{
  ℕ, String, ◌≡◌, ◌∙◌, [], ◌∷◌, ◌++◌, Bool-cases, inl, inr, Option, none, some, arith,
}
use kafka_nest_playground.Prelude.Tx.{ok, >>=-eq-ok}
use kafka_nest_playground.Contracts.Events.{
  EventEnvelope, DomainEvent, OrderCreatedPayload, OrderCancellationRequestedPayload,
}
use kafka_nest_playground.Orders.Entity.{Order, Js, Draws}
use kafka_nest_playground.Orders.StateMachine.{OrderLifecycleEvent, OrderTransitionDecision}
use kafka_nest_playground.Orders.Cancellation.{OrderCancellationCommand, OrderCancellationDecision}
use kafka_nest_playground.Orders.Tables.{
  Db, is_processed, read_idempotency_row, find_order, insert_order,
}
use kafka_nest_playground.Orders.Repository.{
  ProcessLifecycleEventParams, OrderLifecycleProcessingResult, OrderCancellationProcessingResult,
  CreatePendingOrderParams, CreateOrderIdempotencyParams, CreatePendingOrderResult, save_outbox,
  as_final_order_source_event,
}
use kafka_nest_playground.Orders.Repository.Create.{
  create_pending_order, persist_pending_order_with_outbox, reserved_row, is_reserved,
  replay_response, create_reserved, replay_reserved, create_pending_order_with_outbox_idempotently,
}
use kafka_nest_playground.Orders.Repository.Lifecycle.{
  processed_row, apply_decision, process_registered, process_lifecycle_event,
}
use kafka_nest_playground.Orders.Repository.Cancel.{settle_cancellation, cancel_found, cancel_order}
use kafka_nest_playground.Orders.Repository.Outbox.{processed-save_outbox, idempotency-save_outbox}

pub record HasSameSides (db db' : Db) : Type 0 where
  pub processed : db'.processed ≡ db.processed
  pub idempotency : db'.idempotency ≡ db.idempotency

pub HasSameSides-save_outbox :
    (draws : Draws) (n : ℕ) (key : String) (event : DomainEvent) (db db1 : Db)
    → save_outbox draws n key event db ≡ ok db1
    → HasSameSides db db1
HasSameSides-save_outbox draws n key event db db1 saved = record {
  processed = processed-save_outbox draws n key event db db1 saved;
  idempotency = idempotency-save_outbox draws n key event db db1 saved;
}

module _ (js : Js) (draws : Draws) where
  apply_decision-HasSameSides :
      (event : OrderLifecycleEvent) (o : Order) (db : Db) (d : OrderTransitionDecision)
      (r : OrderLifecycleProcessingResult) (db' : Db)
      → apply_decision js draws event o d db ≡ ok (r, db')
      → HasSameSides db db'
  unfolding apply_decision
  apply_decision-HasSameSides event o db (OrderTransitionDecision.rejected from e) r db' h =
      ground arith
  apply_decision-HasSameSides event o db (OrderTransitionDecision.allowed from to none) r db' h =
      ground arith
  apply_decision-HasSameSides event o db (OrderTransitionDecision.allowed from to (some f)) r db'
        h =
      let (source, made, rest) = >>=-eq-ok (as_final_order_source_event event) _ h in
      let (db1, saved, done) = >>=-eq-ok (save_outbox draws 0 o.id _ _) _ rest in
      let same = HasSameSides-save_outbox draws 0 o.id _ _ db1 saved in
      record {
        processed = let p : db'.processed ≡ db1.processed = ground arith in p ∙ same.processed;
        idempotency =
            let p : db'.idempotency ≡ db1.idempotency = ground arith in p ∙ same.idempotency;
      }

  pub process_registered-HasSameSides :
      (event : OrderLifecycleEvent) (found : Option Order) (db : Db)
      (r : OrderLifecycleProcessingResult) (db' : Db)
      → process_registered js draws event found db ≡ ok (r, db')
      → HasSameSides db db'
  unfolding process_registered
  process_registered-HasSameSides event none db r db' h = ground arith
  process_registered-HasSameSides event (some o) db r db' h =
      apply_decision-HasSameSides event o db _ r db' h

  settle_cancellation-HasSameSides :
      (command : OrderCancellationCommand) (o : Order)
      (requested : EventEnvelope OrderCancellationRequestedPayload) (d : OrderCancellationDecision)
      (db : Db) (r : OrderCancellationProcessingResult) (db' : Db)
      → settle_cancellation js draws command o requested d db ≡ ok (r, db')
      → HasSameSides db db'
  unfolding settle_cancellation
  settle_cancellation-HasSameSides command o requested
        (OrderCancellationDecision.rejected from reason) db r db' h =
      let (db1, saved, done) = >>=-eq-ok (save_outbox draws 1 o.id _ db) _ h in
      let same = HasSameSides-save_outbox draws 1 o.id _ db db1 saved in
      let end : db' ≡ db1 = ground arith in rw end same
  settle_cancellation-HasSameSides command o requested (OrderCancellationDecision.accepted from) db
        r db' h =
      let (db1, saved, done) = >>=-eq-ok (save_outbox draws 1 o.id _ _) _ h in
      let same = HasSameSides-save_outbox draws 1 o.id _ _ db1 saved in
      let end : db' ≡ db1 = ground arith in
      rw end (record { processed = same.processed; idempotency = same.idempotency })

  cancel_found-HasSameSides :
      (command : OrderCancellationCommand) (found : Option Order) (db : Db)
      (r : OrderCancellationProcessingResult) (db' : Db)
      → cancel_found js draws command found db ≡ ok (r, db')
      → HasSameSides db db'
  unfolding cancel_found
  cancel_found-HasSameSides command none db r db' h = ground arith
  cancel_found-HasSameSides command (some o) db r db' h =
      let (db1, saved, rest) = >>=-eq-ok (save_outbox draws 0 o.id _ db) _ h in
      let same = HasSameSides-save_outbox draws 0 o.id _ db db1 saved in
      let more = settle_cancellation-HasSameSides command o _ _ db1 r db' rest in
      record {
        processed = more.processed ∙ same.processed;
        idempotency = more.idempotency ∙ same.idempotency;
      }

  pub cancel_order-HasSameSides :
      (command : OrderCancellationCommand) (db : Db) (r : OrderCancellationProcessingResult)
      (db' : Db)
      → cancel_order js draws command db ≡ ok (r, db')
      → HasSameSides db db'
  unfolding cancel_order
  cancel_order-HasSameSides command db r db' h =
      cancel_found-HasSameSides command (find_order command.order_id db.orders) db r db' h

  pub create_pending_order-HasSameSides :
      (params : CreatePendingOrderParams) (db : Db) (o : Order) (db' : Db)
      → create_pending_order js draws params db ≡ ok (o, db')
      → HasSameSides db db'
  unfolding create_pending_order
  create_pending_order-HasSameSides params db o db' h =
      let (os, inserted, done) = >>=-eq-ok (insert_order _ db.orders) _ h in
      record { processed = ground arith; idempotency = ground arith }

  pub persist-HasSameSides :
      (params : CreatePendingOrderParams) (db : Db) (r : Order × EventEnvelope OrderCreatedPayload)
      (db' : Db)
      → persist_pending_order_with_outbox js draws params db ≡ ok (r, db')
      → HasSameSides db db'
  unfolding persist_pending_order_with_outbox
  persist-HasSameSides params db r db' h =
      let (os, inserted, rest) = >>=-eq-ok (insert_order _ db.orders) _ h in
      let (db1, saved, done) = >>=-eq-ok (save_outbox draws 0 _ _ _) _ rest in
      let same = HasSameSides-save_outbox draws 0 _ _ _ db1 saved in
      let end : db' ≡ db1 = ground arith in
      rw end (record { processed = same.processed; idempotency = same.idempotency })

  -- The idempotent creation writes the table of keys alone, of the two.
  pub processed-create_idempotently :
      (params : CreatePendingOrderParams) (key : CreateOrderIdempotencyParams) (db : Db)
      (r : CreatePendingOrderResult) (db' : Db)
      → create_pending_order_with_outbox_idempotently js draws params key db ≡ ok (r, db')
      → db'.processed ≡ db.processed
  unfolding create_pending_order_with_outbox_idempotently replay_reserved create_reserved
  processed-create_idempotently params key db r db' h =
      elim (Bool-cases (is_reserved key.key db.idempotency)) [
        | inl there ↦
            let (response, replayed, done) =
              >>=-eq-ok (replay_response key (read_idempotency_row key.key db.idempotency)) _
                (rw there at h) in
            ground arith
        | inr new ↦
            let ((o, db1), made, done) =
              >>=-eq-ok
                (persist_pending_order_with_outbox js draws params
                  (record db { idempotency = db.idempotency ++ reserved_row key ∷ [] }))
                _ (rw new at h) in
            let same = persist-HasSameSides params _ o db1 made in
            let end : db'.processed ≡ db1.processed = ground arith in end ∙ same.processed
      ]

  -- A lifecycle event does not touch the table of keys.
  pub idempotency-process :
      (params : ProcessLifecycleEventParams) (db : Db) (r : OrderLifecycleProcessingResult)
      (db' : Db)
      → process_lifecycle_event js draws params db ≡ ok (r, db')
      → db'.idempotency ≡ db.idempotency
  unfolding process_lifecycle_event
  idempotency-process params db r db' h =
      elim (Bool-cases (is_processed params.event.event_id db.processed)) [
        | inl again ↦ ground arith
        | inr new ↦
            (process_registered-HasSameSides params.event (find_order params.order_id db.orders)
              (record db { processed = db.processed ++ processed_row params ∷ [] }) r db'
              (rw new at h)).idempotency
      ]
