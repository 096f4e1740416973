-- ===== src/Orders/Outcomes/Lifecycle.antt =====
-- What a committed lifecycle event leaves in the outbox.
use kafka_nest_playground.Prelude.{
  String, ◌≡◌, refl, ap, subst, true, false, [], ◌∷◌, ◌++◌, Option, none, some, arith, Bool-cases,
  inl, inr,
}
use kafka_nest_playground.Prelude.Tx.{ok, >>=-eq-ok}
use kafka_nest_playground.Contracts.Topics
use kafka_nest_playground.Contracts.Events.{DomainEvent, event_topic_map}
use kafka_nest_playground.Outbox.Entity.{OutboxEvent}
use kafka_nest_playground.Orders.Entity.{OrderStatus, Order, Js, Draws}
use kafka_nest_playground.Orders.StateMachine.{
  OrderLifecycleEvent, OrderTransitionDecision, lifecycle_type, decide_order_transition,
}
use kafka_nest_playground.Orders.FinalEvent.{
  FinalSourcePayload, create_final_order_event, final_payload,
}
use kafka_nest_playground.Orders.Transitions.{is_final}
use kafka_nest_playground.Orders.Tables.{Db, find_order, is_processed}
use kafka_nest_playground.Orders.Tables.Laws.{find_order-id}
use kafka_nest_playground.Orders.Repository.{
  ProcessLifecycleEventParams, OrderLifecycleProcessingResult, save_outbox,
  as_final_order_source_event,
}
use kafka_nest_playground.Orders.Repository.Lifecycle.{
  with_status, processed_row, apply_decision, process_registered, process_lifecycle_event,
}
use kafka_nest_playground.Orders.Repository.Outbox.{outbox_row, outbox-save_outbox}
use kafka_nest_playground.Orders.Outcomes.{IsOrderRow, outbox_row-IsOrderRow}

-- The row of the final event that a lifecycle result reports, and the statuses that it stands
-- between.
pub record IsFinalEvent (params : ProcessLifecycleEventParams) (previous status : OrderStatus)
    (event : DomainEvent) (db db' : Db) : Type 0 where
  pub row : OutboxEvent
  pub appended : db'.outbox ≡ db.outbox ++ row ∷ []
  pub order_row : IsOrderRow params.order_id event row
  pub caused : event.causation_id ≡ some params.event.event_id
  pub correlated : event.correlation_id ≡ params.event.correlation_id
  pub was_open : is_final previous ≡ false
  pub is_closed : is_final status ≡ true

module _ (js : Js) (draws : Draws) (params : ProcessLifecycleEventParams) where
  allowed_statuses :
      (s : OrderStatus) (e : _) (from to : OrderStatus) (f : _)
      → decide_order_transition s e ≡ OrderTransitionDecision.allowed from to (some f)
      → (is_final s ≡ false) × (is_final to ≡ true)
  unfolding decide_order_transition
  allowed_statuses s e from to f h = ground arith

  final_payload-topic :
      (o : Order) (source : FinalSourcePayload) (at : String)
      → event_topic_map (final_payload js o source at) ≡ Topics.order_order_events
  final_payload-topic o (FinalSourcePayload.order_risk_rejected p) at = refl
  final_payload-topic o (FinalSourcePayload.payment_authorized p) at = refl
  final_payload-topic o (FinalSourcePayload.payment_failed p) at = refl

  source-envelope :
      (event : OrderLifecycleEvent) (source : _)
      → as_final_order_source_event event ≡ ok source
      → (source.event_id ≡ event.event_id) × (source.correlation_id ≡ event.correlation_id)
  unfolding as_final_order_source_event
  source-envelope event source h = (ground arith, ground arith)

  apply_decision-IsFinalEvent :
      (o : Order) (d : OrderTransitionDecision) (db : Db) (previous status : OrderStatus)
      (final : DomainEvent) (db' : Db)
      → o.id ≡ params.order_id
      → decide_order_transition o.status (lifecycle_type params.event.payload) ≡ d
      → apply_decision js draws params.event o d db
        ≡ ok (OrderLifecycleProcessingResult.applied previous status (some final), db')
      → IsFinalEvent params previous status final db db'
  unfolding apply_decision create_final_order_event
  apply_decision-IsFinalEvent o (OrderTransitionDecision.rejected from e) db previous status final
        db' i d h =
      absurd (ground arith)
  apply_decision-IsFinalEvent o (OrderTransitionDecision.allowed from to none) db previous status
        final db' i d h =
      absurd (ground arith)
  apply_decision-IsFinalEvent o (OrderTransitionDecision.allowed from to (some f)) db previous
        status final db' i d h =
      let (source, made, rest) = >>=-eq-ok (as_final_order_source_event params.event) _ h in
      let (db1, saved, done) = >>=-eq-ok (save_outbox draws 0 o.id _ _) _ rest in
      let shape = outbox-save_outbox draws 0 o.id _ _ db1 saved in
      let (was_open, is_closed) = allowed_statuses o.status _ from to f d in
      let ev =
        create_final_order_event js (draws.uuid 0) (with_status draws to o) source
          (js.to_iso_string draws.now) in
      let (same_id, same_correlation) = source-envelope params.event source made in
      let is_final_event : final ≡ ev = ground arith in
      let is_previous : previous ≡ o.status = ground arith in
      let is_status : status ≡ to = ground arith in
      let is_db : db' ≡ db1 = ground arith in
      rw (is_final_event, is_previous, is_status, is_db)
        (record {
          row = outbox_row draws 0 o.id ev;
          appended = shape;
          order_row =
              subst (λ id. IsOrderRow id ev (outbox_row draws 0 o.id ev)) i
                (outbox_row-IsOrderRow draws 0 o.id ev (
                  final_payload-topic (with_status draws to o) source.payload
                    (js.to_iso_string draws.now)));
          caused = ap some same_id;
          correlated = same_correlation;
          was_open = was_open;
          is_closed = is_closed;
        })

  registered-IsFinalEvent :
      (found : Option Order) (db : Db) (previous status : OrderStatus) (final : DomainEvent)
      (db' : Db)
      → find_order params.order_id db.orders ≡ found
      → process_registered js draws params.event found db
        ≡ ok (OrderLifecycleProcessingResult.applied previous status (some final), db')
      → IsFinalEvent params previous status final db db'
  unfolding process_registered
  registered-IsFinalEvent none db previous status final db' there h = absurd (ground arith)
  registered-IsFinalEvent (some o) db previous status final db' there h =
      apply_decision-IsFinalEvent o _ db previous status final db'
        (find_order-id params.order_id db.orders o there) refl h

  -- A committed lifecycle event whose result reports a final event reports an open previous status
  -- and a final one after it, and appends exactly one row to the outbox: the pending row of that
  -- event, keyed by the order and addressed to the order topic. The event names the processed one as
  -- its cause, and keeps its correlation id.
  pub process_lifecycle_event-IsFinalEvent :
      (db : Db) (previous status : OrderStatus) (final : DomainEvent) (db' : Db)
      → process_lifecycle_event js draws params db
        ≡ ok (OrderLifecycleProcessingResult.applied previous status (some final), db')
      → IsFinalEvent params previous status final db db'
  unfolding process_lifecycle_event
  process_lifecycle_event-IsFinalEvent db previous status final db' h =
      elim (Bool-cases (is_processed params.event.event_id db.processed)) [
        | inl again ↦ absurd (ground arith)
        | inr new ↦
            let f =
              registered-IsFinalEvent (find_order params.order_id db.orders)
                (record db { processed = db.processed ++ processed_row params ∷ [] }) previous
                status final db' refl (rw new at h) in
            record {
              row = f.row;
              appended = f.appended;
              order_row = f.order_row;
              caused = f.caused;
              correlated = f.correlated;
              was_open = f.was_open;
              is_closed = f.is_closed;
            }
      ]
