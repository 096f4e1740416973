-- ===== src/Orders/Evolution/Steps.antt =====
-- A lifecycle event and a cancellation move each order by at most one step.
use kafka_nest_playground.Prelude.{
  String, ◌≡◌, refl, sym, subst, [], ◌∷◌, ◌++◌, Option, none, some, arith, Bool-cases, inl, inr,
}
use kafka_nest_playground.Prelude.Tx.{ok, >>=-eq-ok}
use kafka_nest_playground.Contracts.Events.{EventEnvelope, OrderCancellationRequestedPayload}
use kafka_nest_playground.Orders.Entity.{OrderStatus, Order, Js, Draws}
use kafka_nest_playground.Orders.StateMachine.{
  OrderLifecycleEvent, LifecycleEventType, FinalEventType, OrderTransitionDecision, lifecycle_type,
  decide_order_transition,
}
use kafka_nest_playground.Orders.Cancellation.{
  OrderCancellationCommand, OrderCancellationDecision, decide_order_cancellation,
}
use kafka_nest_playground.Orders.Transitions.{allowed-iff-Edge}
use kafka_nest_playground.Orders.Tables.{Db, find_order, save_order, is_processed}
use kafka_nest_playground.Orders.Tables.Laws.{find_order-id}
use kafka_nest_playground.Orders.Repository.{
  ProcessLifecycleEventParams, OrderLifecycleProcessingResult, OrderCancellationProcessingResult,
  save_outbox, as_final_order_source_event,
}
use kafka_nest_playground.Orders.Repository.Lifecycle.{
  with_status, processed_row, apply_decision, process_registered, process_lifecycle_event,
}
use kafka_nest_playground.Orders.Repository.Cancel.{settle_cancellation, cancel_found, cancel_order}
use kafka_nest_playground.Orders.Repository.Outbox.{orders-save_outbox}
use kafka_nest_playground.Orders.Evolution.{
  Move, by_event, cancel_pending, cancel_approved, HasSameContent, Evolves, unchanged, Evolves-save,
  Evolves-eq,
}

with_status-HasSameContent :
    (draws : Draws) (t : OrderStatus) (o : Order) → HasSameContent o (with_status draws t o)
with_status-HasSameContent draws t o = record {
  id = refl;
  user_id = refl;
  currency = refl;
  total_amount = refl;
  item_count = refl;
  items = refl;
  created_at = refl;
}

accepted-Move :
    (s from : OrderStatus)
    → decide_order_cancellation s ≡ OrderCancellationDecision.accepted from
    → Move s OrderStatus.cancelled
unfolding decide_order_cancellation
accepted-Move OrderStatus.pending from h = cancel_pending
accepted-Move OrderStatus.risk_approved from h = cancel_approved
accepted-Move s from h = cc

allowed-Move :
    (s : OrderStatus) (e : LifecycleEventType) (from to : OrderStatus) (f : Option FinalEventType)
    → decide_order_transition s e ≡ OrderTransitionDecision.allowed from to f
    → Move s to
allowed-Move s e from to f h = by_event (
    (allowed-iff-Edge s e to f).0 (
      subst (λ x. decide_order_transition s e ≡ OrderTransitionDecision.allowed x to f)
        (same_from s e from to f h) h))
  where
    same_from :
        (s : OrderStatus) (e : LifecycleEventType) (from to : OrderStatus)
        (f : Option FinalEventType)
        → decide_order_transition s e ≡ OrderTransitionDecision.allowed from to f
        → from ≡ s
    same_from s e from to f h = unfold decide_order_transition in ground arith

module _ (k : String) (js : Js) (draws : Draws) where
  apply_decision-Evolves :
      (event : OrderLifecycleEvent) (o : Order) (db : Db) (d : OrderTransitionDecision)
      (r : OrderLifecycleProcessingResult) (db' : Db)
      → find_order o.id db.orders ≡ some o
      → decide_order_transition o.status (lifecycle_type event.payload) ≡ d
      → apply_decision js draws event o d db ≡ ok (r, db')
      → Evolves (find_order k db.orders) (find_order k db'.orders)
  unfolding apply_decision
  apply_decision-Evolves event o db (OrderTransitionDecision.rejected from e) r db' there d h =
      Evolves-eq k _ _ _ (ground arith) (unchanged refl)
  apply_decision-Evolves event o db (OrderTransitionDecision.allowed from to none) r db' there d h =
      Evolves-eq k _ (save_order (with_status draws to o) db.orders) _ (ground arith) (
        Evolves-save k o (with_status draws to o) db.orders there
          (allowed-Move o.status _ from to none d) (with_status-HasSameContent draws to o))
  apply_decision-Evolves event o db (OrderTransitionDecision.allowed from to (some f)) r db' there d
        h =
      let (source, made, rest) = >>=-eq-ok (as_final_order_source_event event) _ h in
      let (db1, saved, done) = >>=-eq-ok (save_outbox draws 0 o.id _ _) _ rest in
      let orders : db1.orders ≡ save_order (with_status draws to o) db.orders =
        orders-save_outbox draws 0 o.id _ _ db1 saved in
      Evolves-eq k _ (save_order (with_status draws to o) db.orders) _ (ground arith) (
        Evolves-save k o (with_status draws to o) db.orders there
          (allowed-Move o.status _ from to (some f) d) (with_status-HasSameContent draws to o))

  registered-Evolves :
      (event : OrderLifecycleEvent) (id : String) (found : Option Order) (db : Db)
      (r : OrderLifecycleProcessingResult) (db' : Db)
      → find_order id db.orders ≡ found
      → process_registered js draws event found db ≡ ok (r, db')
      → Evolves (find_order k db.orders) (find_order k db'.orders)
  unfolding process_registered
  registered-Evolves event id none db r db' there h =
      Evolves-eq k _ _ _ (ground arith) (unchanged refl)
  registered-Evolves event id (some o) db r db' there h =
      apply_decision-Evolves event o db _ r db'
        (subst (λ j. find_order j db.orders ≡ some o) (sym (find_order-id id db.orders o there))
          there)
        refl h

  -- `processLifecycleEvent` leaves an order alone, or moves its status along one edge.
  pub process_lifecycle_event-Evolves :
      (params : ProcessLifecycleEventParams) (db : Db) (r : OrderLifecycleProcessingResult)
      (db' : Db)
      → process_lifecycle_event js draws params db ≡ ok (r, db')
      → Evolves (find_order k db.orders) (find_order k db'.orders)
  unfolding process_lifecycle_event
  process_lifecycle_event-Evolves params db r db' h =
      elim (Bool-cases (is_processed params.event.event_id db.processed)) [
        | inl again ↦ Evolves-eq k _ _ _ (ground arith) (unchanged refl)
        | inr new ↦
            registered-Evolves params.event params.order_id (find_order params.order_id db.orders)
              (record db { processed = db.processed ++ processed_row params ∷ [] }) r db' refl
              (rw new at h)
      ]

  settle_cancellation-Evolves :
      (command : OrderCancellationCommand) (o : Order)
      (requested : EventEnvelope OrderCancellationRequestedPayload) (d : OrderCancellationDecision)
      (db : Db) (r : OrderCancellationProcessingResult) (db' : Db)
      → find_order o.id db.orders ≡ some o
      → decide_order_cancellation o.status ≡ d
      → settle_cancellation js draws command o requested d db ≡ ok (r, db')
      → Evolves (find_order k db.orders) (find_order k db'.orders)
  unfolding settle_cancellation
  settle_cancellation-Evolves command o requested (OrderCancellationDecision.rejected from reason)
        db r db' there d h =
      let (db1, saved, done) = >>=-eq-ok (save_outbox draws 1 o.id _ db) _ h in
      let orders : db1.orders ≡ db.orders = orders-save_outbox draws 1 o.id _ db db1 saved in
      Evolves-eq k _ db.orders _ (ground arith) (unchanged refl)
  settle_cancellation-Evolves command o requested (OrderCancellationDecision.accepted from) db r db'
        there d h =
      let (db1, saved, done) = >>=-eq-ok (save_outbox draws 1 o.id _ _) _ h in
      let orders : db1.orders ≡ save_order (with_status draws OrderStatus.cancelled o) db.orders =
        orders-save_outbox draws 1 o.id _ _ db1 saved in
      Evolves-eq k _ (save_order (with_status draws OrderStatus.cancelled o) db.orders) _
        (ground arith)
        (Evolves-save k o (with_status draws OrderStatus.cancelled o) db.orders there
          (accepted-Move o.status from d)
          (with_status-HasSameContent draws OrderStatus.cancelled o))

  cancel_found-Evolves :
      (command : OrderCancellationCommand) (id : String) (found : Option Order) (db : Db)
      (r : OrderCancellationProcessingResult) (db' : Db)
      → find_order id db.orders ≡ found
      → cancel_found js draws command found db ≡ ok (r, db')
      → Evolves (find_order k db.orders) (find_order k db'.orders)
  unfolding cancel_found
  cancel_found-Evolves command id none db r db' there h =
      Evolves-eq k _ _ _ (ground arith) (unchanged refl)
  cancel_found-Evolves command id (some o) db r db' there h =
      let (db1, saved, rest) = >>=-eq-ok (save_outbox draws 0 o.id _ db) _ h in
      let orders : db1.orders ≡ db.orders = orders-save_outbox draws 0 o.id _ db db1 saved in
      let at_o =
        subst (λ j. find_order j db.orders ≡ some o) (sym (find_order-id id db.orders o there))
          there in
      subst (λ os. Evolves (find_order k os) (find_order k db'.orders)) orders
        (settle_cancellation-Evolves command o _ _ db1 r db' (rw orders at_o) refl rest)

  -- `cancelOrder` leaves an order alone, or cancels it.
  pub cancel_order-Evolves :
      (command : OrderCancellationCommand) (db : Db) (r : OrderCancellationProcessingResult)
      (db' : Db)
      → cancel_order js draws command db ≡ ok (r, db')
      → Evolves (find_order k db.orders) (find_order k db'.orders)
  unfolding cancel_order
  cancel_order-Evolves command db r db' h =
      cancel_found-Evolves command command.order_id (find_order command.order_id db.orders) db r db'
        refl h
