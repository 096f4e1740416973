-- ===== src/Orders/Balance/Cancel.antt =====
-- `cancelOrder` keeps the balance.
use kafka_nest_playground.Prelude.{
  String, ◌≡◌, refl, sym, ap, subst, false, Option, none, some, arith,
}
use kafka_nest_playground.Prelude.Tx.{ok, >>=-eq-ok}
use kafka_nest_playground.Contracts.Events.{EventEnvelope, OrderCancellationRequestedPayload}
use kafka_nest_playground.Orders.Entity.{OrderStatus, Order, Js, Draws}
use kafka_nest_playground.Orders.Cancellation.{
  OrderCancellationCommand, OrderCancellationDecision, decide_order_cancellation,
  create_order_cancellation_requested_event, create_user_order_cancelled_event,
  create_order_cancellation_rejected_event,
}
use kafka_nest_playground.Orders.Transitions.{is_final}
use kafka_nest_playground.Orders.Tables.{Db, find_order}
use kafka_nest_playground.Orders.Tables.Laws.{find_order-id}
use kafka_nest_playground.Orders.Repository.{OrderCancellationProcessingResult, save_outbox}
use kafka_nest_playground.Orders.Repository.Lifecycle.{with_status}
use kafka_nest_playground.Orders.Repository.Cancel.{settle_cancellation, cancel_found, cancel_order}
use kafka_nest_playground.Orders.Repository.Outbox.{save_outbox-eq-ok}
use kafka_nest_playground.Orders.Balance.{IsBalanced, IsBalanced-save_other, IsBalanced-save_end}

accepted_open :
    (s from : OrderStatus)
    → decide_order_cancellation s ≡ OrderCancellationDecision.accepted from
    → is_final s ≡ false
unfolding decide_order_cancellation
accepted_open s from h = ground arith

module _ (js : Js) (draws : Draws) (command : OrderCancellationCommand) (o : Order) (db : Db)
    (there : find_order o.id db.orders ≡ some o) (b : IsBalanced db) where
  settle_cancellation-IsBalanced :
      (requested : EventEnvelope OrderCancellationRequestedPayload) (d : OrderCancellationDecision)
      (r : OrderCancellationProcessingResult) (db' : Db)
      → decide_order_cancellation o.status ≡ d
      → settle_cancellation js draws command o requested d db ≡ ok (r, db')
      → IsBalanced db'
  unfolding settle_cancellation create_user_order_cancelled_event
      create_order_cancellation_rejected_event
  settle_cancellation-IsBalanced requested (OrderCancellationDecision.rejected from reason) r db' d
        h =
      let (db1, saved, done) = >>=-eq-ok (save_outbox draws 1 o.id _ db) _ h in
      subst IsBalanced (ground arith)
        (IsBalanced-save_other draws 1 o.id _ db db1 saved (λ k. refl) b)
  settle_cancellation-IsBalanced requested (OrderCancellationDecision.accepted from) r db' d h =
      let (db1, saved, done) = >>=-eq-ok (save_outbox draws 1 o.id _ _) _ h in
      subst IsBalanced (ground arith) (
        IsBalanced-save_end draws 1 o.id _ db db1 o (with_status draws OrderStatus.cancelled o)
          saved refl there (accepted_open o.status from d) refl (λ k. refl) b)

cancel_found-IsBalanced :
    (js : Js) (draws : Draws) (command : OrderCancellationCommand) (id : String)
    (found : Option Order) (db : Db) (r : OrderCancellationProcessingResult) (db' : Db)
    → find_order id db.orders ≡ found
    → IsBalanced db
    → cancel_found js draws command found db ≡ ok (r, db')
    → IsBalanced db'
unfolding cancel_found create_order_cancellation_requested_event
cancel_found-IsBalanced js draws command id none db r db' there b h =
    subst IsBalanced (ground arith) b
cancel_found-IsBalanced js draws command id (some o) db r db' there b h =
    let (db1, saved, rest) = >>=-eq-ok (save_outbox draws 0 o.id _ db) _ h in
    let shape = save_outbox-eq-ok draws 0 o.id _ db db1 saved in
    let at_id : o.id ≡ id = find_order-id id db.orders o there in
    let same : db1.orders ≡ db.orders = ap (λ (d : Db). d.orders) shape in
    settle_cancellation-IsBalanced js draws command o db1
      (rw same (subst (λ j. find_order j db.orders ≡ some o) (sym at_id) there))
      (IsBalanced-save_other draws 0 o.id _ db db1 saved (λ k. refl) b) _ _ r db' refl rest

-- Whatever `cancelOrder` commits, the balance stands.
pub cancel_order-IsBalanced :
    (js : Js) (draws : Draws) (command : OrderCancellationCommand) (db : Db)
    (r : OrderCancellationProcessingResult) (db' : Db)
    → IsBalanced db
    → cancel_order js draws command db ≡ ok (r, db')
    → IsBalanced db'
unfolding cancel_order
cancel_order-IsBalanced js draws command db r db' b h =
    cancel_found-IsBalanced js draws command command.order_id
      (find_order command.order_id db.orders) db r db' refl b h
