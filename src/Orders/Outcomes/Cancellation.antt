-- ===== src/Orders/Outcomes/Cancellation.antt =====
-- What a committed cancellation leaves in the outbox.
pub mod Answer
use kafka_nest_playground.Prelude.{
  String, Bool, true, false, sym, ◌≡◌, refl, ◌∙◌, ap, subst, List, [], ◌∷◌, ◌++◌, Option, none,
  some, append_assoc, arith,
}
use kafka_nest_playground.Prelude.Tx.{ok, >>=-eq-ok}
use kafka_nest_playground.Contracts.Topics
use kafka_nest_playground.Contracts.Events.{
  EventEnvelope, DomainEvent, Payload, event_topic_map, OrderCancellationRequestedPayload,
  OrderCancelledPayload, OrderCancellationRejectedPayload, Requester, CancelledBy, with_payload,
}
use kafka_nest_playground.Outbox.Entity.{OutboxEvent}
use kafka_nest_playground.Orders.Entity.{OrderStatus, status_text, Order, Js, Draws}
use kafka_nest_playground.Orders.Cancellation.{
  OrderCancellationCommand, OrderCancellationDecision, RejectedReason, decide_order_cancellation,
  rejected_reason_text, requester_cancels, create_order_cancellation_requested_event,
  create_user_order_cancelled_event, create_order_cancellation_rejected_event,
}
use kafka_nest_playground.Dlq.Conforms.{ok-injective}
use kafka_nest_playground.Orders.Tables.{Db, find_order}
use kafka_nest_playground.Orders.Tables.Laws.{find_order-id}
use kafka_nest_playground.Orders.Repository.{OrderCancellationProcessingResult, save_outbox}
use kafka_nest_playground.Orders.Repository.Lifecycle.{with_status}
use kafka_nest_playground.Orders.Repository.Cancel.{settle_cancellation, cancel_found, cancel_order}
use kafka_nest_playground.Orders.Repository.Outbox.{outbox_row, outbox-save_outbox}
use kafka_nest_playground.Orders.Outcomes.{IsOrderRow, outbox_row-IsOrderRow}
use kafka_nest_playground.Orders.Outcomes.Cancellation.Answer.{
  events_of, is_open, refused_for, canceller, by_canceller, IsRequested, IsCancelled, IsRefused,
  Answers, IsRequestAndAnswer, open_accepted, closed_rejected,
}

module _ (js : Js) (draws : Draws) (command : OrderCancellationCommand) (o : Order) where
  settle_cancellation-outbox :
      (requested : EventEnvelope OrderCancellationRequestedPayload) (d : OrderCancellationDecision)
      (db : Db) (r : OrderCancellationProcessingResult) (db' : Db)
      → decide_order_cancellation o.status ≡ d
      → settle_cancellation js draws command o requested d db ≡ ok (r, db')
      → (second : DomainEvent) × (events_of r
          ≡ some (
            with_payload requested (Payload.order_cancellation_requested requested.payload),
            second,
          ))
        × (db'.outbox ≡ db.outbox ++ outbox_row draws 1 o.id second ∷ [])
        × (event_topic_map second.payload ≡ Topics.order_order_events)
        × (second.causation_id ≡ some requested.event_id)
        × (second.correlation_id ≡ requested.correlation_id)
        × Answers command o r second.payload
  unfolding settle_cancellation create_user_order_cancelled_event
      create_order_cancellation_rejected_event
  settle_cancellation-outbox requested (OrderCancellationDecision.rejected from reason) db r db'
        decided h =
      let (db1, saved, done) = >>=-eq-ok (save_outbox draws 1 o.id _ db) _ h in
      let shape = outbox-save_outbox draws 1 o.id _ db db1 saved in
      let answer =
        create_order_cancellation_rejected_event (draws.uuid 2) o command requested
          (rejected_reason_text reason) (js.to_iso_string draws.now) in
      (
        with_payload answer (Payload.order_cancellation_rejected answer.payload),
        ground arith,
        ground arith,
        refl,
        refl,
        refl,
        subst
            (λ (x : OrderCancellationProcessingResult × Db).
              Answers command o x.0 (Payload.order_cancellation_rejected answer.payload))
            (ok-injective done)
            (
              (closed_rejected o.status from reason decided).0,
              refl,
              record {
                answer = answer.payload;
                is_answer = refl;
                order_id = refl;
                user_id = refl;
                reason = refl;
                requested_by = refl;
                current_status = refl;
                rejected_reason = (closed_rejected o.status from reason decided).1;
              },
            ),
      )
  settle_cancellation-outbox requested (OrderCancellationDecision.accepted from) db r db' decided
        h =
      let (db1, saved, done) = >>=-eq-ok (save_outbox draws 1 o.id _ _) _ h in
      let shape = outbox-save_outbox draws 1 o.id _ _ db1 saved in
      let answer =
        create_user_order_cancelled_event (draws.uuid 2) (with_status draws OrderStatus.cancelled o)
          command requested (js.to_iso_string draws.now) in
      (
        with_payload answer (Payload.order_cancelled answer.payload),
        ground arith,
        ground arith,
        refl,
        refl,
        refl,
        subst
            (λ (x : OrderCancellationProcessingResult × Db).
              Answers command o x.0 (Payload.order_cancelled answer.payload))
            (ok-injective done)
            (
              open_accepted o.status from decided,
              refl,
              record {
                answer = answer.payload;
                is_answer = refl;
                order_id = refl;
                user_id = refl;
                reason = refl;
                cancelled_by = by_canceller command.requested_by;
              },
            ),
      )

  cancel_found-IsRequestAndAnswer :
      (db : Db) (r : OrderCancellationProcessingResult) (db' : Db)
      → cancel_found js draws command (some o) db ≡ ok (r, db')
      → (first second : DomainEvent) × (events_of r ≡ some (first, second))
        × IsRequestAndAnswer command o r first second db.outbox db'.outbox
  unfolding cancel_found create_order_cancellation_requested_event
  cancel_found-IsRequestAndAnswer db r db' h =
      let requested =
        create_order_cancellation_requested_event (draws.uuid 1) (draws.uuid 0) o command
          (js.to_iso_string draws.now) in
      let request =
        with_payload requested (Payload.order_cancellation_requested requested.payload) in
      let (db1, saved, rest) = >>=-eq-ok (save_outbox draws 0 o.id request db) _ h in
      let shape1 = outbox-save_outbox draws 0 o.id request db db1 saved in
      let (answer, reported, shape2, topic, caused, correlated, answered) =
        settle_cancellation-outbox requested (decide_order_cancellation o.status) db1 r db' refl
          rest in
      (
        request,
        answer,
        reported,
        record {
          row1 = outbox_row draws 0 o.id request;
          row2 = outbox_row draws 1 o.id answer;
          appended =
              shape2
              ∙ ap (λ (l : List OutboxEvent). l ++ outbox_row draws 1 o.id answer ∷ []) shape1
              ∙ append_assoc db.outbox (outbox_row draws 0 o.id request ∷ [])
                  (outbox_row draws 1 o.id answer ∷ []);
          request_row = outbox_row-IsOrderRow draws 0 o.id request refl;
          answer_row = outbox_row-IsOrderRow draws 1 o.id answer topic;
          requested = record {
            request = requested.payload;
            is_request = refl;
            order_id = refl;
            user_id = refl;
            reason = refl;
            requested_by = refl;
          };
          answered = answered;
          caused = caused;
          correlated = correlated;
        },
      )

-- A committed cancellation of an order that is there, whatever its status, appends exactly two
-- pending rows to the outbox, and its result reports their events: an `OrderCancellationRequested`
-- event with the order, its owner, and the command's reason and requester, and then the event that
-- answers it, an `OrderCancelled` event by that requester where the order is pending or
-- risk-approved, and otherwise an `OrderCancellationRejected` event that names the order's status
-- and why. Both rows are keyed by the order and addressed to the order topic, and the answer has the
-- request as its cause and its correlation id.
pub cancel_order-IsRequestAndAnswer :
    (js : Js) (draws : Draws) (command : OrderCancellationCommand) (db : Db) (o : Order)
    (r : OrderCancellationProcessingResult) (db' : Db)
    → find_order command.order_id db.orders ≡ some o
    → cancel_order js draws command db ≡ ok (r, db')
    → (first second : DomainEvent) × (events_of r ≡ some (first, second))
      × IsRequestAndAnswer command o r first second db.outbox db'.outbox
      × (o.id ≡ command.order_id)
unfolding cancel_order
cancel_order-IsRequestAndAnswer js draws command db o r db' there h =
    let (first, second, reported, rows) =
      cancel_found-IsRequestAndAnswer js draws command o db r db'
        (ap (λ (found : Option Order). cancel_found js draws command found db) (sym there) ∙ h) in
    (first, second, reported, rows, find_order-id command.order_id db.orders o there)
