-- ===== src/Orders/Outcomes/Cancellation/Answer.antt =====
-- What the two events of a cancellation say, written out apart from the code.
use kafka_nest_playground.Prelude.{
  String, Bool, true, false, ◌≡◌, refl, List, [], ◌∷◌, ◌++◌, Option, none, some, arith,
}
use kafka_nest_playground.Contracts.Events.{
  DomainEvent, Payload, OrderCancellationRequestedPayload, OrderCancelledPayload,
  OrderCancellationRejectedPayload, Requester, CancelledBy,
}
use kafka_nest_playground.Outbox.Entity.{OutboxEvent}
use kafka_nest_playground.Orders.Entity.{OrderStatus, status_text, Order}
use kafka_nest_playground.Orders.Cancellation.{
  OrderCancellationCommand, OrderCancellationDecision, RejectedReason, decide_order_cancellation,
  rejected_reason_text, requester_cancels,
}
use kafka_nest_playground.Orders.Repository.{OrderCancellationProcessingResult}
use kafka_nest_playground.Orders.Outcomes.{IsOrderRow}

-- The two events that a cancellation reports.
abbrev pub events_of : OrderCancellationProcessingResult → Option (DomainEvent × DomainEvent)
events_of (OrderCancellationProcessingResult.accepted previous e1 e2) = some (e1, e2)
events_of (OrderCancellationProcessingResult.rejected status e1 e2) = some (e1, e2)
events_of OrderCancellationProcessingResult.unknown_order = none

-- The statuses in which an order may be cancelled, and why it may not in the others.
abbrev pub is_open : OrderStatus → Bool
is_open OrderStatus.pending = true
is_open OrderStatus.risk_approved = true
is_open _ = false

abbrev pub refused_for : OrderStatus → String
refused_for OrderStatus.cancelled = "already_cancelled"
refused_for OrderStatus.confirmed = "already_confirmed"
refused_for _ = "invalid_status"

abbrev pub canceller : Requester → CancelledBy
canceller Requester.user = CancelledBy.user
canceller Requester.operator = CancelledBy.operator

pub by_canceller : (r : Requester) → requester_cancels r ≡ canceller r
by_canceller Requester.user = refl
by_canceller Requester.operator = refl

-- What the payloads of the three events say of the command and of the order.
pub record IsRequested (command : OrderCancellationCommand) (o : Order) (payload : Payload)
    : Type 0 where
  pub request : OrderCancellationRequestedPayload
  pub is_request : payload ≡ Payload.order_cancellation_requested request
  pub order_id : request.order_id ≡ o.id
  pub user_id : request.user_id ≡ o.user_id
  pub reason : request.reason ≡ command.reason
  pub requested_by : request.requested_by ≡ command.requested_by

pub record IsCancelled (command : OrderCancellationCommand) (o : Order) (payload : Payload)
    : Type 0 where
  pub answer : OrderCancelledPayload
  pub is_answer : payload ≡ Payload.order_cancelled answer
  pub order_id : answer.order_id ≡ o.id
  pub user_id : answer.user_id ≡ o.user_id
  pub reason : answer.reason ≡ command.reason
  pub cancelled_by : answer.cancelled_by ≡ canceller command.requested_by

pub record IsRefused (command : OrderCancellationCommand) (o : Order) (payload : Payload)
    : Type 0 where
  pub answer : OrderCancellationRejectedPayload
  pub is_answer : payload ≡ Payload.order_cancellation_rejected answer
  pub order_id : answer.order_id ≡ o.id
  pub user_id : answer.user_id ≡ o.user_id
  pub reason : answer.reason ≡ command.reason
  pub requested_by : answer.requested_by ≡ command.requested_by
  pub current_status : answer.current_status ≡ status_text o.status
  pub rejected_reason : answer.rejected_reason ≡ refused_for o.status

-- The answer that the status calls for, and the result that reports it.
abbrev pub Answers :
    OrderCancellationCommand → Order → OrderCancellationProcessingResult → Payload → Type 0
Answers command o (OrderCancellationProcessingResult.accepted previous e1 e2) payload =
    (is_open o.status ≡ true) × (previous ≡ o.status) × IsCancelled command o payload
Answers command o (OrderCancellationProcessingResult.rejected status e1 e2) payload =
    (is_open o.status ≡ false) × (status ≡ o.status) × IsRefused command o payload
Answers command o OrderCancellationProcessingResult.unknown_order payload = ⊥

-- The pair of rows, first the request's, then the answer's, which names the request as its cause.
pub record IsRequestAndAnswer (command : OrderCancellationCommand) (o : Order)
    (r : OrderCancellationProcessingResult) (first second : DomainEvent)
    (before after : List OutboxEvent) : Type 0 where
  pub row1 : OutboxEvent
  pub row2 : OutboxEvent
  pub appended : after ≡ before ++ row1 ∷ row2 ∷ []
  pub request_row : IsOrderRow o.id first row1
  pub answer_row : IsOrderRow o.id second row2
  pub requested : IsRequested command o first.payload
  pub answered : Answers command o r second.payload
  pub caused : second.causation_id ≡ some first.event_id
  pub correlated : second.correlation_id ≡ first.correlation_id

pub open_accepted :
    (s from : OrderStatus)
    → decide_order_cancellation s ≡ OrderCancellationDecision.accepted from
    → is_open s ≡ true
unfolding decide_order_cancellation
open_accepted s from h = ground arith

pub closed_rejected :
    (s from : OrderStatus) (reason : RejectedReason)
    → decide_order_cancellation s ≡ OrderCancellationDecision.rejected from reason
    → (is_open s ≡ false) × (rejected_reason_text reason ≡ refused_for s)
unfolding decide_order_cancellation
closed_rejected s from reason h = grind arith
