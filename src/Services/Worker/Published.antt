-- ===== src/Services/Worker/Published.antt =====
-- What a worker publishes for an event, over any deliveries and crashes.
use kafka_nest_playground.Prelude.{
  ℕ, zero, suc, get_elem?, ap, subst, String, ◌≡◌, refl, ◌∙◌, sym, true, List, [], ◌∷◌, Option,
  none, some, eq_refl,
}
use kafka_nest_playground.Prelude.Decimal.{All}
use kafka_nest_playground.Prelude.Tx.{ok}
use kafka_nest_playground.Contracts.Events.{DomainEvent, Payload}
use kafka_nest_playground.Orders.Entity.{Js, Draws}
use kafka_nest_playground.Orders.Tables.{Db}
use kafka_nest_playground.Orders.Repository.{
  ProcessLifecycleEventParams, OrderLifecycleProcessingResult,
}
use kafka_nest_playground.Orders.Repository.Lifecycle.{process_lifecycle_event}
use kafka_nest_playground.Orders.History.{Request, run}
use kafka_nest_playground.Orders.History.Once.{redelivery_ignored}
use kafka_nest_playground.Services.{Crypto, Doubles}
use kafka_nest_playground.Services.EventId.{create_deterministic_event_id}
use kafka_nest_playground.Services.Risk.{RiskScorer, prepare_risk_event, create_risk_event}
use kafka_nest_playground.Services.Payment.{
  PaymentSettings, prepare_payment_event, create_payment_event,
}
use kafka_nest_playground.Kafka.Inbox.{InboxRow}
use kafka_nest_playground.Services.Worker.{
  Host, Delivery, Sent, Service, prepare_risk, prepare_payment, prepare_answer, worker_of,
  deliver_all,
}
use kafka_nest_playground.Services.Worker.Own.{own_result}
use kafka_nest_playground.Services.Worker.Ids.{
  HasOwnId, IsOwnInbox, HasHonestOthers, deliver_all-HasOwnId,
}

-- The id of the answer of a service to an event.
abbrev pub answer_id : Crypto → Service → String → String
answer_id crypto (Service.risk_service scorer) e =
    create_deterministic_event_id crypto "risk-service:risk-result" e
answer_id crypto (Service.payment_service settings) e =
    create_deterministic_event_id crypto "payment-service:payment-result" e

own_result-prepare_risk :
    (crypto : Crypto) (d : Doubles) (scorer : RiskScorer) (now : String) (event : DomainEvent)
    (payload : Payload)
    → own_result
        (answer_id crypto (Service.risk_service scorer) event.event_id)
        (prepare_risk crypto d scorer now event payload)
      ≡ true
unfolding prepare_risk_event create_risk_event
own_result-prepare_risk crypto d scorer now event (Payload.order_created p) = eq_refl _
own_result-prepare_risk crypto d scorer now event (Payload.order_cancellation_requested p) = refl
own_result-prepare_risk crypto d scorer now event (Payload.order_cancellation_rejected p) = refl
own_result-prepare_risk crypto d scorer now event (Payload.order_confirmed p) = refl
own_result-prepare_risk crypto d scorer now event (Payload.order_cancelled p) = refl
own_result-prepare_risk crypto d scorer now event (Payload.order_risk_approved p) = refl
own_result-prepare_risk crypto d scorer now event (Payload.order_risk_rejected p) = refl
own_result-prepare_risk crypto d scorer now event (Payload.payment_authorized p) = refl
own_result-prepare_risk crypto d scorer now event (Payload.payment_failed p) = refl
own_result-prepare_risk crypto d scorer now event (Payload.notification_command p) = refl
own_result-prepare_risk crypto d scorer now event (Payload.dead_letter p) = refl

own_result-prepare_payment :
    (crypto : Crypto) (d : Doubles) (settings : PaymentSettings) (now uuid : String)
    (event : DomainEvent) (payload : Payload)
    → own_result
        (answer_id crypto (Service.payment_service settings) event.event_id)
        (prepare_payment crypto d settings now uuid event payload)
      ≡ true
unfolding prepare_payment_event create_payment_event
own_result-prepare_payment crypto d settings now uuid event (Payload.order_created p) = refl
own_result-prepare_payment crypto d settings now uuid event
      (Payload.order_cancellation_requested p) =
    refl
own_result-prepare_payment crypto d settings now uuid event
      (Payload.order_cancellation_rejected p) =
    refl
own_result-prepare_payment crypto d settings now uuid event (Payload.order_confirmed p) = refl
own_result-prepare_payment crypto d settings now uuid event (Payload.order_cancelled p) = refl
own_result-prepare_payment crypto d settings now uuid event (Payload.order_risk_approved p) =
    eq_refl _
own_result-prepare_payment crypto d settings now uuid event (Payload.order_risk_rejected p) = refl
own_result-prepare_payment crypto d settings now uuid event (Payload.payment_authorized p) = refl
own_result-prepare_payment crypto d settings now uuid event (Payload.payment_failed p) = refl
own_result-prepare_payment crypto d settings now uuid event (Payload.notification_command p) = refl
own_result-prepare_payment crypto d settings now uuid event (Payload.dead_letter p) = refl

own_result-prepare_answer :
    (crypto : Crypto) (d : Doubles) (service : Service) (now uuid : String) (event : DomainEvent)
    → own_result
        (answer_id crypto service event.event_id)
        (prepare_answer crypto d service now uuid event)
      ≡ true
own_result-prepare_answer crypto d (Service.risk_service scorer) now uuid event =
    own_result-prepare_risk crypto d scorer now event event.payload
own_result-prepare_answer crypto d (Service.payment_service settings) now uuid event =
    own_result-prepare_payment crypto d settings now uuid event event.payload

abbrev or_first : {A : Type 0} → A → Option A → A
or_first x none = x
or_first x (some y) = y

All-get_elem? :
    {A : Type 0} (P : A → Type 0) (xs : List A) (i : ℕ) (x : A)
    → All P xs
    → get_elem? xs i ≡ some x
    → P x
All-get_elem? P [] i x all h = cc
All-get_elem? P (y ∷ ys) zero x all h = subst (λ o. P (or_first y o)) h all.0
All-get_elem? P (y ∷ ys) (suc i) x all h = All-get_elem? P ys i x all.1 h

-- The risk service and the payment service answer an event once, as far as the order service is
-- concerned. Take any two messages that a service sent in answer to the same event, however often
-- that and other events were delivered, with publications that failed, leases that were lost and
-- other processes that used the inbox in between: once the order service has committed an event with
-- the id of the one, it ignores an event with the id of the other as a duplicate, after any calls of
-- its own in between. The other processes save, under the service's name, only results with the id
-- that belongs to their event, the inbox holds no others at the start, and the JSON of the inbox
-- keeps the ids of events.
pub answered_once :
    (crypto : Crypto) (d : Doubles) (service : Service) (consumer_name : String) (host : Host)
    (ds : List Delivery) (rows : List (InboxRow DomainEvent)) (i j : ℕ) (a b : Sent) (js : Js)
    (draws draws' : Draws) (params again : ProcessLifecycleEventParams) (db db1 : Db)
    (r : OrderLifecycleProcessingResult) (between : List (Draws × Request))
    → ((event : DomainEvent) → (host.json event).event_id ≡ event.event_id)
    → All
        (HasHonestOthers host (worker_of crypto d service consumer_name) (answer_id crypto service))
        ds
    → IsOwnInbox host (worker_of crypto d service consumer_name) (answer_id crypto service) rows
    → get_elem? (deliver_all host (worker_of crypto d service consumer_name) ds rows).0 i ≡ some a
    → get_elem? (deliver_all host (worker_of crypto d service consumer_name) ds rows).0 j ≡ some b
    → a.incoming ≡ b.incoming
    → process_lifecycle_event js draws params db ≡ ok (r, db1)
    → params.event.event_id ≡ a.message.event.event_id
    → again.event.event_id ≡ b.message.event.event_id
    → process_lifecycle_event js draws' again (run js between db1)
      ≡ ok (OrderLifecycleProcessingResult.duplicate_event, run js between db1)
answered_once crypto d service consumer_name host ds rows i j a b js draws draws' params again db
      db1 r between json_keeps honest own is_a is_b same committed of_a of_b =
    let worker = worker_of crypto d service consumer_name in
    let all =
      (deliver_all-HasOwnId host worker (answer_id crypto service) json_keeps
        (own_result-prepare_answer crypto d service) ds rows honest own).0 in
    let id_a = All-get_elem? (HasOwnId (answer_id crypto service)) _ i a all is_a in
    let id_b = All-get_elem? (HasOwnId (answer_id crypto service)) _ j b all is_b in
    redelivery_ignored js draws draws' params again db db1 r between committed
      (of_b ∙ id_b ∙ ap (answer_id crypto service) (sym same) ∙ sym id_a ∙ sym of_a)
