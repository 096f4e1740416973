-- ===== src/Services/Worker.antt =====
-- risk.consumer.ts with publishRiskEvent, and payment.consumer.ts with publishPaymentEvent: an event
-- that comes in goes through the inbox, and the result that it has there is published.
pub mod Own
pub mod Runs
pub mod Ids
pub mod Saved
pub mod Published
pub mod Chain
use kafka_nest_playground.Prelude.{ℕ, String, false, List, [], ◌∷◌, ◌++◌, map, Option, none, some}
use kafka_nest_playground.Contracts.Events.{
  EventEnvelope, DomainEvent, Payload, OrderCreatedPayload, OrderRiskApprovedPayload, with_payload,
  event_topic_map,
}
use kafka_nest_playground.Outbox.Entity.{TraceCarrier}
use kafka_nest_playground.Kafka.Headers.{Node, empty_headers, published_headers}
use kafka_nest_playground.Kafka.Errors.{Thrown}
use kafka_nest_playground.Kafka.Inbox.{InboxRow}
use kafka_nest_playground.Kafka.Inbox.History.{InboxCall, run_inbox}
use kafka_nest_playground.Kafka.Inbox.Processor.{Promised, Run, process, Processed}
use kafka_nest_playground.Kafka.Retry.Dispatcher.{SentMessage}
use kafka_nest_playground.Services.{Crypto, Doubles}
use kafka_nest_playground.Services.Risk.{RiskScorer, prepare_risk_event}
use kafka_nest_playground.Services.Payment.{PaymentSettings, prepare_payment_event}

-- A service: its consumer group, and what it prepares of an event that it handles.
pub record Worker : Type 0 where
  pub consumer_name : String
  pub prepare : (now uuid : String) → DomainEvent → Option DomainEvent

-- `event.eventType === "OrderCreated"`, or the event is skipped.
abbrev pub prepare_risk :
    Crypto → Doubles → RiskScorer → (now : String) → DomainEvent → Payload → Option DomainEvent
prepare_risk crypto d scorer now event (Payload.order_created p) =
    some (prepare_risk_event crypto d scorer now (with_payload event p))
prepare_risk crypto d scorer now event other = none

-- `event.eventType === "OrderRiskApproved"`, or the event is skipped.
abbrev pub prepare_payment :
    Crypto
    → Doubles
    → PaymentSettings
    → (now uuid : String) → DomainEvent
    → Payload
    → Option DomainEvent
prepare_payment crypto d settings now uuid event (Payload.order_risk_approved p) =
    some (prepare_payment_event crypto d settings now uuid (with_payload event p))
prepare_payment crypto d settings now uuid event other = none

-- The two services, with their settings.
pub data Service : Type 0 where
  risk_service : RiskScorer → Service
  payment_service : PaymentSettings → Service

abbrev pub prepare_answer :
    Crypto → Doubles → Service → (now uuid : String) → DomainEvent → Option DomainEvent
prepare_answer crypto d (Service.risk_service scorer) now uuid event =
    prepare_risk crypto d scorer now event event.payload
prepare_answer crypto d (Service.payment_service settings) now uuid event =
    prepare_payment crypto d settings now uuid event event.payload

abbrev pub worker_of : Crypto → Doubles → Service → (consumer_name : String) → Worker
worker_of crypto d service consumer_name = record {
  consumer_name = consumer_name;
  prepare = prepare_answer crypto d service;
}

-- The key of a result; no worker prepares an event without an order.
abbrev pub order_id_of : Payload → String
order_id_of (Payload.order_created p) = p.order_id
order_id_of (Payload.order_cancellation_requested p) = p.order_id
order_id_of (Payload.order_cancellation_rejected p) = p.order_id
order_id_of (Payload.order_confirmed p) = p.order_id
order_id_of (Payload.order_cancelled p) = p.order_id
order_id_of (Payload.order_risk_approved p) = p.order_id
order_id_of (Payload.order_risk_rejected p) = p.order_id
order_id_of (Payload.payment_authorized p) = p.order_id
order_id_of (Payload.payment_failed p) = p.order_id
order_id_of (Payload.notification_command p) = ""
order_id_of (Payload.dead_letter p) = ""

-- What the process has beside its worker; `json` is what an event reads as in the inbox.
pub record Host : Type 0 where
  pub node : Node
  pub json : DomainEvent → DomainEvent

-- One delivery of an event: the process's clock and draws, the context of the span in which it
-- publishes, what the other processes call on the inbox between its statements, and how a publication
-- ends.
pub record Delivery : Type 0 where
  pub event : DomainEvent
  pub now : String
  pub uuid : String
  pub lock_token : String
  pub claimed_at : ℕ
  pub released_at : ℕ
  pub trace : TraceCarrier
  pub others : ℕ → List (InboxCall DomainEvent)
  pub outcome : Promised (Unit {0})

-- A message that was handed to the broker, with the id of the event that it answers.
pub record Sent : Type 0 where
  pub incoming : String
  pub message : SentMessage

-- `publishRiskEvent` and `publishPaymentEvent`; `trace` is the context of the producer's new span.
unfoldable pub publish_result : Host → TraceCarrier → DomainEvent → SentMessage
publish_result host trace event = record {
  topic = event_topic_map event.payload;
  key = order_id_of event.payload;
  event = event;
  headers =
      published_headers host.node trace event (some event.correlation_id) event.causation_id
        empty_headers;
}

abbrev pub run_of : Host → Worker → Delivery → Run DomainEvent
run_of host worker d = record {
  consumer_name = worker.consumer_name;
  event_id = d.event.event_id;
  lock_token = d.lock_token;
  claimed_at = d.claimed_at;
  released_at = d.released_at;
  meanwhile = λ n rows. run_inbox host.json (d.others n) rows;
}

-- The publication of a missing result would throw before it sends anything.
abbrev pub effect_of : Promised (Unit {0}) → Option DomainEvent → Promised (Unit {0})
effect_of outcome none = Promised.rejected (Thrown.error "TypeError" "the result is null" none)
effect_of outcome (some event) = outcome

abbrev pub sent_by :
    Host → TraceCarrier → (incoming : String) → List (Option DomainEvent) → List Sent
sent_by host trace incoming [] = []
sent_by host trace incoming (none ∷ effects) = sent_by host trace incoming effects
sent_by host trace incoming (some event ∷ effects) =
    record { incoming = incoming; message = publish_result host trace event }
    ∷ sent_by host trace incoming effects

-- The handler, with what the worker would prepare.
unfoldable pub handle :
    Host
    → Worker
    → Delivery
    → Option DomainEvent
    → List (InboxRow DomainEvent)
    → List Sent × List (InboxRow DomainEvent)
handle host worker d none rows = ([], rows)
handle host worker d (some result) rows =
    let processed =
      process host.json (run_of host worker d) (Promised.fulfilled (some result))
        (effect_of d.outcome) rows in
    (sent_by host d.trace d.event.event_id processed.effects, processed.rows)

-- Deliveries one after another, of any events, redeliveries included: what is sent, and the inbox.
unfoldable pub deliver_all :
    Host
    → Worker
    → List Delivery
    → List (InboxRow DomainEvent)
    → List Sent × List (InboxRow DomainEvent)
deliver_all host worker [] rows = ([], rows)
deliver_all host worker (d ∷ ds) rows =
    let (sent, rows') = handle host worker d (worker.prepare d.now d.uuid d.event) rows in
    let (later, rows'') = deliver_all host worker ds rows' in (sent ++ later, rows'')
