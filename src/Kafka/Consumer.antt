-- ===== src/Kafka/Consumer.antt =====
-- packages/kafka/src/consumer/kafka-consumer-runner.ts: the handlers, and what becomes of one message.
-- The loop of KafkaJS around `eachMessage`, spans, metrics and log lines are left out.
pub mod Messages
pub mod Delay
use kafka_nest_playground.Prelude.{
  ℕ, zero, suc, ◌-◌, String, Bool, true, false, List, [], ◌∷◌, ◌++◌, Option, none, some, any, min,
  if◌then◌else◌, ◌==◌,
}
use kafka_nest_playground.Prelude.Text.{is_empty}
use kafka_nest_playground.Prelude.Tx.{Result, ok, err, Error, ◌>>=◌, ◌>>◌, guard}
use kafka_nest_playground.Contracts.Events.{DomainEvent}
use kafka_nest_playground.Kafka.Headers
use kafka_nest_playground.Kafka.Headers.{Node, KafkaHeaders, read_header, or_else}
use kafka_nest_playground.Kafka.Errors.{Thrown}
use kafka_nest_playground.Kafka.Retry.Policy.{
  KafkaRetryDecision, includes, supports, get_subscription_topics, KafkaRetryRouteConfig,
}
use kafka_nest_playground.Kafka.Retry.Dispatcher.{
  KafkaConsumerMessageContext, SentMessage, DispatchSetup, dispatch,
}

-- A handler succeeds, or throws.
abbrev pub KafkaConsumeHandler : Type 0
KafkaConsumeHandler = KafkaConsumerMessageContext → Option Thrown

pub record KafkaConsumerRegistration : Type 0 where
  pub topics : List String
  pub from_beginning : Bool
  pub handler : KafkaConsumeHandler

pub record Runner : Type 0 where
  pub registrations : List KafkaConsumerRegistration
  pub started : Bool

-- `registrations.find((registration) => registration.topics.includes(topic))`.
unfoldable pub find_registration :
    String → List KafkaConsumerRegistration → Option KafkaConsumerRegistration
find_registration topic [] = none
find_registration topic (r ∷ rs) =
    if includes r.topics topic then some r else find_registration topic rs

-- `topics.find(…)`: the first topic that has a handler.
unfoldable pub first_taken : List KafkaConsumerRegistration → List String → Option String
first_taken registrations [] = none
first_taken registrations (topic ∷ topics) =
    if any (λ (r : KafkaConsumerRegistration). includes r.topics topic) registrations
    then some topic
    else first_taken registrations topics

-- `if (duplicateTopic)`: an empty text does not count.
abbrev pub is_taken : Option String → Bool
is_taken none = false
is_taken (some topic) = if is_empty topic then false else true

-- `register`, which `subscribe` and `subscribeMany` call.
unfoldable pub register :
    (topics : List String) (from_beginning : Option Bool)
    → KafkaConsumeHandler
    → Runner
    → Result Runner
register topics from_beginning handler runner =
    if runner.started
    then err
        (Error.plain_error "Kafka subscriptions must be registered before application bootstrap")
    else if is_taken (first_taken runner.registrations topics)
    then err (Error.plain_error "Kafka handler is already registered")
    else ok (record runner {
      registrations =
          runner.registrations
          ++ record {
            topics = topics;
            from_beginning = elim from_beginning [ none ↦ false | some b ↦ b ];
            handler = handler;
          }
            ∷ [];
    })

abbrev pub handler_of : Option KafkaConsumerRegistration → Option KafkaConsumeHandler
handler_of none = none
handler_of (some r) = some r.handler

-- `directRegistration`, or the fall-back.
abbrev pub own_or :
    Option KafkaConsumerRegistration → Option KafkaConsumeHandler → Option KafkaConsumeHandler
own_or none fall_back = fall_back
own_or (some r) fall_back = some r.handler

-- `resolveHandler`: the topic's own handler, or that of the original topic.
unfoldable pub resolve_handler :
    Node → List KafkaConsumerRegistration → String → KafkaHeaders → Option KafkaConsumeHandler
resolve_handler node registrations current headers =
    own_or (find_registration current registrations) (
      handler_of (
        find_registration (or_else (read_header node headers Headers.original_topic) current)
          registrations))

-- What the codec makes of the message's value, which may be missing.
pub data Decoded : Type 0 where
  decoded : DomainEvent → Decoded
  undecodable : Thrown → Decoded

pub record ConsumedMessage : Type 0 where
  pub topic : String
  pub partition : ℕ
  pub offset : String
  pub key : Option String
  pub headers : KafkaHeaders
  pub value : Decoded

-- The message is done with, or sent on; or KafkaJS gets the error and delivers it again.
pub data Delivery : Type 0 where
  handled : Delivery
  sent_on : KafkaRetryDecision → SentMessage → Delivery
  rethrown : Thrown → Delivery

-- Its stack is left out.
abbrev pub no_handler : Thrown
no_handler = Thrown.error "Error" "Kafka handler is not registered for topic" none

abbrev pub context_of : ConsumedMessage → DomainEvent → KafkaConsumerMessageContext
context_of message event = record {
  topic = message.topic;
  partition = message.partition;
  offset = message.offset;
  key = message.key;
  headers = message.headers;
  event = event;
}

abbrev pub run_handler : Option KafkaConsumeHandler → KafkaConsumerMessageContext → Option Thrown
run_handler none context = some no_handler
run_handler (some handler) context = handler context

abbrev pub not_configured : Thrown
not_configured = Thrown.error "Error" "Retry policy is not configured for topic" none

-- What a dispatch ends with, where the broker takes its message or refuses it with an error.
abbrev pub dispatched : Option Thrown → Result (KafkaRetryDecision × SentMessage) → Delivery
dispatched none (ok (decision, sent)) = Delivery.sent_on decision sent
dispatched (some thrown) (ok (decision, sent)) = Delivery.rethrown thrown
dispatched broker (err e) = Delivery.rethrown not_configured

-- The `catch`, once there is an event.
unfoldable pub on_failure :
    DispatchSetup → (broker : Option Thrown) → KafkaConsumerMessageContext → Thrown → Delivery
on_failure setup broker context thrown =
    if supports setup.node setup.config context.topic context.headers
    then dispatched broker (dispatch setup context thrown)
    else Delivery.rethrown thrown

-- From the end of the handler on.
unfoldable pub deliver :
    DispatchSetup
    → (broker : Option Thrown) → KafkaConsumerMessageContext
    → Option Thrown
    → Delivery
deliver setup broker context none = Delivery.handled
deliver setup broker context (some thrown) = on_failure setup broker context thrown

-- From the codec on; without an event the error goes to KafkaJS.
unfoldable pub process_value :
    DispatchSetup
    → (broker : Option Thrown) → List KafkaConsumerRegistration
    → ConsumedMessage
    → Decoded
    → Delivery
process_value setup broker registrations message (Decoded.undecodable thrown) =
    Delivery.rethrown thrown
process_value setup broker registrations message (Decoded.decoded event) =
    deliver setup broker (context_of message event) (
      run_handler (resolve_handler setup.node registrations message.topic message.headers)
        (context_of message event))

-- `eachMessage`, after the delay of its topic.
unfoldable pub each_message :
    DispatchSetup
    → (broker : Option Thrown) → List KafkaConsumerRegistration
    → ConsumedMessage
    → Delivery
each_message setup broker registrations message =
    process_value setup broker registrations message message.value

-- The waits of `delayWithHeartbeat`, each with a heartbeat after it, on fuel.
unfoldable pub waits : (fuel remaining_ms : ℕ) → List ℕ
waits zero remaining_ms = []
waits (suc fuel) zero = []
waits (suc fuel) (suc n) = min 3000 (suc n) ∷ waits fuel (suc n - min 3000 (suc n))

-- `delayWithHeartbeat`; every wait is at least a millisecond, so the delay is fuel enough.
unfoldable pub delay_with_heartbeat : ℕ → List ℕ
delay_with_heartbeat delay_ms = waits delay_ms delay_ms
