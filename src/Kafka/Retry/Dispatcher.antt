-- ===== src/Kafka/Retry/Dispatcher.antt =====
-- packages/kafka/src/retry/kafka-retry-dispatcher.ts: the message that a failure sends on.
use kafka_nest_playground.Prelude.{ℕ, String, Bool, true, false, Option, none, some}
use kafka_nest_playground.Prelude.Tx.{Result, ok, ◌>>=◌}
use kafka_nest_playground.Contracts.Events.{DomainEvent, Payload}
use kafka_nest_playground.Outbox.Entity.{TraceCarrier}
use kafka_nest_playground.Kafka.Headers
use kafka_nest_playground.Kafka.Headers.{
  Node, KafkaHeaders, HeaderValue, with_header, published_headers,
}
use kafka_nest_playground.Kafka.Errors.{Thrown}
use kafka_nest_playground.Kafka.Retry.Policy.{
  KafkaRetryRouteConfig, KafkaRetryDecision, decide_failure,
}

pub record KafkaConsumerMessageContext : Type 0 where
  pub topic : String
  pub partition : ℕ
  pub offset : String
  pub key : Option String
  pub headers : KafkaHeaders
  pub event : DomainEvent

-- What the producer sends.
pub record SentMessage : Type 0 where
  pub topic : String
  pub key : String
  pub event : DomainEvent
  pub headers : KafkaHeaders

-- The module's options, and what one dispatch draws from its surroundings.
pub record DispatchSetup : Type 0 where
  pub node : Node
  pub config : KafkaRetryRouteConfig
  pub service_name : String
  pub dead_letter_topic : Option String
  pub now : String
  pub uuid : String
  pub trace : TraceCarrier
  pub stringify : DomainEvent → String

unfoldable pub build_retry_headers : Node → KafkaHeaders → KafkaRetryDecision → KafkaHeaders
build_retry_headers node current decision =
    with_header Headers.error_code (some (HeaderValue.text decision.error_code)) (
      with_header Headers.first_failed_at (some (HeaderValue.text decision.first_failed_at)) (
        with_header Headers.original_topic (some (HeaderValue.text decision.original_topic)) (
          with_header Headers.retry_count
            (some (HeaderValue.text (node.to_text decision.retry_count))) current)))

-- `normalizeError`.
abbrev pub normalize_error : Thrown → String × Option String
normalize_error (Thrown.non_retryable error_code message stack) = (message, stack)
normalize_error (Thrown.error name message stack) = (message, stack)
normalize_error (Thrown.other text) = (text, none)

abbrev pub get_dead_letter_topic : Option String → String
get_dead_letter_topic none = "dead-letter.events"
get_dead_letter_topic (some topic) = topic

-- The event of `publishDeadLetter`.
unfoldable pub dead_letter_event :
    DispatchSetup → KafkaConsumerMessageContext → Thrown → KafkaRetryDecision → DomainEvent
dead_letter_event setup context thrown decision =
    let (message, stack) = normalize_error thrown in
    record {
      event_id = setup.uuid;
      event_version = 1;
      occurred_at = setup.now;
      correlation_id = context.event.correlation_id;
      causation_id = some context.event.event_id;
      producer = setup.service_name;
      payload = Payload.dead_letter (record {
        original_topic = decision.original_topic;
        original_partition = context.partition;
        original_offset = context.offset;
        error_message = message;
        error_stack = stack;
        raw_event = some (setup.stringify context.event);
      });
    }

-- `producer.publish({ topic, key, event, headers })`.
abbrev pub publish : DispatchSetup → String → String → DomainEvent → KafkaHeaders → SentMessage
publish setup topic key event headers = record {
  topic = topic;
  key = key;
  event = event;
  headers = published_headers setup.node setup.trace event none none headers;
}

abbrev pub message_key : KafkaConsumerMessageContext → String
message_key context = Headers.or_else context.key context.event.event_id

unfoldable pub send_on :
    DispatchSetup → KafkaConsumerMessageContext → Thrown → KafkaRetryDecision → Bool → SentMessage
unfolding build_retry_headers dead_letter_event
send_on setup context thrown decision false =
    publish setup decision.destination_topic (message_key context) context.event
      (build_retry_headers setup.node context.headers decision)
send_on setup context thrown decision true =
    publish setup (get_dead_letter_topic setup.dead_letter_topic) (message_key context)
      (dead_letter_event setup context thrown decision)
      (build_retry_headers setup.node context.headers decision)

-- `dispatch`: the decision and the one message that it sends.
unfoldable pub dispatch :
    DispatchSetup → KafkaConsumerMessageContext → Thrown → Result (KafkaRetryDecision × SentMessage)
dispatch setup context thrown = do
  decision ← decide_failure setup.node setup.config context.topic context.headers thrown setup.now
  ok (decision, send_on setup context thrown decision decision.terminal)
