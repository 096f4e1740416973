-- ===== src/Kafka/Headers.antt =====
-- packages/kafka/src/kafka-headers.ts, and the headers that kafka-producer.service.ts sends. An
-- object of headers is the function of its names: `undefined` and a missing name read alike, so
-- `compactHeaders` has nothing to drop.
use kafka_nest_playground.Prelude.{ℕ, String, List, Option, none, some, if◌then◌else◌, ◌==◌}
use kafka_nest_playground.Contracts.Events.{DomainEvent, event_type}
use kafka_nest_playground.Outbox.Entity.{TraceCarrier}

-- A buffer is its bytes.
pub data HeaderValue : Type 0 where
  text : String → HeaderValue
  buffer : List ℕ → HeaderValue

abbrev pub KafkaHeaders : Type 0
KafkaHeaders = String → Option HeaderValue

-- The language's and Node's conversions: `buffer.toString("utf8")`, `String(n)`, and `Number(text)`
-- where it is an integer of at least 0.
pub record Node : Type 0 where
  pub utf8 : List ℕ → String
  pub to_text : ℕ → String
  pub number : String → Option ℕ

-- `KAFKA_HEADER_NAMES`.
abbrev pub correlation_id : String
correlation_id = "x-correlation-id"

abbrev pub causation_id : String
causation_id = "x-causation-id"

abbrev pub event_id : String
event_id = "x-event-id"

abbrev pub event_type_name : String
event_type_name = "x-event-type"

abbrev pub event_version : String
event_version = "x-event-version"

abbrev pub retry_count : String
retry_count = "x-retry-count"

abbrev pub original_topic : String
original_topic = "x-original-topic"

abbrev pub first_failed_at : String
first_failed_at = "x-first-failed-at"

abbrev pub error_code : String
error_code = "x-error-code"

abbrev pub trace_parent : String
trace_parent = "traceparent"

abbrev pub trace_state : String
trace_state = "tracestate"

abbrev pub trace_id : String
trace_id = "x-trace-id"

abbrev pub span_id : String
span_id = "x-span-id"

abbrev pub empty_headers : KafkaHeaders
empty_headers name = none

-- `{ ...headers, [name]: value }`.
abbrev pub with_header : String → Option HeaderValue → KafkaHeaders → KafkaHeaders
with_header name value headers other = if name == other then value else headers other

abbrev pub text_or_undefined : Option String → Option HeaderValue
text_or_undefined none = none
text_or_undefined (some value) = some (HeaderValue.text value)

-- A name that the trace does not set is left as it was.
abbrev pub with_trace_header : String → Option String → KafkaHeaders → KafkaHeaders
with_trace_header name none headers = headers
with_trace_header name (some value) headers =
    with_header name (some (HeaderValue.text value)) headers

-- `{ ...headers, ...traceHeaders }`.
abbrev pub with_trace : TraceCarrier → KafkaHeaders → KafkaHeaders
with_trace trace headers = with_trace_header span_id trace.x_span_id (
    with_trace_header trace_id trace.x_trace_id (
      with_trace_header trace_state trace.tracestate
        (with_trace_header trace_parent trace.traceparent headers)))

unfoldable pub build_kafka_headers : Node → DomainEvent → KafkaHeaders → KafkaHeaders
build_kafka_headers node event extra =
    with_header event_version (some (HeaderValue.text (node.to_text event.event_version))) (
      with_header event_type_name (some (HeaderValue.text (event_type event))) (
        with_header event_id (some (HeaderValue.text event.event_id)) (
          with_header causation_id (text_or_undefined event.causation_id)
            (with_header correlation_id (some (HeaderValue.text event.correlation_id)) extra))))

abbrev pub value_text : Node → HeaderValue → String
value_text node (HeaderValue.text t) = t
value_text node (HeaderValue.buffer bytes) = node.utf8 bytes

unfoldable pub read_header : Node → KafkaHeaders → String → Option String
read_header node headers name = elim (headers name) [
  | none ↦ none
  | some value ↦ some (value_text node value)
]

abbrev pub or_else : Option String → String → String
or_else none default = default
or_else (some value) default = value

abbrev pub or_option : Option String → Option String → Option String
or_option none other = other
or_option (some value) other = some value

-- The headers that `KafkaProducerService.publish` sends with an event; the two options are
-- `options.correlationId` and `options.causationId`.
unfoldable pub published_headers :
    Node
    → TraceCarrier
    → DomainEvent
    → (correlation causation : Option String) → KafkaHeaders
    → KafkaHeaders
unfolding build_kafka_headers
published_headers node trace event correlation causation headers = build_kafka_headers node event (
    with_header causation_id (text_or_undefined (or_option causation event.causation_id)) (
      with_header correlation_id
        (some (HeaderValue.text (or_else correlation event.correlation_id)))
        (with_trace trace headers)))
