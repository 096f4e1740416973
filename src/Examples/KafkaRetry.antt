-- ===== src/Examples/KafkaRetry.antt =====
-- Failures of one Kafka message.
use kafka_nest_playground.Prelude.{
  ℕ, ◌≡◌, refl, String, List, [], ◌∷◌, ◌++◌, none, some, eqb, arith, false, if◌then◌else◌, ◌==◌,
}
use kafka_nest_playground.Prelude.Tx.{ok}
use kafka_nest_playground.Contracts.Topics
use kafka_nest_playground.Contracts.Events.{DomainEvent, Payload}
use kafka_nest_playground.Kafka.Headers.{Node, HeaderValue, empty_headers, with_header, read_header}
use kafka_nest_playground.Kafka.Errors.{
  Thrown, get_error_code, normalize_error_code, split_camel, collapse, strip_start, strip_end,
  to_upper_case, translate,
}
use kafka_nest_playground.Kafka.Retry.Policy.{
  KafkaRetryDecision, order_flow_retry_config, supports, resolve_original_topic, resolve_from,
  assert_valid_config, find_duplicate, decide_failure, next_stage_index, read_retry_count,
}
use kafka_nest_playground.Kafka.Retry.Dispatcher.{
  KafkaConsumerMessageContext, DispatchSetup, dispatch, send_on, get_dead_letter_topic,
}
use kafka_nest_playground.Kafka.Retry.Passing.{CarriesDecision, dispatch-CarriesDecision}
use kafka_nest_playground.Kafka.Retry.Stages.{topics}
use kafka_nest_playground.Kafka.Retry.Steps.{journey}
use kafka_nest_playground.Kafka.Retry.Journey.{IsEntry, journey_visits_stages}

type_error_code : get_error_code (Thrown.error "TypeError" "x is undefined" none) ≡ "TYPE_ERROR"
unfolding get_error_code normalize_error_code split_camel collapse strip_start strip_end
    to_upper_case translate
type_error_code = refl

odd_code : normalize_error_code "--Http  2xxFailed!" ≡ "HTTP_2XX_FAILED"
unfolding normalize_error_code split_camel collapse strip_start strip_end to_upper_case translate
odd_code = refl

-- Conversions of the first numbers.
abbrev pub node : Node
node = record {
  utf8 = λ bytes. "";
  to_text = λ n. if eqb n 0 then "0" else if eqb n 1 then "1" else "2";
  number = λ t.
      if t == "0" then some 0 else if t == "1" then some 1 else if t == "2" then some 2 else none;
}

abbrev pub event : DomainEvent
event = record {
  event_id = "event-1";
  event_version = 1;
  occurred_at = "2026-01-01T00:00:00.000Z";
  correlation_id = "correlation-1";
  causation_id = some "event-0";
  producer = "payment-service";
  payload =
      Payload.payment_failed (record {
        payment_id = none;
        order_id = "order-1";
        reason = "no funds";
        provider = "bank";
      });
}

abbrev pub setup : DispatchSetup
setup = record {
  node = node;
  config = order_flow_retry_config;
  service_name = "order-service";
  dead_letter_topic = none;
  now = "2026-01-01T00:00:01.000Z";
  uuid = "uuid-1";
  trace = record {
    traceparent = some "00-1-2-01";
    tracestate = none;
    x_trace_id = some "1";
    x_span_id = some "2";
  };
  stringify = λ e. "{}";
}

-- The message as it comes from the payment topic, with one header of its sender.
abbrev pub context : KafkaConsumerMessageContext
context = record {
  topic = Topics.payment_payment_events;
  partition = 0;
  offset = "7";
  key = none;
  headers = with_header "x-sender" (some (HeaderValue.text "bank")) empty_headers;
  event = event;
}

abbrev pub retryable : Thrown
retryable = Thrown.error "TypeError" "x is undefined" none

abbrev fatal : Thrown
fatal = Thrown.non_retryable "INVALID_ORDER_ID" "orderId must be a UUID" none

abbrev failures : List (Thrown × ℕ × String)
failures =
    (retryable, 0, "0") ∷ (retryable, 1, "1") ∷ (retryable, 2, "2") ∷ (retryable, 3, "3") ∷ []

payment-IsEntry : IsEntry order_flow_retry_config Topics.payment_payment_events
payment-IsEntry = record { named = refl; listed = refl; no_stage = refl }

journey_visits_stages_example :
    journey setup context failures
    ≡ topics order_flow_retry_config.stages ++ get_dead_letter_topic none ∷ []
journey_visits_stages_example =
    journey_visits_stages setup Topics.payment_payment_events context failures
      (unfold assert_valid_config find_duplicate in refl) (refl, (refl, (refl, tt))) payment-IsEntry
      refl (unfold read_header in refl) (refl, (refl, (refl, (refl, tt)))) (omega arith)

abbrev pub decision : KafkaRetryDecision
decision = record {
  destination_topic = Topics.order_order_events_retry5s;
  original_topic = Topics.payment_payment_events;
  retry_count = 1;
  first_failed_at = "2026-01-01T00:00:01.000Z";
  error_code = "TYPE_ERROR";
  terminal = false;
}

pub dispatched_first :
    dispatch setup context retryable ≡ ok (decision, send_on setup context retryable decision false)
unfolding dispatch decide_failure supports resolve_original_topic resolve_from read_header
    next_stage_index read_retry_count get_error_code normalize_error_code split_camel collapse
    strip_start strip_end to_upper_case translate
dispatched_first = refl

dispatch-CarriesDecision_example :
    CarriesDecision node context.headers
      (send_on setup context retryable decision false).headers
      decision
dispatch-CarriesDecision_example =
    dispatch-CarriesDecision setup context retryable decision
      (send_on setup context retryable decision false) dispatched_first
