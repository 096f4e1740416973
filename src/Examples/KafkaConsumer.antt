-- ===== src/Examples/KafkaConsumer.antt =====
-- Messages of a consumer with one handler.
use kafka_nest_playground.Prelude.{
  ◌+◌, ◌*◌, ◌<◌, ◌≡◌, refl, String, true, false, List, [], ◌∷◌, some, length,
}
use kafka_nest_playground.Contracts.Topics
use kafka_nest_playground.Kafka.Retry.Dispatcher.{send_on}
use kafka_nest_playground.Kafka.Consumer.{
  KafkaConsumerRegistration, ConsumedMessage, Decoded, find_registration, resolve_handler,
  delay_with_heartbeat,
}
use kafka_nest_playground.Kafka.Consumer.Delay.{sum, all_at_most, delay_with_heartbeat_lem}
use kafka_nest_playground.Kafka.Consumer.Messages.{retried_same_handler}
use kafka_nest_playground.Examples.KafkaRetry.{
  node, event, setup, context, retryable, decision, dispatched_first,
}

-- The service handles one topic, and its handler fails.
abbrev failing : String → List KafkaConsumerRegistration
failing topic =
    record { topics = topic ∷ []; from_beginning = false; handler = λ c. some retryable } ∷ []

abbrev message : ConsumedMessage
message = record {
  topic = context.topic;
  partition = context.partition;
  offset = context.offset;
  key = context.key;
  headers = context.headers;
  value = Decoded.decoded event;
}

delay_with_heartbeat_lem_example :
    (sum (delay_with_heartbeat 5000) ≡ 5000)
    × (all_at_most 3000 (delay_with_heartbeat 5000) ≡ true)
    × (length (delay_with_heartbeat 5000) * 3000 < 5000 + 3000)
delay_with_heartbeat_lem_example = delay_with_heartbeat_lem 5000

retried_same_handler_example :
    resolve_handler node
      (failing Topics.payment_payment_events)
      Topics.order_order_events_retry5s
      (send_on setup context retryable decision false).headers
    ≡ some (λ c. some retryable)
unfolding send_on find_registration
retried_same_handler_example =
    retried_same_handler setup (failing Topics.payment_payment_events) context retryable decision
      (send_on setup context retryable decision false) dispatched_first
      (unfold send_on find_registration in refl)
