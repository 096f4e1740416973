-- ===== src/Kafka/Consumer/Messages.antt =====
-- What becomes of a message.
use kafka_nest_playground.Prelude.{◌≡◌, refl, Bool, true, false, List, none}
use kafka_nest_playground.Prelude.Tx.{ok}
use kafka_nest_playground.Kafka.Errors.{Thrown}
use kafka_nest_playground.Kafka.Retry.Policy.{KafkaRetryDecision}
use kafka_nest_playground.Kafka.Retry.Dispatcher.{
  KafkaConsumerMessageContext, SentMessage, DispatchSetup, dispatch,
}
use kafka_nest_playground.Kafka.Retry.Passing.{dispatch-CarriesDecision}
use kafka_nest_playground.Kafka.Consumer.{
  KafkaConsumerRegistration, find_registration, handler_of, resolve_handler, Delivery, dispatched,
}

-- The message is handled or sent on; KafkaJS need not deliver it again.
abbrev pub is_settled : Delivery → Bool
is_settled Delivery.handled = true
is_settled (Delivery.sent_on decision sent) = true
is_settled (Delivery.rethrown thrown) = false

-- A message that a failure has sent to a retry topic with no handler of its own is handled there by
-- the handler of its original topic, wherever in the chain it stands.
pub retried_same_handler :
    (setup : DispatchSetup) (registrations : List KafkaConsumerRegistration)
    (context : KafkaConsumerMessageContext) (thrown : Thrown) (decision : KafkaRetryDecision)
    (sent : SentMessage)
    → dispatch setup context thrown ≡ ok (decision, sent)
    → find_registration sent.topic registrations ≡ none
    → resolve_handler setup.node registrations sent.topic sent.headers
      ≡ handler_of (find_registration decision.original_topic registrations)
unfolding resolve_handler
retried_same_handler setup registrations context thrown decision sent dispatched no_own =
    let carried = dispatch-CarriesDecision setup context thrown decision sent dispatched in
    rw (no_own, carried.original) refl
