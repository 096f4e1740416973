-- ===== src/Kafka/Retry/Steps.antt =====
-- One step of a message whose handler fails: where it is sent on, and how it is received there.
use kafka_nest_playground.Prelude.{ℕ, String, ◌≡◌, refl, true, false, List, [], ◌∷◌, some}
use kafka_nest_playground.Prelude.Tx.{ok, err}
use kafka_nest_playground.Kafka.Errors.{Thrown}
use kafka_nest_playground.Kafka.Retry.Policy.{KafkaRetryDecision}
use kafka_nest_playground.Kafka.Retry.Dispatcher.{
  KafkaConsumerMessageContext, SentMessage, DispatchSetup, dispatch,
}

-- The message as the consumer receives it, at any partition and offset.
abbrev pub received : ℕ → String → SentMessage → KafkaConsumerMessageContext
received partition offset sent = record {
  topic = sent.topic;
  partition = partition;
  offset = offset;
  key = some sent.key;
  headers = sent.headers;
  event = sent.event;
}

-- The topics that the message visits: each failure sends it on, until it is a dead letter. A
-- failure comes with the error, and with the place where the message was received.
unfoldable pub journey :
    DispatchSetup → KafkaConsumerMessageContext → List (Thrown × ℕ × String) → List String
journey setup context [] = []
journey setup context ((thrown, partition, offset) ∷ failures) =
    elim (dispatch setup context thrown) [
      | err e ↦ []
      | ok (decision, sent) ↦ elim decision.terminal [
        | true ↦ sent.topic ∷ []
        | false ↦ sent.topic ∷ journey setup (received partition offset sent) failures
      ]
    ]

module _ (setup : DispatchSetup) (context : KafkaConsumerMessageContext) (thrown : Thrown)
    (partition : ℕ) (offset : String) (failures : List (Thrown × ℕ × String))
    (decision : KafkaRetryDecision) (sent : SentMessage)
    (dispatched : dispatch setup context thrown ≡ ok (decision, sent)) where
  pub journey-last :
      decision.terminal ≡ true
      → journey setup context ((thrown, partition, offset) ∷ failures) ≡ sent.topic ∷ []
  unfolding journey
  journey-last ends = rw (dispatched, journey) (rw ends refl)

  pub journey-next :
      decision.terminal ≡ false
      → journey setup context ((thrown, partition, offset) ∷ failures)
        ≡ sent.topic ∷ journey setup (received partition offset sent) failures
  unfolding journey
  journey-next goes_on = rw (dispatched, journey) (rw goes_on refl)
