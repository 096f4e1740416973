-- ===== src/Kafka/Retry/Journey.antt =====
-- A message whose handler fails again and again.
use kafka_nest_playground.Prelude.{
  ℕ, suc, ◌+◌, ◌<◌, String, ◌≡◌, refl, ap₂, ap, ◌∙◌, Bool, true, false, List, [], ◌∷◌, ◌++◌, none,
  some, get_elem?, eq_refl, arith, max, length,
}
use kafka_nest_playground.Prelude.Text.{is_empty}
use kafka_nest_playground.Prelude.Tx.{ok}
use kafka_nest_playground.Kafka.Headers
use kafka_nest_playground.Kafka.Headers.{
  Node, KafkaHeaders, HeaderValue, read_header, published_headers, with_header,
}
use kafka_nest_playground.Kafka.Errors.{Thrown, get_error_code, is_non_retryable}
use kafka_nest_playground.Kafka.Retry.Policy.{
  KafkaRetryRouteConfig, KafkaRetryDecision, KafkaRetryStage, includes, is_retry_topic,
  resolve_original_topic, supports, resolve_from, next_stage_index, decide_failure,
  read_retry_count, assert_valid_config, find_duplicate,
}
use kafka_nest_playground.Kafka.Retry.Dispatcher.{
  KafkaConsumerMessageContext, DispatchSetup, send_on, dispatch, get_dead_letter_topic,
}
use kafka_nest_playground.Kafka.Retry.Passing.{dispatch-CarriesDecision}
use kafka_nest_playground.Kafka.Retry.Stages.{
  topics, HasNamedStages, valid-distinct, position-get_elem?, next_stage_index-get_elem?, drop,
  get_elem?-drop_nil, get_elem?-drop_cons,
}
use kafka_nest_playground.Kafka.Retry.Steps.{received, journey, journey-last, journey-next}

-- A source topic that is no stage.
pub record IsEntry (config : KafkaRetryRouteConfig) (source : String) : Type 0 where
  pub named : is_empty source ≡ false
  pub listed : includes config.source_topics source ≡ true
  pub no_stage : is_retry_topic config.stages source ≡ false

-- All the errors may be retried.
abbrev pub AllRetryable : List (Thrown × ℕ × String) → Type 0
AllRetryable [] = Unit
AllRetryable ((thrown, partition, offset) ∷ rest) =
    (is_non_retryable thrown ≡ false) × AllRetryable rest

decision_at :
    DispatchSetup → KafkaConsumerMessageContext → Thrown → String → Bool → KafkaRetryDecision
decision_at setup context thrown topic terminal = record {
  destination_topic = topic;
  original_topic = resolve_original_topic setup.node setup.config context.topic context.headers;
  retry_count =
      max (read_retry_count setup.node context.headers + 1)
        (next_stage_index setup.config.stages context.topic + 1);
  first_failed_at =
      Headers.or_else (read_header setup.node context.headers Headers.first_failed_at) setup.now;
  error_code = get_error_code thrown;
  terminal = terminal;
}

module _ (setup : DispatchSetup) (source : String) where
  -- The message comes from `source` and stands before stage `i`.
  record StandsAt (i : ℕ) (context : KafkaConsumerMessageContext) : Type 0 where
    resolved : resolve_original_topic setup.node setup.config context.topic context.headers ≡ source
    supported : supports setup.node setup.config context.topic context.headers ≡ true
    next : next_stage_index setup.config.stages context.topic ≡ i

  entry-StandsAt :
      (context : KafkaConsumerMessageContext)
      → IsEntry setup.config source
      → context.topic ≡ source
      → read_header setup.node context.headers Headers.original_topic ≡ none
      → StandsAt 0 context
  unfolding resolve_original_topic supports next_stage_index resolve_from
  entry-StandsAt context e t h =
      let e2 : is_retry_topic setup.config.stages context.topic ≡ false = rw t e.no_stage in
      let e3 : includes setup.config.source_topics context.topic ≡ true = rw t e.listed in
      record {
        resolved = rw (h, e2) t;
        supported = rw (h, e2, e3) (ground (arith, eq_refl context.topic));
        next = rw e2 refl;
      }

  stage-StandsAt :
      (i : ℕ) (stage : KafkaRetryStage) (context : KafkaConsumerMessageContext)
      → IsEntry setup.config source
      → find_duplicate [] (topics setup.config.stages) ≡ none
      → get_elem? setup.config.stages i ≡ some stage
      → context.topic ≡ stage.topic
      → read_header setup.node context.headers Headers.original_topic ≡ some source
      → StandsAt (suc i) context
  unfolding resolve_original_topic supports resolve_from
  stage-StandsAt i stage context e d there t h =
      let place = position-get_elem? [] setup.config.stages i stage d there in
      record {
        resolved = rw h (rw (e.named, e.listed) refl);
        supported = rw h (rw (e.named, e.listed) (rw (e.listed, t, place.2) (ground arith)));
        next = rw t (next_stage_index-get_elem? setup.config.stages i stage d there);
      }

  -- Before a stage, a retryable failure sends the message to that stage.
  dispatch-stage :
      (i : ℕ) (stage : KafkaRetryStage) (context : KafkaConsumerMessageContext) (thrown : Thrown)
      → StandsAt i context
      → is_non_retryable thrown ≡ false
      → get_elem? setup.config.stages i ≡ some stage
      → dispatch setup context thrown
        ≡ ok (
          decision_at setup context thrown stage.topic false,
          send_on setup context thrown (decision_at setup context thrown stage.topic false) false,
        )
  unfolding dispatch decide_failure decision_at
  dispatch-stage i stage context thrown at retryable there =
      rw (at.supported, at.next, there, retryable) refl

  -- Before none, it is a dead letter.
  dispatch-end :
      (i : ℕ) (context : KafkaConsumerMessageContext) (thrown : Thrown)
      → StandsAt i context
      → is_non_retryable thrown ≡ false
      → get_elem? setup.config.stages i ≡ none
      → dispatch setup context thrown
        ≡ ok (
          decision_at setup context thrown setup.config.dead_letter_topic true,
          send_on setup context thrown
              (decision_at setup context thrown setup.config.dead_letter_topic true)
              true,
        )
  unfolding dispatch decide_failure decision_at
  dispatch-end i context thrown at retryable there =
      rw (at.supported, at.next, there, retryable) refl

  journey_from :
      (rest : List KafkaRetryStage) (i : ℕ) (context : KafkaConsumerMessageContext)
      (failures : List (Thrown × ℕ × String))
      → IsEntry setup.config source
      → find_duplicate [] (topics setup.config.stages) ≡ none
      → drop i setup.config.stages ≡ rest
      → StandsAt i context
      → AllRetryable failures
      → length rest < length failures
      → journey setup context failures
        ≡ topics rest ++ get_dead_letter_topic setup.dead_letter_topic ∷ []
  unfolding journey
  journey_from rest i context [] e d left at retryable enough = absurd (omega arith)
  journey_from [] i context ((thrown, partition, offset) ∷ failures) e d left at retryable enough =
      journey-last setup context thrown partition offset failures _ _
        (dispatch-end i context thrown at retryable.0
          (get_elem?-drop_nil i setup.config.stages left))
        (unfold decision_at in refl)
      ∙ unfold send_on in refl
  journey_from (stage ∷ rest) i context ((thrown, partition, offset) ∷ failures) e d left at
        retryable enough =
      let (there, left') = get_elem?-drop_cons i setup.config.stages stage rest left in
      let sent =
        send_on setup context thrown (decision_at setup context thrown stage.topic false) false in
      let dispatched = dispatch-stage i stage context thrown at retryable.0 there in
      let carried = dispatch-CarriesDecision setup context thrown _ sent dispatched in
      let original : read_header setup.node sent.headers Headers.original_topic ≡ some source =
        carried.original ∙ ap some (unfold decision_at in at.resolved) in
      let next =
        stage-StandsAt i stage (received partition offset sent) e d there
          (unfold decision_at send_on in refl) original in
      journey-next setup context thrown partition offset failures _ sent dispatched
        (unfold decision_at in refl)
      ∙ ap₂ (λ (x : String) (l : List String). x ∷ l) (unfold decision_at send_on in refl)
          (journey_from rest (suc i) (received partition offset sent) failures e d left' next
            retryable.1 (omega arith))

-- Under a configuration that the constructor accepts and whose stages all have a topic (it would also
-- accept an empty topic twice), a message that enters at a source topic which is no stage, with no
-- `x-original-topic` header, and whose handler fails with retryable errors more often than there are
-- stages, visits every stage once in the order of the configuration and then the dead letter topic,
-- wherever it is received in between.
pub journey_visits_stages :
    (setup : DispatchSetup) (source : String) (context : KafkaConsumerMessageContext)
    (failures : List (Thrown × ℕ × String))
    → assert_valid_config setup.config ≡ ok tt
    → HasNamedStages setup.config
    → IsEntry setup.config source
    → context.topic ≡ source
    → read_header setup.node context.headers Headers.original_topic ≡ none
    → AllRetryable failures
    → length setup.config.stages < length failures
    → journey setup context failures
      ≡ topics setup.config.stages ++ get_dead_letter_topic setup.dead_letter_topic ∷ []
journey_visits_stages setup source context failures valid named e t h retryable enough =
    journey_from setup source setup.config.stages 0 context failures e
      (valid-distinct setup.config valid named) refl (entry-StandsAt setup source context e t h)
      retryable enough

-- A non-retryable error is a dead letter at once, at any stage of a supported topic.
non_retryable_dies :
    (setup : DispatchSetup) (context : KafkaConsumerMessageContext) (thrown : Thrown)
    (failures : List (Thrown × ℕ × String)) (partition : ℕ) (offset : String)
    → supports setup.node setup.config context.topic context.headers ≡ true
    → is_non_retryable thrown ≡ true
    → journey setup context ((thrown, partition, offset) ∷ failures)
      ≡ get_dead_letter_topic setup.dead_letter_topic ∷ []
unfolding decision_at
non_retryable_dies setup context thrown failures partition offset supported fatal =
    journey-last setup context thrown partition offset failures
      (decision_at setup context thrown setup.config.dead_letter_topic true) _ dispatched refl
    ∙ unfold send_on in refl
  where
    dispatched :
        dispatch setup context thrown
        ≡ ok (
          decision_at setup context thrown setup.config.dead_letter_topic true,
          send_on setup context thrown
              (decision_at setup context thrown setup.config.dead_letter_topic true)
              true,
        )
    dispatched = unfold dispatch decide_failure in rw (supported, fatal) refl
