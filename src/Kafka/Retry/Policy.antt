-- ===== src/Kafka/Retry/Policy.antt =====
-- packages/kafka/src/retry/configurable-kafka-retry-policy.ts, and the order flow's configuration
-- of kafka-retry-policy.ts.
use kafka_nest_playground.Prelude.{
  ℕ, suc, ◌+◌, String, Bool, true, false, List, [], ◌∷◌, map, Option, none, some, any, get_elem?,
  max, if◌then◌else◌, ◌==◌, ◌&&◌, ◌||◌,
}
use kafka_nest_playground.Prelude.Text.{is_empty}
use kafka_nest_playground.Prelude.Tx.{Result, ok, err, Error, ◌>>◌, guard}
use kafka_nest_playground.Contracts.Topics
use kafka_nest_playground.Kafka.Headers
use kafka_nest_playground.Kafka.Headers.{Node, KafkaHeaders, read_header}
use kafka_nest_playground.Kafka.Errors.{Thrown, get_error_code, is_non_retryable}

pub record KafkaRetryStage : Type 0 where
  pub topic : String
  pub delay_ms : ℕ

pub record KafkaRetryRouteConfig : Type 0 where
  pub source_topics : List String
  pub stages : List KafkaRetryStage
  pub dead_letter_topic : String

pub record KafkaRetryDecision : Type 0 where
  pub destination_topic : String
  pub original_topic : String
  pub retry_count : ℕ
  pub first_failed_at : String
  pub error_code : String
  pub terminal : Bool

abbrev pub includes : List String → String → Bool
includes topics topic = any (λ (t : String). t == topic) topics

abbrev pub is_retry_topic : List KafkaRetryStage → String → Bool
is_retry_topic stages topic = any (λ (s : KafkaRetryStage). s.topic == topic) stages

-- `this.config.sourceTopics[0]`, which the constructor's check makes sure of.
abbrev pub first_source : List String → String
first_source [] = ""
first_source (topic ∷ topics) = topic

-- The fall-back of `resolveOriginalTopic`.
abbrev pub without_header : KafkaRetryRouteConfig → String → String
without_header config current =
    if is_retry_topic config.stages current then first_source config.source_topics else current

-- A header that is missing, empty or no source topic does not count.
unfoldable pub resolve_from : KafkaRetryRouteConfig → String → Option String → String
resolve_from config current none = without_header config current
resolve_from config current (some header) =
    if is_empty header
    then without_header config current
    else if includes config.source_topics header
    then header
    else without_header config current

unfoldable pub resolve_original_topic :
    Node → KafkaRetryRouteConfig → String → KafkaHeaders → String
resolve_original_topic node config current headers =
    resolve_from config current (read_header node headers Headers.original_topic)

unfoldable pub supports : Node → KafkaRetryRouteConfig → String → KafkaHeaders → Bool
supports node config topic headers =
    let original = resolve_original_topic node config topic headers in
    includes config.source_topics original
    && (topic == original || is_retry_topic config.stages topic)

unfoldable pub get_subscription_topics : KafkaRetryRouteConfig → String → List String
get_subscription_topics config topic =
    if includes config.source_topics topic
    then topic ∷ map (λ (s : KafkaRetryStage). s.topic) config.stages
    else topic ∷ []

-- `find((stage) => stage.topic === topic)?.delayMs ?? 0`.
unfoldable pub find_delay : List KafkaRetryStage → String → ℕ
find_delay [] topic = 0
find_delay (s ∷ stages) topic = if s.topic == topic then s.delay_ms else find_delay stages topic

unfoldable pub get_delay_ms : KafkaRetryRouteConfig → String → ℕ
unfolding find_delay
get_delay_ms config topic = find_delay config.stages topic

-- `findIndex((stage) => stage.topic === currentTopic) + 1`: 0 where there is none.
unfoldable pub position : List KafkaRetryStage → String → ℕ
position [] topic = 0
position (s ∷ stages) topic = if s.topic == topic then 0 else suc (position stages topic)

unfoldable pub next_stage_index : List KafkaRetryStage → String → ℕ
next_stage_index stages topic =
    if is_retry_topic stages topic then suc (position stages topic) else 0

unfoldable pub read_retry_count : Node → KafkaHeaders → ℕ
read_retry_count node headers = elim (read_header node headers Headers.retry_count) [
  | none ↦ 0
  | some text ↦ elim (node.number text) [ none ↦ 0 | some n ↦ n ]
]

-- The destination: the next stage, or the dead letters after the last stage or at once.
abbrev pub destination : KafkaRetryRouteConfig → Bool → Option KafkaRetryStage → String × Bool
destination config true next = (config.dead_letter_topic, true)
destination config false none = (config.dead_letter_topic, true)
destination config false (some stage) = (stage.topic, false)

-- `now` is the clock's text.
unfoldable pub decide_failure :
    Node
    → KafkaRetryRouteConfig
    → (current : String) → KafkaHeaders
    → Thrown
    → (now : String) → Result KafkaRetryDecision
decide_failure node config current headers thrown now =
    if supports node config current headers
    then (let next_index = next_stage_index config.stages current in
        let (topic, terminal) =
          destination config (is_non_retryable thrown) (get_elem? config.stages next_index) in
        ok (record {
          destination_topic = topic;
          original_topic = resolve_original_topic node config current headers;
          retry_count = max (read_retry_count node headers + 1) (next_index + 1);
          first_failed_at = Headers.or_else (read_header node headers Headers.first_failed_at) now;
          error_code = get_error_code thrown;
          terminal = terminal;
        }))
    else err (Error.plain_error "Retry policy is not configured for the topic")

-- `findDuplicate`, with the texts seen so far.
unfoldable pub find_duplicate : List String → List String → Option String
find_duplicate seen [] = none
find_duplicate seen (v ∷ values) =
    let rest = find_duplicate (v ∷ seen) values in if includes seen v then some v else rest

-- `if (duplicateStage) { throw … }`: an empty topic counts as none.
abbrev none_found : Option String → Result (Unit {0})
none_found none = ok tt
none_found (some text) =
    if is_empty text then ok tt else err (Error.plain_error "Kafka retry stage is duplicated")

abbrev is_nil {ℓ} : {A : Type ℓ} → List A → Bool
is_nil [] = true
is_nil (x ∷ xs) = false

-- `assertValidConfig`, which the constructor runs.
unfoldable pub assert_valid_config : KafkaRetryRouteConfig → Result (Unit {0})
unfolding find_duplicate
assert_valid_config config = do
  guard (if is_nil config.source_topics then false else true)
      (Error.plain_error "Kafka retry policy requires at least one source topic")
  guard (if is_nil config.stages then false else true)
      (Error.plain_error "Kafka retry policy requires at least one retry stage")
  none_found (find_duplicate [] (map (λ (s : KafkaRetryStage). s.topic) config.stages))

-- `ORDER_FLOW_RETRY_CONFIG`.
abbrev pub order_flow_retry_config : KafkaRetryRouteConfig
order_flow_retry_config = record {
  source_topics =
      Topics.order_order_events ∷ Topics.risk_risk_events ∷ Topics.payment_payment_events ∷ [];
  stages =
      record { topic = Topics.order_order_events_retry5s; delay_ms = 5000 }
      ∷ record { topic = Topics.order_order_events_retry30s; delay_ms = 30000 }
      ∷ record { topic = Topics.order_order_events_retry5m; delay_ms = 300000 }
      ∷ [];
  dead_letter_topic = Topics.dead_letter_events;
}
