-- ===== src/Services/Risk.antt =====
-- app/risk-service/src/modules/risk: risk.scorer.ts, and the event that risk.service.ts makes of a
-- score.
use kafka_nest_playground.Prelude.{
  ℕ, zero, suc, String, Bool, true, false, not, List, [], ◌∷◌, ◌++◌, Option, none, some,
  if◌then◌else◌, ◌||◌,
}
use Prim.Native.Nat.{◌/◌, ◌%◌}
use Prim.Native.String
use kafka_nest_playground.Contracts.Events.{
  Number, EventEnvelope, DomainEvent, Payload, OrderCreatedPayload,
}
use kafka_nest_playground.Outbox.Store.{take}
use kafka_nest_playground.Services.{Crypto, Doubles, read_big_endian}
use kafka_nest_playground.Services.EventId.{create_deterministic_event_id}

pub record RiskDecision : Type 0 where
  pub approved : Bool
  pub score : Number
  pub reason : Option String

-- The two settings, read when the scorer is built.
pub record RiskScorer : Type 0 where
  pub iterations : ℕ
  pub threshold : Number

-- 1/2, 1/4 and 0.72 as doubles.
abbrev pub half : Number
half = record { bits = 4602678819172646912 }

abbrev pub quarter : Number
quarter = record { bits = 4598175219545276416 }

abbrev pub default_risk_threshold : Number
default_risk_threshold = record { bits = 4604660403008689930 }

unfoldable pub normalize_iterations : Doubles → Number → ℕ
normalize_iterations d value =
    if not (d.is_finite value) || d.less value (d.of_nat 1) then 300000 else d.trunc value

unfoldable pub normalize_threshold : Doubles → (default value : Number) → Number
normalize_threshold d default value =
    if not (d.is_finite value) || d.at_least (d.of_nat 0) value || d.at_least value (d.of_nat 1)
    then default
    else value

-- `Number(setting ?? default)`.
abbrev pub setting_or : Doubles → Number → Option String → Number
setting_or d default none = default
setting_or d default (some text) = d.number text

unfoldable pub risk_scorer : Doubles → (iterations threshold : Option String) → RiskScorer
risk_scorer d iterations threshold = record {
  iterations = normalize_iterations d (setting_or d (d.of_nat 300000) iterations);
  threshold =
      normalize_threshold d default_risk_threshold (setting_or d default_risk_threshold threshold);
}

-- `writeBigUInt64BE`: the last `n` bytes of an integer.
unfoldable pub write_big_endian : ℕ → ℕ → List ℕ
write_big_endian zero value = []
write_big_endian (suc n) value = write_big_endian n (value / 256) ++ value % 256 ∷ []

-- The loop; its index is the number of rounds that went before.
unfoldable pub rehash : Crypto → (iterations : ℕ) → List ℕ → List ℕ
rehash crypto zero hash = hash
rehash crypto (suc index) hash =
    crypto.sha256 (rehash crypto index hash ++ write_big_endian 8 index)

abbrev pub risk_seed : Doubles → OrderCreatedPayload → String
risk_seed d p = String.◌++◌ p.order_id (
    String.◌++◌ ":" (
      String.◌++◌ p.user_id (
        String.◌++◌ ":" (
          String.◌++◌ p.currency (
            String.◌++◌ ":" (
              String.◌++◌ (d.to_fixed 2 p.total_amount)
                (String.◌++◌ ":" (d.to_text p.item_count))))))))

-- `Number(hash.readBigUInt64BE(0) % 10000n) / 10000`.
unfoldable pub random_factor : Doubles → List ℕ → Number
random_factor d hash = d.div (d.of_nat (read_big_endian 0 (take 8 hash) % 10000)) (d.of_nat 10000)

unfoldable pub risk_score : Crypto → Doubles → RiskScorer → OrderCreatedPayload → Number
risk_score crypto d scorer p =
    let hash = rehash crypto scorer.iterations (crypto.sha256 (crypto.utf8 (risk_seed d p))) in
    let amount_factor = d.min (d.div p.total_amount (d.of_nat 2000)) (d.of_nat 1) in
    let item_factor = d.min (d.div p.item_count (d.of_nat 20)) (d.of_nat 1) in
    let sum =
      d.add (d.add (d.mul half amount_factor) (d.mul quarter item_factor))
        (d.mul quarter (random_factor d hash)) in
    d.div (d.round (d.mul sum (d.of_nat 10000))) (d.of_nat 10000)

abbrev pub score_decision : Doubles → RiskScorer → Number → RiskDecision
score_decision d scorer score =
    if d.at_least score scorer.threshold
    then record { approved = false; score = score; reason = some "risk_score_threshold_exceeded" }
    else record { approved = true; score = score; reason = none }

-- `score`.
unfoldable pub score_risk : Crypto → Doubles → RiskScorer → OrderCreatedPayload → RiskDecision
score_risk crypto d scorer p = score_decision d scorer (risk_score crypto d scorer p)

abbrev pub reason_or : String → Option String → String
reason_or default none = default
reason_or default (some reason) = reason

abbrev pub risk_payload : OrderCreatedPayload → RiskDecision → Payload
risk_payload p decision =
    if decision.approved
    then Payload.order_risk_approved (record {
      order_id = p.order_id;
      amount = p.total_amount;
      currency = p.currency;
      risk_score = decision.score;
      approved_by = "risk-service";
    })
    else Payload.order_risk_rejected (record {
      order_id = p.order_id;
      risk_score = decision.score;
      reason = reason_or "risk_score_threshold_exceeded" decision.reason;
      rejected_by = "risk-service";
    })

-- `createRiskEvent`; `now` is `new Date().toISOString()`.
unfoldable pub create_risk_event :
    Crypto → (now : String) → EventEnvelope OrderCreatedPayload → RiskDecision → DomainEvent
create_risk_event crypto now source decision = record {
  event_id = create_deterministic_event_id crypto "risk-service:risk-result" source.event_id;
  event_version = 1;
  occurred_at = now;
  correlation_id = source.correlation_id;
  causation_id = some source.event_id;
  producer = "risk-service";
  payload = risk_payload source.payload decision;
}

-- `prepareRiskEvent`.
unfoldable pub prepare_risk_event :
    Crypto → Doubles → RiskScorer → (now : String) → EventEnvelope OrderCreatedPayload → DomainEvent
prepare_risk_event crypto d scorer now event =
    create_risk_event crypto now event (score_risk crypto d scorer event.payload)
