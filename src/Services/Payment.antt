-- ===== src/Services/Payment.antt =====
-- app/payment-service/src/modules/payment: payment.authorizer.ts, and the event that
-- payment.service.ts makes of a decision.
use kafka_nest_playground.Prelude.{
  String, Bool, true, false, not, Option, none, some, if◌then◌else◌, ◌&&◌,
}
use Prim.Native.String
use kafka_nest_playground.Prelude.Text.{is_empty}
use kafka_nest_playground.Contracts.Events.{
  Number, EventEnvelope, DomainEvent, Payload, OrderRiskApprovedPayload,
}
use kafka_nest_playground.Outbox.Store.{take}
use kafka_nest_playground.Services.{Crypto, Doubles}
use kafka_nest_playground.Services.EventId.{create_deterministic_event_id, hex}
use kafka_nest_playground.Services.Risk.{normalize_threshold, setting_or, random_factor, reason_or}

pub record PaymentAuthorizationDecision : Type 0 where
  pub authorized : Bool
  pub payment_id : Option String
  pub reason : Option String

-- The settings of the service and of its authorizer.
pub record PaymentSettings : Type 0 where
  pub failure_threshold : Number
  pub provider : String

-- 0.18 as a double.
abbrev pub default_failure_threshold : Number
default_failure_threshold = record { bits = 4595653203753948938 }

unfoldable pub payment_settings : Doubles → (threshold provider : Option String) → PaymentSettings
payment_settings d threshold provider = record {
  failure_threshold =
      normalize_threshold d default_failure_threshold
        (setting_or d default_failure_threshold threshold);
  provider = reason_or "mock-payment-provider" provider;
}

abbrev pub payment_seed : Doubles → OrderRiskApprovedPayload → String
payment_seed d p = String.◌++◌ p.order_id (
    String.◌++◌ ":" (
      String.◌++◌ (d.to_fixed 2 p.amount)
        (String.◌++◌ ":" (String.◌++◌ p.currency (String.◌++◌ ":" (d.to_fixed 4 p.risk_score))))))

-- `authorize`.
unfoldable pub authorize :
    Crypto → Doubles → PaymentSettings → OrderRiskApprovedPayload → PaymentAuthorizationDecision
authorize crypto d settings p =
    let hash = crypto.sha256 (crypto.utf8 (payment_seed d p)) in
    if d.less (random_factor d hash) settings.failure_threshold
    then record { authorized = false; payment_id = none; reason = some "payment_provider_declined" }
    else record {
      authorized = true;
      payment_id = some (String.◌++◌ "pay_" (hex (take 12 hash)));
      reason = none;
    }

-- `hasPaymentAmount`.
abbrev pub has_payment_amount : Doubles → OrderRiskApprovedPayload → Bool
has_payment_amount d p = d.is_finite p.amount && not (is_empty p.currency)

abbrev pub payment_payload :
    (uuid : String)
    → PaymentSettings
    → OrderRiskApprovedPayload
    → PaymentAuthorizationDecision
    → Payload
payment_payload uuid settings p decision =
    if decision.authorized
    then Payload.payment_authorized (record {
      payment_id = reason_or uuid decision.payment_id;
      order_id = p.order_id;
      amount = p.amount;
      currency = p.currency;
      provider = settings.provider;
    })
    else Payload.payment_failed (record {
      payment_id = decision.payment_id;
      order_id = p.order_id;
      reason = reason_or "payment_authorization_failed" decision.reason;
      provider = settings.provider;
    })

-- `createPaymentEvent`; `now` and `uuid` are what the clock and `randomUUID()` give.
unfoldable pub create_payment_event :
    Crypto
    → (now uuid : String) → PaymentSettings
    → EventEnvelope OrderRiskApprovedPayload
    → PaymentAuthorizationDecision
    → DomainEvent
create_payment_event crypto now uuid settings source decision = record {
  event_id = create_deterministic_event_id crypto "payment-service:payment-result" source.event_id;
  event_version = 1;
  occurred_at = now;
  correlation_id = source.correlation_id;
  causation_id = some source.event_id;
  producer = "payment-service";
  payload = payment_payload uuid settings source.payload decision;
}

-- An event without an amount or a currency is refused.
abbrev pub payment_decision :
    Crypto → Doubles → PaymentSettings → OrderRiskApprovedPayload → PaymentAuthorizationDecision
payment_decision crypto d settings p =
    if has_payment_amount d p
    then authorize crypto d settings p
    else record { authorized = false; payment_id = none; reason = some "payment_amount_missing" }

-- `preparePaymentEvent`.
unfoldable pub prepare_payment_event :
    Crypto
    → Doubles
    → PaymentSettings
    → (now uuid : String) → EventEnvelope OrderRiskApprovedPayload
    → DomainEvent
prepare_payment_event crypto d settings now uuid event =
    create_payment_event crypto now uuid settings event
      (payment_decision crypto d settings event.payload)
