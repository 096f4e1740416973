-- ===== src/Services/Worker/Chain.antt =====
-- An order from its creation to the answer of the payment service.
use kafka_nest_playground.Prelude.{
  String, ◌≡◌, refl, ap, subst, ◌∙◌, true, false, some, arith, Bool-cases, inl, inr,
}
use kafka_nest_playground.Contracts.Events.{
  EventEnvelope, DomainEvent, Payload, OrderCreatedPayload, OrderRiskApprovedPayload, Number,
  PaymentAuthorizedPayload, with_payload,
}
use kafka_nest_playground.Outbox.Entity.{TraceCarrier}
use kafka_nest_playground.Services.{Crypto, Doubles}
use kafka_nest_playground.Services.Risk.{
  RiskDecision, RiskScorer, risk_score, score_decision, score_risk, risk_payload,
  prepare_risk_event, create_risk_event,
}
use kafka_nest_playground.Services.Payment.{
  PaymentSettings, PaymentAuthorizationDecision, payment_payload, payment_decision,
  prepare_payment_event, create_payment_event,
}
use kafka_nest_playground.Services.Worker.{Host, order_id_of, publish_result}

-- The answers of the two services to an order that was created.
pub record IsPaymentOf (d : Doubles) (host : Host) (scorer : RiskScorer)
    (created : EventEnvelope OrderCreatedPayload) (score : Number) (risk payment : DomainEvent)
    (q : PaymentAuthorizedPayload) : Type 0 where
  order_id : q.order_id ≡ created.payload.order_id
  amount : q.amount ≡ created.payload.total_amount
  currency : q.currency ≡ created.payload.currency
  is_finite : d.is_finite created.payload.total_amount ≡ true
  is_below : d.at_least score scorer.threshold ≡ false
  correlation :
      (risk.correlation_id ≡ created.correlation_id)
      × (payment.correlation_id ≡ created.correlation_id)
  causes : (risk.causation_id ≡ some created.event_id) × (payment.causation_id ≡ some risk.event_id)
  keys :
      (trace : TraceCarrier)
      → ((publish_result host trace risk).key ≡ created.payload.order_id)
        × ((publish_result host trace payment).key ≡ created.payload.order_id)

-- What an authorized payment says of the event that it answers.
authorized_by :
    (uuid : String) (settings : PaymentSettings) (p : OrderRiskApprovedPayload)
    (decision : PaymentAuthorizationDecision) (q : PaymentAuthorizedPayload)
    → payment_payload uuid settings p decision ≡ Payload.payment_authorized q
    → (decision.authorized ≡ true)
      × (q.order_id ≡ p.order_id)
      × (q.amount ≡ p.amount)
      × (q.currency ≡ p.currency)
authorized_by uuid settings p decision q h = elim (Bool-cases decision.authorized) [
  | inl is_yes ↦ ground arith
  | inr is_no ↦ ground arith
]

approved_by :
    (p : OrderCreatedPayload) (decision : RiskDecision) (q : OrderRiskApprovedPayload)
    → risk_payload p decision ≡ Payload.order_risk_approved q
    → (decision.approved ≡ true)
      × (q.order_id ≡ p.order_id)
      × (q.amount ≡ p.total_amount)
      × (q.currency ≡ p.currency)
approved_by p decision q h = elim (Bool-cases decision.approved) [
  | inl is_yes ↦ ground arith
  | inr is_no ↦ ground arith
]

below_threshold :
    (d : Doubles) (scorer : RiskScorer) (score : Number)
    → (score_decision d scorer score).approved ≡ true
    → d.at_least score scorer.threshold ≡ false
below_threshold d scorer score h = ground arith

paid :
    (crypto : Crypto) (d : Doubles) (settings : PaymentSettings) (p : OrderRiskApprovedPayload)
    → (payment_decision crypto d settings p).authorized ≡ true
    → d.is_finite p.amount ≡ true
paid crypto d settings p h = ground arith

-- The risk service and then the payment service, whatever their settings, clocks and hashes: a payment
-- is authorized for the order's own id, amount and currency, and only where the amount is finite and
-- the order's score does not reach the threshold. The two answers keep the order's correlation id,
-- each names the event that it answers as its cause, and both are published under the order's id.
pub authorized_payment :
    (crypto : Crypto) (d : Doubles) (host : Host) (scorer : RiskScorer) (settings : PaymentSettings)
    (now now' uuid : String) (created : EventEnvelope OrderCreatedPayload)
    (p : OrderRiskApprovedPayload) (q : PaymentAuthorizedPayload)
    → (prepare_risk_event crypto d scorer now created).payload ≡ Payload.order_risk_approved p
    → (prepare_payment_event crypto d settings now' uuid
        (with_payload (prepare_risk_event crypto d scorer now created) p)).payload
      ≡ Payload.payment_authorized q
    → IsPaymentOf d host scorer created
        (risk_score crypto d scorer created.payload)
        (prepare_risk_event crypto d scorer now created)
        (prepare_payment_event crypto d settings now' uuid
          (with_payload (prepare_risk_event crypto d scorer now created) p))
        q
unfolding prepare_risk_event create_risk_event prepare_payment_event create_payment_event score_risk
    publish_result
authorized_payment crypto d host scorer settings now now' uuid created p q is_approved is_paid =
    let (approved, same_order, same_amount, same_currency) =
      approved_by created.payload (score_risk crypto d scorer created.payload) p is_approved in
    let (authorized, order, amount, currency) =
      authorized_by uuid settings p (payment_decision crypto d settings p) q is_paid in
    record {
      order_id = order ∙ same_order;
      amount = amount ∙ same_amount;
      currency = currency ∙ same_currency;
      is_finite =
          subst (λ x. d.is_finite x ≡ true) same_amount (paid crypto d settings p authorized);
      is_below =
          below_threshold d scorer (risk_score crypto d scorer created.payload)
            (unfold score_risk in approved);
      correlation = (refl, refl);
      causes = (refl, refl);
      keys = λ trace.
          (ap order_id_of is_approved ∙ same_order, ap order_id_of is_paid ∙ (order ∙ same_order));
    }
