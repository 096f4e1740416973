-- ===== src/Examples/Answers.antt =====
-- A created order: the risk service answers it twice, since the first publication fails, and the
-- payment service answers the approval.
use kafka_nest_playground.Prelude.{
  ℕ, ◌+◌, ◌*◌, ◌≡◌, refl, String, true, List, [], ◌∷◌, length, none, some, leb, ltb, min,
}
use Prim.Native.Nat.{◌/◌}
use kafka_nest_playground.Prelude.Text.{codes}
use kafka_nest_playground.Prelude.Tx.{ok}
use kafka_nest_playground.Contracts.Events.{
  EventEnvelope, DomainEvent, Payload, OrderCreatedPayload, OrderRiskApprovedPayload,
  PaymentAuthorizedPayload, with_payload,
}
use kafka_nest_playground.Prelude.Decimal.{All}
use kafka_nest_playground.Outbox.Entity.{TraceCarrier}
use kafka_nest_playground.Services.Worker.Saved.{CarriesAnswer, saved_answer_sent}
use kafka_nest_playground.Kafka.Inbox.{
  InboxRow, InboxStatus, find_inbox, update_inbox, claim, claim_found, claim_existing,
  update_single, save_prepared, mark_completed, release,
}
use kafka_nest_playground.Kafka.Inbox.History.{run_inbox}
use kafka_nest_playground.Kafka.Inbox.Processor.{
  Promised, complete, perform, save_and_perform, process_claimed, process_locked, process,
}
use kafka_nest_playground.Orders.Entity.{OrderStatus}
use kafka_nest_playground.Orders.StateMachine.{OrderLifecycleEvent, decide_order_transition}
use kafka_nest_playground.Orders.Tables.{Db, find_order, save_order}
use kafka_nest_playground.Orders.Repository.{OrderLifecycleProcessingResult}
use kafka_nest_playground.Orders.Repository.Lifecycle.{
  processed_row, apply_decision, process_registered, process_lifecycle_event,
}
use kafka_nest_playground.Orders.History.{run}
use kafka_nest_playground.Services.{Crypto, Doubles, read_big_endian}
use kafka_nest_playground.Services.EventId.{
  create_deterministic_event_id, join_dash, take_text, drop_text, hex, hex_digit, set_byte,
}
use kafka_nest_playground.Services.EventId.Uuid.{IsUuid5, create_deterministic_event_id-IsUuid5}
use kafka_nest_playground.Services.Risk.{
  RiskScorer, risk_score, score_risk, rehash, write_big_endian, random_factor, prepare_risk_event,
  create_risk_event,
}
use kafka_nest_playground.Services.Payment.{
  PaymentSettings, authorize, prepare_payment_event, create_payment_event,
}
use kafka_nest_playground.Services.Worker.{
  Host, Delivery, Sent, Service, worker_of, publish_result, handle, deliver_all,
}
use kafka_nest_playground.Services.Worker.Published.{answered_once}
use kafka_nest_playground.Services.Worker.Chain.{IsPaymentOf, authorized_payment}
use kafka_nest_playground.Examples.{js, draws_of, order_id, approved, delivery, order_in, db_with}
use kafka_nest_playground.Examples.KafkaRetry.{node, setup, retryable}

-- A hash that tells apart texts of different lengths.
abbrev zeros : List ℕ
zeros =
    0 ∷ 0 ∷ 0 ∷ 0 ∷ 0 ∷ 0 ∷ 0 ∷ 0 ∷ 0 ∷ 0 ∷ 0 ∷ 0 ∷ 0 ∷ 0 ∷ 0 ∷ 0 ∷ 0 ∷ 0 ∷ 0 ∷ 0 ∷ 0 ∷ 0 ∷ 0 ∷ 0
    ∷ 0 ∷ 0 ∷ 0 ∷ 0 ∷ 0 ∷ 0 ∷ 0 ∷ []

abbrev crypto : Crypto
crypto = record { utf8 = codes; sha256 = λ bytes. length bytes ∷ zeros }

-- Numbers that stand for themselves.
abbrev doubles : Doubles
doubles = record {
  of_nat = λ n. record { bits = n };
  add = λ a b. record { bits = a.bits + b.bits };
  mul = λ a b. record { bits = a.bits * b.bits };
  div = λ a b. record { bits = a.bits / b.bits };
  min = λ a b. record { bits = min a.bits b.bits };
  round = λ a. a;
  less = λ a b. ltb a.bits b.bits;
  at_least = λ a b. leb b.bits a.bits;
  is_finite = λ a. true;
  to_fixed = λ n a. "30.00";
  to_text = λ a. "3";
  number = λ text. record { bits = 0 };
  trunc = λ a. a.bits;
}

abbrev scorer : RiskScorer
scorer = record { iterations = 2; threshold = record { bits = 100000000000000000000000 } }

abbrev settings : PaymentSettings
settings = record { failure_threshold = record { bits = 0 }; provider = "bank" }

abbrev created : EventEnvelope OrderCreatedPayload
created = record {
  event_id = "created-1";
  event_version = 1;
  occurred_at = "2026-01-01T00:00:00.000Z";
  correlation_id = "correlation-1";
  causation_id = none;
  producer = "order-service";
  payload = record {
    order_id = order_id;
    user_id = "user-1";
    currency = "USD";
    total_amount = record { bits = 30 };
    item_count = record { bits = 3 };
  };
}

-- The id of the risk service's answer.
risk_id :
    create_deterministic_event_id crypto "risk-service:risk-result" "created-1"
    ≡ "22000000-0000-5000-8000-000000000000"
unfolding create_deterministic_event_id join_dash take_text drop_text hex hex_digit set_byte
risk_id = refl

create_deterministic_event_id-IsUuid5_example :
    IsUuid5 (create_deterministic_event_id crypto "risk-service:risk-result" "created-1")
create_deterministic_event_id-IsUuid5_example =
    create_deterministic_event_id-IsUuid5 crypto "risk-service:risk-result" "created-1"
      (λ bytes. refl)

abbrev host : Host
host = record { node = node; json = λ event. event }

abbrev delivered : (token : String) (at : ℕ) → TraceCarrier → Promised (Unit {0}) → Delivery
delivered token at trace outcome = record {
  event = with_payload created (Payload.order_created created.payload);
  now = "2026-01-01T00:00:01.000Z";
  uuid = "uuid-1";
  lock_token = token;
  claimed_at = at;
  released_at = at + 10;
  trace = trace;
  others = λ n. [];
  outcome = outcome;
}

-- Each delivery publishes in a span of its own.
abbrev second_span : TraceCarrier
second_span = record setup.trace { x_span_id = some "span-2" }

-- The broker is away at first.
abbrev deliveries : List Delivery
deliveries =
    delivered "token-1" 100 setup.trace (Promised.rejected retryable)
    ∷ delivered "token-2" 200 second_span (Promised.fulfilled tt)
    ∷ []

abbrev answer : DomainEvent
answer = prepare_risk_event crypto doubles scorer "2026-01-01T00:00:01.000Z" created

abbrev sent : Sent
sent = record { incoming = "created-1"; message = publish_result host setup.trace answer }

abbrev sent_again : Sent
sent_again = record { incoming = "created-1"; message = publish_result host second_span answer }

sent_twice :
    (deliver_all host
      (worker_of crypto doubles (Service.risk_service scorer) "risk")
      deliveries
      []).0
    ≡ sent ∷ sent_again ∷ []
unfolding deliver_all handle process claim claim_found claim_existing process_locked process_claimed
    save_and_perform perform complete save_prepared mark_completed update_single update_inbox
    release find_inbox run_inbox publish_result
sent_twice = refl

-- The inbox once the answer is saved, with a lease that has ended.
abbrev saved_row : InboxRow DomainEvent
saved_row = record {
  consumer_name = "risk";
  event_id = "created-1";
  status = InboxStatus.prepared;
  result = some answer;
  lock_token = none;
  locked_until = some 110;
  attempts = 1;
  last_error = none;
}

abbrev saved_rows : List (InboxRow DomainEvent)
saved_rows = saved_row ∷ []

-- By now the threshold is so low that the order would be rejected.
abbrev strict : Service
strict = Service.risk_service (record scorer { threshold = record { bits = 0 } })

saved_answer_sent_example :
    All
      (CarriesAnswer host (worker_of crypto doubles strict "risk") "created-1" answer)
      (deliver_all host (worker_of crypto doubles strict "risk") deliveries saved_rows).0
saved_answer_sent_example =
    saved_answer_sent host (worker_of crypto doubles strict "risk") "created-1" answer deliveries
      saved_rows (saved_row, unfold find_inbox in refl, refl, refl)

-- What the order service reads of either message.
abbrev risk_approved : OrderLifecycleEvent
risk_approved = record approved { event_id = sent.message.event.event_id }

abbrev approved_db : Db
approved_db = record {
  orders = order_in OrderStatus.risk_approved ∷ [];
  processed = processed_row (delivery risk_approved) ∷ [];
  outbox = [];
  idempotency = [];
}

approval_committed :
    process_lifecycle_event js
      (draws_of "approve")
      (delivery risk_approved)
      (db_with OrderStatus.pending)
    ≡ ok (
      OrderLifecycleProcessingResult.applied OrderStatus.pending OrderStatus.risk_approved none,
      approved_db,
    )
unfolding process_lifecycle_event process_registered apply_decision decide_order_transition
    find_order save_order
approval_committed = refl

answered_once_example :
    process_lifecycle_event js (draws_of "again") (delivery risk_approved) (run js [] approved_db)
    ≡ ok (OrderLifecycleProcessingResult.duplicate_event, run js [] approved_db)
answered_once_example =
    answered_once crypto doubles (Service.risk_service scorer) "risk" host deliveries [] 0 1 sent
      sent_again js (draws_of "approve") (draws_of "again") (delivery risk_approved)
      (delivery risk_approved) (db_with OrderStatus.pending) approved_db _ [] (λ event. refl)
      ((λ n. tt), ((λ n. tt), tt)) (λ e. unfold find_inbox in refl) (rw sent_twice refl)
      (rw sent_twice refl) refl approval_committed refl (unfold publish_result in refl)

abbrev approval : OrderRiskApprovedPayload
approval = record {
  order_id = order_id;
  amount = record { bits = 30 };
  currency = "USD";
  risk_score = risk_score crypto doubles scorer created.payload;
  approved_by = "risk-service";
}

abbrev payment : PaymentAuthorizedPayload
payment = record {
  payment_id = "pay_340000000000000000000000";
  order_id = order_id;
  amount = record { bits = 30 };
  currency = "USD";
  provider = "bank";
}

is_approved : answer.payload ≡ Payload.order_risk_approved approval
unfolding prepare_risk_event create_risk_event score_risk risk_score rehash random_factor
    read_big_endian write_big_endian
is_approved = refl

abbrev paid : DomainEvent
paid =
    prepare_payment_event crypto doubles settings "2026-01-01T00:00:02.000Z" "uuid-2"
      (with_payload answer approval)

is_paid : paid.payload ≡ Payload.payment_authorized payment
unfolding prepare_payment_event create_payment_event authorize random_factor read_big_endian hex
    hex_digit risk_score rehash write_big_endian
is_paid = refl

authorized_payment_example :
    IsPaymentOf doubles host scorer created
      (risk_score crypto doubles scorer created.payload)
      answer
      paid
      payment
authorized_payment_example =
    authorized_payment crypto doubles host scorer settings "2026-01-01T00:00:01.000Z"
      "2026-01-01T00:00:02.000Z" "uuid-2" created approval payment is_approved is_paid
