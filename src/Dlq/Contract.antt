-- ===== src/Dlq/Contract.antt =====
-- app/order-service/src/modules/dlq/dlq-reprocess.factory.ts: the editable fields of each type of
-- event, and the check of an event. A failed check is an `UnprocessableEntityException`.
use kafka_nest_playground.Prelude.{
  String, List, [], ◌∷◌, Option, none, some, any, if◌then◌else◌, ◌==◌,
}
use kafka_nest_playground.Prelude.Text.{trim, is_empty}
use kafka_nest_playground.Prelude.Tx.{Result, ok, err, Error, ◌>>=◌, ◌>>◌, guard}
use kafka_nest_playground.Contracts.Topics
use kafka_nest_playground.Orders.OrderId.{is_uuid}
use kafka_nest_playground.Dlq.Json.{Json, null, number, text, object, Fields, get, is_finite}

-- `DomainEventType`.
pub data DomainEventType : Type 0 where
  order_created order_cancellation_requested order_cancellation_rejected order_confirmed
        order_cancelled order_risk_approved order_risk_rejected payment_authorized payment_failed
        notification_command dead_letter_event :
      DomainEventType

-- The type that a text names; any other text names none.
unfoldable pub read_event_type : String → Option DomainEventType
read_event_type s =
    if s == "OrderCreated"
    then some order_created
    else if s == "OrderCancellationRequested"
    then some order_cancellation_requested
    else if s == "OrderCancellationRejected"
    then some order_cancellation_rejected
    else if s == "OrderConfirmed"
    then some order_confirmed
    else if s == "OrderCancelled"
    then some order_cancelled
    else if s == "OrderRiskApproved"
    then some order_risk_approved
    else if s == "OrderRiskRejected"
    then some order_risk_rejected
    else if s == "PaymentAuthorized"
    then some payment_authorized
    else if s == "PaymentFailed"
    then some payment_failed
    else if s == "NotificationCommand"
    then some notification_command
    else if s == "DeadLetterEvent"
    then some dead_letter_event
    else none

-- `EVENT_TOPIC_MAP`.
abbrev pub contract_topic : Option DomainEventType → Option String
contract_topic none = none
contract_topic (some order_risk_approved) = some Topics.risk_risk_events
contract_topic (some order_risk_rejected) = some Topics.risk_risk_events
contract_topic (some payment_authorized) = some Topics.payment_payment_events
contract_topic (some payment_failed) = some Topics.payment_payment_events
contract_topic (some notification_command) = some Topics.notification_notification_commands
contract_topic (some dead_letter_event) = some Topics.dead_letter_events
contract_topic (some order_created) = some Topics.order_order_events
contract_topic (some order_cancellation_requested) = some Topics.order_order_events
contract_topic (some order_cancellation_rejected) = some Topics.order_order_events
contract_topic (some order_confirmed) = some Topics.order_order_events
contract_topic (some order_cancelled) = some Topics.order_order_events

-- `ALLOWED_CORRECTED_PAYLOAD_FIELDS[eventType] ?? []`.
unfoldable pub allowed_fields : Option DomainEventType → List String
allowed_fields none = []
allowed_fields (some order_created) =
    "orderId" ∷ "userId" ∷ "currency" ∷ "totalAmount" ∷ "itemCount" ∷ []
allowed_fields (some order_cancellation_requested) =
    "orderId" ∷ "userId" ∷ "reason" ∷ "requestedBy" ∷ "requestedAt" ∷ []
allowed_fields (some order_cancellation_rejected) =
    "orderId" ∷ "userId" ∷ "reason" ∷ "requestedBy" ∷ "currentStatus" ∷ "rejectedReason"
    ∷ "rejectedAt" ∷ []
allowed_fields (some order_confirmed) =
    "orderId" ∷ "userId" ∷ "currency" ∷ "totalAmount" ∷ "paymentId" ∷ "confirmedAt" ∷ []
allowed_fields (some order_cancelled) =
    "orderId" ∷ "userId" ∷ "reason" ∷ "cancelledBy" ∷ "cancelledAt" ∷ []
allowed_fields (some order_risk_approved) =
    "orderId" ∷ "amount" ∷ "currency" ∷ "riskScore" ∷ "approvedBy" ∷ []
allowed_fields (some order_risk_rejected) = "orderId" ∷ "riskScore" ∷ "reason" ∷ "rejectedBy" ∷ []
allowed_fields (some payment_authorized) =
    "paymentId" ∷ "orderId" ∷ "amount" ∷ "currency" ∷ "provider" ∷ []
allowed_fields (some payment_failed) = "paymentId" ∷ "orderId" ∷ "reason" ∷ "provider" ∷ []
allowed_fields (some notification_command) =
    "notificationId" ∷ "recipient" ∷ "channel" ∷ "template" ∷ "dataJson" ∷ []
allowed_fields (some dead_letter_event) = []

-- `asRecord`.
unfoldable pub as_record : Option Json → Result Fields
as_record (some (object fs)) = ok fs
as_record _ = err Error.unprocessable

-- `requireString`.
unfoldable pub require_string : Option Json → Result String
require_string (some (text s)) = if is_empty (trim s) then err Error.unprocessable else ok s
require_string _ = err Error.unprocessable

-- `requireUuid`.
unfoldable pub require_uuid : Option Json → Result (Unit {0})
require_uuid value = do s ← require_string value; guard (is_uuid s) Error.unprocessable

-- `requireNumber`.
unfoldable pub require_number : Option Json → Result (Unit {0})
require_number (some (number n)) = guard (is_finite n) Error.unprocessable
require_number _ = err Error.unprocessable

-- `requireOneOf`.
unfoldable pub require_one_of : List String → Option Json → Result (Unit {0})
require_one_of allowed value = do
  s ← require_string value
  guard (any (λ a. a == s) allowed) Error.unprocessable

abbrev pub require_text : Option Json → Result (Unit {0})
require_text value = do s ← require_string value; ok tt

-- `if (payload.paymentId !== null) { requireString(…) }`.
unfoldable pub require_text_or_null : Option Json → Result (Unit {0})
require_text_or_null (some null) = ok tt
require_text_or_null value = require_text value

-- The `switch` of `validateDomainEvent`; no case takes another type.
unfoldable pub validate_payload : Option DomainEventType → Fields → Result (Unit {0})
validate_payload none p = ok tt
validate_payload (some order_created) p = do
  require_uuid (get "orderId" p)
  require_text (get "userId" p)
  require_text (get "currency" p)
  require_number (get "totalAmount" p)
  require_number (get "itemCount" p)
validate_payload (some order_cancellation_requested) p = do
  require_uuid (get "orderId" p)
  require_text (get "userId" p)
  require_text (get "reason" p)
  require_one_of ("user" ∷ "operator" ∷ []) (get "requestedBy" p)
  require_text (get "requestedAt" p)
validate_payload (some order_cancellation_rejected) p = do
  require_uuid (get "orderId" p)
  require_text (get "userId" p)
  require_text (get "reason" p)
  require_one_of ("user" ∷ "operator" ∷ []) (get "requestedBy" p)
  require_text (get "currentStatus" p)
  require_text (get "rejectedReason" p)
  require_text (get "rejectedAt" p)
validate_payload (some order_confirmed) p = do
  require_uuid (get "orderId" p)
  require_text (get "userId" p)
  require_text (get "currency" p)
  require_number (get "totalAmount" p)
  require_text (get "paymentId" p)
  require_text (get "confirmedAt" p)
validate_payload (some order_cancelled) p = do
  require_uuid (get "orderId" p)
  require_text (get "userId" p)
  require_text (get "reason" p)
  require_one_of ("risk" ∷ "payment" ∷ "user" ∷ "operator" ∷ []) (get "cancelledBy" p)
  require_text (get "cancelledAt" p)
validate_payload (some order_risk_approved) p = do
  require_uuid (get "orderId" p)
  require_number (get "amount" p)
  require_text (get "currency" p)
  require_number (get "riskScore" p)
  require_text (get "approvedBy" p)
validate_payload (some order_risk_rejected) p = do
  require_uuid (get "orderId" p)
  require_number (get "riskScore" p)
  require_text (get "reason" p)
  require_text (get "rejectedBy" p)
validate_payload (some payment_authorized) p = do
  require_text (get "paymentId" p)
  require_uuid (get "orderId" p)
  require_number (get "amount" p)
  require_text (get "currency" p)
  require_text (get "provider" p)
validate_payload (some payment_failed) p = do
  require_text_or_null (get "paymentId" p)
  require_uuid (get "orderId" p)
  require_text (get "reason" p)
  require_text (get "provider" p)
validate_payload (some notification_command) p = do
  require_text (get "notificationId" p)
  require_text (get "recipient" p)
  require_one_of ("email" ∷ "push" ∷ "webhook" ∷ []) (get "channel" p)
  require_text (get "template" p)
  require_text (get "dataJson" p)
validate_payload (some dead_letter_event) p = err Error.unprocessable

-- `validateDomainEvent`.
unfoldable pub validate_domain_event : Fields → Result (Unit {0})
validate_domain_event event = do
  payload ← as_record (get "payload" event)
  require_text (get "correlationId" event)
  event_type ← require_string (get "eventType" event)
  validate_payload (read_event_type event_type) payload
