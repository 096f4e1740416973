-- ===== src/Dlq/Conforms.antt =====
-- The contract of an event's payload, apart from the code that checks it, and what passes that check.
use kafka_nest_playground.Prelude.{
  String, ◌≡◌, refl, ap, sym, ◌∙◌, subst, Bool, true, false, List, [], ◌∷◌, Option, none, some, any,
  ◌==◌, ◌⊎◌, inl, inr, Bool-cases,
}
use kafka_nest_playground.Prelude.Decimal.{All}
use kafka_nest_playground.Prelude.Text.{trim, is_empty}
use kafka_nest_playground.Prelude.Tx.{Result, ok, err, Error, ◌>>◌, guard, >>=-eq-ok, >>-eq-ok}
use kafka_nest_playground.Orders.OrderId.{is_uuid}
use kafka_nest_playground.Dlq.Json.{
  Json, null, bool, number, text, array, object, Fields, get, is_finite,
}
use kafka_nest_playground.Dlq.Contract.{
  DomainEventType, order_created, order_cancellation_requested, order_cancellation_rejected,
  order_confirmed, order_cancelled, order_risk_approved, order_risk_rejected, payment_authorized,
  payment_failed, notification_command, dead_letter_event, require_string, require_uuid,
  require_number, require_one_of, require_text, require_text_or_null, validate_payload,
}

-- The values that a field of a contract may have.
pub data Shape : Type 0 where
  a_text a_uuid a_number a_text_or_null : Shape
  one_of : List String → Shape

abbrev pub IsText : Option Json → Type 0
IsText v = (s : String) × (v ≡ some (text s)) × (is_empty (trim s) ≡ false)

abbrev pub HasShape : Shape → Option Json → Type 0
HasShape a_text v = IsText v
HasShape a_uuid v = (s : String) × (v ≡ some (text s)) × (is_uuid s ≡ true)
HasShape a_number v = (n : _) × (v ≡ some (number n)) × (is_finite n ≡ true)
HasShape a_text_or_null v = (v ≡ some null) ⊎ IsText v
HasShape (one_of words) v = (s : String) × (v ≡ some (text s)) × (any (λ w. w == s) words ≡ true)

-- The contracts: the fields of packages/contracts/src/events.ts, with their types.
abbrev requesters : Shape
requesters = one_of ("user" ∷ "operator" ∷ [])

abbrev pub shapes : DomainEventType → List (String × Shape)
shapes order_created =
    ("orderId", a_uuid)
    ∷ ("userId", a_text)
    ∷ ("currency", a_text)
    ∷ ("totalAmount", a_number)
    ∷ ("itemCount", a_number)
    ∷ []
shapes order_cancellation_requested =
    ("orderId", a_uuid)
    ∷ ("userId", a_text)
    ∷ ("reason", a_text)
    ∷ ("requestedBy", requesters)
    ∷ ("requestedAt", a_text)
    ∷ []
shapes order_cancellation_rejected =
    ("orderId", a_uuid)
    ∷ ("userId", a_text)
    ∷ ("reason", a_text)
    ∷ ("requestedBy", requesters)
    ∷ ("currentStatus", a_text)
    ∷ ("rejectedReason", a_text)
    ∷ ("rejectedAt", a_text)
    ∷ []
shapes order_confirmed =
    ("orderId", a_uuid)
    ∷ ("userId", a_text)
    ∷ ("currency", a_text)
    ∷ ("totalAmount", a_number)
    ∷ ("paymentId", a_text)
    ∷ ("confirmedAt", a_text)
    ∷ []
shapes order_cancelled =
    ("orderId", a_uuid)
    ∷ ("userId", a_text)
    ∷ ("reason", a_text)
    ∷ ("cancelledBy", one_of ("risk" ∷ "payment" ∷ "user" ∷ "operator" ∷ []))
    ∷ ("cancelledAt", a_text)
    ∷ []
shapes order_risk_approved =
    ("orderId", a_uuid)
    ∷ ("amount", a_number)
    ∷ ("currency", a_text)
    ∷ ("riskScore", a_number)
    ∷ ("approvedBy", a_text)
    ∷ []
shapes order_risk_rejected =
    ("orderId", a_uuid) ∷ ("riskScore", a_number) ∷ ("reason", a_text) ∷ ("rejectedBy", a_text) ∷ []
shapes payment_authorized =
    ("paymentId", a_text)
    ∷ ("orderId", a_uuid)
    ∷ ("amount", a_number)
    ∷ ("currency", a_text)
    ∷ ("provider", a_text)
    ∷ []
shapes payment_failed =
    ("paymentId", a_text_or_null)
    ∷ ("orderId", a_uuid)
    ∷ ("reason", a_text)
    ∷ ("provider", a_text)
    ∷ []
shapes notification_command =
    ("notificationId", a_text)
    ∷ ("recipient", a_text)
    ∷ ("channel", one_of ("email" ∷ "push" ∷ "webhook" ∷ []))
    ∷ ("template", a_text)
    ∷ ("dataJson", a_text)
    ∷ []
shapes dead_letter_event = []

-- Every field of the contract is there with its type.
abbrev pub Conforms : DomainEventType → Fields → Type 0
Conforms t payload = All (λ (f : String × Shape). HasShape f.1 (get f.0 payload)) (shapes t)

pub ok-injective : {A : Type 0} {a b : A} → ok a ≡ ok b → a ≡ b
ok-injective h = cc

pub require_string-IsText :
    (v : Option Json) (s : String)
    → require_string v ≡ ok s
    → (v ≡ some (text s)) × (is_empty (trim s) ≡ false)
unfolding require_string
require_string-IsText (some (text t)) s h = elim (Bool-cases (is_empty (trim t))) [
  | inl e ↦ let failed : require_string (some (text t)) ≡ err Error.unprocessable = rw e in cc
  | inr e ↦
      let read : require_string (some (text t)) ≡ ok t = rw e in
      let same : t ≡ s = ok-injective (sym read ∙ h) in
      (
        ap (λ (x : String). some (text x)) same,
        subst (λ (x : String). is_empty (trim x) ≡ false) same e,
      )
]
require_string-IsText _ s h = cc

check : Shape → Option Json → Result (Unit {0})
check a_text v = require_text v
check a_uuid v = require_uuid v
check a_number v = require_number v
check a_text_or_null v = require_text_or_null v
check (one_of words) v = require_one_of words v

check_all : List (String × Shape) → Fields → Result (Unit {0})
check_all [] p = ok tt
check_all ((name, shape) ∷ fs) p = check shape (get name p) >> check_all fs p

>>-ok : (m : Result (Unit {0})) → (m >> ok tt) ≡ m
>>-ok (err e) = refl
>>-ok (ok u) = refl

validate_payload-check :
    (t : DomainEventType) (p : Fields)
    → validate_payload (some t) p ≡ ok tt
    → check_all (shapes t) p ≡ ok tt
unfolding validate_payload check_all check
validate_payload-check dead_letter_event p h = cc
validate_payload-check _ p h = simp >>-ok h

pub guard-ok : (b : Bool) (e : Error) → guard b e ≡ ok tt → b ≡ true
guard-ok true e h = refl
guard-ok false e h = cc

require_text-IsText : (v : Option Json) → require_text v ≡ ok tt → IsText v
require_text-IsText v h =
    let (s, read, _) = >>=-eq-ok (require_string v) _ h in
    let (same, filled) = require_string-IsText v s read in (s, same, filled)

check-HasShape : (shape : Shape) (v : Option Json) → check shape v ≡ ok tt → HasShape shape v
unfolding check require_uuid require_number require_text_or_null require_one_of
check-HasShape a_text v h = require_text-IsText v h
check-HasShape a_uuid v h =
    let (s, read, checked) = >>=-eq-ok (require_string v) _ h in
    (s, (require_string-IsText v s read).0, guard-ok (is_uuid s) _ checked)
check-HasShape a_number (some (number n)) h = (n, refl, guard-ok (is_finite n) _ h)
check-HasShape a_number _ h = cc
check-HasShape a_text_or_null (some null) h = inl refl
check-HasShape a_text_or_null none h = inr (require_text-IsText none h)
check-HasShape a_text_or_null (some (text s)) h = inr (require_text-IsText (some (text s)) h)
check-HasShape a_text_or_null (some (bool b)) h = inr (require_text-IsText (some (bool b)) h)
check-HasShape a_text_or_null (some (number n)) h = inr (require_text-IsText (some (number n)) h)
check-HasShape a_text_or_null (some (array es)) h = inr (require_text-IsText (some (array es)) h)
check-HasShape a_text_or_null (some (object fs)) h = inr (require_text-IsText (some (object fs)) h)
check-HasShape (one_of words) v h =
    let (s, read, checked) = >>=-eq-ok (require_string v) _ h in
    (s, (require_string-IsText v s read).0, guard-ok _ _ checked)

check_all-Conforms :
    (fs : List (String × Shape)) (p : Fields)
    → check_all fs p ≡ ok tt
    → All (λ (f : String × Shape). HasShape f.1 (get f.0 p)) fs
unfolding check_all
check_all-Conforms [] p h = tt
check_all-Conforms ((name, shape) ∷ fs) p h =
    let (first, rest) = >>-eq-ok (check shape (get name p)) (check_all fs p) h in
    (check-HasShape shape (get name p) first, check_all-Conforms fs p rest)

-- A payload that the check accepts has every field of its contract.
pub validate_payload-Conforms :
    (t : DomainEventType) (p : Fields) → validate_payload (some t) p ≡ ok tt → Conforms t p
validate_payload-Conforms t p h = check_all-Conforms (shapes t) p (validate_payload-check t p h)
