-- ===== src/Dlq/Corrected.antt =====
-- What a reprocessed event is: the original with the operator's corrections, within its contract.
use kafka_nest_playground.Prelude.{
  String, ◌≡◌, refl, ap, sym, ◌∙◌, subst, Bool, true, false, not, List, [], ◌∷◌, Option, none, some,
  any, if◌then◌else◌, ◌==◌, arith, eq_iff,
}
use kafka_nest_playground.Prelude.Tx.{ok, Error, guard, >>=-eq-ok, >>-eq-ok}
use kafka_nest_playground.Dlq.Json.{
  Json, text, object, Fields, end, field, get, set, merge, keys, get-set,
}
use kafka_nest_playground.Dlq.Contract.{
  DomainEventType, read_event_type, contract_topic, allowed_fields, as_record, require_string,
  require_text, validate_payload, validate_domain_event,
}
use kafka_nest_playground.Dlq.Conforms.{
  Conforms, guard-ok, ok-injective, require_string-IsText, validate_payload-Conforms,
}
use kafka_nest_playground.Dlq.Reprocess.{
  ReprocessedEventResult, assert_only_allowed_payload_fields, get_message_key, is_topic, text_of,
  reprocessed_copy, create_reprocessed_event, is_text, is_envelope,
}

-- The operator's value of a field, or else the original one.
abbrev pub corrected_value : String → Fields → Option Json → Option Json
corrected_value name end original = original
corrected_value name (field k v fs) original =
    corrected_value name fs (if k == name then some v else original)

get-merge :
    (name : String) (base changes : Fields)
    → get name (merge base changes) ≡ corrected_value name changes (get name base)
unfolding merge
get-merge name base end = refl
get-merge name base (field k v fs) =
    get-merge name (set k v base) fs ∙ ap (corrected_value name fs) (get-set name k v base)

-- `name` is among the keys of an object, or the words of a list.
abbrev pub has : String → List String → Bool
has name names = any (λ other. other == name) names

-- The event `r` is `original` with the operator's corrections.
pub record IsCorrected (uuid now_text : String) (original corrected : Fields) (topic : String)
    (r : ReprocessedEventResult) : Type 0 where
  pub kind : Option DomainEventType
  pub is_kind : kind ≡ read_event_type (text_of (get "eventType" original))
  -- The payload is the original one, except for corrections of editable fields.
  pub payload : Fields
  pub before : Fields
  pub is_payload : get "payload" r.event ≡ some (object payload)
  pub is_before : get "payload" original ≡ some (object before)
  pub values : (name : String) → get name payload ≡ corrected_value name corrected (get name before)
  pub editable :
      (name : String) → has name (keys corrected) ≡ true → has name (allowed_fields kind) ≡ true
  -- The envelope tells the copy from the original, and keeps the chain of events.
  pub own_id : get "eventId" r.event ≡ some (text uuid)
  pub cause : get "causationId" r.event ≡ get "eventId" original
  pub same_type : get "eventType" r.event ≡ get "eventType" original
  pub same_correlation : get "correlationId" r.event ≡ get "correlationId" original
  -- It has a type of the contract, goes to that type's topic, and has the fields of the contract.
  pub type : DomainEventType
  pub has_type : kind ≡ some type
  pub own_topic : contract_topic (some type) ≡ some topic
  pub sent_to : r.topic ≡ topic
  pub conforms : Conforms type payload

allowed-has :
    (allowed names : List String) (name : String)
    → any (λ key. not (has key allowed)) names ≡ false
    → has name names ≡ true
    → has name allowed ≡ true
allowed-has allowed [] name h e = cc
allowed-has allowed (k ∷ names) name h e =
    ground (arith, eq_iff k name, allowed-has allowed names name)

not-eq-true : (b : Bool) → not b ≡ true → b ≡ false
not-eq-true false h = refl
not-eq-true true h = cc

is_text-text : (v : Option Json) → is_text v ≡ true → (s : String) × (v ≡ some (text s))
is_text-text (some (text s)) h = (s, refl)
is_text-text _ h = cc

as_record-object : (v : Option Json) (fs : Fields) → as_record v ≡ ok fs → v ≡ some (object fs)
unfolding as_record
as_record-object (some (object fs')) fs h = cc
as_record-object _ fs h = cc

is_envelope-event_id :
    (fs : Fields) → is_envelope fs ≡ true → (id : String) × (get "eventId" fs ≡ some (text id))
unfolding is_envelope
is_envelope-event_id fs h = is_text-text (get "eventId" fs) (ground arith)

module _ (uuid now_text id : String) (original payload : Fields)
    (has_id : get "eventId" original ≡ some (text id)) where
  abbrev copy : Fields
  copy = reprocessed_copy uuid now_text original payload

  -- The fields of the copy, by name.
  get-copy :
      (name : String)
      → get name copy ≡ (
          if "payload" == name
          then some (object payload)
          else if "producer" == name
          then some (text "order-service-dlq-reprocessor")
          else if "causationId" == name
          then some (text id)
          else if "occurredAt" == name
          then some (text now_text)
          else if "eventId" == name
          then some (text uuid)
          else get name original)
  unfolding reprocessed_copy
  get-copy name = rw has_id (simp get-set)

validate-type :
    (event payload : Fields)
    → get "payload" event ≡ some (object payload)
    → validate_domain_event event ≡ ok tt
    → validate_payload (read_event_type (text_of (get "eventType" event))) payload ≡ ok tt
unfolding validate_domain_event
validate-type event payload e h =
    let (fs, is_fs, h1) = >>=-eq-ok (as_record (get "payload" event)) _ h in
    let same : fs ≡ payload = cc (as_record-object (get "payload" event) fs is_fs, e) in
    let (_, h2) = >>-eq-ok (require_text (get "correlationId" event)) _ h1 in
    let (s, read, h3) = >>=-eq-ok (require_string (get "eventType" event)) _ h2 in
    let typed : text_of (get "eventType" event) ≡ s =
      ap text_of (require_string-IsText (get "eventType" event) s read).0 in
    rw (typed, sym same) h3

is_topic-eq :
    (expected : String) (topic : Option String)
    → is_topic expected topic ≡ true
    → topic ≡ some expected
is_topic-eq expected none h = cc
is_topic-eq expected (some topic) h = ap some ((eq_iff topic expected).0 h)

contract_topic-some :
    (kind : Option DomainEventType) (topic : String)
    → contract_topic kind ≡ some topic
    → (t : DomainEventType) × (kind ≡ some t)
contract_topic-some none topic h = cc
contract_topic-some (some t) topic h = (t, refl)

-- An event that the factory gives for an envelope is the original with the corrections, valid for
-- the contract of its type, with a new id that names the original as its cause, and it goes to the
-- topic of its type: only editable fields of the payload change.
pub create_reprocessed_event-IsCorrected :
    (uuid now_text : String) (original corrected : Fields) (topic : String)
    (r : ReprocessedEventResult)
    → is_envelope original ≡ true
    → create_reprocessed_event uuid now_text original corrected topic ≡ ok r
    → IsCorrected uuid now_text original corrected topic r
unfolding create_reprocessed_event assert_only_allowed_payload_fields
create_reprocessed_event-IsCorrected uuid now_text original corrected topic r env h =
    let (id, has_id) = is_envelope-event_id original env in
    let kind = read_event_type (text_of (get "eventType" original)) in
    let (allowed, h1) = >>-eq-ok (guard _ Error.unprocessable) _ h in
    let (base, is_base, h2) = >>=-eq-ok (as_record (get "payload" original)) _ h1 in
    let payload = merge base corrected in
    let event = reprocessed_copy uuid now_text original payload in
    let (valid, h3) = >>-eq-ok (validate_domain_event event) _ h2 in
    let (to_topic, h4) = >>-eq-ok (guard _ Error.unprocessable) _ h3 in
    let (key, _, made) = >>=-eq-ok (get_message_key event) _ h4 in
    let at = get-copy uuid now_text id original payload has_id in
    let typed = at "eventType" in
    let built : ReprocessedEventResult = record {
      event = event;
      topic = topic;
      message_key = key;
    } in
    let is_built : r ≡ built = sym (ok-injective made) in
    let is_event : r.event ≡ event = ap (λ (x : ReprocessedEventResult). x.event) is_built in
    let goes : contract_topic kind ≡ some topic = is_topic-eq topic (contract_topic kind) (
      guard-ok _ Error.unprocessable (
        subst
          (λ (t : Option Json).
            guard (is_topic topic (contract_topic (read_event_type (text_of t))))
              Error.unprocessable
            ≡ ok tt)
          typed to_topic)) in
    let (type, has_type) = contract_topic-some kind topic goes in
    record {
      kind = kind;
      is_kind = refl;
      payload = payload;
      before = base;
      is_payload = ap (get "payload") is_event ∙ at "payload";
      is_before = as_record-object (get "payload" original) base is_base;
      values = λ name. get-merge name base corrected;
      editable = λ name.
          allowed-has (allowed_fields kind) (keys corrected) name
            (not-eq-true _ (guard-ok _ Error.unprocessable allowed));
      own_id = ap (get "eventId") is_event ∙ at "eventId";
      cause = ap (get "causationId") is_event ∙ (at "causationId" ∙ sym has_id);
      same_type = ap (get "eventType") is_event ∙ typed;
      same_correlation = ap (get "correlationId") is_event ∙ at "correlationId";
      type = type;
      has_type = has_type;
      own_topic = sym (ap contract_topic has_type) ∙ goes;
      sent_to = ap (λ (x : ReprocessedEventResult). x.topic) is_built;
      conforms = validate_payload-Conforms type payload (
          subst (λ (k : Option DomainEventType). validate_payload k payload ≡ ok tt) has_type
            (subst
              (λ (t : Option Json). validate_payload (read_event_type (text_of t)) payload ≡ ok tt)
              typed (validate-type event payload (at "payload") valid)));
    }
