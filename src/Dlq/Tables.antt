-- ===== src/Dlq/Tables.antt =====
-- The tables of the dead letters: app/order-service/src/modules/dlq/entities and dlq.repository.ts.
use kafka_nest_playground.Prelude.{
  ℕ, zero, suc, ◌+◌, String, Bool, true, false, not, List, [], ◌∷◌, ◌++◌, Option, none, some, any,
  count_by, ltb, if◌then◌else◌, ◌==◌, ◌&&◌, ◌||◌,
}
use kafka_nest_playground.Prelude.Tx.{Result, ok, err, Error}
use kafka_nest_playground.Contracts.Events.{DeadLetterPayload}
use kafka_nest_playground.Outbox.Entity.{TraceCarrier, OutboxStatus}
use kafka_nest_playground.Outbox.Store.{take}
use kafka_nest_playground.Dlq.Json.{Fields}

-- `DeadLetterEventStatus`.
pub data DeadLetterStatus : Type 0 where
  new reprocessed ignored : DeadLetterStatus

abbrev pub is_new : DeadLetterStatus → Bool
is_new DeadLetterStatus.new = true
is_new _ = false

-- A row of `dead_letter_events`; an event is the object that the `jsonb` column gives.
pub record DeadLetterRow : Type 0 where
  pub id : String
  pub dead_letter_event_id : String
  pub original_event_id : Option String
  pub original_topic : String
  pub original_partition : ℕ
  pub original_offset : String
  pub message_key : Option String
  pub error_code : String
  pub error_message : String
  pub error_stack : Option String
  pub retry_count : ℕ
  pub first_failed_at : Option ℕ
  pub original_event : Option Fields
  pub status : DeadLetterStatus
  pub reprocessed_event_id : Option String
  pub reprocessed_at : Option ℕ
  pub ignored_at : Option ℕ
  pub ignore_reason : Option String
  pub resolved_by : Option String
  pub resolution_comment : Option String
  pub version : ℕ
  pub created_at : ℕ
  pub updated_at : ℕ

pub data DlqAuditAction : Type 0 where
  reprocess ignore : DlqAuditAction

-- A row of `dlq_audit_log`.
pub record DlqAuditLog : Type 0 where
  pub id : String
  pub dead_letter_event_id : String
  pub action : DlqAuditAction
  pub operator_id : String
  pub previous_status : DeadLetterStatus
  pub new_status : DeadLetterStatus
  pub comment : String
  pub reprocessed_event_id : Option String
  pub created_at : ℕ

-- A pending row of `outbox_events` with its event as JSON; the other columns are `null` or 0.
pub record OutboxJsonRow : Type 0 where
  pub id : String
  pub topic : String
  pub message_key : String
  pub event_type : String
  pub event_id : String
  pub event : Fields
  pub trace_context : Option TraceCarrier
  pub status : OutboxStatus
  pub created_at : ℕ

pub record DlqDb : Type 0 where
  pub dead_letters : List DeadLetterRow
  pub audit : List DlqAuditLog
  pub outbox : List OutboxJsonRow

abbrev pub has_id : String → DeadLetterRow → Bool
has_id id row = row.id == id

-- `findOneBy({ id })`.
unfoldable pub find_by_id : String → List DeadLetterRow → Option DeadLetterRow
find_by_id id [] = none
find_by_id id (r ∷ rs) = if has_id id r then some r else find_by_id id rs

-- `findOneByOrFail({ deadLetterEventId })`.
unfoldable pub find_by_event : String → List DeadLetterRow → Result DeadLetterRow
find_by_event event_id [] = err (Error.plain_error "EntityNotFound")
find_by_event event_id (r ∷ rs) =
    if r.dead_letter_event_id == event_id then ok r else find_by_event event_id rs

-- `insert … or ignore`: a row that meets the primary key or the unique event id is left out.
unfoldable pub insert_or_ignore : DeadLetterRow → List DeadLetterRow → List DeadLetterRow
insert_or_ignore row rows =
    if any
      (λ (r : DeadLetterRow). has_id row.id r || r.dead_letter_event_id == row.dead_letter_event_id)
      rows
    then rows
    else rows ++ row ∷ []

pub record SaveDeadLetterEventParams : Type 0 where
  pub event_id : String
  pub payload : DeadLetterPayload
  pub message_key : Option String
  pub error_code : String
  pub retry_count : ℕ
  pub first_failed_at : Option ℕ
  pub original_event_id : Option String
  pub original_event : Option Fields

-- The values that `saveIfAbsent` inserts, with the columns that the database fills in.
abbrev pub new_dead_letter : (id : String) (now : ℕ) → SaveDeadLetterEventParams → DeadLetterRow
new_dead_letter id now params = record {
  id = id;
  dead_letter_event_id = params.event_id;
  original_event_id = params.original_event_id;
  original_topic = params.payload.original_topic;
  original_partition = params.payload.original_partition;
  original_offset = params.payload.original_offset;
  message_key = params.message_key;
  error_code = params.error_code;
  error_message = params.payload.error_message;
  error_stack = params.payload.error_stack;
  retry_count = params.retry_count;
  first_failed_at = params.first_failed_at;
  original_event = params.original_event;
  status = DeadLetterStatus.new;
  reprocessed_event_id = none;
  reprocessed_at = none;
  ignored_at = none;
  ignore_reason = none;
  resolved_by = none;
  resolution_comment = none;
  version = 1;
  created_at = now;
  updated_at = now;
}

-- `save` of a loaded row; the version and the update date are the ORM's and the database's.
unfoldable pub save_dead_letter : ℕ → DeadLetterRow → List DeadLetterRow → List DeadLetterRow
save_dead_letter now row [] = []
save_dead_letter now row (r ∷ rs) =
    (if has_id row.id r then record row { version = row.version + 1; updated_at = now } else r)
    ∷ save_dead_letter now row rs

-- `save` of a new row of the outbox: `id` is the primary key and `event_id` is unique.
unfoldable pub insert_outbox_json : OutboxJsonRow → List OutboxJsonRow → Result (List OutboxJsonRow)
insert_outbox_json row rows =
    if any (λ (r : OutboxJsonRow). r.id == row.id || r.event_id == row.event_id) rows
    then err Error.unique_violation
    else ok (rows ++ row ∷ [])

unfoldable pub insert_audit : DlqAuditLog → List DlqAuditLog → Result (List DlqAuditLog)
insert_audit row rows =
    if any (λ (r : DlqAuditLog). r.id == row.id) rows
    then err Error.unique_violation
    else ok (rows ++ row ∷ [])

-- `saveIfAbsent`.
unfoldable pub save_if_absent :
    (id : String) (now : ℕ) → SaveDeadLetterEventParams → DlqDb → Result (DeadLetterRow × DlqDb)
save_if_absent id now params db =
    let rows = insert_or_ignore (new_dead_letter id now params) db.dead_letters in
    elim (find_by_event params.event_id rows) [
      | err thrown ↦ err thrown
      | ok row ↦ ok (row, record db { dead_letters = rows })
    ]

-- `countNew`.
unfoldable pub count_new : DlqDb → ℕ
count_new db = count_by (λ (r : DeadLetterRow). is_new r.status) db.dead_letters

-- `status: In([REPROCESSED, IGNORED]), updatedAt: LessThan(date)`.
abbrev pub is_resolved_before : ℕ → DeadLetterRow → Bool
is_resolved_before date r = not (is_new r.status) && ltb r.updated_at date

unfoldable pub filter {ℓ} : {A : Type ℓ} → (A → Bool) → List A → List A
filter p [] = []
filter p (x ∷ xs) = if p x then x ∷ filter p xs else filter p xs

abbrev pub is_for : String → DlqAuditLog → Bool
is_for id a = a.dead_letter_event_id == id

-- `deleteResolvedBefore`; the foreign key takes the audit rows along whose dead letter is gone.
unfoldable pub delete_resolved_before : ℕ → DlqDb → ℕ × DlqDb
delete_resolved_before date db =
    let kept = filter (λ (r : DeadLetterRow). not (is_resolved_before date r)) db.dead_letters in
    (
      count_by (is_resolved_before date) db.dead_letters,
      record db {
        dead_letters = kept;
        audit = filter (λ (a : DlqAuditLog). any (has_id a.dead_letter_event_id) kept) db.audit;
      },
    )

abbrev pub has_status : Option DeadLetterStatus → DeadLetterRow → Bool
has_status none r = true
has_status (some DeadLetterStatus.new) r = is_new r.status
has_status (some DeadLetterStatus.reprocessed) r = elim r.status [ reprocessed ↦ true | _ ↦ false ]
has_status (some DeadLetterStatus.ignored) r = elim r.status [ ignored ↦ true | _ ↦ false ]

-- `order: { createdAt: "DESC" }`; rows of one time keep the order of the table.
unfoldable pub insert_latest : DeadLetterRow → List DeadLetterRow → List DeadLetterRow
insert_latest row [] = row ∷ []
insert_latest row (r ∷ rs) =
    let rest = insert_latest row rs in
    if ltb row.created_at r.created_at then r ∷ rest else row ∷ r ∷ rs

unfoldable pub latest_first : List DeadLetterRow → List DeadLetterRow
latest_first [] = []
latest_first (r ∷ rs) = insert_latest r (latest_first rs)

abbrev pub skip {ℓ} : {A : Type ℓ} → ℕ → List A → List A
skip zero xs = xs
skip (suc n) [] = []
skip (suc n) (x ∷ xs) = skip n xs

-- `findPage`: the page and the total.
unfoldable pub find_page :
    Option DeadLetterStatus → (limit offset : ℕ) → DlqDb → List DeadLetterRow × ℕ
find_page status limit offset db =
    let chosen = filter (has_status status) db.dead_letters in
    (take limit (skip offset (latest_first chosen)), count_by (has_status status) db.dead_letters)
