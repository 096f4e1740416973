-- ===== src/Retention.antt =====
-- app/order-service/src/modules/retention/technical-retention.service.ts: the statements that delete
-- finished rows in batches, and one pass over the three tables.
pub mod Laws
use kafka_nest_playground.Prelude.{
  ℕ, ◌-◌, ◌*◌, String, Bool, true, false, not, List, [], ◌∷◌, Option, none, some, any, length, ltb,
  eqb, if◌then◌else◌, ◌==◌, ◌&&◌, ◌||◌,
}
use kafka_nest_playground.Kafka.Headers.{Node}
use kafka_nest_playground.Kafka.Inbox.{InboxRow, is_completed}
use kafka_nest_playground.Outbox.Entity.{OutboxEvent, OutboxStatus}
use kafka_nest_playground.Outbox.Store.{take, text_leb}
use kafka_nest_playground.Orders.Entity.{ProcessedKafkaEvent}
use kafka_nest_playground.Dlq.Tables.{filter}

-- What a statement asks of a row, and its order. `is_locked` is another transaction's row lock,
-- which `skip locked` passes over.
pub record Target (A : Type 0) : Type 0 where
  pub is_finished : A → Bool
  pub is_locked : A → Bool
  pub precedes : A → A → Bool
  pub same_key : A → A → Bool

module _ {A : Type 0} (target : Target A) where
  unfoldable pub insert_by : A → List A → List A
  insert_by row [] = row ∷ []
  insert_by row (x ∷ xs) =
      let rest = insert_by row xs in if target.precedes row x then row ∷ x ∷ xs else x ∷ rest

  abbrev pub is_candidate : A → Bool
  is_candidate row = target.is_finished row && not (target.is_locked row)

  unfoldable pub ordered : List A → List A
  ordered [] = []
  ordered (x ∷ xs) = let rest = ordered xs in if is_candidate x then insert_by x rest else rest

  -- The common table expression `candidates`.
  unfoldable pub batch : ℕ → List A → List A
  batch batch_size rows = take batch_size (ordered rows)

  abbrev pub is_kept : List A → A → Bool
  is_kept chosen row = not (any (target.same_key row) chosen)

  -- `delete … using candidates`: how many rows go, and the table.
  unfoldable pub delete_batch : ℕ → List A → ℕ × List A
  delete_batch batch_size rows =
      let chosen = batch batch_size rows in
      (length (filter (λ row. any (target.same_key row) chosen) rows), filter (is_kept chosen) rows)

abbrev pub is_before : ℕ → Option ℕ → Bool
is_before cutoff none = false
is_before cutoff (some at) = ltb at cutoff

abbrev pub is_published : OutboxStatus → Bool
is_published OutboxStatus.published = true
is_published _ = false

abbrev pub time_or_zero : Option ℕ → ℕ
time_or_zero none = 0
time_or_zero (some at) = at

-- `deletePublishedOutboxBefore`.
abbrev pub published_outbox : (cutoff : ℕ) (is_locked : OutboxEvent → Bool) → Target OutboxEvent
published_outbox cutoff is_locked = record {
  is_finished = λ row. is_published row.status && is_before cutoff row.published_at;
  is_locked = is_locked;
  precedes = λ a b.
      ltb (time_or_zero a.published_at) (time_or_zero b.published_at)
      || (eqb (time_or_zero a.published_at) (time_or_zero b.published_at) && text_leb a.id b.id);
  same_key = λ a b. b.id == a.id;
}

-- The columns of `processed_kafka_events` that the statement reads, beside those of the entity.
pub record ProcessedRow : Type 0 where
  pub id : String
  pub event : ProcessedKafkaEvent
  pub processed_at : ℕ

-- `deleteProcessedKafkaEventsBefore`.
abbrev pub processed_events : (cutoff : ℕ) (is_locked : ProcessedRow → Bool) → Target ProcessedRow
processed_events cutoff is_locked = record {
  is_finished = λ row. ltb row.processed_at cutoff;
  is_locked = is_locked;
  precedes = λ a b.
      ltb a.processed_at b.processed_at
      || (eqb a.processed_at b.processed_at && text_leb a.id b.id);
  same_key = λ a b. b.id == a.id;
}

-- A row of the inbox with the time at which it was completed.
pub record CompletedRow (R : Type 0) : Type 0 where
  pub row : InboxRow R
  pub completed_at : Option ℕ

-- `deleteCompletedInboxBefore`.
abbrev pub completed_inbox :
    {R : Type 0} (cutoff : ℕ) (is_locked : CompletedRow R → Bool) → Target (CompletedRow R)
completed_inbox cutoff is_locked = record {
  is_finished = λ r. is_completed r.row.status && is_before cutoff r.completed_at;
  is_locked = is_locked;
  precedes = λ a b.
      ltb (time_or_zero a.completed_at) (time_or_zero b.completed_at)
      || (eqb (time_or_zero a.completed_at) (time_or_zero b.completed_at)
          && ((not (a.row.consumer_name == b.row.consumer_name)
                && text_leb a.row.consumer_name b.row.consumer_name)
              || ((a.row.consumer_name == b.row.consumer_name)
                  && text_leb a.row.event_id b.row.event_id)));
  same_key =
      λ a b. (b.row.consumer_name == a.row.consumer_name) && (b.row.event_id == a.row.event_id);
}

-- `Number.isInteger(value) && value >= 1`, or the fallback.
abbrev pub integer_or : ℕ → Option ℕ → ℕ
integer_or fallback none = fallback
integer_or fallback (some value) = if ltb value 1 then fallback else value

-- `readPositiveInteger`, of the setting that the configuration has.
unfoldable pub read_positive_integer : Node → Option String → (fallback : ℕ) → ℕ
read_positive_integer node none fallback = fallback
read_positive_integer node (some text) fallback = integer_or fallback (node.number text)

-- The settings by their names.
abbrev pub Config : Type 0
Config = String → Option String

-- `cleanupTarget`; a query that throws leaves its table as it was. A cutoff before 1970 is 0, since
-- no row is as old.
unfoldable pub cleanup_target :
    {A : Type 0}
    → Node
    → Config
    → (now : ℕ) (setting : String) (default_days batch_size : ℕ) (throws : Bool)
      (target : ℕ → Target A)
    → List A
    → List A
cleanup_target node config now setting default_days batch_size throws target rows =
    let retention_days = read_positive_integer node (config setting) default_days in
    let cutoff = now - retention_days * 86400000 in
    if throws then rows else (delete_batch (target cutoff) batch_size rows).1

pub record RetentionDb (R : Type 0) : Type 0 where
  pub outbox : List OutboxEvent
  pub processed : List ProcessedRow
  pub inbox : List (CompletedRow R)

-- What the database does to the three queries.
pub record Conditions (R : Type 0) : Type 0 where
  pub now : ℕ
  pub outbox_locked : OutboxEvent → Bool
  pub outbox_throws : Bool
  pub processed_locked : ProcessedRow → Bool
  pub processed_throws : Bool
  pub inbox_locked : CompletedRow R → Bool
  pub inbox_throws : Bool

-- `cleanup`.
unfoldable pub cleanup : {R : Type 0} → Node → Config → Conditions R → RetentionDb R → RetentionDb R
cleanup node config given db =
    let batch_size = read_positive_integer node (config "TECHNICAL_RETENTION_BATCH_SIZE") 1000 in
    record {
      outbox =
          cleanup_target node config given.now "OUTBOX_RETENTION_DAYS" 30 batch_size
            given.outbox_throws (λ cutoff. published_outbox cutoff given.outbox_locked) db.outbox;
      processed =
          cleanup_target node config given.now "PROCESSED_KAFKA_EVENTS_RETENTION_DAYS" 90 batch_size
            given.processed_throws (λ cutoff. processed_events cutoff given.processed_locked)
            db.processed;
      inbox =
          cleanup_target node config given.now "KAFKA_CONSUMER_INBOX_RETENTION_DAYS" 90 batch_size
            given.inbox_throws (λ cutoff. completed_inbox cutoff given.inbox_locked) db.inbox;
    }
