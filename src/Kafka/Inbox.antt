-- ===== src/Kafka/Inbox.antt =====
-- packages/kafka/src/inbox/postgres-kafka-inbox.store.ts. A transaction of the store is one step;
-- the columns that nothing reads back are left out. A result is a value `R` or `null`, and `json` is
-- what a value reads as once it went through `JSON.stringify` and a `jsonb` column.
pub mod Processor
pub mod Rows
pub mod History
pub mod Kept
pub mod Processing
use kafka_nest_playground.Prelude.{
  ℕ, ◌+◌, String, Bool, true, false, not, List, [], ◌∷◌, ◌++◌, Option, none, some, any, count_by,
  leb, eqb, if◌then◌else◌, ◌==◌, ◌&&◌,
}
use kafka_nest_playground.Prelude.Tx.{Result, ok, err, Error}

pub data InboxStatus : Type 0 where
  processing prepared completed : InboxStatus

-- A row of `kafka_consumer_inbox`; its first two columns are the primary key.
pub record InboxRow (R : Type 0) : Type 0 where
  pub consumer_name : String
  pub event_id : String
  pub status : InboxStatus
  pub result : Option R
  pub lock_token : Option String
  pub locked_until : Option ℕ
  pub attempts : ℕ
  pub last_error : Option String

pub record KafkaInboxClaim : Type 0 where
  pub consumer_name : String
  pub event_id : String
  pub lock_token : String
  pub locked_until : ℕ

-- Whose lease an update is for.
pub record LeaseKey : Type 0 where
  pub consumer_name : String
  pub event_id : String
  pub lock_token : String

pub record KafkaInboxRecord (R : Type 0) : Type 0 where
  pub status : InboxStatus
  pub result : Option R
  pub lock_token : Option String

abbrev pub is_completed : InboxStatus → Bool
is_completed InboxStatus.completed = true
is_completed _ = false

abbrev pub is_processing : InboxStatus → Bool
is_processing InboxStatus.processing = true
is_processing _ = false

abbrev pub is_prepared : InboxStatus → Bool
is_prepared InboxStatus.prepared = true
is_prepared _ = false

abbrev pub lock_passed : ℕ → Option ℕ → Bool
lock_passed now none = true
lock_passed now (some at) = leb at now

abbrev pub holds : String → Option String → Bool
holds token none = false
holds token (some t) = t == token

module _ {R : Type 0} where
  abbrev pub is_at : (consumer_name event_id : String) → InboxRow R → Bool
  is_at consumer_name event_id r = (r.consumer_name == consumer_name) && (r.event_id == event_id)

  unfoldable pub find_inbox :
      (consumer_name event_id : String) → List (InboxRow R) → Option (InboxRow R)
  find_inbox consumer_name event_id [] = none
  find_inbox consumer_name event_id (r ∷ rs) =
      if is_at consumer_name event_id r then some r else find_inbox consumer_name event_id rs

  -- `update kafka_consumer_inbox set … where consumer_name = $1 and event_id = $2 and …`.
  unfoldable pub update_inbox :
      (consumer_name event_id : String) (may : InboxRow R → Bool) (change : InboxRow R → InboxRow R)
      → List (InboxRow R)
      → List (InboxRow R)
  update_inbox consumer_name event_id may change [] = []
  update_inbox consumer_name event_id may change (r ∷ rs) =
      (if is_at consumer_name event_id r && may r then change r else r)
      ∷ update_inbox consumer_name event_id may change rs

  -- `mapInboxRow`.
  abbrev pub map_inbox_row : InboxRow R → KafkaInboxRecord R
  map_inbox_row r = record { status = r.status; result = r.result; lock_token = r.lock_token }

  abbrev pub new_row : KafkaInboxClaim → InboxRow R
  new_row c = record {
    consumer_name = c.consumer_name;
    event_id = c.event_id;
    status = InboxStatus.processing;
    result = none;
    lock_token = some c.lock_token;
    locked_until = some c.locked_until;
    attempts = 1;
    last_error = none;
  }

  abbrev pub may_acquire : ℕ → InboxRow R → Bool
  may_acquire now r = not (is_completed r.status) && lock_passed now r.locked_until

  abbrev pub acquired : KafkaInboxClaim → InboxRow R → InboxRow R
  acquired c r = record r {
    lock_token = some c.lock_token;
    locked_until = some c.locked_until;
    attempts = r.attempts + 1;
    last_error = none;
  }

  -- From the conflict on: the row that is there.
  unfoldable pub claim_existing :
      ℕ → KafkaInboxClaim → InboxRow R → List (InboxRow R) → KafkaInboxRecord R × List (InboxRow R)
  claim_existing now c r rows =
      if may_acquire now r
      then (
        map_inbox_row (acquired c r),
        update_inbox c.consumer_name c.event_id (may_acquire now) (acquired c) rows,
      )
      else (record { status = r.status; result = r.result; lock_token = none }, rows)

  -- The insert, or the row that it met.
  unfoldable pub claim_found :
      ℕ
      → KafkaInboxClaim
      → Option (InboxRow R)
      → List (InboxRow R)
      → KafkaInboxRecord R × List (InboxRow R)
  claim_found now c none rows = (map_inbox_row (new_row c), rows ++ new_row c ∷ [])
  claim_found now c (some r) rows = claim_existing now c r rows

  -- `claim`. As one step: the row that stopped the insert is there for the third query too.
  unfoldable pub claim :
      ℕ → KafkaInboxClaim → List (InboxRow R) → KafkaInboxRecord R × List (InboxRow R)
  claim now c rows = claim_found now c (find_inbox c.consumer_name c.event_id rows) rows

  -- An update that must meet exactly one row: `assertSingleUpdatedRow`.
  unfoldable pub update_single :
      LeaseKey
      → (InboxRow R → Bool)
      → (InboxRow R → InboxRow R)
      → List (InboxRow R)
      → Result (List (InboxRow R))
  update_single k may change rows =
      if eqb (count_by (λ r. is_at k.consumer_name k.event_id r && may r) rows) 1
      then ok (update_inbox k.consumer_name k.event_id may change rows)
      else err (Error.plain_error "Kafka inbox lease was lost")

  abbrev pub through : (json : R → R) → Option R → Option R
  through json none = none
  through json (some value) = some (json value)

  unfoldable pub save_prepared :
      (json : R → R) → LeaseKey → Option R → List (InboxRow R) → Result (List (InboxRow R))
  save_prepared json k result rows =
      update_single k (λ r. holds k.lock_token r.lock_token && is_processing r.status)
        (λ r. record r { status = InboxStatus.prepared; result = through json result }) rows

  unfoldable pub mark_completed : LeaseKey → List (InboxRow R) → Result (List (InboxRow R))
  mark_completed k rows =
      update_single k (λ r. holds k.lock_token r.lock_token && is_prepared r.status)
        (λ r. record r { status = InboxStatus.completed; lock_token = none; locked_until = none })
        rows

  unfoldable pub release : ℕ → LeaseKey → (message : String) → List (InboxRow R) → List (InboxRow R)
  release now k message rows =
      update_inbox k.consumer_name k.event_id
        (λ r. holds k.lock_token r.lock_token && not (is_completed r.status))
        (λ r. record r { lock_token = none; locked_until = some now; last_error = some message })
        rows
