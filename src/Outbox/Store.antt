-- ===== src/Outbox/Store.antt =====
-- packages/outbox/src/postgres-outbox.store.ts. A statement takes the database's clock, or the
-- process's, in milliseconds.
pub mod Claim
pub mod Lease
pub mod Rows
pub mod Order
pub mod Backoff
use kafka_nest_playground.Prelude.{
  ℕ, ◌+◌, ◌-◌, ◌*◌, ◌^◌, min, max, zero, suc, String, Bool, true, false, List, [], ◌∷◌, map, Option,
  none, some, any, count_by, ltb, leb, eqb, if◌then◌else◌, ◌==◌, ◌&&◌, ◌||◌,
}
use Prim.Native.Char.{code}
use kafka_nest_playground.Outbox.Entity.{OutboxEvent, OutboxStatus}
use kafka_nest_playground.Kafka.Headers.{or_else}
use kafka_nest_playground.Kafka.Errors.{Thrown}

-- `… is null or … <= now()`.
abbrev pub has_passed : ℕ → Option ℕ → Bool
has_passed now none = true
has_passed now (some at) = leb at now

abbrev pub is_due : ℕ → OutboxStatus → Option ℕ → Bool
is_due now OutboxStatus.pending next_attempt_at = true
is_due now OutboxStatus.failed next_attempt_at = has_passed now next_attempt_at
is_due now OutboxStatus.published next_attempt_at = false
is_due now OutboxStatus.ignored next_attempt_at = false

-- The `where` clause of `findPublishable`.
abbrev pub is_publishable : ℕ → OutboxEvent → Bool
is_publishable now row =
    is_due now row.status row.next_attempt_at && has_passed now row.locked_until

-- The order of ids, as texts.
unfoldable pub text_leb : String → String → Bool
text_leb String.[] t = true
text_leb (String.◌∷◌ c s) String.[] = false
text_leb (String.◌∷◌ c s) (String.◌∷◌ d t) =
    ltb (code c) (code d) || (eqb (code c) (code d) && text_leb s t)

-- `order by created_at asc, id asc`.
abbrev pub precedes : OutboxEvent → OutboxEvent → Bool
precedes a b =
    ltb a.created_at b.created_at || (eqb a.created_at b.created_at && text_leb a.id b.id)

unfoldable pub insert_sorted : OutboxEvent → List OutboxEvent → List OutboxEvent
insert_sorted row [] = row ∷ []
insert_sorted row (x ∷ xs) =
    let rest = insert_sorted row xs in if precedes row x then row ∷ x ∷ xs else x ∷ rest

-- The rows that may be published, the oldest first.
unfoldable pub publishable_rows : ℕ → List OutboxEvent → List OutboxEvent
publishable_rows now [] = []
publishable_rows now (x ∷ xs) =
    let rest = publishable_rows now xs in
    if is_publishable now x then insert_sorted x rest else rest

abbrev pub take {ℓ} : {A : Type ℓ} → ℕ → List A → List A
take zero xs = []
take (suc n) [] = []
take (suc n) (x ∷ xs) = x ∷ take n xs

-- The common table expression `candidates`.
unfoldable pub candidates : (now limit : ℕ) → List OutboxEvent → List OutboxEvent
candidates now limit rows = take limit (publishable_rows now rows)

abbrev pub has_id : String → OutboxEvent → Bool
has_id id row = row.id == id

abbrev pub leased : (owner_id : String) → (until : ℕ) → OutboxEvent → OutboxEvent
leased owner_id until row = record row { locked_by = some owner_id; locked_until = some until }

-- `update … from candidates where outbox.id = candidates.id`.
unfoldable pub lease_rows :
    (owner_id : String) (until : ℕ) (chosen : List OutboxEvent)
    → List OutboxEvent
    → List OutboxEvent
lease_rows owner_id until chosen [] = []
lease_rows owner_id until chosen (x ∷ xs) =
    (if any (has_id x.id) chosen then leased owner_id until x else x)
    ∷ lease_rows owner_id until chosen xs

-- `findPublishable`: the rows that it returns, here in the order of their choice (PostgreSQL
-- promises none), and the table.
unfoldable pub find_publishable :
    (now limit : ℕ) (owner_id : String) (lease_ms : ℕ)
    → List OutboxEvent
    → List OutboxEvent × List OutboxEvent
find_publishable now limit owner_id lease_ms rows =
    let chosen = candidates now limit rows in
    (
      map (leased owner_id (now + lease_ms)) chosen,
      lease_rows owner_id (now + lease_ms) chosen rows,
    )

-- `repository.update({ id }, …)`.
unfoldable pub update_row :
    String → (OutboxEvent → OutboxEvent) → List OutboxEvent → List OutboxEvent
update_row id change [] = []
update_row id change (x ∷ xs) = (if x.id == id then change x else x) ∷ update_row id change xs

abbrev pub as_published : ℕ → OutboxEvent → OutboxEvent
as_published now row = record row {
  status = OutboxStatus.published;
  published_at = some now;
  last_error = none;
  locked_by = none;
  locked_until = none;
}

unfoldable pub mark_published : (now : ℕ) (id : String) → List OutboxEvent → List OutboxEvent
mark_published now id rows = update_row id (as_published now) rows

-- The delay of `nextAttemptAt`; `Math.max(0, attempts - 1)` is the subtraction that stops at 0.
unfoldable pub retry_delay_ms : ℕ → ℕ
retry_delay_ms attempts = min 30000 (1000 * 2 ^ (attempts - 1))

-- `normalizeError`.
abbrev pub stored_error : Thrown → String
stored_error (Thrown.non_retryable error_code message stack) = or_else stack message
stored_error (Thrown.error name message stack) = or_else stack message
stored_error (Thrown.other text) = text

abbrev pub as_failed : (now attempts : ℕ) → Thrown → OutboxEvent → OutboxEvent
as_failed now attempts thrown row = record row {
  status = OutboxStatus.failed;
  attempts = attempts;
  next_attempt_at = some (now + retry_delay_ms attempts);
  last_error = some (stored_error thrown);
  locked_by = none;
  locked_until = none;
}

unfoldable pub mark_failed :
    (now : ℕ) (id : String) (attempts : ℕ) → Thrown → List OutboxEvent → List OutboxEvent
mark_failed now id attempts thrown rows = update_row id (as_failed now attempts thrown) rows

unfoldable pub find_row : String → List OutboxEvent → Option OutboxEvent
find_row id [] = none
find_row id (x ∷ xs) = if x.id == id then some x else find_row id xs
