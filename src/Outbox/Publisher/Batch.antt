-- ===== src/Outbox/Publisher/Batch.antt =====
-- What one batch of the publisher does to each row of the outbox.
use kafka_nest_playground.Prelude.{
  ℕ, ◌+◌, ◌*◌, ◌^◌, min, String, ◌≡◌, true, List, none, some, any, if◌then◌else◌,
}
use kafka_nest_playground.Kafka.Errors.{Thrown}
use kafka_nest_playground.Outbox.Entity.{OutboxEvent, OutboxStatus}
use kafka_nest_playground.Outbox.Store.{candidates, has_id, leased, lease_rows, stored_error}
use kafka_nest_playground.Outbox.Publisher.{Attempt, Publisher, BatchParams, claim_options}

-- A row that is to be tried again, one attempt later and free of its lease.
abbrev waiting : (at : ℕ) → Thrown → OutboxEvent → OutboxEvent
waiting at thrown row = record row {
  status = OutboxStatus.failed;
  attempts = row.attempts + 1;
  next_attempt_at = some (at + min 30000 (1000 * 2 ^ row.attempts));
  last_error = some (stored_error thrown);
  locked_by = none;
  locked_until = none;
}

-- The row that an attempt should leave.
abbrev pub settled : Attempt → OutboxEvent → OutboxEvent
settled (Attempt.delivered at) row = record row {
  status = OutboxStatus.published;
  published_at = some at;
  last_error = none;
  locked_by = none;
  locked_until = none;
}
settled (Attempt.refused at thrown) row = waiting at thrown row
settled (Attempt.unmarked at thrown) row = waiting at thrown row

abbrev pub IsUnleased : OutboxEvent → Type 0
IsUnleased row = (row.locked_by ≡ none) × (row.locked_until ≡ none)

-- The row as the batch hands it to the loop.
abbrev pub claimed_row : BatchParams → ℕ → OutboxEvent → OutboxEvent
claimed_row params now row =
    leased (claim_options params.owner_id params.lease_ms).0
      (now + (claim_options params.owner_id params.lease_ms).1) row

-- Was the row `k` chosen, and then what became of it.
abbrev pub after_batch :
    BatchParams
    → (now : ℕ) → (OutboxEvent → Attempt)
    → List OutboxEvent
    → (k : String) → OutboxEvent
    → OutboxEvent
after_batch params now attempt rows k row =
    if any (has_id k) (candidates now params.batch_size rows)
    then settled (attempt (claimed_row params now row)) (claimed_row params now row)
    else row

module _ (params : BatchParams) (now : ℕ) (p : Publisher) where
  abbrev chosen : List OutboxEvent
  chosen = candidates now params.batch_size p.rows

  abbrev owner : String
  owner = (claim_options params.owner_id params.lease_ms).0

  abbrev until : ℕ
  until = now + (claim_options params.owner_id params.lease_ms).1

  abbrev started : Publisher
  started = record p { rows = lease_rows owner until chosen p.rows; is_publishing = true }
