-- ===== src/Kafka/Inbox/Processor.antt =====
-- packages/kafka/src/inbox/kafka-idempotent-event-processor.ts; log lines and metrics are left out.
use kafka_nest_playground.Prelude.{
  ℕ, ◌+◌, String, Bool, true, false, List, [], ◌∷◌, Option, none, some, if◌then◌else◌,
}
use kafka_nest_playground.Prelude.Text.{is_empty}
use kafka_nest_playground.Prelude.Tx.{ok, err}
use kafka_nest_playground.Kafka.Errors.{Thrown}
use kafka_nest_playground.Kafka.Inbox.{
  InboxRow, InboxStatus, KafkaInboxClaim, KafkaInboxRecord, LeaseKey, is_completed, is_prepared,
  claim, save_prepared, mark_completed, release,
}

-- What an awaited call ends with.
pub data Promised (A : Type 0) : Type 0 where
  fulfilled : A → Promised A
  rejected : Thrown → Promised A

pub record KafkaIdempotentProcessingResult (R : Type 0) : Type 0 where
  pub duplicate : Bool
  pub result : Option R

-- The event, the process's clock and its token, and what the other consumers do to the table
-- between the processor's own statements.
pub record Run (R : Type 0) : Type 0 where
  pub consumer_name : String
  pub event_id : String
  pub lock_token : String
  pub claimed_at : ℕ
  pub released_at : ℕ
  pub meanwhile : ℕ → List (InboxRow R) → List (InboxRow R)

-- The answer, the arguments that `effect` was called with, and the table.
pub record Processed (R : Type 0) : Type 0 where
  pub answer : Promised (KafkaIdempotentProcessingResult R)
  pub effects : List (Option R)
  pub rows : List (InboxRow R)

-- `error instanceof Error ? error.message : String(error)`.
abbrev pub error_message : Thrown → String
error_message (Thrown.non_retryable error_code message stack) = message
error_message (Thrown.error name message stack) = message
error_message (Thrown.other text) = text

abbrev pub busy_error : Thrown
busy_error = Thrown.error "KafkaInboxBusyError" "the event is already being processed" none

abbrev pub lease_lost : Thrown
lease_lost = Thrown.error "Error" "Kafka inbox lease was lost" none

module _ {R : Type 0} where
  abbrev pub claim_of : Run R → KafkaInboxClaim
  claim_of run = record {
    consumer_name = run.consumer_name;
    event_id = run.event_id;
    lock_token = run.lock_token;
    locked_until = run.claimed_at + 30000;
  }

  abbrev pub key_of : Run R → String → LeaseKey
  key_of run token = record {
    consumer_name = run.consumer_name;
    event_id = run.event_id;
    lock_token = token;
  }

  -- The `catch`: release the lease and throw again.
  abbrev pub give_up : Run R → String → Thrown → List (Option R) → List (InboxRow R) → Processed R
  give_up run token thrown effects rows = record {
    answer = Promised.rejected thrown;
    effects = effects;
    rows = release run.released_at (key_of run token) (error_message thrown) rows;
  }

  -- From `markCompleted` on.
  unfoldable pub complete : Run R → String → Option R → List (InboxRow R) → Processed R
  complete run token result rows = elim (mark_completed (key_of run token) rows) [
    | err e ↦ give_up run token lease_lost (result ∷ []) (run.meanwhile 2 rows)
    | ok rows' ↦ record {
      answer = Promised.fulfilled (record { duplicate = false; result = result });
      effects = result ∷ [];
      rows = rows';
    }
  ]

  -- From `effect` on.
  unfoldable pub perform :
      Run R → String → (Option R → Promised (Unit {0})) → Option R → List (InboxRow R) → Processed R
  perform run token effect result rows = elim (effect result) [
    | Promised.rejected thrown ↦ give_up run token thrown (result ∷ []) (run.meanwhile 1 rows)
    | Promised.fulfilled u ↦ complete run token result (run.meanwhile 1 rows)
  ]

  -- From the saving of the result on.
  unfoldable pub save_and_perform :
      (json : R → R)
      → Run R
      → String
      → InboxStatus
      → (Option R → Promised (Unit {0}))
      → Option R
      → List (InboxRow R)
      → Processed R
  save_and_perform json run token status effect result rows =
      if is_prepared status
      then perform run token effect result rows
      else elim (save_prepared json (key_of run token) result rows) [
        | err e ↦ give_up run token lease_lost [] (run.meanwhile 1 rows)
        | ok rows' ↦ perform run token effect result rows'
      ]

  -- `record.status === "PREPARED" && record.result !== null ? record.result : await prepare()`.
  abbrev pub result_of : InboxStatus → Option R → Promised (Option R) → Promised (Option R)
  result_of InboxStatus.prepared (some r) prepare = Promised.fulfilled (some r)
  result_of InboxStatus.prepared none prepare = prepare
  result_of InboxStatus.processing result prepare = prepare
  result_of InboxStatus.completed result prepare = prepare

  -- The `try`, with the token of the lease.
  unfoldable pub process_claimed :
      (json : R → R)
      → Run R
      → String
      → KafkaInboxRecord R
      → (prepare : Promised (Option R)) → (effect : Option R → Promised (Unit {0}))
      → List (InboxRow R)
      → Processed R
  process_claimed json run token claimed prepare effect rows =
      elim (result_of claimed.status claimed.result prepare) [
        | Promised.rejected thrown ↦ give_up run token thrown [] (run.meanwhile 0 rows)
        | Promised.fulfilled result ↦
            save_and_perform json run token claimed.status effect result (run.meanwhile 0 rows)
      ]

  -- From `!record.lockToken` on.
  unfoldable pub process_locked :
      (json : R → R)
      → Run R
      → Option String
      → KafkaInboxRecord R
      → Promised (Option R)
      → (Option R → Promised (Unit {0}))
      → List (InboxRow R)
      → Processed R
  process_locked json run none claimed prepare effect rows = record {
    answer = Promised.rejected busy_error;
    effects = [];
    rows = rows;
  }
  process_locked json run (some token) claimed prepare effect rows =
      let locked = process_claimed json run token claimed prepare effect rows in
      if is_empty token
      then record { answer = Promised.rejected busy_error; effects = []; rows = rows }
      else locked

  -- `process`; `prepare` counts only where the code calls it.
  unfoldable pub process :
      (json : R → R)
      → Run R
      → (prepare : Promised (Option R)) → (effect : Option R → Promised (Unit {0}))
      → List (InboxRow R)
      → Processed R
  process json run prepare effect rows =
      let (claimed, rows') = claim run.claimed_at (claim_of run) rows in
      if is_completed claimed.status
      then record {
        answer = Promised.fulfilled (record { duplicate = true; result = claimed.result });
        effects = [];
        rows = rows';
      }
      else process_locked json run claimed.lock_token claimed prepare effect rows'
