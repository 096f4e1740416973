-- ===== src/Examples/KafkaInbox.antt =====
-- Consumers of one event.
use kafka_nest_playground.Prelude.{
  ℕ, ◌≡◌, refl, String, false, List, [], ◌∷◌, Option, none, some, arith,
}
use kafka_nest_playground.Kafka.Inbox.{
  InboxRow, InboxStatus, KafkaInboxClaim, LeaseKey, is_processing, find_inbox, claim,
}
use kafka_nest_playground.Kafka.Inbox.History.{
  InboxCall, claims, saves, completes, releases, run_inbox,
}
use kafka_nest_playground.Kafka.Inbox.Kept.{result_kept, lease_protects}
use kafka_nest_playground.Kafka.Inbox.Processor.{Promised, Run, busy_error, process}
use kafka_nest_playground.Kafka.Inbox.Processing.{
  process_guarded, process_prepared, process_fresh, completed_row,
}

abbrev json : ℕ → ℕ
json n = n

-- The row of the event, leased to `token-1` until 1000.
abbrev row_in : InboxStatus → Option ℕ → InboxRow ℕ
row_in status result = record {
  consumer_name = "risk-service";
  event_id = "event-1";
  status = status;
  result = result;
  lock_token = some "token-1";
  locked_until = some 1000;
  attempts = 1;
  last_error = none;
}

abbrev key_of_token : String → LeaseKey
key_of_token token = record {
  consumer_name = "risk-service";
  event_id = "event-1";
  lock_token = token;
}

abbrev claim_with : String → ℕ → KafkaInboxClaim
claim_with token until = record {
  consumer_name = "risk-service";
  event_id = "event-1";
  lock_token = token;
  locked_until = until;
}

-- A second consumer tries everything, after the lease too.
abbrev calls : List (InboxCall ℕ)
calls =
    claims 500 (claim_with "token-2" 1500)
    ∷ saves (key_of_token "token-2") (some 8)
    ∷ releases 600 (key_of_token "token-1") "timeout"
    ∷ claims 700 (claim_with "token-3" 1700)
    ∷ saves (key_of_token "token-3") (some 9)
    ∷ completes (key_of_token "token-3")
    ∷ []

abbrev calls_of_others : List (InboxCall ℕ)
calls_of_others =
    claims 500 (claim_with "token-2" 1500)
    ∷ saves (key_of_token "token-2") (some 8)
    ∷ completes (key_of_token "token-2")
    ∷ releases 600 (key_of_token "token-2") "timeout"
    ∷ []

result_kept_example :
    (r : InboxRow ℕ) × (find_inbox "risk-service" "event-1"
        (run_inbox json calls (row_in InboxStatus.prepared (some 7) ∷ []))
      ≡ some r)
    × (r.result ≡ some 7)
    × (is_processing r.status ≡ false)
result_kept_example =
    result_kept json "risk-service" "event-1" calls (row_in InboxStatus.prepared (some 7) ∷ [])
      (row_in InboxStatus.prepared (some 7)) (unfold find_inbox in refl) refl

lease_protects_example :
    (find_inbox "risk-service" "event-1"
        (run_inbox json calls_of_others (row_in InboxStatus.processing none ∷ []))
      ≡ some (row_in InboxStatus.processing none))
    × ((claim 999
          (claim_with "token-4" 2000)
          (run_inbox json calls_of_others (row_in InboxStatus.processing none ∷ []))).0.lock_token
        ≡ none)
lease_protects_example =
    lease_protects json "risk-service" "event-1" "token-1" 1000 calls_of_others
      (row_in InboxStatus.processing none ∷ []) (row_in InboxStatus.processing none) 999
      (claim_with "token-4" 2000) (unfold find_inbox in refl) refl refl
      (refl, (refl, (refl, (refl, tt)))) (omega arith) refl refl

abbrev run_at : ℕ → Run ℕ
run_at now = record {
  consumer_name = "risk-service";
  event_id = "event-1";
  lock_token = "token-5";
  claimed_at = now;
  released_at = now;
  meanwhile = λ n rows. rows;
}

abbrev always : Option ℕ → Promised (Unit {0})
always result = Promised.fulfilled tt

process_guarded_example :
    process json
      (run_at 999)
      (Promised.fulfilled (some 8))
      always
      (row_in InboxStatus.processing none ∷ [])
    ≡ record {
      answer = Promised.rejected busy_error;
      effects = [];
      rows = row_in InboxStatus.processing none ∷ [];
    }
process_guarded_example =
    process_guarded json (run_at 999) (Promised.fulfilled (some 8)) always
      (row_in InboxStatus.processing none ∷ []) (row_in InboxStatus.processing none)
      (unfold find_inbox in refl) refl

process_prepared_example :
    (process json
      (run_at 1000)
      (Promised.fulfilled (some 8))
      always
      (row_in InboxStatus.prepared (some 7) ∷ [])).effects
    ≡ some 7 ∷ []
process_prepared_example =
    process_prepared json (run_at 1000) (Promised.fulfilled (some 8)) always
      (row_in InboxStatus.prepared (some 7) ∷ []) (row_in InboxStatus.prepared (some 7)) 7
      (unfold find_inbox in refl) refl refl refl refl

process_fresh_example :
    process json (run_at 1000) (Promised.fulfilled (some 8)) always [] ≡ record {
      answer = Promised.fulfilled (record { duplicate = false; result = some 8 });
      effects = some 8 ∷ [];
      rows = completed_row json (run_at 1000) (some 8) ∷ [];
    }
process_fresh_example =
    process_fresh json (run_at 1000) (some 8) always [] (unfold find_inbox in refl) refl
      (λ n t. refl) refl
