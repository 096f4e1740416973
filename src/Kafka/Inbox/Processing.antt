-- ===== src/Kafka/Inbox/Processing.antt =====
-- What one run of the idempotent processor does.
use kafka_nest_playground.Prelude.{
  ℕ, String, ◌≡◌, refl, Bool, true, false, List, [], ◌∷◌, ◌++◌, Option, none, some, if◌then◌else◌,
  inl, inr, eq_refl, arith, Bool-cases,
}
use kafka_nest_playground.Prelude.Text.{is_empty}
use kafka_nest_playground.Prelude.Tx.{ok}
use kafka_nest_playground.Kafka.Inbox.{
  InboxRow, InboxStatus, is_completed, lock_passed, may_acquire, new_row, through, is_at,
  find_inbox, claim, claim_found, claim_existing, update_single, save_prepared, mark_completed,
}
use kafka_nest_playground.Kafka.Inbox.Rows.{update_inbox-new, count-new}
use kafka_nest_playground.Kafka.Inbox.Processor.{
  Promised, Run, busy_error, claim_of, key_of, complete, perform, save_and_perform, process_claimed,
  process_locked, process,
}

module _ {R : Type 0} (json : R → R) (run : Run R) where
  -- A completed event is answered as a duplicate with its stored result, and an event under a live
  -- lease with the busy error; in both cases no effect is called and the table stays as it is,
  -- whatever `prepare` and `effect` are.
  pub process_guarded :
      (prepare : Promised (Option R)) (effect : Option R → Promised (Unit {0}))
      (rows : List (InboxRow R)) (r : InboxRow R)
      → find_inbox run.consumer_name run.event_id rows ≡ some r
      → may_acquire run.claimed_at r ≡ false
      → process json run prepare effect rows ≡ record {
        answer =
            if is_completed r.status
            then Promised.fulfilled (record { duplicate = true; result = r.result })
            else Promised.rejected busy_error;
        effects = [];
        rows = rows;
      }
  unfolding process claim claim_found claim_existing process_locked
  process_guarded prepare effect rows r there guarded = rw there (
      rw guarded (elim (Bool-cases (is_completed r.status)) [
        | inl done ↦ rw done refl
        | inr undone ↦ rw undone refl
      ]))

  perform-effects :
      (token : String) (effect : Option R → Promised (Unit {0})) (result : Option R)
      (rows : List (InboxRow R))
      → (perform run token effect result rows).effects ≡ result ∷ []
  unfolding perform complete
  perform-effects token effect result rows = ground arith

  -- An event with a saved result is never prepared again: whatever `prepare` would give now, a run
  -- that gets the lease calls `effect` exactly once, with the saved result.
  pub process_prepared :
      (prepare : Promised (Option R)) (effect : Option R → Promised (Unit {0}))
      (rows : List (InboxRow R)) (r : InboxRow R) (saved : R)
      → find_inbox run.consumer_name run.event_id rows ≡ some r
      → r.status ≡ InboxStatus.prepared
      → r.result ≡ some saved
      → lock_passed run.claimed_at r.locked_until ≡ true
      → is_empty run.lock_token ≡ false
      → (process json run prepare effect rows).effects ≡ some saved ∷ []
  unfolding process claim claim_found claim_existing process_locked process_claimed save_and_perform
  process_prepared prepare effect rows r saved there is_prep is_saved passed named =
      rw (there, is_prep, passed, named, is_saved)
        (perform-effects run.lock_token effect (some saved) _)

  abbrev prepared_row : Option R → InboxRow R
  prepared_row result = record (new_row (claim_of run)) {
    status = InboxStatus.prepared;
    result = through json result;
  }

  abbrev pub completed_row : Option R → InboxRow R
  completed_row result = record (new_row (claim_of run)) {
    status = InboxStatus.completed;
    result = through json result;
    lock_token = none;
    locked_until = none;
  }

  -- An update that meets the last row alone.
  update_single-new :
      (may : InboxRow R → Bool) (change : InboxRow R → InboxRow R) (rows : List (InboxRow R))
      (last : InboxRow R)
      → find_inbox run.consumer_name run.event_id rows ≡ none
      → is_at run.consumer_name run.event_id last ≡ true
      → may last ≡ true
      → update_single (key_of run run.lock_token) may change (rows ++ last ∷ [])
        ≡ ok (rows ++ change last ∷ [])
  unfolding update_single
  update_single-new may change rows last new is_there passes =
      rw
        (
          count-new run.consumer_name run.event_id may rows last new is_there passes,
          update_inbox-new run.consumer_name run.event_id may change rows last new is_there passes,
        )
        refl

  own_row : is_at run.consumer_name run.event_id (new_row {R = R} (claim_of run)) ≡ true
  own_row = ground (arith, eq_refl run.consumer_name, eq_refl run.event_id)

  save_prepared-new :
      (result : Option R) (rows : List (InboxRow R))
      → find_inbox run.consumer_name run.event_id rows ≡ none
      → save_prepared json (key_of run run.lock_token) result (rows ++ new_row (claim_of run) ∷ [])
        ≡ ok (rows ++ prepared_row result ∷ [])
  unfolding save_prepared
  save_prepared-new result rows new =
      update_single-new _ _ rows (new_row (claim_of run)) new own_row
        (ground (arith, eq_refl run.lock_token))

  mark_completed-new :
      (result : Option R) (rows : List (InboxRow R))
      → find_inbox run.consumer_name run.event_id rows ≡ none
      → mark_completed (key_of run run.lock_token) (rows ++ prepared_row result ∷ [])
        ≡ ok (rows ++ completed_row result ∷ [])
  unfolding mark_completed
  mark_completed-new result rows new =
      update_single-new _ _ rows (prepared_row result) new own_row
        (ground (arith, eq_refl run.lock_token))

  -- A new event whose `prepare` and `effect` succeed, and whose rows no other consumer touches in
  -- between, is completed in one run: `effect` is called once, with what `prepare` gave, the answer
  -- is that result, and the table gains one row, which is completed, unlocked and holds the result.
  pub process_fresh :
      (result : Option R) (effect : Option R → Promised (Unit {0})) (rows : List (InboxRow R))
      → find_inbox run.consumer_name run.event_id rows ≡ none
      → is_empty run.lock_token ≡ false
      → ((n : ℕ) (t : List (InboxRow R)) → run.meanwhile n t ≡ t)
      → effect result ≡ Promised.fulfilled tt
      → process json run (Promised.fulfilled result) effect rows ≡ record {
        answer = Promised.fulfilled (record { duplicate = false; result = result });
        effects = result ∷ [];
        rows = rows ++ completed_row result ∷ [];
      }
  unfolding process claim claim_found process_locked process_claimed save_and_perform perform
      complete
  process_fresh result effect rows new named alone succeeds =
      rw (new, named, alone, save_prepared-new result rows new)
        (rw (succeeds, perform) (rw (alone, mark_completed-new result rows new, complete) refl))
