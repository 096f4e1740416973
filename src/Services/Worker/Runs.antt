-- ===== src/Services/Worker/Runs.antt =====
-- One run of the idempotent processor, for a property of the inbox that its statements keep and a
-- property of the results that it goes on with.
use kafka_nest_playground.Prelude.{
  ℕ, String, ◌≡◌, refl, false, List, [], ◌∷◌, Option, none, some, Bool-cases, inl, inr,
}
use kafka_nest_playground.Prelude.Decimal.{All}
use kafka_nest_playground.Prelude.Text.{is_empty}
use kafka_nest_playground.Prelude.Tx.{Result, ok, err}
use kafka_nest_playground.Contracts.Events.{DomainEvent}
use kafka_nest_playground.Kafka.Errors.{Thrown}
use kafka_nest_playground.Kafka.Inbox.{
  InboxRow, InboxStatus, KafkaInboxRecord, is_completed, is_prepared, claim, save_prepared,
  mark_completed, release,
}
use kafka_nest_playground.Kafka.Inbox.History.{rows_or}
use kafka_nest_playground.Kafka.Inbox.Processor.{
  Promised, Run, Processed, error_message, lease_lost, claim_of, key_of, give_up, complete, perform,
  save_and_perform, result_of, process_claimed, process_locked, process,
}

-- `Inv` holds of the table whatever the run does, and `IsGood` of what it calls its effect with.
pub record Keeps (json : DomainEvent → DomainEvent) (run : Run DomainEvent)
    (Inv : List (InboxRow DomainEvent) → Type 0) (IsGood : Option DomainEvent → Type 0)
    : Type 0 where
  pub on_claim :
      (rows : List (InboxRow DomainEvent))
      → Inv rows
      → Inv (claim run.claimed_at (claim_of run) rows).1
  pub on_save :
      (token : String) (result : Option DomainEvent) (rows : List (InboxRow DomainEvent))
      → IsGood result
      → Inv rows
      → Inv (rows_or rows (save_prepared json (key_of run token) result rows))
  pub on_complete :
      (token : String) (rows : List (InboxRow DomainEvent))
      → Inv rows
      → Inv (rows_or rows (mark_completed (key_of run token) rows))
  pub on_release :
      (token message : String) (rows : List (InboxRow DomainEvent))
      → Inv rows
      → Inv (release run.released_at (key_of run token) message rows)
  pub on_meanwhile :
      (n : ℕ) (rows : List (InboxRow DomainEvent)) → Inv rows → Inv (run.meanwhile n rows)

module _ (json : DomainEvent → DomainEvent) (run : Run DomainEvent)
    (Inv : List (InboxRow DomainEvent) → Type 0) (IsGood : Option DomainEvent → Type 0)
    (keeps : Keeps json run Inv IsGood) where
  abbrev pub IsGoodRun : Processed DomainEvent → Type 0
  IsGoodRun p = Inv p.rows × All IsGood p.effects

  give_up-IsGoodRun :
      (token : String) (thrown : Thrown) (effects : List (Option DomainEvent))
      (rows : List (InboxRow DomainEvent))
      → Inv rows
      → All IsGood effects
      → IsGoodRun (give_up run token thrown effects rows)
  give_up-IsGoodRun token thrown effects rows own all =
      (keeps.on_release token (error_message thrown) rows own, all)

  completed :
      (token : String) (result : Option DomainEvent) (rows : List (InboxRow DomainEvent))
      (marked : Result (List (InboxRow DomainEvent)))
      → Inv rows
      → Inv (rows_or rows marked)
      → IsGood result
      → IsGoodRun (elim marked [
        | err e ↦ give_up run token lease_lost (result ∷ []) (run.meanwhile 2 rows)
        | ok rows' ↦ record {
          answer = Promised.fulfilled (record { duplicate = false; result = result });
          effects = result ∷ [];
          rows = rows';
        }
      ])
  completed token result rows (ok rows') own after good = (after, (good, tt))
  completed token result rows (err e) own after good =
      give_up-IsGoodRun token lease_lost (result ∷ []) (run.meanwhile 2 rows)
        (keeps.on_meanwhile 2 rows own) (good, tt)

  complete-IsGoodRun :
      (token : String) (result : Option DomainEvent) (rows : List (InboxRow DomainEvent))
      → Inv rows
      → IsGood result
      → IsGoodRun (complete run token result rows)
  unfolding complete
  complete-IsGoodRun token result rows own good =
      completed token result rows (mark_completed (key_of run token) rows) own
        (keeps.on_complete token rows own) good

  performed :
      (token : String) (result : Option DomainEvent) (rows : List (InboxRow DomainEvent))
      (ended : Promised (Unit {0}))
      → Inv rows
      → IsGood result
      → IsGoodRun (elim ended [
        | Promised.rejected thrown ↦ give_up run token thrown (result ∷ []) (run.meanwhile 1 rows)
        | Promised.fulfilled u ↦ complete run token result (run.meanwhile 1 rows)
      ])
  performed token result rows (Promised.rejected thrown) own good =
      give_up-IsGoodRun token thrown (result ∷ []) (run.meanwhile 1 rows)
        (keeps.on_meanwhile 1 rows own) (good, tt)
  performed token result rows (Promised.fulfilled u) own good =
      complete-IsGoodRun token result (run.meanwhile 1 rows) (keeps.on_meanwhile 1 rows own) good

  perform-IsGoodRun :
      (token : String) (effect : Option DomainEvent → Promised (Unit {0}))
      (result : Option DomainEvent) (rows : List (InboxRow DomainEvent))
      → Inv rows
      → IsGood result
      → IsGoodRun (perform run token effect result rows)
  unfolding perform
  perform-IsGoodRun token effect result rows own good =
      performed token result rows (effect result) own good

  saved :
      (token : String) (effect : Option DomainEvent → Promised (Unit {0}))
      (result : Option DomainEvent) (rows : List (InboxRow DomainEvent))
      (kept : Result (List (InboxRow DomainEvent)))
      → Inv rows
      → Inv (rows_or rows kept)
      → IsGood result
      → IsGoodRun (elim kept [
        | err e ↦ give_up run token lease_lost [] (run.meanwhile 1 rows)
        | ok rows' ↦ perform run token effect result rows'
      ])
  saved token effect result rows (ok rows') own after good =
      perform-IsGoodRun token effect result rows' after good
  saved token effect result rows (err e) own after good =
      give_up-IsGoodRun token lease_lost [] (run.meanwhile 1 rows) (keeps.on_meanwhile 1 rows own)
        tt

  save_and_perform-IsGoodRun :
      (token : String) (status : InboxStatus) (effect : Option DomainEvent → Promised (Unit {0}))
      (result : Option DomainEvent) (rows : List (InboxRow DomainEvent))
      → Inv rows
      → IsGood result
      → IsGoodRun (save_and_perform json run token status effect result rows)
  unfolding save_and_perform
  save_and_perform-IsGoodRun token status effect result rows own good =
      elim (Bool-cases (is_prepared status)) [
        | inl p ↦ rw p (perform-IsGoodRun token effect result rows own good)
        | inr n ↦ rw n (
            saved token effect result rows (save_prepared json (key_of run token) result rows) own
              (keeps.on_save token result rows good own) good)
      ]

  went_on :
      (token : String) (status : InboxStatus) (effect : Option DomainEvent → Promised (Unit {0}))
      (rows : List (InboxRow DomainEvent)) (chosen : Promised (Option DomainEvent))
      → Inv rows
      → ((x : Option DomainEvent) → chosen ≡ Promised.fulfilled x → IsGood x)
      → IsGoodRun (elim chosen [
        | Promised.rejected thrown ↦ give_up run token thrown [] (run.meanwhile 0 rows)
        | Promised.fulfilled result ↦
            save_and_perform json run token status effect result (run.meanwhile 0 rows)
      ])
  went_on token status effect rows (Promised.rejected thrown) own good =
      give_up-IsGoodRun token thrown [] (run.meanwhile 0 rows) (keeps.on_meanwhile 0 rows own) tt
  went_on token status effect rows (Promised.fulfilled result) own good =
      save_and_perform-IsGoodRun token status effect result (run.meanwhile 0 rows)
        (keeps.on_meanwhile 0 rows own) (good result refl)

  -- What a run would go on with, after its claim.
  abbrev pub IsGoodChoice : Option DomainEvent → KafkaInboxRecord DomainEvent → Type 0
  IsGoodChoice prepared claimed =
      (x : Option DomainEvent)
      → result_of claimed.status claimed.result (Promised.fulfilled prepared) ≡ Promised.fulfilled x
      → IsGood x

  process_locked-IsGoodRun :
      (lock : Option String) (claimed : KafkaInboxRecord DomainEvent)
      (prepared : Option DomainEvent) (effect : Option DomainEvent → Promised (Unit {0}))
      (rows : List (InboxRow DomainEvent))
      → Inv rows
      → IsGoodChoice prepared claimed
      → IsGoodRun (process_locked json run lock claimed (Promised.fulfilled prepared) effect rows)
  unfolding process_locked process_claimed
  process_locked-IsGoodRun none claimed prepared effect rows own good = (own, tt)
  process_locked-IsGoodRun (some token) claimed prepared effect rows own good =
      elim (Bool-cases (is_empty token)) [
        | inl empty ↦ rw empty (own, tt)
        | inr named ↦ rw named (
            went_on token claimed.status effect rows
              (result_of claimed.status claimed.result (Promised.fulfilled prepared)) own good)
      ]

  pub process-IsGoodRun :
      (prepared : Option DomainEvent) (effect : Option DomainEvent → Promised (Unit {0}))
      (rows : List (InboxRow DomainEvent))
      → Inv rows
      → (is_completed (claim run.claimed_at (claim_of run) rows).0.status ≡ false
          → IsGoodChoice prepared (claim run.claimed_at (claim_of run) rows).0)
      → IsGoodRun (process json run (Promised.fulfilled prepared) effect rows)
  unfolding process
  process-IsGoodRun prepared effect rows own good =
      let claimed = (claim run.claimed_at (claim_of run) rows).0 in
      let own' = keeps.on_claim rows own in
      elim (Bool-cases (is_completed claimed.status)) [
        | inl done ↦ rw done (own', tt)
        | inr undone ↦ rw undone (
            process_locked-IsGoodRun claimed.lock_token claimed prepared effect
              (claim run.claimed_at (claim_of run) rows).1 own' (good undone))
      ]
