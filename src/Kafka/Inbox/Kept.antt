-- ===== src/Kafka/Inbox/Kept.antt =====
-- What the inbox keeps over any history: results, and the rows of live leases.
use kafka_nest_playground.Prelude.{
  ℕ, String, ◌≡◌, refl, ap, ◌∙◌, ◌<◌, Bool, false, not, List, none, some, ltb, ◌==◌, arith,
}
use kafka_nest_playground.Kafka.Inbox.{
  InboxRow, InboxStatus, KafkaInboxClaim, is_processing, find_inbox, claim, claim_found,
  claim_existing,
}
use kafka_nest_playground.Kafka.Inbox.History.{
  InboxCall, claims, saves, completes, releases, run_inbox, Admitted, IsInvariant, run-keeps,
  any_call, any_call-Admitted,
}

-- The row of a completed event never changes again, whatever the consumers call: no stale lease,
-- late result or new claim reopens it.
completed_kept :
    {R : Type 0} (json : R → R) (c e : String) (calls : List (InboxCall R))
    (rows : List (InboxRow R)) (r : InboxRow R)
    → find_inbox c e rows ≡ some r
    → r.status ≡ InboxStatus.completed
    → find_inbox c e (run_inbox json calls rows) ≡ some r
completed_kept {R} json c e calls rows r there done =
    let (r', there', same) =
      run-keeps json c e (λ x. x ≡ r) any_call invariant calls rows r (any_call-Admitted calls)
        there refl in
    there' ∙ ap some same
  where
    invariant : IsInvariant R json c e (λ x. x ≡ r) any_call
    invariant = record {
      on_claim = λ now cl x a m p. absurd (ground (arith, done));
      on_save = λ k result x a m p. absurd (ground (arith, done));
      on_complete = λ k x a m p. absurd (ground (arith, done));
      on_release = λ now k message x a m p. absurd (ground (arith, done));
    }

-- Once a result is saved for an event, it is the event's result for good: whatever the consumers
-- call, crashes and new leases included, the row keeps it and never goes back to `PROCESSING`.
pub result_kept :
    {R : Type 0} (json : R → R) (c e : String) (calls : List (InboxCall R))
    (rows : List (InboxRow R)) (r : InboxRow R)
    → find_inbox c e rows ≡ some r
    → is_processing r.status ≡ false
    → (r' : InboxRow R) × (find_inbox c e (run_inbox json calls rows) ≡ some r')
      × (r'.result ≡ r.result)
      × (is_processing r'.status ≡ false)
result_kept {R} json c e calls rows r there saved =
    let (r', there', kept) =
      run-keeps json c e (λ x. (x.result ≡ r.result) × (is_processing x.status ≡ false)) any_call
        invariant calls rows r (any_call-Admitted calls) there (refl, saved) in
    (r', there', kept.0, kept.1)
  where
    invariant :
        IsInvariant R json c e
          (λ x. (x.result ≡ r.result) × (is_processing x.status ≡ false))
          any_call
    invariant = record {
      on_claim = λ now cl x a m p. p;
      on_save = λ k result x a m p. absurd (ground arith);
      on_complete = λ k x a m p. (p.0, refl);
      on_release = λ now k message x a m p. p;
    }

-- The calls of the others while the lease of `token` lasts until `until`.
abbrev pub of_others : {R : Type 0} (token : String) (until : ℕ) → InboxCall R → Bool
of_others token until (claims now cl) = ltb now until
of_others token until (saves k result) = not (token == k.lock_token)
of_others token until (completes k) = not (token == k.lock_token)
of_others token until (releases now k message) = not (token == k.lock_token)

-- While a lease lasts, the others can do nothing to its row: it stays as it is, whatever they claim
-- before the lease ends and whatever they save, complete or release under other tokens; and a claim
-- of the event in that time gets no token.
pub lease_protects :
    {R : Type 0} (json : R → R) (c e token : String) (until : ℕ) (calls : List (InboxCall R))
    (rows : List (InboxRow R)) (r : InboxRow R) (now : ℕ) (cl : KafkaInboxClaim)
    → find_inbox c e rows ≡ some r
    → r.lock_token ≡ some token
    → r.locked_until ≡ some until
    → Admitted (of_others token until) calls
    → now < until
    → cl.consumer_name ≡ c
    → cl.event_id ≡ e
    → (find_inbox c e (run_inbox json calls rows) ≡ some r)
      × ((claim now cl (run_inbox json calls rows)).0.lock_token ≡ none)
unfolding claim claim_found claim_existing
lease_protects {R} json c e token until calls rows r now cl there locked lasts others early same_c
      same_e =
    let (r', there', same) =
      run-keeps json c e (λ x. x ≡ r) (of_others token until) invariant calls rows r others there
        refl in
    let stays : find_inbox c e (run_inbox json calls rows) ≡ some r = there' ∙ ap some same in
    (stays, rw (same_c, same_e, stays) (ground arith))
  where
    invariant : IsInvariant R json c e (λ x. x ≡ r) (of_others token until)
    invariant = record {
      on_claim = λ n k x a m p. absurd (ground (arith, lasts));
      on_save = λ k result x a m p. absurd (ground (arith, locked));
      on_complete = λ k x a m p. absurd (ground (arith, locked));
      on_release = λ n k message x a m p. absurd (ground (arith, locked));
    }
