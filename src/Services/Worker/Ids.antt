-- ===== src/Services/Worker/Ids.antt =====
-- The ids of what a worker publishes, over any deliveries and crashes.
use kafka_nest_playground.Prelude.{
  ℕ, subst, String, ◌≡◌, refl, List, [], ◌∷◌, Option, none, some, eq_iff, eq_refl, true, Bool-cases,
  inl, inr,
}
use kafka_nest_playground.Prelude.Decimal.{All}
use kafka_nest_playground.Contracts.Events.{DomainEvent}
use kafka_nest_playground.Outbox.Entity.{TraceCarrier}
use kafka_nest_playground.Kafka.Inbox.{
  InboxRow, InboxStatus, KafkaInboxClaim, may_acquire, find_inbox, claim, claim_found,
  claim_existing,
}
use kafka_nest_playground.Kafka.Inbox.Processor.{Promised, claim_of, key_of, result_of}
use kafka_nest_playground.Kafka.Inbox.History.{Admitted}
use kafka_nest_playground.Services.Worker.{
  Worker, Host, Delivery, Sent, publish_result, run_of, effect_of, sent_by, handle, deliver_all,
}
use kafka_nest_playground.Dlq.Rows.{All-append}
use kafka_nest_playground.Services.Worker.Runs.{Keeps, process-IsGoodRun}
use kafka_nest_playground.Services.Worker.Own.{
  own_result, own_found, IsOwn, is_honest, claim-IsOwn, save_prepared-IsOwn, mark_completed-IsOwn,
  release-IsOwn, run_inbox-IsOwn,
}

pub fulfilled-injective :
    {A : Type 0} (a b : A) → Promised.fulfilled a ≡ Promised.fulfilled b → a ≡ b
fulfilled-injective a b h = cc

claimed-result :
    (now : ℕ) (cl : KafkaInboxClaim) (id : String) (found : Option (InboxRow DomainEvent))
    (rows : List (InboxRow DomainEvent))
    → own_found id found ≡ true
    → own_result id (claim_found now cl found rows).0.result ≡ true
unfolding claim_found claim_existing
claimed-result now cl id none rows own = refl
claimed-result now cl id (some r) rows own = elim (Bool-cases (may_acquire now r)) [
  | inl free ↦ rw free own
  | inr held ↦ rw held own
]

claim-own_result :
    (now : ℕ) (cl : KafkaInboxClaim) (id : String) (rows : List (InboxRow DomainEvent))
    → own_found id (find_inbox cl.consumer_name cl.event_id rows) ≡ true
    → own_result id (claim now cl rows).0.result ≡ true
unfolding claim
claim-own_result now cl id rows own =
    claimed-result now cl id (find_inbox cl.consumer_name cl.event_id rows) rows own

chosen-own_result :
    (id : String) (status : InboxStatus) (found prepared x : Option DomainEvent)
    → own_result id found ≡ true
    → own_result id prepared ≡ true
    → result_of status found (Promised.fulfilled prepared) ≡ Promised.fulfilled x
    → own_result id x ≡ true
chosen-own_result id InboxStatus.prepared (some r) prepared x own good h =
    subst (λ y. own_result id y ≡ true) (fulfilled-injective (some r) x h) own
chosen-own_result id InboxStatus.prepared none prepared x own good h =
    subst (λ y. own_result id y ≡ true) (fulfilled-injective prepared x h) good
chosen-own_result id InboxStatus.processing found prepared x own good h =
    subst (λ y. own_result id y ≡ true) (fulfilled-injective prepared x h) good
chosen-own_result id InboxStatus.completed found prepared x own good h =
    subst (λ y. own_result id y ≡ true) (fulfilled-injective prepared x h) good

-- A message whose event has the id that belongs to the event it answers.
abbrev pub HasOwnId : (id_for : String → String) → Sent → Type 0
HasOwnId id_for sent = sent.message.event.event_id ≡ id_for sent.incoming

module _ (host : Host) (worker : Worker) (id_for : String → String) where
  abbrev pub IsOwnInbox : List (InboxRow DomainEvent) → Type 0
  IsOwnInbox rows = IsOwn host.json worker.consumer_name id_for rows

  -- Between the statements of a delivery, the other processes are honest.
  abbrev pub HasHonestOthers : Delivery → Type 0
  HasHonestOthers d =
      (n : ℕ) → Admitted (is_honest host.json worker.consumer_name id_for) (d.others n)

  sent_by-HasOwnId :
      (trace : TraceCarrier) (incoming : String) (effects : List (Option DomainEvent))
      → All (λ r. own_result (id_for incoming) r ≡ true) effects
      → All (HasOwnId id_for) (sent_by host trace incoming effects)
  unfolding publish_result
  sent_by-HasOwnId trace incoming [] all = tt
  sent_by-HasOwnId trace incoming (none ∷ effects) all =
      sent_by-HasOwnId trace incoming effects all.1
  sent_by-HasOwnId trace incoming (some event ∷ effects) all = (
    (eq_iff event.event_id (id_for incoming)).0 all.0,
    sent_by-HasOwnId trace incoming effects all.1,
  )

  module _ (json_keeps : (event : DomainEvent) → (host.json event).event_id ≡ event.event_id) where
    own-Keeps :
        (d : Delivery)
        → HasHonestOthers d
        → Keeps host.json
            (run_of host worker d)
            IsOwnInbox
            (λ x. own_result (id_for d.event.event_id) x ≡ true)
    own-Keeps d honest =
        let own_run = run_of host worker d in
        record {
          on_claim = λ rows own.
              claim-IsOwn host.json worker.consumer_name id_for own_run.claimed_at
                (claim_of own_run) rows own;
          on_save = λ token result rows good own.
              save_prepared-IsOwn host.json worker.consumer_name id_for json_keeps
                (key_of own_run token) result rows (rw (eq_refl worker.consumer_name) good) own;
          on_complete = λ token rows own.
              mark_completed-IsOwn host.json worker.consumer_name id_for (key_of own_run token) rows
                own;
          on_release = λ token message rows own.
              release-IsOwn host.json worker.consumer_name id_for own_run.released_at
                (key_of own_run token) message rows own;
          on_meanwhile = λ n rows own.
              run_inbox-IsOwn host.json worker.consumer_name id_for json_keeps (d.others n) rows
                (honest n) own;
        }

    handle-HasOwnId :
        (d : Delivery) (prepared : Option DomainEvent) (rows : List (InboxRow DomainEvent))
        → HasHonestOthers d
        → own_result (id_for d.event.event_id) prepared ≡ true
        → IsOwnInbox rows
        → All (HasOwnId id_for) (handle host worker d prepared rows).0
          × IsOwnInbox (handle host worker d prepared rows).1
    unfolding handle
    handle-HasOwnId d none rows honest good own = (tt, own)
    handle-HasOwnId d (some event) rows honest good own =
        let own_run = run_of host worker d in
        let p =
          process-IsGoodRun host.json own_run IsOwnInbox
            (λ x. own_result (id_for d.event.event_id) x ≡ true) (own-Keeps d honest) (some event)
            (effect_of d.outcome) rows own
            (λ undone x h.
              chosen-own_result (id_for d.event.event_id) _ _ (some event) x
                (claim-own_result own_run.claimed_at (claim_of own_run) (id_for d.event.event_id)
                  rows (own d.event.event_id))
                good h) in
        (sent_by-HasOwnId d.trace d.event.event_id _ p.1, p.0)

    module _
        (prepares : (now uuid : String) (event : DomainEvent)
          → own_result (id_for event.event_id) (worker.prepare now uuid event) ≡ true) where
      pub deliver_all-HasOwnId :
          (ds : List Delivery) (rows : List (InboxRow DomainEvent))
          → All HasHonestOthers ds
          → IsOwnInbox rows
          → All (HasOwnId id_for) (deliver_all host worker ds rows).0
            × IsOwnInbox (deliver_all host worker ds rows).1
      unfolding deliver_all
      deliver_all-HasOwnId [] rows honest own = (tt, own)
      deliver_all-HasOwnId (d ∷ ds) rows honest own =
          let first =
            handle-HasOwnId d (worker.prepare d.now d.uuid d.event) rows honest.0
              (prepares d.now d.uuid d.event) own in
          let later =
            deliver_all-HasOwnId ds
              (handle host worker d (worker.prepare d.now d.uuid d.event) rows).1 honest.1
              first.1 in
          (All-append (HasOwnId id_for) _ _ first.0 later.0, later.1)
