-- ===== src/Services/Worker/Saved.antt =====
-- What a worker publishes for an event whose answer is saved.
use kafka_nest_playground.Prelude.{
  ℕ, String, ◌≡◌, refl, ap, subst, sym, ◌∙◌, false, List, [], ◌∷◌, Option, none, some, Bool-cases,
  inl, inr,
}
use kafka_nest_playground.Prelude.Decimal.{All}
use kafka_nest_playground.Contracts.Events.{DomainEvent, event_topic_map}
use kafka_nest_playground.Outbox.Entity.{TraceCarrier}
use kafka_nest_playground.Kafka.Retry.Dispatcher.{SentMessage}
use kafka_nest_playground.Kafka.Retry.Passing.{is_trace_name, published_headers-same}
use kafka_nest_playground.Kafka.Inbox.{
  InboxRow, InboxStatus, KafkaInboxClaim, is_completed, is_processing, may_acquire, find_inbox,
  claim, claim_found, claim_existing,
}
use kafka_nest_playground.Kafka.Headers.{empty_headers}
use kafka_nest_playground.Kafka.Inbox.History.{
  InboxCall, claims, saves, completes, releases, serve_inbox, run_inbox,
}
use kafka_nest_playground.Kafka.Inbox.Kept.{result_kept}
use kafka_nest_playground.Kafka.Inbox.Processor.{Promised, claim_of, key_of, result_of}
use kafka_nest_playground.Dlq.Rows.{All-append}
use kafka_nest_playground.Services.Worker.{
  Worker, Host, Delivery, Sent, order_id_of, publish_result, run_of, effect_of, sent_by, handle,
  deliver_all,
}
use kafka_nest_playground.Services.Worker.Runs.{Keeps, process-IsGoodRun}
use kafka_nest_playground.Services.Worker.Ids.{fulfilled-injective}

some-injective : (a b : DomainEvent) → some a ≡ some b → a ≡ b
some-injective a b h = cc

module _ (c e : String) (answer : DomainEvent) where
  -- The answer to the event is saved.
  abbrev pub IsSaved : List (InboxRow DomainEvent) → Type 0
  IsSaved rows =
      (r : InboxRow DomainEvent) × (find_inbox c e rows ≡ some r)
      × (r.result ≡ some answer)
      × (is_processing r.status ≡ false)

  run_inbox-IsSaved :
      (json : DomainEvent → DomainEvent) (calls : List (InboxCall DomainEvent))
      (rows : List (InboxRow DomainEvent))
      → IsSaved rows
      → IsSaved (run_inbox json calls rows)
  run_inbox-IsSaved json calls rows (r, there, is_answer, saved) =
      let (r', there', same, saved') = result_kept json c e calls rows r there saved in
      (r', there', same ∙ is_answer, saved')

  serve_inbox-IsSaved :
      (json : DomainEvent → DomainEvent) (call : InboxCall DomainEvent)
      (rows : List (InboxRow DomainEvent))
      → IsSaved rows
      → IsSaved (serve_inbox json call rows)
  unfolding run_inbox
  serve_inbox-IsSaved json call rows h = run_inbox-IsSaved json (call ∷ []) rows h

  -- The record that a claim answers with.
  claim-fields :
      (now : ℕ) (cl : KafkaInboxClaim) (rows : List (InboxRow DomainEvent))
      (r : InboxRow DomainEvent)
      → find_inbox cl.consumer_name cl.event_id rows ≡ some r
      → ((claim now cl rows).0.status ≡ r.status) × ((claim now cl rows).0.result ≡ r.result)
  unfolding claim claim_found claim_existing
  claim-fields now cl rows r there = rw there (elim (Bool-cases (may_acquire now r)) [
    | inl free ↦ rw free (refl, refl)
    | inr held ↦ rw held (refl, refl)
  ])

  chosen-saved :
      (status : InboxStatus) (found prepared x : Option DomainEvent)
      → is_completed status ≡ false
      → is_processing status ≡ false
      → found ≡ some answer
      → result_of status found (Promised.fulfilled prepared) ≡ Promised.fulfilled x
      → x ≡ some answer
  chosen-saved InboxStatus.completed found prepared x unfinished saved is_answer h = cc
  chosen-saved InboxStatus.processing found prepared x unfinished saved is_answer h = cc
  chosen-saved InboxStatus.prepared none prepared x unfinished saved is_answer h = cc
  chosen-saved InboxStatus.prepared (some r) prepared x unfinished saved is_answer h =
      sym (fulfilled-injective (some r) x h) ∙ is_answer

-- A message of the answer: the answer itself, under its topic and its order's id, with the headers
-- that any publication of it has, in any span, but for the four that name the span.
pub record IsAnswerMessage (host : Host) (answer : DomainEvent) (message : SentMessage)
    : Type 0 where
  event : message.event ≡ answer
  topic : message.topic ≡ event_topic_map answer.payload
  key : message.key ≡ order_id_of answer.payload
  headers :
      (trace : TraceCarrier) (name : String)
      → is_trace_name name ≡ false
      → message.headers name ≡ (publish_result host trace answer).headers name

publish_result-IsAnswerMessage :
    (host : Host) (answer : DomainEvent) (trace : TraceCarrier)
    → IsAnswerMessage host answer (publish_result host trace answer)
unfolding publish_result
publish_result-IsAnswerMessage host answer trace = record {
  event = refl;
  topic = refl;
  key = refl;
  headers = λ trace' name t.
      published_headers-same host.node trace trace' answer (some answer.correlation_id)
        answer.causation_id empty_headers name t;
}

module _ (host : Host) (worker : Worker) (e : String) (answer : DomainEvent) where
  abbrev pub IsSavedHere : List (InboxRow DomainEvent) → Type 0
  IsSavedHere = IsSaved worker.consumer_name e answer

  -- A delivery of the event goes on with the answer, and one of another event with anything.
  abbrev IsAnswer : Delivery → Option DomainEvent → Type 0
  IsAnswer d x = d.event.event_id ≡ e → x ≡ some answer

  saved-Keeps : (d : Delivery) → Keeps host.json (run_of host worker d) IsSavedHere (IsAnswer d)
  unfolding serve_inbox
  saved-Keeps d =
      let own_run = run_of host worker d in
      let keeps : (call : InboxCall DomainEvent) (rows : List (InboxRow DomainEvent))
          → IsSavedHere rows
          → IsSavedHere (serve_inbox host.json call rows) =
        serve_inbox-IsSaved worker.consumer_name e answer host.json in
      record {
        on_claim = λ rows h. keeps (claims own_run.claimed_at (claim_of own_run)) rows h;
        on_save = λ token result rows good h. keeps (saves (key_of own_run token) result) rows h;
        on_complete = λ token rows h. keeps (completes (key_of own_run token)) rows h;
        on_release = λ token message rows h.
            keeps (releases own_run.released_at (key_of own_run token) message) rows h;
        on_meanwhile = λ n rows h.
            run_inbox-IsSaved worker.consumer_name e answer host.json (d.others n) rows h;
      }

  abbrev pub CarriesAnswer : Sent → Type 0
  CarriesAnswer sent = sent.incoming ≡ e → IsAnswerMessage host answer sent.message

  sent_by-CarriesAnswer :
      (trace : TraceCarrier) (incoming : String) (effects : List (Option DomainEvent))
      → All (λ x. incoming ≡ e → x ≡ some answer) effects
      → All CarriesAnswer (sent_by host trace incoming effects)
  sent_by-CarriesAnswer trace incoming [] all = tt
  sent_by-CarriesAnswer trace incoming (none ∷ effects) all =
      sent_by-CarriesAnswer trace incoming effects all.1
  sent_by-CarriesAnswer trace incoming (some event ∷ effects) all = (
    λ same.
        subst (λ x. IsAnswerMessage host answer (publish_result host trace x))
          (sym (some-injective event answer (all.0 same)))
          (publish_result-IsAnswerMessage host answer trace),
    sent_by-CarriesAnswer trace incoming effects all.1,
  )

  handle-CarriesAnswer :
      (d : Delivery) (prepared : Option DomainEvent) (rows : List (InboxRow DomainEvent))
      → IsSavedHere rows
      → All CarriesAnswer (handle host worker d prepared rows).0
        × IsSavedHere (handle host worker d prepared rows).1
  unfolding handle
  handle-CarriesAnswer d none rows h = (tt, h)
  handle-CarriesAnswer d (some event) rows h =
      let own_run = run_of host worker d in
      let p =
        process-IsGoodRun host.json own_run IsSavedHere (IsAnswer d) (saved-Keeps d) (some event)
          (effect_of d.outcome) rows h
          (λ undone x chosen same.
            let (r, there, is_answer, saved) = h in
            let (status, result) =
              claim-fields worker.consumer_name e answer own_run.claimed_at (claim_of own_run) rows
                r (ap (λ i. find_inbox worker.consumer_name i rows) same ∙ there) in
            chosen-saved worker.consumer_name e answer _ _ (some event) x undone
              (ap is_processing status ∙ saved) (result ∙ is_answer) chosen) in
      (sent_by-CarriesAnswer d.trace d.event.event_id _ p.1, p.0)

  -- Once a worker's answer to an event is saved in the inbox, every message that it sends for the
  -- event is that answer, to its topic, under its order's id and with the headers of the answer, the
  -- four that name the span of the publication apart, in any later deliveries of this and of other
  -- events, each with a span of its own, whatever its settings and its clock would make of the event
  -- by then, whatever publications fail, and whatever the other processes call on the inbox in
  -- between.
  pub saved_answer_sent :
      (ds : List Delivery) (rows : List (InboxRow DomainEvent))
      → IsSavedHere rows
      → All CarriesAnswer (deliver_all host worker ds rows).0
  unfolding deliver_all
  saved_answer_sent [] rows h = tt
  saved_answer_sent (d ∷ ds) rows h =
      let first = handle-CarriesAnswer d (worker.prepare d.now d.uuid d.event) rows h in
      All-append CarriesAnswer _ _ first.0 (saved_answer_sent ds _ first.1)
