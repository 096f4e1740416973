-- ===== src/Services/Worker/Own.antt =====
-- An inbox in which every result that a worker saved has the id that belongs to its event.
use kafka_nest_playground.Prelude.{
  ℕ, String, ◌≡◌, refl, Bool, true, List, [], ◌∷◌, ◌++◌, Option, none, some, count_by, eqb,
  if◌then◌else◌, ◌==◌, ◌&&◌, eq_iff, arith, Bool-cases, inl, inr,
}
use kafka_nest_playground.Contracts.Events.{DomainEvent}
use kafka_nest_playground.Kafka.Inbox.{
  InboxRow, KafkaInboxClaim, LeaseKey, is_at, may_acquire, acquired, new_row, through, find_inbox,
  update_inbox, claim, claim_found, claim_existing, update_single, save_prepared, mark_completed,
  release,
}
use kafka_nest_playground.Kafka.Inbox.Rows.{changed, same_key, find_inbox-update_inbox}
use kafka_nest_playground.Kafka.Inbox.History.{
  InboxCall, claims, saves, completes, releases, rows_or, serve_inbox, run_inbox, Admitted,
}

abbrev pub own_result : (id : String) → Option DomainEvent → Bool
own_result id none = true
own_result id (some event) = event.event_id == id

abbrev pub own_found : (id : String) → Option (InboxRow DomainEvent) → Bool
own_found id none = true
own_found id (some r) = own_result id r.result

-- `id_for` gives the id that belongs to an event's.
module _ (json : DomainEvent → DomainEvent) (consumer_name : String)
    (id_for : String → String) where
  abbrev pub IsOwn : List (InboxRow DomainEvent) → Type 0
  IsOwn rows = (e : String) → own_found (id_for e) (find_inbox consumer_name e rows) ≡ true

  -- A call that saves nothing else under the consumer's name.
  abbrev pub is_honest : InboxCall DomainEvent → Bool
  is_honest (saves k result) =
      if k.consumer_name == consumer_name then own_result (id_for k.event_id) result else true
  is_honest other = true

  own_changed :
      (id : String) (may : InboxRow DomainEvent → Bool)
      (change : InboxRow DomainEvent → InboxRow DomainEvent) (found : Option (InboxRow DomainEvent))
      → ((x : InboxRow DomainEvent)
          → own_result id x.result ≡ true
          → own_result id (change x).result ≡ true)
      → own_found id found ≡ true
      → own_found id (changed may change found) ≡ true
  own_changed id may change none keeps own = refl
  own_changed id may change (some r) keeps own = elim (Bool-cases (may r)) [
    | inl m ↦ rw m (keeps r own)
    | inr m ↦ rw m own
  ]

  update_inbox-IsOwn :
      (c e' : String) (may : InboxRow DomainEvent → Bool)
      (change : InboxRow DomainEvent → InboxRow DomainEvent) (rows : List (InboxRow DomainEvent))
      → ((x : InboxRow DomainEvent)
          → ((change x).consumer_name ≡ x.consumer_name) × ((change x).event_id ≡ x.event_id))
      → ((e : String) (x : InboxRow DomainEvent)
          → same_key c e' consumer_name e ≡ true
          → own_result (id_for e) x.result ≡ true
          → own_result (id_for e) (change x).result ≡ true)
      → IsOwn rows
      → IsOwn (update_inbox c e' may change rows)
  update_inbox-IsOwn c e' may change rows keys keeps own e =
      rw (find_inbox-update_inbox consumer_name e c e' may change rows keys)
        (elim (Bool-cases (same_key c e' consumer_name e)) [
          | inl same ↦ rw same (
              own_changed (id_for e) may change (find_inbox consumer_name e rows)
                (λ x. keeps e x same) (own e))
          | inr other ↦ rw other (own e)
        ])

  own_found-append :
      (e : String) (last : InboxRow DomainEvent) (rows : List (InboxRow DomainEvent))
      → last.result ≡ none
      → own_found (id_for e) (find_inbox consumer_name e rows) ≡ true
      → own_found (id_for e) (find_inbox consumer_name e (rows ++ last ∷ [])) ≡ true
  unfolding find_inbox
  own_found-append e last [] empty own = ground arith
  own_found-append e last (x ∷ xs) empty own = ground (arith, own_found-append e last xs)

  update_single-IsOwn :
      (k : LeaseKey) (may : InboxRow DomainEvent → Bool)
      (change : InboxRow DomainEvent → InboxRow DomainEvent) (rows : List (InboxRow DomainEvent))
      → ((x : InboxRow DomainEvent)
          → ((change x).consumer_name ≡ x.consumer_name) × ((change x).event_id ≡ x.event_id))
      → ((e : String) (x : InboxRow DomainEvent)
          → same_key k.consumer_name k.event_id consumer_name e ≡ true
          → own_result (id_for e) x.result ≡ true
          → own_result (id_for e) (change x).result ≡ true)
      → IsOwn rows
      → IsOwn (rows_or rows (update_single k may change rows))
  unfolding update_single
  update_single-IsOwn k may change rows keys keeps own =
      elim (Bool-cases (eqb (count_by (λ r. is_at k.consumer_name k.event_id r && may r) rows) 1)) [
        | inl one ↦
            rw one (update_inbox-IsOwn k.consumer_name k.event_id may change rows keys keeps own)
        | inr other ↦ rw other own
      ]

  claim_found-IsOwn :
      (now : ℕ) (cl : KafkaInboxClaim) (found : Option (InboxRow DomainEvent))
      (rows : List (InboxRow DomainEvent))
      → IsOwn rows
      → IsOwn (claim_found now cl found rows).1
  unfolding claim_found claim_existing
  claim_found-IsOwn now cl none rows own = λ e. own_found-append e (new_row cl) rows refl (own e)
  claim_found-IsOwn now cl (some r) rows own = elim (Bool-cases (may_acquire now r)) [
    | inl free ↦ rw free (
        update_inbox-IsOwn cl.consumer_name cl.event_id (may_acquire now) (acquired cl) rows
          (λ x. (refl, refl)) (λ e x same h. h) own)
    | inr held ↦ rw held own
  ]

  pub claim-IsOwn :
      (now : ℕ) (cl : KafkaInboxClaim) (rows : List (InboxRow DomainEvent))
      → IsOwn rows
      → IsOwn (claim now cl rows).1
  unfolding claim
  claim-IsOwn now cl rows own =
      claim_found-IsOwn now cl (find_inbox cl.consumer_name cl.event_id rows) rows own

  pub mark_completed-IsOwn :
      (k : LeaseKey) (rows : List (InboxRow DomainEvent))
      → IsOwn rows
      → IsOwn (rows_or rows (mark_completed k rows))
  unfolding mark_completed
  mark_completed-IsOwn k rows own =
      update_single-IsOwn k _ _ rows (λ x. (refl, refl)) (λ e x same h. h) own

  pub release-IsOwn :
      (now : ℕ) (k : LeaseKey) (message : String) (rows : List (InboxRow DomainEvent))
      → IsOwn rows
      → IsOwn (release now k message rows)
  unfolding release
  release-IsOwn now k message rows own =
      update_inbox-IsOwn k.consumer_name k.event_id _ _ rows (λ x. (refl, refl)) (λ e x same h. h)
        own

  module _ (json_keeps : (event : DomainEvent) → (json event).event_id ≡ event.event_id) where
    own_through :
        (id : String) (result : Option DomainEvent)
        → own_result id result ≡ true
        → own_result id (through json result) ≡ true
    own_through id none h = refl
    own_through id (some event) h = rw (json_keeps event) h

    honest_save :
        (k : LeaseKey) (result : Option DomainEvent) (e : String)
        → is_honest (saves k result) ≡ true
        → same_key k.consumer_name k.event_id consumer_name e ≡ true
        → own_result (id_for e) result ≡ true
    honest_save k result e honest same =
        ground (arith, eq_iff k.consumer_name consumer_name, eq_iff k.event_id e)

    pub save_prepared-IsOwn :
        (k : LeaseKey) (result : Option DomainEvent) (rows : List (InboxRow DomainEvent))
        → is_honest (saves k result) ≡ true
        → IsOwn rows
        → IsOwn (rows_or rows (save_prepared json k result rows))
    unfolding save_prepared
    save_prepared-IsOwn k result rows honest own =
        update_single-IsOwn k _ _ rows (λ x. (refl, refl))
          (λ e x same h. own_through (id_for e) result (honest_save k result e honest same)) own

    serve_inbox-IsOwn :
        (call : InboxCall DomainEvent) (rows : List (InboxRow DomainEvent))
        → is_honest call ≡ true
        → IsOwn rows
        → IsOwn (serve_inbox json call rows)
    unfolding serve_inbox
    serve_inbox-IsOwn (claims now cl) rows honest own = claim-IsOwn now cl rows own
    serve_inbox-IsOwn (saves k result) rows honest own =
        save_prepared-IsOwn k result rows honest own
    serve_inbox-IsOwn (completes k) rows honest own = mark_completed-IsOwn k rows own
    serve_inbox-IsOwn (releases now k message) rows honest own =
        release-IsOwn now k message rows own

    -- Whatever honest calls the processes make, the inbox keeps only results of their own.
    pub run_inbox-IsOwn :
        (calls : List (InboxCall DomainEvent)) (rows : List (InboxRow DomainEvent))
        → Admitted is_honest calls
        → IsOwn rows
        → IsOwn (run_inbox json calls rows)
    unfolding run_inbox
    run_inbox-IsOwn [] rows honest own = own
    run_inbox-IsOwn (call ∷ calls) rows honest own =
        run_inbox-IsOwn calls (serve_inbox json call rows) honest.1
          (serve_inbox-IsOwn call rows honest.0 own)
