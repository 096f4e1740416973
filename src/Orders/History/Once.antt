-- ===== src/Orders/History/Once.antt =====
-- Each event over any history.
use kafka_nest_playground.Prelude.{
  String, ◌≡◌, refl, Bool, true, List, [], ◌∷◌, ◌==◌, arith, inl, inr, Bool-cases, any, ◌++◌, ◌||◌,
  eq_iff, subst,
}
use kafka_nest_playground.Prelude.Tx.{ok}
use kafka_nest_playground.Orders.Entity.{ProcessedKafkaEvent, Js, Draws}
use kafka_nest_playground.Orders.Tables.{Db, find_order, is_processed}
use kafka_nest_playground.Orders.Repository.{
  OrderLifecycleProcessingResult, ProcessLifecycleEventParams,
}
use kafka_nest_playground.Orders.Repository.Create.{
  create_pending_order, persist_pending_order_with_outbox,
  create_pending_order_with_outbox_idempotently,
}
use kafka_nest_playground.Orders.Repository.Lifecycle.{processed_row, process_lifecycle_event}
use kafka_nest_playground.Orders.Repository.Cancel.{cancel_order}
use kafka_nest_playground.Orders.Repository.Sides.{
  process_registered-HasSameSides, cancel_order-HasSameSides, create_pending_order-HasSameSides,
  persist-HasSameSides, processed-create_idempotently,
}
use kafka_nest_playground.Orders.History.{
  Request, create, create_with_outbox, create_with_key, process, cancel, serve, run, left_by-case,
}

any-append {ℓ} :
    {A : Type ℓ} (p : A → Bool) (xs ys : List A) → any p (xs ++ ys) ≡ (any p xs || any p ys)
any-append p [] ys = refl
any-append p (x ∷ xs) ys = ground (arith, any-append p xs ys)

-- Registering an event keeps the events that are registered, and adds its own.
is_processed-append :
    (id : String) (ps : List ProcessedKafkaEvent) (row : ProcessedKafkaEvent)
    → is_processed id (ps ++ row ∷ []) ≡ (is_processed id ps || row.event_id == id)
is_processed-append id ps row = rw any-append (ground arith)

module _ (js : Js) (draws : Draws) (id : String) where
  process-keeps :
      (params : ProcessLifecycleEventParams) (db : Db) (r : OrderLifecycleProcessingResult)
      (db' : Db)
      → process_lifecycle_event js draws params db ≡ ok (r, db')
      → (is_processed id db.processed || params.event.event_id == id) ≡ true
      → is_processed id db'.processed ≡ true
  unfolding process_lifecycle_event
  process-keeps params db r db' h known =
      elim (Bool-cases (is_processed params.event.event_id db.processed)) [
        | inl again ↦
            let at_id : params.event.event_id ≡ id → is_processed id db.processed ≡ true =
              λ e. subst (λ j. is_processed j db.processed ≡ true) e again in
            ground (arith, eq_iff params.event.event_id id)
        | inr new ↦
            let same =
              process_registered-HasSameSides js draws params.event
                (find_order params.order_id db.orders)
                (record db { processed = db.processed ++ processed_row params ∷ [] }) r db'
                (rw new at h) in
            rw same.processed
              (rw (is_processed-append id db.processed (processed_row params)) known)
      ]

  serve-keeps :
      (request : Request) (db : Db)
      → is_processed id db.processed ≡ true
      → is_processed id (serve js draws request db).processed ≡ true
  unfolding serve
  serve-keeps (create params) db known =
      left_by-case (λ d. is_processed id d.processed ≡ true)
        (create_pending_order js draws params db) db known
        (λ o db' h.
          rw (create_pending_order-HasSameSides js draws params db o db' h).processed known)
  serve-keeps (create_with_outbox params) db known =
      left_by-case (λ d. is_processed id d.processed ≡ true)
        (persist_pending_order_with_outbox js draws params db) db known
        (λ r db' h. rw (persist-HasSameSides js draws params db r db' h).processed known)
  serve-keeps (create_with_key params key) db known =
      left_by-case (λ d. is_processed id d.processed ≡ true)
        (create_pending_order_with_outbox_idempotently js draws params key db) db known
        (λ r db' h. rw (processed-create_idempotently js draws params key db r db' h) known)
  serve-keeps (process params) db known =
      left_by-case (λ d. is_processed id d.processed ≡ true)
        (process_lifecycle_event js draws params db) db known
        (λ r db' h. process-keeps params db r db' h (rw known refl))
  serve-keeps (cancel command) db known =
      left_by-case (λ d. is_processed id d.processed ≡ true) (cancel_order js draws command db) db
        known
        (λ r db' h. rw (cancel_order-HasSameSides js draws command db r db' h).processed known)

run-keeps :
    (js : Js) (requests : List (Draws × Request)) (db : Db) (id : String)
    → is_processed id db.processed ≡ true
    → is_processed id (run js requests db).processed ≡ true
unfolding run
run-keeps js [] db id known = known
run-keeps js ((draws, request) ∷ rest) db id known =
    run-keeps js rest (serve js draws request db) id (serve-keeps js draws id request db known)

duplicate_lem :
    (js : Js) (draws : Draws) (params : ProcessLifecycleEventParams) (db : Db)
    → is_processed params.event.event_id db.processed ≡ true
    → process_lifecycle_event js draws params db
      ≡ ok (OrderLifecycleProcessingResult.duplicate_event, db)
unfolding process_lifecycle_event
duplicate_lem js draws params db known = rw known

-- Once a lifecycle event is committed, with any outcome, every later delivery of its id, after any
-- calls in between, answers `DUPLICATE_EVENT` and changes no table.
pub redelivery_ignored :
    (js : Js) (draws draws' : Draws) (params again : ProcessLifecycleEventParams) (db db1 : Db)
    (r : OrderLifecycleProcessingResult) (between : List (Draws × Request))
    → process_lifecycle_event js draws params db ≡ ok (r, db1)
    → again.event.event_id ≡ params.event.event_id
    → process_lifecycle_event js draws' again (run js between db1)
      ≡ ok (OrderLifecycleProcessingResult.duplicate_event, run js between db1)
redelivery_ignored js draws draws' params again db db1 r between committed same =
    duplicate_lem js draws' again (run js between db1) (
      run-keeps js between db1 again.event.event_id (
        process-keeps js draws again.event.event_id params db r db1 committed
          (ground (arith, eq_iff params.event.event_id again.event.event_id))))
