-- ===== src/Orders/History/Replay.antt =====
-- Each idempotency key over any history.
use kafka_nest_playground.Prelude.{
  String, ◌≡◌, refl, false, List, [], ◌∷◌, some, if◌then◌else◌, ◌==◌, arith, inl, inr, Bool-cases,
  ◌++◌, eq_iff, sym, subst,
}
use kafka_nest_playground.Prelude.Tx.{ok, err, Error, >>=-eq-ok}
use kafka_nest_playground.Contracts.Events.{EventEnvelope, OrderCreatedPayload}
use kafka_nest_playground.Orders.Entity.{Order, Js, Draws}
use kafka_nest_playground.Orders.Tables.{
  Db, CreateOrderResponseSnapshot, IdempotencyRow, read_idempotency_row, store_response,
}
use kafka_nest_playground.Orders.Tables.Keys.{
  reserved-read, read-append, read-store_response_self, read-store_response_ne,
}
use kafka_nest_playground.Orders.Repository.{
  CreatePendingOrderResult, CreatePendingOrderParams, CreateOrderIdempotencyParams,
  create_order_response_snapshot,
}
use kafka_nest_playground.Orders.Repository.Create.{
  create_pending_order, persist_pending_order_with_outbox, reserved_row, is_reserved,
  replay_response, create_reserved, replay_reserved, create_pending_order_with_outbox_idempotently,
}
use kafka_nest_playground.Orders.Repository.Lifecycle.{process_lifecycle_event}
use kafka_nest_playground.Orders.Repository.Cancel.{cancel_order}
use kafka_nest_playground.Orders.Repository.Sides.{
  cancel_order-HasSameSides, create_pending_order-HasSameSides, persist-HasSameSides,
  idempotency-process,
}
use kafka_nest_playground.Orders.History.{
  Request, create, create_with_outbox, create_with_key, process, cancel, serve, run, left_by-case,
}

-- The row of a key whose request is answered.
abbrev answered_row :
    CreateOrderIdempotencyParams → CreateOrderResponseSnapshot → String → IdempotencyRow
answered_row idempotency response order_id = record (reserved_row idempotency) {
  response = some response;
  order_id = some order_id;
}

module _ (js : Js) (draws : Draws) (params : CreatePendingOrderParams) where
  -- What the branch of a new key leaves in the table of keys.
  created_shape :
      (idempotency : CreateOrderIdempotencyParams) (db : Db) (r : CreatePendingOrderResult)
      (db' : Db)
      → create_reserved js draws params idempotency
          (record db { idempotency = db.idempotency ++ reserved_row idempotency ∷ [] })
        ≡ ok (r, db')
      → (o : Order) × (e : EventEnvelope OrderCreatedPayload)
        × (response : CreateOrderResponseSnapshot) × (r
            ≡ CreatePendingOrderResult.created o e response)
        × (db'.idempotency
            ≡ store_response idempotency.key response o.id
                (db.idempotency ++ reserved_row idempotency ∷ []))
  unfolding create_reserved
  created_shape idempotency db r db' h =
      let (((o, event), db1), made, done) =
        >>=-eq-ok
          (persist_pending_order_with_outbox js draws params
            (record db { idempotency = db.idempotency ++ reserved_row idempotency ∷ [] }))
          _ h in
      let same = persist-HasSameSides js draws params _ (o, event) db1 made in
      (
        o,
        event,
        create_order_response_snapshot js o,
        ground arith,
        ground (arith, same.idempotency),
      )

  keeps_answer :
      (key : CreateOrderIdempotencyParams) (db : Db) (r : CreatePendingOrderResult) (db' : Db)
      (k : String) (row : IdempotencyRow)
      → create_pending_order_with_outbox_idempotently js draws params key db ≡ ok (r, db')
      → read_idempotency_row k db.idempotency ≡ some row
      → read_idempotency_row k db'.idempotency ≡ some row
  unfolding create_pending_order_with_outbox_idempotently replay_reserved
  keeps_answer key db r db' k row h there = elim (Bool-cases (is_reserved key.key db.idempotency)) [
    | inl old ↦
        let (response, replayed, done) =
          >>=-eq-ok (replay_response key (read_idempotency_row key.key db.idempotency)) _
            (rw old at h) in
        let same : db' ≡ db = ground arith in rw same there
    | inr new ↦
        let (o, event, response, is_r, shape) = created_shape key db r db' (rw new at h) in
        let other : (key.key == k) ≡ false = absent_ne key.key k db.idempotency row new there in
        rw shape (
          rw
            (read-store_response_ne k key.key (db.idempotency ++ reserved_row key ∷ []) response
              o.id other)
            (read-append k db.idempotency (reserved_row key) row there))
  ]
    where
      absent_ne :
          (j k : String) (rows : List IdempotencyRow) (row : IdempotencyRow)
          → is_reserved j rows ≡ false
          → read_idempotency_row k rows ≡ some row
          → (j == k) ≡ false
      absent_ne j k rows row absent there = elim (Bool-cases (j == k)) [
        | inl same ↦
            let found = reserved-read j rows row (
              subst (λ x. read_idempotency_row x rows ≡ some row) (sym ((eq_iff j k).0 same))
                there) in
            cc
        | inr ne ↦ ne
      ]

module _ (js : Js) (k : String) (row : IdempotencyRow) where
  serve_keeps_answer :
      (draws : Draws) (request : Request) (db : Db)
      → read_idempotency_row k db.idempotency ≡ some row
      → read_idempotency_row k (serve js draws request db).idempotency ≡ some row
  unfolding serve
  serve_keeps_answer draws (create params) db there =
      left_by-case (λ d. read_idempotency_row k d.idempotency ≡ some row)
        (create_pending_order js draws params db) db there
        (λ o db' h.
          rw (create_pending_order-HasSameSides js draws params db o db' h).idempotency there)
  serve_keeps_answer draws (create_with_outbox params) db there =
      left_by-case (λ d. read_idempotency_row k d.idempotency ≡ some row)
        (persist_pending_order_with_outbox js draws params db) db there
        (λ r db' h. rw (persist-HasSameSides js draws params db r db' h).idempotency there)
  serve_keeps_answer draws (create_with_key params key) db there =
      left_by-case (λ d. read_idempotency_row k d.idempotency ≡ some row)
        (create_pending_order_with_outbox_idempotently js draws params key db) db there
        (λ r db' h. keeps_answer js draws params key db r db' k row h there)
  serve_keeps_answer draws (process params) db there =
      left_by-case (λ d. read_idempotency_row k d.idempotency ≡ some row)
        (process_lifecycle_event js draws params db) db there
        (λ r db' h. rw (idempotency-process js draws params db r db' h) there)
  serve_keeps_answer draws (cancel command) db there =
      left_by-case (λ d. read_idempotency_row k d.idempotency ≡ some row)
        (cancel_order js draws command db) db there
        (λ r db' h. rw (cancel_order-HasSameSides js draws command db r db' h).idempotency there)

  run_keeps_answer :
      (requests : List (Draws × Request)) (db : Db)
      → read_idempotency_row k db.idempotency ≡ some row
      → read_idempotency_row k (run js requests db).idempotency ≡ some row
  unfolding run
  run_keeps_answer [] db there = there
  run_keeps_answer ((draws, request) ∷ rest) db there =
      run_keeps_answer rest (serve js draws request db) (serve_keeps_answer draws request db there)

-- The first request of a key, if it creates an order, leaves its answer in the table.
answer_stored :
    (js : Js) (draws : Draws) (params : CreatePendingOrderParams)
    (key : CreateOrderIdempotencyParams) (db : Db) (o : Order)
    (e : EventEnvelope OrderCreatedPayload) (response : CreateOrderResponseSnapshot) (db' : Db)
    → create_pending_order_with_outbox_idempotently js draws params key db
      ≡ ok (CreatePendingOrderResult.created o e response, db')
    → read_idempotency_row key.key db'.idempotency ≡ some (answered_row key response o.id)
unfolding create_pending_order_with_outbox_idempotently replay_reserved
answer_stored js draws params key db o e response db' h =
    elim (Bool-cases (is_reserved key.key db.idempotency)) [
      | inl old ↦
          let (response, replayed, done) =
            >>=-eq-ok (replay_response key (read_idempotency_row key.key db.idempotency)) _
              (rw old at h) in
          cc
      | inr new ↦
          let (o1, e1, response1, is_r, shape) =
            created_shape js draws params key db _ db' (rw new at h) in
          let same : (response1 ≡ response) × (o1 ≡ o) = (cc, cc) in
          rw shape (
            rw
              (read-store_response_self key.key db.idempotency (reserved_row key) response1 o1.id
                new refl)
              (ground (arith, same.0, same.1)))
    ]

answer_replayed :
    (js : Js) (draws : Draws) (params : CreatePendingOrderParams)
    (key again : CreateOrderIdempotencyParams) (response : CreateOrderResponseSnapshot)
    (order_id : String) (db : Db)
    → again.key ≡ key.key
    → read_idempotency_row key.key db.idempotency ≡ some (answered_row key response order_id)
    → create_pending_order_with_outbox_idempotently js draws params again db ≡ (
        if key.request_hash == again.request_hash
        then ok (CreatePendingOrderResult.replayed response, db)
        else err Error.conflict)
unfolding create_pending_order_with_outbox_idempotently replay_reserved replay_response
answer_replayed js draws params key again response order_id db same there =
    let old = reserved-read key.key db.idempotency _ there in rw (same, old, there) (ground arith)

-- After a keyed request has created an order, every later request with its key, after any calls in
-- between, changes no table: it replays the stored response if its hash is the first one's, and
-- fails with a conflict if not.
pub keyed_creation_once :
    (js : Js) (draws draws' : Draws) (params params' : CreatePendingOrderParams)
    (key again : CreateOrderIdempotencyParams) (db db1 : Db) (o : Order)
    (e : EventEnvelope OrderCreatedPayload) (response : CreateOrderResponseSnapshot)
    (between : List (Draws × Request))
    → create_pending_order_with_outbox_idempotently js draws params key db
      ≡ ok (CreatePendingOrderResult.created o e response, db1)
    → again.key ≡ key.key
    → create_pending_order_with_outbox_idempotently js draws' params' again (run js between db1) ≡ (
        if key.request_hash == again.request_hash
        then ok (CreatePendingOrderResult.replayed response, run js between db1)
        else err Error.conflict)
keyed_creation_once js draws draws' params params' key again db db1 o e response between created
      same =
    answer_replayed js draws' params' key again response o.id (run js between db1) same (
      run_keeps_answer js key.key (answered_row key response o.id) between db1
        (answer_stored js draws params key db o e response db1 created))
