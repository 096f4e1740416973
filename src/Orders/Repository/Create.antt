-- ===== src/Orders/Repository/Create.antt =====
-- orders.repository.ts: the creation of orders.
use kafka_nest_playground.Prelude.{
  String, Bool, List, [], ◌∷◌, ◌++◌, Option, none, some, any, if◌then◌else◌, ◌==◌,
}
use kafka_nest_playground.Prelude.Tx.{Result, ok, err, Error, ◌>>=◌}
use kafka_nest_playground.Contracts.Events.{
  EventEnvelope, Payload, OrderCreatedPayload, with_payload,
}
use kafka_nest_playground.Orders.Entity.{OrderStatus, Order, Js, Draws}
use kafka_nest_playground.Orders.Tables.{
  Db, CreateOrderResponseSnapshot, IdempotencyRow, insert_order, read_idempotency_row,
  store_response,
}
use kafka_nest_playground.Orders.Repository.{
  CreatePendingOrderParams, CreateOrderIdempotencyParams, CreatePendingOrderResult, save_outbox,
  create_order_response_snapshot,
}

-- The row that `manager.create` and `save` make of the parameters.
unfoldable pub pending_order : Js → Draws → CreatePendingOrderParams → Order
pending_order js draws params = record {
  id = draws.order_id;
  user_id = params.user_id;
  currency = params.currency;
  total_amount = js.to_fixed2 params.total_amount;
  item_count = params.item_count;
  status = OrderStatus.pending;
  items = params.items;
  created_at = draws.now;
  updated_at = draws.now;
}

-- `createPendingOrder`: the order alone.
unfoldable pub create_pending_order :
    Js → Draws → CreatePendingOrderParams → Db → Result (Order × Db)
create_pending_order js draws params db = do
  let order = pending_order js draws params
  orders ← insert_order order db.orders
  ok (order, record db { orders = orders })

-- `persistPendingOrderWithOutbox`, the body of `createPendingOrderWithOutbox` too.
unfoldable pub persist_pending_order_with_outbox :
    Js
    → Draws
    → CreatePendingOrderParams
    → Db
    → Result ((Order × EventEnvelope OrderCreatedPayload) × Db)
persist_pending_order_with_outbox js draws params db = do
  let order = pending_order js draws params
  orders ← insert_order order db.orders
  let event = params.create_event order
  db' ←
      save_outbox draws 0 order.id (with_payload event (Payload.order_created event.payload))
        (record db { orders = orders })
  ok ((order, event), db')

-- The branch of a key that is already there: its row, if it can be read, decides.
unfoldable pub replay_response :
    CreateOrderIdempotencyParams → Option IdempotencyRow → Result CreateOrderResponseSnapshot
replay_response idempotency none = err Error.conflict
replay_response idempotency (some row) =
    if row.request_hash == idempotency.request_hash
    then elim row.response [ none ↦ err Error.conflict | some response ↦ ok response ]
    else err Error.conflict

-- The row that the insert makes.
abbrev pub reserved_row : CreateOrderIdempotencyParams → IdempotencyRow
reserved_row idempotency = record {
  idempotency_key = idempotency.key;
  request_hash = idempotency.request_hash;
  response = none;
  order_id = none;
}

-- `insert … on conflict (idempotency_key) do nothing returning …`: no rows come back then.
abbrev pub is_reserved : String → List IdempotencyRow → Bool
is_reserved key rows = any (λ (r : IdempotencyRow). r.idempotency_key == key) rows

-- The branch of a new key, whose row is in the table.
unfoldable pub create_reserved :
    Js
    → Draws
    → CreatePendingOrderParams
    → CreateOrderIdempotencyParams
    → Db
    → Result (CreatePendingOrderResult × Db)
create_reserved js draws params idempotency db = do
  ((order, event), db') ← persist_pending_order_with_outbox js draws params db
  let response = create_order_response_snapshot js order
  ok (
    CreatePendingOrderResult.created order event response,
    record db' { idempotency = store_response idempotency.key response order.id db'.idempotency },
  )

-- The branch of a key that was there.
unfoldable pub replay_reserved :
    CreateOrderIdempotencyParams → Db → Result (CreatePendingOrderResult × Db)
replay_reserved idempotency db = do
  response ← replay_response idempotency (read_idempotency_row idempotency.key db.idempotency)
  ok (CreatePendingOrderResult.replayed response, db)

-- `createPendingOrderWithOutboxIdempotently`: the key is inserted before the order is.
unfoldable pub create_pending_order_with_outbox_idempotently :
    Js
    → Draws
    → CreatePendingOrderParams
    → CreateOrderIdempotencyParams
    → Db
    → Result (CreatePendingOrderResult × Db)
create_pending_order_with_outbox_idempotently js draws params idempotency db =
    if is_reserved idempotency.key db.idempotency
    then replay_reserved idempotency db
    else create_reserved js draws params idempotency
        (record db { idempotency = db.idempotency ++ reserved_row idempotency ∷ [] })
