-- ===== src/Orders/Tables.antt =====
-- The tables that a transaction of orders.repository.ts works on, and its statements on them.
pub mod Laws
pub mod Keys
use kafka_nest_playground.Prelude.{
  ℕ, String, Bool, List, [], ◌∷◌, ◌++◌, Option, none, some, any, if◌then◌else◌, ◌==◌, ◌||◌,
}
use kafka_nest_playground.Prelude.Tx.{Result, ok, err, Error}
use kafka_nest_playground.Contracts.Events.{Number}
use kafka_nest_playground.Outbox.Entity.{OutboxEvent}
use kafka_nest_playground.Orders.Entity.{OrderStatus, Order, ProcessedKafkaEvent}

pub record CreateOrderResponseSnapshot : Type 0 where
  pub id : String
  pub status : OrderStatus
  pub user_id : String
  pub currency : String
  pub total_amount : Number
  pub item_count : Number
  pub created_at : String

-- A row of `order_create_idempotency_keys`.
pub record IdempotencyRow : Type 0 where
  pub idempotency_key : String
  pub request_hash : String
  pub response : Option CreateOrderResponseSnapshot
  pub order_id : Option String

pub record Db : Type 0 where
  pub orders : List Order
  pub processed : List ProcessedKafkaEvent
  pub outbox : List OutboxEvent
  pub idempotency : List IdempotencyRow

-- `findOne(OrderEntity, { where: { id } })`.
unfoldable pub find_order : String → List Order → Option Order
find_order id [] = none
find_order id (o ∷ os) = if o.id == id then some o else find_order id os

-- `save` of a new entity: the primary key refuses a second row.
unfoldable pub insert_order : Order → List Order → Result (List Order)
insert_order o os =
    if any (λ (x : Order). x.id == o.id) os then err Error.unique_violation else ok (os ++ o ∷ [])

-- `save` of a loaded entity writes its row.
unfoldable pub save_order : Order → List Order → List Order
save_order o [] = []
save_order o (x ∷ xs) = (if x.id == o.id then o else x) ∷ save_order o xs

-- `id` is the primary key and `event_id` is unique.
unfoldable pub insert_outbox : OutboxEvent → List OutboxEvent → Result (List OutboxEvent)
insert_outbox e es =
    if any (λ (x : OutboxEvent). x.id == e.id || x.event_id == e.event_id) es
    then err Error.unique_violation
    else ok (es ++ e ∷ [])

-- `insert … on conflict (event_id) do nothing returning id`: no rows come back on a conflict.
abbrev pub is_processed : String → List ProcessedKafkaEvent → Bool
is_processed event_id ps = any (λ (x : ProcessedKafkaEvent). x.event_id == event_id) ps

-- `readIdempotencyRow`.
unfoldable pub read_idempotency_row : String → List IdempotencyRow → Option IdempotencyRow
read_idempotency_row key [] = none
read_idempotency_row key (r ∷ rs) =
    if r.idempotency_key == key then some r else read_idempotency_row key rs

-- `update order_create_idempotency_keys set … where idempotency_key = $1`.
unfoldable pub store_response :
    String → CreateOrderResponseSnapshot → String → List IdempotencyRow → List IdempotencyRow
store_response key response order_id [] = []
store_response key response order_id (r ∷ rs) =
    (if r.idempotency_key == key
      then record r { response = some response; order_id = some order_id }
      else r)
    ∷ store_response key response order_id rs
