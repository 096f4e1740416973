-- ===== src/Orders/History.antt =====
-- The repository over time: its transactions one after another, as the row locks and the unique
-- indexes of PostgreSQL serialise them. One that throws is rolled back.
pub mod FinalEvents
pub mod Content
pub mod Once
pub mod Replay
use kafka_nest_playground.Prelude.{
  ℕ, String, ◌≡◌, refl, ◌∙◌, Bool, true, false, List, [], ◌∷◌, Option, none, some, if◌then◌else◌,
  ◌==◌, arith, ◌⊎◌, inl, inr,
}
use kafka_nest_playground.Prelude.Tx.{Result, ok, err}
use kafka_nest_playground.Orders.Entity.{OrderStatus, Order, Js, Draws}
use kafka_nest_playground.Orders.Cancellation.{OrderCancellationCommand}
use kafka_nest_playground.Orders.Transitions.{is_final, Edge, approve, refuse, pay, decline}
use kafka_nest_playground.Orders.Tables.{Db, find_order}
use kafka_nest_playground.Orders.Repository.{
  ProcessLifecycleEventParams, CreatePendingOrderParams, CreateOrderIdempotencyParams,
}
use kafka_nest_playground.Orders.Repository.Create.{
  create_pending_order, persist_pending_order_with_outbox,
  create_pending_order_with_outbox_idempotently,
}
use kafka_nest_playground.Orders.Repository.Lifecycle.{process_lifecycle_event}
use kafka_nest_playground.Orders.Repository.Cancel.{cancel_order}
use kafka_nest_playground.Orders.Balance.{IsBalanced, final_events, due}
use kafka_nest_playground.Orders.Balance.Lifecycle.{process_lifecycle_event-IsBalanced}
use kafka_nest_playground.Orders.Balance.Cancel.{cancel_order-IsBalanced}
use kafka_nest_playground.Orders.Balance.Create.{
  create_pending_order-IsBalanced, persist-IsBalanced, create_idempotently-IsBalanced,
}
use kafka_nest_playground.Orders.Evolution.{
  Move, by_event, cancel_pending, cancel_approved, HasSameContent, Evolves, unchanged, born, moved,
}

-- A call of one public method of `OrdersRepository`.
pub data Request : Type 0 where
  create : CreatePendingOrderParams → Request
  create_with_outbox : CreatePendingOrderParams → Request
  create_with_key : CreatePendingOrderParams → CreateOrderIdempotencyParams → Request
  process : ProcessLifecycleEventParams → Request
  cancel : OrderCancellationCommand → Request

-- The tables that a transaction leaves: those it commits, or those it found.
abbrev pub left_by : {A : Type 0} → Result (A × Db) → Db → Db
left_by (ok (a, db')) db = db'
left_by (err e) db = db

unfoldable pub serve : Js → Draws → Request → Db → Db
serve js draws (create params) db = left_by (create_pending_order js draws params db) db
serve js draws (create_with_outbox params) db =
    left_by (persist_pending_order_with_outbox js draws params db) db
serve js draws (create_with_key params key) db =
    left_by (create_pending_order_with_outbox_idempotently js draws params key db) db
serve js draws (process params) db = left_by (process_lifecycle_event js draws params db) db
serve js draws (cancel command) db = left_by (cancel_order js draws command db) db

unfoldable pub run : Js → List (Draws × Request) → Db → Db
run js [] db = db
run js ((draws, request) ∷ rest) db = run js rest (serve js draws request db)

abbrev pub empty_db : Db
empty_db = record { orders = []; processed = []; outbox = []; idempotency = [] }

-- To prove a property of the tables that a transaction leaves, prove it of those it commits.
pub left_by-case {ℓ} :
    {A : Type 0} (P : Db → Type ℓ) (m : Result (A × Db)) (db : Db)
    → P db
    → ((a : A) (db' : Db) → m ≡ ok (a, db') → P db')
    → P (left_by m db)
left_by-case P (ok (a, db')) db before after = after a db' refl
left_by-case P (err e) db before after = before
