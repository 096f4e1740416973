-- ===== src/Orders/Balance.antt =====
-- The balance of an order's status and its final events: as many `OrderConfirmed` and
-- `OrderCancelled` rows stand in the outbox as its status says.
pub mod Lifecycle
pub mod Cancel
pub mod Create
use kafka_nest_playground.Prelude.{
  ℕ, ◌+◌, String, ◌≡◌, refl, Bool, true, false, List, [], ◌∷◌, ◌++◌, Option, none, some, count_by,
  count_by-append, if◌then◌else◌, ◌==◌, eq_iff, arith,
}
use kafka_nest_playground.Contracts.Events.{DomainEvent, Payload}
use kafka_nest_playground.Outbox.Entity.{OutboxEvent}
use kafka_nest_playground.Orders.Entity.{OrderStatus, Order, Draws}
use kafka_nest_playground.Orders.Transitions.{is_final}
use kafka_nest_playground.Orders.Tables.{Db, find_order, save_order}
use kafka_nest_playground.Orders.Tables.Laws.{
  or_new, overwrite, find_order-append, find_order-save_order,
}
use kafka_nest_playground.Prelude.Tx.{ok}
use kafka_nest_playground.Orders.Repository.{save_outbox}
use kafka_nest_playground.Orders.Repository.Outbox.{outbox_row, save_outbox-eq-ok}

-- Does the payload end the order `k`?
abbrev pub ends : String → Payload → Bool
ends k (Payload.order_confirmed p) = p.order_id == k
ends k (Payload.order_cancelled p) = p.order_id == k
ends k _ = false

abbrev pub row_ends : String → OutboxEvent → Bool
row_ends k row = ends k row.event.payload

unfoldable pub final_events : String → List OutboxEvent → ℕ
final_events k rows = count_by (row_ends k) rows

abbrev pub due : Option Order → ℕ
due none = 0
due (some o) = if is_final o.status then 1 else 0

pub record IsBalanced (db : Db) : Type 0 where
  pub at : (k : String) → final_events k db.outbox ≡ due (find_order k db.orders)

abbrev one_if : Bool → ℕ
one_if true = 1
one_if false = 0

pub final_events-append :
    (k : String) (rows : List OutboxEvent) (row : OutboxEvent)
    → final_events k (rows ++ row ∷ []) ≡ final_events k rows + one_if (row_ends k row)
unfolding final_events
final_events-append k rows row = ground (arith, count_by-append (row_ends k) rows (row ∷ []))

-- A row that ends no order may be added.
pub IsBalanced-other :
    (db : Db) (row : OutboxEvent)
    → ((k : String) → row_ends k row ≡ false)
    → IsBalanced db
    → IsBalanced (record db { outbox = db.outbox ++ row ∷ [] })
IsBalanced-other db row other b = record {
  at = λ k. ground (arith, b.at k, other k, final_events-append k db.outbox row);
}

-- A new order in a status that is not final.
pub IsBalanced-insert :
    (db : Db) (o : Order)
    → is_final o.status ≡ false
    → find_order o.id db.orders ≡ none
    → IsBalanced db
    → IsBalanced (record db { orders = db.orders ++ o ∷ [] })
IsBalanced-insert db o open_status new b = record {
  at = λ k.
      let new_at : o.id ≡ k → find_order k db.orders ≡ none = λ e. rw e at new in
      ground (arith, b.at k, find_order-append k o db.orders, eq_iff o.id k);
}

module _ (db : Db) (o o' : Order) (same : o'.id ≡ o.id) (there : find_order o.id db.orders ≡ some o)
    (from_open : is_final o.status ≡ false) (b : IsBalanced db) where
  -- The order moves between two statuses that are not final.
  pub IsBalanced-move :
      is_final o'.status ≡ false → IsBalanced (record db { orders = save_order o' db.orders })
  IsBalanced-move to_open = record {
    at = λ k.
        ground (arith, b.at k, b.at o.id, find_order-save_order k o' db.orders, eq_iff o'.id k);
  }

  -- The order ends, and the row of its final event is added.
  pub IsBalanced-end :
      (row : OutboxEvent)
      → is_final o'.status ≡ true
      → ((k : String) → row_ends k row ≡ (o.id == k))
      → IsBalanced (record db { orders = save_order o' db.orders; outbox = db.outbox ++ row ∷ [] })
  IsBalanced-end row to_final ending = record {
    at = λ k. ground (
      arith,
      b.at k,
      ending k,
      find_order-save_order k o' db.orders,
      eq_iff o'.id k,
      final_events-append k db.outbox row,
    );
  }

module _ (draws : Draws) (n : ℕ) (key : String) (event : DomainEvent) (db db1 : Db) where
  -- Saving an event that ends no order.
  pub IsBalanced-save_other :
      save_outbox draws n key event db ≡ ok db1
      → ((k : String) → ends k event.payload ≡ false)
      → IsBalanced db
      → IsBalanced db1
  IsBalanced-save_other saved other b =
      rw (save_outbox-eq-ok draws n key event db db1 saved)
        (IsBalanced-other db (outbox_row draws n key event) other b)

  -- Saving the order in a final status, and then its final event.
  pub IsBalanced-save_end :
      (o o' : Order)
      → save_outbox draws n key event (record db { orders = save_order o' db.orders }) ≡ ok db1
      → o'.id ≡ o.id
      → find_order o.id db.orders ≡ some o
      → is_final o.status ≡ false
      → is_final o'.status ≡ true
      → ((k : String) → ends k event.payload ≡ (o.id == k))
      → IsBalanced db
      → IsBalanced db1
  IsBalanced-save_end o o' saved same there open_status final ending b =
      rw (save_outbox-eq-ok draws n key event _ db1 saved) (
        IsBalanced-end db o o' same there open_status b (outbox_row draws n key event) final ending)
