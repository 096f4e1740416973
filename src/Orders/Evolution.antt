-- ===== src/Orders/Evolution.antt =====
-- What one transaction does to one order: nothing, its creation, or one move of its status.
pub mod Steps
pub mod Creation
use kafka_nest_playground.Prelude.{
  String, ◌≡◌, refl, sym, ◌∙◌, subst, Bool, true, false, List, [], ◌∷◌, ◌++◌, Option, none, some,
  if◌then◌else◌, ◌==◌, eq_iff, arith, Bool-cases, inl, inr,
}
use kafka_nest_playground.Orders.Entity.{OrderStatus, Order, Draws}
use kafka_nest_playground.Orders.StateMachine.{LifecycleEventType, FinalEventType}
use kafka_nest_playground.Orders.Transitions.{Edge}
use kafka_nest_playground.Orders.Tables.{find_order, save_order}
use kafka_nest_playground.Orders.Tables.Laws.{
  or_new, overwrite, find_order-append, find_order-save_order, find_order-id,
}

-- The moves of a status: by a lifecycle event, or by a cancellation.
pub data Move : OrderStatus → OrderStatus → Type 0 where
  by_event :
      {s t : OrderStatus} {e : LifecycleEventType} {f : Option FinalEventType}
      → Edge s e t f
      → Move s t
  cancel_pending : Move OrderStatus.pending OrderStatus.cancelled
  cancel_approved : Move OrderStatus.risk_approved OrderStatus.cancelled

-- All that a move leaves alone: everything but the status and the update date.
pub record HasSameContent (o o' : Order) : Type 0 where
  pub id : o'.id ≡ o.id
  pub user_id : o'.user_id ≡ o.user_id
  pub currency : o'.currency ≡ o.currency
  pub total_amount : o'.total_amount ≡ o.total_amount
  pub item_count : o'.item_count ≡ o.item_count
  pub items : o'.items ≡ o.items
  pub created_at : o'.created_at ≡ o.created_at

pub data Evolves (before after : Option Order) : Type 0 where
  unchanged : after ≡ before → Evolves before after
  born :
      (o : Order)
      → before ≡ none
      → after ≡ some o
      → o.status ≡ OrderStatus.pending
      → Evolves before after
  moved :
      (o o' : Order)
      → before ≡ some o
      → after ≡ some o'
      → Move o.status o'.status
      → HasSameContent o o'
      → Evolves before after

-- A new pending order.
pub Evolves-insert :
    (k : String) (o : Order) (os : List Order)
    → o.status ≡ OrderStatus.pending
    → find_order o.id os ≡ none
    → Evolves (find_order k os) (find_order k (os ++ o ∷ []))
Evolves-insert k o os is_pending new = elim (Bool-cases (o.id == k)) [
  | inl here ↦
      let at_k : find_order k os ≡ none =
        subst (λ j. find_order j os ≡ none) ((eq_iff o.id k).0 here) new in
      born o at_k (rw find_order-append (ground arith)) is_pending
  | inr other ↦ unchanged (ground (arith, find_order-append k o os))
]

-- A move of an order that is there.
pub Evolves-save :
    (k : String) (o o' : Order) (os : List Order)
    → find_order o.id os ≡ some o
    → Move o.status o'.status
    → HasSameContent o o'
    → Evolves (find_order k os) (find_order k (save_order o' os))
Evolves-save k o o' os there move same = elim (Bool-cases (o'.id == k)) [
  | inl here ↦
      let at_k : find_order k os ≡ some o =
        subst (λ j. find_order j os ≡ some o) (sym same.id ∙ (eq_iff o'.id k).0 here) there in
      moved o o' at_k (rw find_order-save_order (ground arith)) move same
  | inr other ↦ unchanged (ground (arith, find_order-save_order k o' os))
]

pub Evolves-eq :
    (k : String) (os os' os1 : List Order)
    → os1 ≡ os'
    → Evolves (find_order k os) (find_order k os')
    → Evolves (find_order k os) (find_order k os1)
Evolves-eq k os os' os1 e h = rw e h
