-- ===== src/Orders/Tables/Laws.antt =====
-- How the statements on the tables read back.
use kafka_nest_playground.Prelude.{
  String, ◌≡◌, refl, false, List, [], ◌∷◌, ◌++◌, Option, none, some, any, if◌then◌else◌, ◌==◌,
  eq_iff, arith, Bool-cases, inl, inr,
}
use kafka_nest_playground.Prelude.Tx.{ok}
use kafka_nest_playground.Orders.Entity.{Order}
use kafka_nest_playground.Orders.Tables.{find_order, insert_order, save_order}

-- What a lookup of `k` finds once `o` stands last.
abbrev pub or_new : Order → String → Option Order → Option Order
or_new o k (some x) = some x
or_new o k none = if o.id == k then some o else none

pub find_order-append :
    (k : String) (o : Order) (os : List Order)
    → find_order k (os ++ o ∷ []) ≡ or_new o k (find_order k os)
unfolding find_order
find_order-append k o [] = refl
find_order-append k o (x ∷ xs) = ground (arith, find_order-append k o xs)

-- A write replaces the row of its own id, where there is one.
abbrev pub overwrite : Order → Option Order → Option Order
overwrite o none = none
overwrite o (some x) = some o

pub find_order-save_order :
    (k : String) (o : Order) (os : List Order)
    → find_order k (save_order o os)
      ≡ (if o.id == k then overwrite o (find_order k os) else find_order k os)
unfolding find_order save_order
find_order-save_order k o [] = ground arith
find_order-save_order k o (x ∷ xs) =
    ground (arith, eq_iff x.id o.id, eq_iff o.id k, eq_iff x.id k, find_order-save_order k o xs)

pub find_order-id : (k : String) (os : List Order) (o : Order) → find_order k os ≡ some o → o.id ≡ k
unfolding find_order
find_order-id k [] o h = ground arith
find_order-id k (x ∷ xs) o h = ground (arith, eq_iff x.id k, find_order-id k xs o)

pub find_order-absent :
    (k : String) (os : List Order)
    → any (λ (x : Order). x.id == k) os ≡ false
    → find_order k os ≡ none
unfolding find_order
find_order-absent k [] h = refl
find_order-absent k (x ∷ xs) h = ground (arith, find_order-absent k xs)

-- An insert that succeeds met no row of its id, and appends.
pub insert_order-eq-ok :
    (o : Order) (os os' : List Order)
    → insert_order o os ≡ ok os'
    → (find_order o.id os ≡ none) × (os' ≡ os ++ o ∷ [])
unfolding insert_order
insert_order-eq-ok o os os' h = elim (Bool-cases (any (λ (x : Order). x.id == o.id) os)) [
  | inl there ↦ ground arith
  | inr absent ↦ (find_order-absent o.id os absent, ground arith)
]
