-- ===== src/Orders/History/Content.antt =====
-- Orders over any history.
use kafka_nest_playground.Prelude.{
  String, ◌≡◌, refl, ◌∙◌, Bool, true, false, List, [], ◌∷◌, Option, none, some, arith, ◌≢◌, subst,
}
use kafka_nest_playground.Orders.Entity.{OrderStatus, Order, Js, Draws}
use kafka_nest_playground.Orders.Transitions.{is_final, approve, refuse, pay, decline}
use kafka_nest_playground.Orders.Tables.{Db, find_order}
use kafka_nest_playground.Orders.Repository.Create.{
  create_pending_order, persist_pending_order_with_outbox,
  create_pending_order_with_outbox_idempotently,
}
use kafka_nest_playground.Orders.Repository.Lifecycle.{process_lifecycle_event}
use kafka_nest_playground.Orders.Repository.Cancel.{cancel_order}
use kafka_nest_playground.Orders.Evolution.{
  Move, by_event, cancel_pending, cancel_approved, HasSameContent, Evolves, unchanged, born, moved,
}
use kafka_nest_playground.Orders.Evolution.Steps.{
  process_lifecycle_event-Evolves, cancel_order-Evolves,
}
use kafka_nest_playground.Orders.Evolution.Creation.{
  create_pending_order-Evolves, persist-Evolves, create_idempotently-Evolves,
}
use kafka_nest_playground.Orders.History.{
  Request, create, create_with_outbox, create_with_key, process, cancel, serve, run, empty_db,
  left_by-case,
}

serve-Evolves :
    (k : String) (js : Js) (draws : Draws) (request : Request) (db : Db)
    → Evolves (find_order k db.orders) (find_order k (serve js draws request db).orders)
unfolding serve
serve-Evolves k js draws (create params) db =
    left_by-case (λ d. Evolves (find_order k db.orders) (find_order k d.orders))
      (create_pending_order js draws params db) db (unchanged refl)
      (λ o db' h. create_pending_order-Evolves k js draws params db o db' h)
serve-Evolves k js draws (create_with_outbox params) db =
    left_by-case (λ d. Evolves (find_order k db.orders) (find_order k d.orders))
      (persist_pending_order_with_outbox js draws params db) db (unchanged refl)
      (λ r db' h. persist-Evolves k js draws params db r.0 r.1 db' h)
serve-Evolves k js draws (create_with_key params key) db =
    left_by-case (λ d. Evolves (find_order k db.orders) (find_order k d.orders))
      (create_pending_order_with_outbox_idempotently js draws params key db) db (unchanged refl)
      (λ r db' h. create_idempotently-Evolves k js draws params key db r db' h)
serve-Evolves k js draws (process params) db =
    left_by-case (λ d. Evolves (find_order k db.orders) (find_order k d.orders))
      (process_lifecycle_event js draws params db) db (unchanged refl)
      (λ r db' h. process_lifecycle_event-Evolves k js draws params db r db' h)
serve-Evolves k js draws (cancel command) db =
    left_by-case (λ d. Evolves (find_order k db.orders) (find_order k d.orders))
      (cancel_order js draws command db) db (unchanged refl)
      (λ r db' h. cancel_order-Evolves k js draws command db r db' h)

-- A final status has no way out.
Move-open : {s t : OrderStatus} → Move s t → is_final s ≡ false
Move-open (by_event approve) = refl
Move-open (by_event refuse) = refl
Move-open (by_event pay) = refl
Move-open (by_event decline) = refl
Move-open cancel_pending = refl
Move-open cancel_approved = refl

Evolves-final :
    (before after : Option Order) (o : Order)
    → Evolves before after
    → before ≡ some o
    → is_final o.status ≡ true
    → after ≡ some o
Evolves-final before after o (unchanged e) there final = e ∙ there
Evolves-final before after o (born n e1 e2 p) there final = cc
Evolves-final before after o (moved a a' e1 e2 move same) there final =
    ground (arith, Move-open move)

-- An order that is `CONFIRMED` or `CANCELLED` keeps its whole row through any later calls: no late,
-- repeated or reordered event and no cancellation changes it.
pub final_row_kept :
    (js : Js) (requests : List (Draws × Request)) (db : Db) (k : String) (o : Order)
    → find_order k db.orders ≡ some o
    → is_final o.status ≡ true
    → find_order k (run js requests db).orders ≡ some o
unfolding run
final_row_kept js [] db k o there final = there
final_row_kept js ((draws, request) ∷ rest) db k o there final =
    final_row_kept js rest (serve js draws request db) k o
      (Evolves-final _ _ o (serve-Evolves k js draws request db) there final) final

Evolves-content :
    (before after : Option Order) (o : Order)
    → Evolves before after
    → before ≡ some o
    → (o' : Order) × (after ≡ some o') × HasSameContent o o'
Evolves-content before after o (unchanged e) there = (o, e ∙ there, same_refl o)
  where
    same_refl : (o : Order) → HasSameContent o o
    same_refl o = record {
      id = refl;
      user_id = refl;
      currency = refl;
      total_amount = refl;
      item_count = refl;
      items = refl;
      created_at = refl;
    }
Evolves-content before after o (born n e1 e2 p) there = cc
Evolves-content before after o (moved a a' e1 e2 move same) there =
    let a_is_o : a ≡ o = cc in (a', e2, subst (λ x. HasSameContent x a') a_is_o same)

HasSameContent-trans :
    (a b c : Order) → HasSameContent a b → HasSameContent b c → HasSameContent a c
HasSameContent-trans a b c p q = record {
  id = q.id ∙ p.id;
  user_id = q.user_id ∙ p.user_id;
  currency = q.currency ∙ p.currency;
  total_amount = q.total_amount ∙ p.total_amount;
  item_count = q.item_count ∙ p.item_count;
  items = q.items ∙ p.items;
  created_at = q.created_at ∙ p.created_at;
}

-- No later call deletes an order, or changes its owner, currency, total, item count, items or
-- creation date.
pub order_kept :
    (js : Js) (requests : List (Draws × Request)) (db : Db) (k : String) (o : Order)
    → find_order k db.orders ≡ some o
    → (o' : Order) × (find_order k (run js requests db).orders ≡ some o') × HasSameContent o o'
unfolding run
order_kept js [] db k o there = Evolves-content _ _ o (unchanged refl) there
order_kept js ((draws, request) ∷ rest) db k o there =
    let (o1, there1, same1) = Evolves-content _ _ o (serve-Evolves k js draws request db) there in
    let (o2, there2, same2) = order_kept js rest (serve js draws request db) k o1 there1 in
    (o2, there2, HasSameContent-trans o o1 o2 same1 same2)

-- The statuses that the code ever writes.
abbrev is_written : OrderStatus → Bool
is_written OrderStatus.pending = true
is_written OrderStatus.risk_approved = true
is_written OrderStatus.confirmed = true
is_written OrderStatus.cancelled = true
is_written _ = false

Move-is_written : {s t : OrderStatus} → Move s t → is_written t ≡ true
Move-is_written (by_event approve) = refl
Move-is_written (by_event refuse) = refl
Move-is_written (by_event pay) = refl
Move-is_written (by_event decline) = refl
Move-is_written cancel_pending = refl
Move-is_written cancel_approved = refl

abbrev IsWritten : Option Order → Type 0
IsWritten none = Unit
IsWritten (some o) = is_written o.status ≡ true

Evolves-IsWritten :
    (before after : Option Order) → Evolves before after → IsWritten before → IsWritten after
Evolves-IsWritten before after (unchanged e) w = rw e w
Evolves-IsWritten before after (born n e1 e2 p) w = rw (e2, p) refl
Evolves-IsWritten before after (moved a a' e1 e2 move same) w = rw e2 (Move-is_written move)

run-IsWritten :
    (js : Js) (requests : List (Draws × Request)) (db : Db) (k : String)
    → IsWritten (find_order k db.orders)
    → IsWritten (find_order k (run js requests db).orders)
unfolding run
run-IsWritten js [] db k w = w
run-IsWritten js ((draws, request) ∷ rest) db k w =
    run-IsWritten js rest (serve js draws request db) k
      (Evolves-IsWritten _ _ (serve-Evolves k js draws request db) w)

-- From empty tables no order ever has the status `RISK_REJECTED`, `PAYMENT_AUTHORIZED` or
-- `PAYMENT_FAILED` of the enum.
pub status_reachable :
    (js : Js) (requests : List (Draws × Request)) (k : String) (o : Order)
    → find_order k (run js requests empty_db).orders ≡ some o
    → (o.status ≢ OrderStatus.risk_rejected)
      × (o.status ≢ OrderStatus.payment_authorized)
      × (o.status ≢ OrderStatus.payment_failed)
status_reachable js requests k o there =
    let w : is_written o.status ≡ true =
      rw there at (run-IsWritten js requests empty_db k (unfold find_order in tt)) in
    (λ e. ground arith, λ e. ground arith, λ e. ground arith)
