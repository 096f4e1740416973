-- ===== src/Orders/History/FinalEvents.antt =====
-- Final events over any history.
use kafka_nest_playground.Prelude.{String, ◌≡◌, refl, List, [], ◌∷◌}
use kafka_nest_playground.Orders.Entity.{Js, Draws}
use kafka_nest_playground.Orders.Tables.{Db, find_order}
use kafka_nest_playground.Orders.Repository.Create.{
  create_pending_order, persist_pending_order_with_outbox,
  create_pending_order_with_outbox_idempotently,
}
use kafka_nest_playground.Orders.Repository.Lifecycle.{process_lifecycle_event}
use kafka_nest_playground.Orders.Repository.Cancel.{cancel_order}
use kafka_nest_playground.Orders.Balance.{IsBalanced, final_events, due}
use kafka_nest_playground.Orders.Balance.Lifecycle.{process_lifecycle_event-IsBalanced}
use kafka_nest_playground.Orders.Balance.Cancel.{cancel_order-IsBalanced}
use kafka_nest_playground.Orders.Balance.Create.{
  create_pending_order-IsBalanced, persist-IsBalanced, create_idempotently-IsBalanced,
}
use kafka_nest_playground.Orders.History.{
  Request, create, create_with_outbox, create_with_key, process, cancel, serve, run, empty_db,
  left_by-case,
}

-- Every request keeps the balance.
serve-IsBalanced :
    (js : Js) (draws : Draws) (request : Request) (db : Db)
    → IsBalanced db
    → IsBalanced (serve js draws request db)
unfolding serve
serve-IsBalanced js draws (create params) db b =
    left_by-case IsBalanced (create_pending_order js draws params db) db b
      (λ o db' h. create_pending_order-IsBalanced js draws params db o db' b h)
serve-IsBalanced js draws (create_with_outbox params) db b =
    left_by-case IsBalanced (persist_pending_order_with_outbox js draws params db) db b
      (λ r db' h. persist-IsBalanced js draws params db r.0 r.1 db' b h)
serve-IsBalanced js draws (create_with_key params key) db b =
    left_by-case IsBalanced (create_pending_order_with_outbox_idempotently js draws params key db)
      db b (λ r db' h. create_idempotently-IsBalanced js draws params key db r db' b h)
serve-IsBalanced js draws (process params) db b =
    left_by-case IsBalanced (process_lifecycle_event js draws params db) db b
      (λ r db' h. process_lifecycle_event-IsBalanced js draws params db r db' b h)
serve-IsBalanced js draws (cancel command) db b =
    left_by-case IsBalanced (cancel_order js draws command db) db b
      (λ r db' h. cancel_order-IsBalanced js draws command db r db' b h)

run-IsBalanced :
    (js : Js) (requests : List (Draws × Request)) (db : Db)
    → IsBalanced db
    → IsBalanced (run js requests db)
unfolding run
run-IsBalanced js [] db b = b
run-IsBalanced js ((draws, request) ∷ rest) db b =
    run-IsBalanced js rest (serve js draws request db) (serve-IsBalanced js draws request db b)

empty_db-IsBalanced : IsBalanced empty_db
empty_db-IsBalanced = record { at = λ k. unfold final_events find_order in refl }

-- After any calls of the repository's methods on empty tables, whatever they throw, the outbox
-- holds exactly one `OrderConfirmed` or `OrderCancelled` event of an order that is `CONFIRMED` or
-- `CANCELLED`, and none of any other order, nor of an id with no order.
pub final_event_once :
    (js : Js) (requests : List (Draws × Request)) (k : String)
    → final_events k (run js requests empty_db).outbox
      ≡ due (find_order k (run js requests empty_db).orders)
final_event_once js requests k = (run-IsBalanced js requests empty_db empty_db-IsBalanced).at k
