-- ===== src/Orders/Evolution/Creation.antt =====
-- The creation of orders adds pending orders alone.
use kafka_nest_playground.Prelude.{
  String, ◌≡◌, refl, List, [], ◌∷◌, ◌++◌, arith, Bool-cases, inl, inr,
}
use kafka_nest_playground.Prelude.Tx.{ok, >>=-eq-ok}
use kafka_nest_playground.Contracts.Events.{EventEnvelope, OrderCreatedPayload}
use kafka_nest_playground.Orders.Entity.{Order, Js, Draws}
use kafka_nest_playground.Orders.Tables.{Db, find_order, insert_order, read_idempotency_row}
use kafka_nest_playground.Orders.Tables.Laws.{insert_order-eq-ok}
use kafka_nest_playground.Orders.Repository.{
  CreatePendingOrderParams, CreateOrderIdempotencyParams, CreatePendingOrderResult, save_outbox,
}
use kafka_nest_playground.Orders.Repository.Create.{
  pending_order, create_pending_order, persist_pending_order_with_outbox, reserved_row, is_reserved,
  replay_response, create_reserved, replay_reserved, create_pending_order_with_outbox_idempotently,
}
use kafka_nest_playground.Orders.Repository.Outbox.{orders-save_outbox}
use kafka_nest_playground.Orders.Evolution.{Evolves, unchanged, Evolves-insert, Evolves-eq}

module _ (k : String) (js : Js) (draws : Draws) where
  inserted-Evolves :
      (params : CreatePendingOrderParams) (os os' : List Order)
      → insert_order (pending_order js draws params) os ≡ ok os'
      → Evolves (find_order k os) (find_order k os')
  unfolding pending_order
  inserted-Evolves params os os' h =
      let (new, shape) = insert_order-eq-ok (pending_order js draws params) os os' h in
      Evolves-eq k os _ os' shape (Evolves-insert k (pending_order js draws params) os refl new)

  pub create_pending_order-Evolves :
      (params : CreatePendingOrderParams) (db : Db) (o : Order) (db' : Db)
      → create_pending_order js draws params db ≡ ok (o, db')
      → Evolves (find_order k db.orders) (find_order k db'.orders)
  unfolding create_pending_order
  create_pending_order-Evolves params db o db' h =
      let (os, inserted, done) = >>=-eq-ok (insert_order _ db.orders) _ h in
      Evolves-eq k db.orders os _ (ground arith) (inserted-Evolves params db.orders os inserted)

  pub persist-Evolves :
      (params : CreatePendingOrderParams) (db : Db) (o : Order)
      (event : EventEnvelope OrderCreatedPayload) (db' : Db)
      → persist_pending_order_with_outbox js draws params db ≡ ok ((o, event), db')
      → Evolves (find_order k db.orders) (find_order k db'.orders)
  unfolding persist_pending_order_with_outbox
  persist-Evolves params db o event db' h =
      let (os, inserted, rest) = >>=-eq-ok (insert_order _ db.orders) _ h in
      let (db1, saved, done) = >>=-eq-ok (save_outbox draws 0 _ _ _) _ rest in
      let orders : db1.orders ≡ os = orders-save_outbox draws 0 _ _ _ db1 saved in
      Evolves-eq k db.orders os _ (ground arith) (inserted-Evolves params db.orders os inserted)

  create_reserved-Evolves :
      (params : CreatePendingOrderParams) (idempotency : CreateOrderIdempotencyParams) (db : Db)
      (r : CreatePendingOrderResult) (db' : Db)
      → create_reserved js draws params idempotency db ≡ ok (r, db')
      → Evolves (find_order k db.orders) (find_order k db'.orders)
  unfolding create_reserved
  create_reserved-Evolves params idempotency db r db' h =
      let (((o, event), db1), made, done) =
        >>=-eq-ok (persist_pending_order_with_outbox js draws params db) _ h in
      Evolves-eq k db.orders db1.orders _ (ground arith)
        (persist-Evolves params db o event db1 made)

  -- The idempotent creation leaves every order alone, or adds a pending one.
  pub create_idempotently-Evolves :
      (params : CreatePendingOrderParams) (idempotency : CreateOrderIdempotencyParams) (db : Db)
      (r : CreatePendingOrderResult) (db' : Db)
      → create_pending_order_with_outbox_idempotently js draws params idempotency db ≡ ok (r, db')
      → Evolves (find_order k db.orders) (find_order k db'.orders)
  unfolding create_pending_order_with_outbox_idempotently replay_reserved
  create_idempotently-Evolves params idempotency db r db' h =
      elim (Bool-cases (is_reserved idempotency.key db.idempotency)) [
        | inl there ↦
            let (response, replayed, done) =
              >>=-eq-ok
                (replay_response idempotency (read_idempotency_row idempotency.key db.idempotency))
                _ (rw there at h) in
            Evolves-eq k _ _ _ (ground arith) (unchanged refl)
        | inr new ↦
            create_reserved-Evolves params idempotency
              (record db { idempotency = db.idempotency ++ reserved_row idempotency ∷ [] }) r db'
              (rw new at h)
      ]
