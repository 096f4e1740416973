-- ===== src/Orders/Balance/Create.antt =====
-- The creation of an order keeps the balance.
use kafka_nest_playground.Prelude.{
  ◌≡◌, refl, subst, List, [], ◌∷◌, ◌++◌, arith, inl, inr, Bool-cases,
}
use kafka_nest_playground.Prelude.Tx.{ok, >>=-eq-ok}
use kafka_nest_playground.Contracts.Events.{EventEnvelope, OrderCreatedPayload}
use kafka_nest_playground.Orders.Entity.{Order, Js, Draws}
use kafka_nest_playground.Orders.Tables.{Db, insert_order, read_idempotency_row}
use kafka_nest_playground.Orders.Tables.Laws.{insert_order-eq-ok}
use kafka_nest_playground.Orders.Repository.{
  CreatePendingOrderParams, CreateOrderIdempotencyParams, CreatePendingOrderResult, save_outbox,
}
use kafka_nest_playground.Orders.Repository.Create.{
  pending_order, create_pending_order, persist_pending_order_with_outbox, reserved_row, is_reserved,
  replay_response, create_reserved, replay_reserved, create_pending_order_with_outbox_idempotently,
}
use kafka_nest_playground.Orders.Balance.{IsBalanced, IsBalanced-save_other, IsBalanced-insert}

module _ (js : Js) (draws : Draws) (params : CreatePendingOrderParams) where
  inserted-IsBalanced :
      (db : Db) (os : List Order)
      → IsBalanced db
      → insert_order (pending_order js draws params) db.orders ≡ ok os
      → IsBalanced (record db { orders = os })
  unfolding pending_order
  inserted-IsBalanced db os b h =
      let (new, shape) = insert_order-eq-ok (pending_order js draws params) db.orders os h in
      rw shape (IsBalanced-insert db (pending_order js draws params) refl new b)

  pub create_pending_order-IsBalanced :
      (db : Db) (o : Order) (db' : Db)
      → IsBalanced db
      → create_pending_order js draws params db ≡ ok (o, db')
      → IsBalanced db'
  unfolding create_pending_order
  create_pending_order-IsBalanced db o db' b h =
      let (os, inserted, done) = >>=-eq-ok (insert_order _ db.orders) _ h in
      subst IsBalanced (ground arith) (inserted-IsBalanced db os b inserted)

  pub persist-IsBalanced :
      (db : Db) (o : Order) (event : EventEnvelope OrderCreatedPayload) (db' : Db)
      → IsBalanced db
      → persist_pending_order_with_outbox js draws params db ≡ ok ((o, event), db')
      → IsBalanced db'
  unfolding persist_pending_order_with_outbox
  persist-IsBalanced db o event db' b h =
      let (os, inserted, rest) = >>=-eq-ok (insert_order _ db.orders) _ h in
      let (db1, saved, done) = >>=-eq-ok (save_outbox draws 0 _ _ _) _ rest in
      subst IsBalanced (ground arith) (
        IsBalanced-save_other draws 0 _ _ (record db { orders = os }) db1 saved (λ k. refl)
          (inserted-IsBalanced db os b inserted))

  module _ (idempotency : CreateOrderIdempotencyParams) where
    create_reserved-IsBalanced :
        (db : Db) (r : CreatePendingOrderResult) (db' : Db)
        → IsBalanced db
        → create_reserved js draws params idempotency db ≡ ok (r, db')
        → IsBalanced db'
    unfolding create_reserved
    create_reserved-IsBalanced db r db' b h =
        let (((o, event), db1), made, done) =
          >>=-eq-ok (persist_pending_order_with_outbox js draws params db) _ h in
        let b1 = persist-IsBalanced db o event db1 b made in
        let same : (db'.orders ≡ db1.orders) × (db'.outbox ≡ db1.outbox) =
          (ground arith, ground arith) in
        record { at = rw (same.0, same.1) b1.at }

    -- Whatever the idempotent creation commits, the balance stands.
    pub create_idempotently-IsBalanced :
        (db : Db) (r : CreatePendingOrderResult) (db' : Db)
        → IsBalanced db
        → create_pending_order_with_outbox_idempotently js draws params idempotency db ≡ ok (r, db')
        → IsBalanced db'
    unfolding create_pending_order_with_outbox_idempotently replay_reserved
    create_idempotently-IsBalanced db r db' b h =
        elim (Bool-cases (is_reserved idempotency.key db.idempotency)) [
          | inl there ↦
              let (response, replayed, done) =
                >>=-eq-ok
                  (replay_response idempotency
                    (read_idempotency_row idempotency.key db.idempotency))
                  _ (rw there at h) in
              subst IsBalanced (ground arith) b
          | inr new ↦
              create_reserved-IsBalanced
                (record db { idempotency = db.idempotency ++ reserved_row idempotency ∷ [] }) r db'
                (record { at = b.at }) (rw new at h)
        ]
