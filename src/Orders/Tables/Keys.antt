-- ===== src/Orders/Tables/Keys.antt =====
-- How the table of idempotency keys reads back.
use kafka_nest_playground.Prelude.{
  String, ◌≡◌, refl, true, false, List, [], ◌∷◌, ◌++◌, some, any, ◌==◌, eq_iff, arith,
}
use kafka_nest_playground.Orders.Tables.{
  CreateOrderResponseSnapshot, IdempotencyRow, read_idempotency_row, store_response,
}

module _ (key : String) where
  pub reserved-read :
      (rows : List IdempotencyRow) (row : IdempotencyRow)
      → read_idempotency_row key rows ≡ some row
      → any (λ (r : IdempotencyRow). r.idempotency_key == key) rows ≡ true
  unfolding read_idempotency_row
  reserved-read [] row h = cc
  reserved-read (r ∷ rs) row h = ground (arith, reserved-read rs row)

  pub read-append :
      (rows : List IdempotencyRow) (last row : IdempotencyRow)
      → read_idempotency_row key rows ≡ some row
      → read_idempotency_row key (rows ++ last ∷ []) ≡ some row
  unfolding read_idempotency_row
  read-append [] last row h = cc
  read-append (r ∷ rs) last row h = ground (arith, read-append rs last row)

  -- A stored response is read back from the row that was added for it.
  pub read-store_response_self :
      (rows : List IdempotencyRow) (last : IdempotencyRow) (response : CreateOrderResponseSnapshot)
      (order_id : String)
      → any (λ (r : IdempotencyRow). r.idempotency_key == key) rows ≡ false
      → last.idempotency_key ≡ key
      → read_idempotency_row key (store_response key response order_id (rows ++ last ∷ []))
        ≡ some (record last { response = some response; order_id = some order_id })
  unfolding read_idempotency_row store_response
  read-store_response_self [] last response order_id absent is_key =
      ground (arith, eq_iff last.idempotency_key key)
  read-store_response_self (r ∷ rs) last response order_id absent is_key =
      ground (arith, read-store_response_self rs last response order_id)

  -- Another key's response leaves the row alone.
  pub read-store_response_ne :
      (other : String) (rows : List IdempotencyRow) (response : CreateOrderResponseSnapshot)
      (order_id : String)
      → (other == key) ≡ false
      → read_idempotency_row key (store_response other response order_id rows)
        ≡ read_idempotency_row key rows
  unfolding read_idempotency_row store_response
  read-store_response_ne other [] response order_id ne = refl
  read-store_response_ne other (r ∷ rs) response order_id ne = ground (
    arith,
    read-store_response_ne other rs response order_id,
    eq_iff r.idempotency_key other,
    eq_iff r.idempotency_key key,
    eq_iff other key,
  )
