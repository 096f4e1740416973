-- ===== src/Orders/Service/Laws.antt =====
-- What the service checks before and after the repository.
use kafka_nest_playground.Prelude.{
  ◌≤◌, String, ◌≡◌, refl, true, Option, none, some, arith, ◌⊎◌, inl, inr,
}
use kafka_nest_playground.Prelude.Text.{trim, utf16_length}
use kafka_nest_playground.Prelude.Tx.{>>-eq-ok, ok, >>=-eq-ok}
use kafka_nest_playground.Orders.Entity.{Js, Draws}
use kafka_nest_playground.Orders.OrderId.{is_uuid, assert_valid_order_id}
use kafka_nest_playground.Orders.Tables.{Db, CreateOrderResponseSnapshot}
use kafka_nest_playground.Orders.Repository.{
  CreateOrderIdempotencyParams, OrderCancellationProcessingResult,
}
use kafka_nest_playground.Orders.Repository.Cancel.{cancel_order}
use kafka_nest_playground.Orders.Service.{
  CreateOrderDto, CreateOrderCommand, CancelOrderCommand, CancelOrderResponse, Answer, truthy,
  pair_up, read_create_order_idempotency, create_order, require_cancellation_reason,
  requester_or_user, cancel_answer, cancel,
}

-- What holds of an answered cancellation.
pub record IsCheckedCancellation (command : CancelOrderCommand)
    (answer : Answer CancelOrderResponse) : Type 0 where
  pub valid_id : is_uuid command.id ≡ true
  pub trimmed : answer.value.reason ≡ trim command.reason
  pub long_enough : 5 ≤ utf16_length answer.value.reason
  pub short_enough : utf16_length answer.value.reason ≤ 1000
  pub requester : answer.value.requested_by ≡ requester_or_user command.requested_by
  pub woken : answer.wakes_publisher ≡ true
  pub same_status : answer.value.current_status ≡ answer.value.status

reason_checked :
    (value reason : String)
    → require_cancellation_reason value ≡ ok reason
    → (reason ≡ trim value) × (5 ≤ utf16_length reason) × (utf16_length reason ≤ 1000)
unfolding require_cancellation_reason
reason_checked value reason h = (ground arith, ground arith, ground arith)

-- A cancellation that the service answers had a UUID for its id; the reason in the answer is the
-- trimmed reason of the command, of 5 to 1000 UTF-16 units; the requester is the command's, or the
-- user; the publisher is woken, and the answer's two statuses agree.
cancel-IsChecked :
    (js : Js) (draws : Draws) (command : CancelOrderCommand) (db : Db)
    (answer : Answer CancelOrderResponse)
    → cancel js draws command db ≡ ok answer
    → IsCheckedCancellation command answer
unfolding cancel assert_valid_order_id
cancel-IsChecked js draws command db answer h =
    let (valid, rest) = >>-eq-ok (assert_valid_order_id command.id) _ h in
    let (reason, checked, rest2) = >>=-eq-ok (require_cancellation_reason command.reason) _ rest in
    let (same, low, high) = reason_checked command.reason reason checked in
    let ((result, db1), cancelled, rest3) = >>=-eq-ok (cancel_order js draws _ db) _ rest2 in
    let is_valid : is_uuid command.id ≡ true = ground arith in
    go reason result db1 rest3 is_valid same low high
  where
    go :
        (reason : String) (result : OrderCancellationProcessingResult) (db1 : Db)
        → cancel_answer command.id reason (requester_or_user command.requested_by) result db1
          ≡ ok answer
        → is_uuid command.id ≡ true
        → reason ≡ trim command.reason
        → 5 ≤ utf16_length reason
        → utf16_length reason ≤ 1000
        → IsCheckedCancellation command answer
    go reason OrderCancellationProcessingResult.unknown_order db1 e valid same low high =
        absurd (ground arith)
    go reason (OrderCancellationProcessingResult.accepted p e1 e2) db1 e valid same low high =
        ground arith
    go reason (OrderCancellationProcessingResult.rejected p e1 e2) db1 e valid same low high =
        ground arith

-- A creation that the service answers had both an idempotency key and a request hash, or neither: a
-- missing text counts like an empty one.
pub create_order-paired :
    (js : Js) (draws : Draws) (dto : CreateOrderDto) (command : CreateOrderCommand) (db : Db)
    (answer : Answer CreateOrderResponseSnapshot)
    → create_order js draws dto command db ≡ ok answer
    → ((truthy command.idempotency_key ≡ none) × (truthy command.request_hash ≡ none))
      ⊎ ((key : String) × (hash : String) × (truthy command.idempotency_key ≡ some key)
          × (truthy command.request_hash ≡ some hash))
unfolding create_order read_create_order_idempotency
create_order-paired js draws dto command db answer h =
    let (idempotency, read, rest) = >>=-eq-ok (read_create_order_idempotency command) _ h in
    go (truthy command.idempotency_key) (truthy command.request_hash) idempotency refl refl read
  where
    go :
        (key hash : Option String) (idempotency : Option CreateOrderIdempotencyParams)
        → truthy command.idempotency_key ≡ key
        → truthy command.request_hash ≡ hash
        → pair_up key hash ≡ ok idempotency
        → ((truthy command.idempotency_key ≡ none) × (truthy command.request_hash ≡ none))
          ⊎ ((key : String) × (hash : String) × (truthy command.idempotency_key ≡ some key)
              × (truthy command.request_hash ≡ some hash))
    go none none idempotency a b e = inl (a, b)
    go (some key) (some hash) idempotency a b e = inr (key, hash, a, b)
    go none (some hash) idempotency a b e = cc
    go (some key) none idempotency a b e = cc
