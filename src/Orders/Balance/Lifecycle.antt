-- ===== src/Orders/Balance/Lifecycle.antt =====
-- `processLifecycleEvent` keeps the balance.
use kafka_nest_playground.Prelude.{
  String, ◌≡◌, refl, sym, subst, Bool, true, false, [], ◌∷◌, ◌++◌, Option, none, some, ◌==◌, arith,
  inl, inr, Bool-cases,
}
use kafka_nest_playground.Prelude.Tx.{ok, >>=-eq-ok}
use kafka_nest_playground.Orders.Entity.{OrderStatus, Order, Js, Draws}
use kafka_nest_playground.Orders.StateMachine.{
  OrderLifecycleEvent, LifecycleEventType, FinalEventType, OrderTransitionDecision, lifecycle_type,
  decide_order_transition,
}
use kafka_nest_playground.Orders.FinalEvent.{
  FinalSourcePayload, create_final_order_event, final_payload,
}
use kafka_nest_playground.Orders.Transitions.{is_final}
use kafka_nest_playground.Orders.Tables.{Db, find_order, is_processed}
use kafka_nest_playground.Orders.Tables.Laws.{find_order-id}
use kafka_nest_playground.Orders.Repository.{
  ProcessLifecycleEventParams, OrderLifecycleProcessingResult, save_outbox,
  as_final_order_source_event,
}
use kafka_nest_playground.Orders.Repository.Lifecycle.{
  with_status, processed_row, apply_decision, process_registered, process_lifecycle_event,
}
use kafka_nest_playground.Orders.Balance.{IsBalanced, ends, IsBalanced-move, IsBalanced-save_end}

abbrev names_event : Option FinalEventType → Bool
names_event none = false
names_event (some f) = true

-- An allowed transition leaves an open status, and ends in a final one exactly if it names an event.
allowed-ends :
    (s : OrderStatus) (e : LifecycleEventType) (from to : OrderStatus) (f : Option FinalEventType)
    → decide_order_transition s e ≡ OrderTransitionDecision.allowed from to f
    → (is_final s ≡ false) × (is_final to ≡ names_event f)
unfolding decide_order_transition
allowed-ends s e from to f h = ground arith

final_payload-ends :
    (js : Js) (o : Order) (source : FinalSourcePayload) (at k : String)
    → ends k (final_payload js o source at) ≡ (o.id == k)
final_payload-ends js o (FinalSourcePayload.order_risk_rejected p) at k = refl
final_payload-ends js o (FinalSourcePayload.payment_authorized p) at k = refl
final_payload-ends js o (FinalSourcePayload.payment_failed p) at k = refl

module _ (js : Js) (draws : Draws) (event : OrderLifecycleEvent) (o : Order) (db : Db)
    (there : find_order o.id db.orders ≡ some o) (b : IsBalanced db) where
  apply_decision-IsBalanced :
      (d : OrderTransitionDecision) (r : OrderLifecycleProcessingResult) (db' : Db)
      → decide_order_transition o.status (lifecycle_type event.payload) ≡ d
      → apply_decision js draws event o d db ≡ ok (r, db')
      → IsBalanced db'
  unfolding apply_decision create_final_order_event
  apply_decision-IsBalanced (OrderTransitionDecision.rejected from e) r db' d h =
      subst IsBalanced (ground arith) b
  apply_decision-IsBalanced (OrderTransitionDecision.allowed from to none) r db' d h =
      let (open_status, to_open) = allowed-ends _ _ _ _ _ d in
      subst IsBalanced (ground arith)
        (IsBalanced-move db o (with_status draws to o) refl there open_status b to_open)
  apply_decision-IsBalanced (OrderTransitionDecision.allowed from to (some f)) r db' d h =
      let (open_status, final) = allowed-ends _ _ _ _ _ d in
      let (source, made, rest) = >>=-eq-ok (as_final_order_source_event event) _ h in
      let (db1, saved, done) = >>=-eq-ok (save_outbox draws 0 o.id _ _) _ rest in
      subst IsBalanced (ground arith) (
        IsBalanced-save_end draws 0 o.id _ db db1 o (with_status draws to o) saved refl there
          open_status final (λ k. final_payload-ends js (with_status draws to o) source.payload _ k)
          b)

  process_found-IsBalanced :
      (r : OrderLifecycleProcessingResult) (db' : Db)
      → process_registered js draws event (some o) db ≡ ok (r, db')
      → IsBalanced db'
  unfolding process_registered
  process_found-IsBalanced r db' h = apply_decision-IsBalanced _ r db' refl h

registered-IsBalanced :
    (js : Js) (draws : Draws) (event : OrderLifecycleEvent) (id : String) (found : Option Order)
    (db : Db) (r : OrderLifecycleProcessingResult) (db' : Db)
    → find_order id db.orders ≡ found
    → IsBalanced db
    → process_registered js draws event found db ≡ ok (r, db')
    → IsBalanced db'
registered-IsBalanced js draws event id none db r db' there b h =
    unfold process_registered in subst IsBalanced (ground arith) b
registered-IsBalanced js draws event id (some o) db r db' there b h =
    let at_id : o.id ≡ id = find_order-id id db.orders o there in
    process_found-IsBalanced js draws event o db
      (subst (λ j. find_order j db.orders ≡ some o) (sym at_id) there) b r db' h

-- Whatever `processLifecycleEvent` commits, the balance stands.
pub process_lifecycle_event-IsBalanced :
    (js : Js) (draws : Draws) (params : ProcessLifecycleEventParams) (db : Db)
    (r : OrderLifecycleProcessingResult) (db' : Db)
    → IsBalanced db
    → process_lifecycle_event js draws params db ≡ ok (r, db')
    → IsBalanced db'
unfolding process_lifecycle_event
process_lifecycle_event-IsBalanced js draws params db r db' b h =
    elim (Bool-cases (is_processed params.event.event_id db.processed)) [
      | inl again ↦ subst IsBalanced (ground arith) b
      | inr new ↦
          registered-IsBalanced js draws params.event params.order_id
            (find_order params.order_id db.orders)
            (record db { processed = db.processed ++ processed_row params ∷ [] }) r db' refl
            (record { at = b.at }) (rw new at h)
    ]
