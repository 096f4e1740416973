-- ===== src/Orders/Transitions.antt =====
-- What the two decision functions of an order decide, against the diagram drawn as a relation.
use kafka_nest_playground.Prelude.{
  ℕ, ◌<◌, ◌≡◌, refl, sym, subst, ap₂, ◌∙◌, ◌↔◌, Bool, true, false, Option, none, some, arith,
}
use kafka_nest_playground.Orders.Entity.{OrderStatus}
use kafka_nest_playground.Orders.StateMachine.{
  LifecycleEventType, FinalEventType, OrderTransitionDecision, decide_order_transition,
}

-- `from ⟶ to` on an event, with the final event that the edge emits.
pub data Edge
    : OrderStatus → LifecycleEventType → OrderStatus → Option FinalEventType → Type 0 where
  approve :
      Edge OrderStatus.pending LifecycleEventType.order_risk_approved OrderStatus.risk_approved none
  refuse :
      Edge OrderStatus.pending LifecycleEventType.order_risk_rejected OrderStatus.cancelled
        (some FinalEventType.order_cancelled)
  pay :
      Edge OrderStatus.risk_approved LifecycleEventType.payment_authorized OrderStatus.confirmed
        (some FinalEventType.order_confirmed)
  decline :
      Edge OrderStatus.risk_approved LifecycleEventType.payment_failed OrderStatus.cancelled
        (some FinalEventType.order_cancelled)

abbrev pub is_final : OrderStatus → Bool
is_final OrderStatus.confirmed = true
is_final OrderStatus.cancelled = true
is_final _ = false

-- How far an order is: open, approved, or final.
abbrev pub rank : OrderStatus → ℕ
rank OrderStatus.pending = 0
rank OrderStatus.risk_approved = 1
rank _ = 2

-- The final event that announces a status.
abbrev pub announced : OrderStatus → Option FinalEventType
announced OrderStatus.confirmed = some FinalEventType.order_confirmed
announced OrderStatus.cancelled = some FinalEventType.order_cancelled
announced _ = none

-- Every decision names the current status, and a rejection the event.
named_allowed :
    (s : OrderStatus) (e : LifecycleEventType) (from to : OrderStatus) (f : Option FinalEventType)
    → decide_order_transition s e ≡ OrderTransitionDecision.allowed from to f
    → from ≡ s
unfolding decide_order_transition
named_allowed s e from to f h = ground arith

named_rejected :
    (s : OrderStatus) (e : LifecycleEventType) (from : OrderStatus) (e' : LifecycleEventType)
    → decide_order_transition s e ≡ OrderTransitionDecision.rejected from e'
    → (from ≡ s) × (e' ≡ e)
unfolding decide_order_transition
named_rejected s e from e' h = ground arith

pub allowed-iff-Edge :
    (s : OrderStatus) (e : LifecycleEventType) (t : OrderStatus) (f : Option FinalEventType)
    → (decide_order_transition s e ≡ OrderTransitionDecision.allowed s t f) ↔ Edge s e t f
unfolding decide_order_transition
allowed-iff-Edge s e t f = (to_edge s e t f, from_edge)
  where
    from_edge :
        {s t : OrderStatus} {e : LifecycleEventType} {f : Option FinalEventType}
        → Edge s e t f
        → decide_order_transition s e ≡ OrderTransitionDecision.allowed s t f
    from_edge approve = refl
    from_edge refuse = refl
    from_edge pay = refl
    from_edge decline = refl

    to_edge :
        (s : OrderStatus) (e : LifecycleEventType) (t : OrderStatus) (f : Option FinalEventType)
        → decide_order_transition s e ≡ OrderTransitionDecision.allowed s t f
        → Edge s e t f
    to_edge s e t f h = grind (arith, approve, refuse, pay, decline)

advances :
    {s t : OrderStatus} {e : LifecycleEventType} {f : Option FinalEventType}
    → Edge s e t f
    → (rank s < rank t) × (f ≡ announced t)
advances approve = (omega arith, refl)
advances refuse = (omega arith, refl)
advances pay = (omega arith, refl)
advances decline = (omega arith, refl)

-- No edge leaves the status on the event.
abbrev pub IsStuck : OrderStatus → LifecycleEventType → Type 0
IsStuck s e = (t : OrderStatus) (f : Option FinalEventType) → Edge s e t f → ⊥

stuck-rejected :
    (s : OrderStatus) (e : LifecycleEventType) (d : OrderTransitionDecision)
    → decide_order_transition s e ≡ d
    → IsStuck s e
    → decide_order_transition s e ≡ OrderTransitionDecision.rejected s e
stuck-rejected s e (OrderTransitionDecision.allowed from t f) h stuck =
    let same : from ≡ s = named_allowed s e from t f h in
    absurd (
      stuck t f (
        (allowed-iff-Edge s e t f).0 (
          subst (λ x. decide_order_transition s e ≡ OrderTransitionDecision.allowed x t f) same h)))
stuck-rejected s e (OrderTransitionDecision.rejected from e') h stuck =
    let (same, same_event) = named_rejected s e from e' h in
    h ∙ ap₂ OrderTransitionDecision.rejected same same_event

rejected-stuck :
    (s : OrderStatus) (e : LifecycleEventType) (from : OrderStatus) (e' : LifecycleEventType)
    → decide_order_transition s e ≡ OrderTransitionDecision.rejected from e'
    → IsStuck s e
rejected-stuck s e from e' h t f edge = let allowed = (allowed-iff-Edge s e t f).1 edge in cc

-- The decision function against the diagram: an event is allowed exactly where an edge of the diagram
-- leaves the current status on it, with the edge's target and final event, and is rejected exactly
-- where none does; either decision names the current status. And every edge moves an order strictly
-- on, from open to approved to final, and emits a final event exactly when its target is final, the
-- one that announces this target.
pub decide_order_transition-iff-Edge :
    (s : OrderStatus) (e : LifecycleEventType)
    → ((from t : OrderStatus) (f : Option FinalEventType)
        → (decide_order_transition s e ≡ OrderTransitionDecision.allowed from t f)
          ↔ ((from ≡ s) × Edge s e t f))
      × ((from : OrderStatus) (e' : LifecycleEventType)
          → (decide_order_transition s e ≡ OrderTransitionDecision.rejected from e')
            ↔ ((from ≡ s) × (e' ≡ e) × IsStuck s e))
      × ((t : OrderStatus) (f : Option FinalEventType)
          → Edge s e t f
          → (rank s < rank t) × (f ≡ announced t))
decide_order_transition-iff-Edge s e = (
  λ from t f. (
    λ h.
        let same : from ≡ s = named_allowed s e from t f h in
        (
          same,
          (allowed-iff-Edge s e t f).0 (
              subst (λ x. decide_order_transition s e ≡ OrderTransitionDecision.allowed x t f) same
                h),
        ),
    λ k.
        subst (λ x. decide_order_transition s e ≡ OrderTransitionDecision.allowed x t f) (sym k.0)
          ((allowed-iff-Edge s e t f).1 k.1),
  ),
  λ from e'. (
    λ h.
        let (same, same_event) = named_rejected s e from e' h in
        (same, same_event, rejected-stuck s e from e' h),
    λ k.
        let (same, same_event, stuck) = k in
        stuck-rejected s e (decide_order_transition s e) refl stuck
        ∙ ap₂ OrderTransitionDecision.rejected (sym same) (sym same_event),
  ),
  λ t f edge. advances edge,
)
