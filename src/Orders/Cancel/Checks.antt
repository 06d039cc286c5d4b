-- ===== src/Orders/Cancel/Checks.antt =====
-- orders.service.ts, `cancel`: what its checks let through, and the compare-and-set.
use transport_api.Common.{
  ==_iff, All, All-map, Bool-cases, Option, Option-cases, arith, count_where-zero, false, inl, inr,
  some, true, ℕ, ◌==◌, ◌≡◌, ◌≢◌, ◌⊎◌,
}
use transport_api.Common.Action.{Outcome-cases, Result, Result-cases, err, ok, resource_conflict}
use transport_api.Domain.{OrderCancellation, StatusOrders, same_status, same_status-eq}
use transport_api.Orders.Access.{assert_can_read_order}
use transport_api.Orders.Cancel.{
  CancelPlan, cancellation_type_for, check_cancel, commit_cancel, is_current, plan_cancel, plan_of,
}
use transport_api.Orders.Policy.{customer_cancellable_statuses}
use transport_api.Orders.Roles.{is_staff}
use transport_api.Orders.Transitions.{assert_status_transition}
use transport_api.Orders.Transitions.Graph.{IsTerminal}
use transport_api.Payments.Cardnet.{differs}
use transport_api.World.{AuthenticatedUser, TransportOrder, World, order_of}

pub read_only :
    (user : AuthenticatedUser) (customer_id : ℕ) (w : World) {w' : World} {r : Result (Unit {0})}
    → assert_can_read_order user customer_id w ≡ (r, w')
    → w' ≡ w
unfolding assert_can_read_order
read_only user customer_id w h = ground arith

may_be_cancelled :
    (user : AuthenticatedUser) (s : StatusOrders)
    → same_status s StatusOrders.cancelled ≡ false
    → assert_status_transition user s StatusOrders.cancelled ≡ ok tt
    → ¬ IsTerminal s
unfolding assert_status_transition
may_be_cancelled user s h e = ground arith

type_allowed :
    (user : AuthenticatedUser) (requested : Option OrderCancellation) {type : OrderCancellation}
    → cancellation_type_for user requested ≡ ok type
    → (type ≢ OrderCancellation.system_cancelled)
      × (is_staff user ≡ false → type ≡ OrderCancellation.customer_cancelled)
unfolding cancellation_type_for
type_allowed user requested h = ground arith

check_cancel_lem :
    (user : AuthenticatedUser) (o : TransportOrder) (requested : Option OrderCancellation)
    (w : World) {type : OrderCancellation} {w' : World}
    → check_cancel user o requested w ≡ (ok type, w')
    → (w' ≡ w)
      × ¬ IsTerminal o.status
      × (type ≢ OrderCancellation.system_cancelled)
      × (is_staff user ≡ false
          → (customer_cancellable_statuses o.status ≡ true)
            × (type ≡ OrderCancellation.customer_cancelled))
unfolding check_cancel
check_cancel_lem user o requested w h =
    elim (Outcome-cases (assert_can_read_order user o.customer_id w)) [
      | inr (e, u, refused) ↦ ground arith
      | inl (t, u, read) ↦ elim (Result-cases (cancellation_type_for user requested)) [
        | inr (e, refused) ↦ ground arith
        | inl (c, picked) ↦ ground (
          arith,
          read_only user o.customer_id w read,
          may_be_cancelled user o.status,
          type_allowed user requested picked,
        )
      ]
    ]

-- A planned cancellation is of an order that exists and is not over, at its current status. A
-- caller who is not staff cancels only before the trip starts, and always as the customer; staff
-- never cancels in the platform's name. Planning writes nothing.
pub plan_cancel_lem :
    (user : AuthenticatedUser) (id : ℕ) (requested : Option OrderCancellation) (w : World)
    {plan : CancelPlan} {w' : World}
    → plan_cancel user id requested w ≡ (ok plan, w')
    → (w' ≡ w)
      × (plan.order_id ≡ id)
      × ((o : TransportOrder) × (order_of id w ≡ some o) × (plan.status ≡ o.status))
      × ¬ IsTerminal plan.status
      × (plan.cancellation_type ≢ OrderCancellation.system_cancelled)
      × ((is_staff user ≡ true)
          ⊎ ((customer_cancellable_statuses plan.status ≡ true)
              × (plan.cancellation_type ≡ OrderCancellation.customer_cancelled)))
unfolding plan_cancel
plan_cancel_lem user id requested w h = elim (Option-cases (order_of id w)) [
  | inl missing ↦ ground arith
  | inr (o, found) ↦ elim (Outcome-cases (check_cancel user o requested w)) [
    | inr (e, u, refused) ↦ ground arith
    | inl (type, u, checked) ↦ ground (arith, check_cancel_lem user o requested w checked)
  ]
]

check_cancel-read_only :
    (user : AuthenticatedUser) (o : TransportOrder) (requested : Option OrderCancellation)
    (w : World) {r : Result OrderCancellation} {w' : World}
    → check_cancel user o requested w ≡ (r, w')
    → w' ≡ w
unfolding check_cancel
check_cancel-read_only user o requested w h =
    elim (Outcome-cases (assert_can_read_order user o.customer_id w)) [
      | inr (e, u, refused) ↦ ground (arith, read_only user o.customer_id w refused)
      | inl (t, u, read) ↦ ground (
        arith,
        read_only user o.customer_id w read,
        Result-cases (assert_status_transition user o.status StatusOrders.cancelled),
        Result-cases (cancellation_type_for user requested),
      )
    ]

-- Planning writes nothing, however it ends.
pub plan_cancel-read_only :
    (user : AuthenticatedUser) (id : ℕ) (requested : Option OrderCancellation) (w : World)
    {r : Result CancelPlan} {w' : World}
    → plan_cancel user id requested w ≡ (r, w')
    → w' ≡ w
unfolding plan_cancel
plan_cancel-read_only user id requested w h = elim (Option-cases (order_of id w)) [
  | inl missing ↦ ground arith
  | inr (o, found) ↦ elim (Outcome-cases (check_cancel user o requested w)) [
    | inr (e, u, refused) ↦ ground (arith, check_cancel-read_only user o requested w refused)
    | inl (type, u, checked) ↦ ground (arith, check_cancel-read_only user o requested w checked)
  ]
]

-- The plan is the one that `plan_of` makes of the order that was read.
pub plan_cancel-plan_of :
    (user : AuthenticatedUser) (id : ℕ) (requested : Option OrderCancellation) (w : World)
    {plan : CancelPlan} {u : World} {o : TransportOrder}
    → order_of id w ≡ some o
    → plan_cancel user id requested w ≡ (ok plan, u)
    → (type : OrderCancellation) × (plan ≡ plan_of id o type w)
      × (is_staff user ≡ false → type ≡ OrderCancellation.customer_cancelled)
unfolding plan_cancel
plan_cancel-plan_of user id requested w {o = o} found h =
    elim (Outcome-cases (check_cancel user o requested w)) [
      | inr (e, u, refused) ↦ ground arith
      | inl (type, u, checked) ↦
          let lem = check_cancel_lem user o requested w checked in
          (type, ground (arith, lem.0), λ s. (lem.3 s).1)
    ]

not_current :
    (plan : CancelPlan) (o : TransportOrder)
    → (o.id ≢ plan.order_id) ⊎ (o.status ≢ plan.status)
    → is_current plan o ≡ false
not_current plan o (inl other) = elim (Bool-cases (o.id == plan.order_id)) [
  | inl same ↦ absurd (other ((==_iff o.id plan.order_id).0 same))
  | inr differs ↦ ground arith
]
not_current plan o (inr moved) = elim (Bool-cases (same_status o.status plan.status)) [
  | inl same ↦ absurd (moved (same_status-eq o.status plan.status same))
  | inr differs ↦ ground arith
]

-- The compare-and-set: if, by the time of the transaction, no row of the order has the status that
-- the checks saw (a driver started the trip meanwhile), the cancellation ends in a conflict and
-- changes nothing.
pub commit_cancel_conflict :
    (user_id : ℕ) (plan : CancelPlan) (w : World)
    → All (λ (o : TransportOrder). (o.id ≢ plan.order_id) ⊎ (o.status ≢ plan.status)) w.orders
    → commit_cancel user_id plan w ≡ (err resource_conflict, w)
unfolding commit_cancel
commit_cancel_conflict user_id plan w moved_on =
    let none_current =
      All-map (λ (o : TransportOrder). (o.id ≢ plan.order_id) ⊎ (o.status ≢ plan.status))
        (λ (o : TransportOrder). is_current plan o ≡ false) w.orders
        (λ o moved. not_current plan o moved) moved_on in
    ground (arith, count_where-zero (is_current plan) w.orders none_current)
