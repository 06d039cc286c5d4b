-- ===== src/Orders/Cancel/Effects.antt =====
-- orders.service.ts, `cancel`: what a committed cancellation leaves behind.
use transport_api.Common.{
  List, Option, Option-cases, any, ap, arith, find_first, inl, inr, some, subst, sym, ℕ, ◌&&◌, ◌==◌,
  ◌∙◌, ◌≡◌,
}
use transport_api.Common.Action.{
  Error, Outcome-cases, Result, err, ok, or_throw, resource_not_found,
}
use transport_api.Domain.{OrderCancellation, StatusOrders}
use transport_api.Orders.Cancel.{
  CancelPlan, announce_cancel, apply_cancel, cancel, commit_cancel, plan_cancel,
}
use transport_api.Orders.Cancel.Checks.{plan_cancel_lem}
use transport_api.Orders.Cancel.Closed.{
  IsClosed, announce_cancel-Announced, cancelled_status, settled_orders,
}
use transport_api.Orders.Closing.{holds_order, is_live_tracking}
use transport_api.Orders.Policy.{live_reservation_statuses}
use transport_api.Orders.Settlement.Frame.{status_of}
use transport_api.Orders.Settlement.Rounds.{in_flight}
use transport_api.World.{
  AuthenticatedUser, Reservation, TrackingSession, TransportOrder, World, order_of,
}
use mathlib.Core.Option

-- What `commit_cancel` returns when it commits.
commit_cancel-ok :
    (user_id : ℕ) (plan : CancelPlan) (w : World) {ds : List ℕ} {w' : World}
    → commit_cancel user_id plan w ≡ (ok ds, w')
    → (apply_cancel user_id plan w).1 ≡ w'
unfolding commit_cancel
commit_cancel-ok user_id plan w h = ground arith

commit_cancel-err :
    (user_id : ℕ) (plan : CancelPlan) (w : World) {e : Error} {w' : World}
    → commit_cancel user_id plan w ≡ (err e, w')
    → w' ≡ w
unfolding commit_cancel
commit_cancel-err user_id plan w h = ground arith

status_of-found :
    (id : ℕ) (w : World) {o : TransportOrder} {s : StatusOrders}
    → order_of id w ≡ some o
    → status_of id w ≡ some s
    → o.status ≡ s
status_of-found id w found status = ground arith

or_throw-ok :
    (id : ℕ) (w : World) {o : TransportOrder} {w' : World}
    → or_throw (order_of id w) resource_not_found w ≡ (ok o, w')
    → (w' ≡ w) × (order_of id w ≡ some o)
or_throw-ok id w h = ground (arith, Option-cases (order_of id w))

module _ (plan : CancelPlan) (user_id : ℕ) (u : World) (ds : List ℕ) where
  -- The state after the announcements.
  abbrev last_world : World
  last_world = announce_cancel plan ds (apply_cancel user_id plan u).1

  last_world-IsClosed : IsClosed plan.order_id last_world
  last_world-IsClosed =
      let v = (apply_cancel user_id plan u).1 in
      let done = settled_orders user_id plan u in
      let told = announce_cancel-Announced plan ds v in
      record {
        no_driver = ap (any (holds_order plan.order_id)) told.0.assignments ∙ done.1;
        no_tracking =
            ap
              (any
                (λ (t : TrackingSession). t.order_id == plan.order_id && is_live_tracking t.status))
              told.0.tracking
            ∙ done.2;
        no_reservation =
            ap
              (any (λ (r : Reservation).
                r.order_id == plan.order_id && live_reservation_statuses r.reservation_status))
              told.0.reservations
            ∙ done.3;
        no_attempt = ap (any (in_flight plan.order_id)) told.0.payments ∙ done.4;
        no_offer = told.1;
      }

  last_world-status :
      {o : TransportOrder}
      → order_of plan.order_id u ≡ some o
      → plan.status ≡ o.status
      → status_of plan.order_id last_world ≡ some StatusOrders.cancelled
  last_world-status found current =
      let v = (apply_cancel user_id plan u).1 in
      let told = announce_cancel-Announced plan ds v in
      ap
        (λ (os : List TransportOrder).
          Option.map (λ (o : TransportOrder). o.status)
            (find_first (λ (o : TransportOrder). o.id == plan.order_id) os))
        told.0.orders
      ∙ cancelled_status plan u found current user_id

-- What a cancellation promises of the order that it returns.
abbrev Cancelled : ℕ → TransportOrder → World → Type 0
Cancelled id o w = (order_of id w ≡ some o) × (o.status ≡ StatusOrders.cancelled) × IsClosed id w

finish_cancel :
    (plan : CancelPlan) (user_id : ℕ) (u : World) (ds : List ℕ) {x o : TransportOrder} {w' : World}
    → order_of plan.order_id u ≡ some x
    → plan.status ≡ x.status
    → or_throw
        (order_of plan.order_id (last_world plan user_id u ds))
        resource_not_found
        (last_world plan user_id u ds)
      ≡ (ok o, w')
    → Cancelled plan.order_id o w'
finish_cancel plan user_id u ds {x} {o} found current h =
    let last = last_world plan user_id u ds in
    let read = or_throw-ok plan.order_id last h in
    let status = last_world-status plan user_id u ds found current in
    let closed = last_world-IsClosed plan user_id u ds in
    subst (Cancelled plan.order_id o) (sym read.0)
      (read.1, status_of-found plan.order_id last read.1 status, closed)

cancel_steps :
    (user : AuthenticatedUser) (id : ℕ) (requested : Option OrderCancellation) (w : World)
    {plan : CancelPlan} {u v : World} {ds : List ℕ} {r : Result TransportOrder × World}
    → plan_cancel user id requested w ≡ (ok plan, u)
    → commit_cancel user.id plan u ≡ (ok ds, v)
    → cancel user id requested w ≡ r
    → let last = announce_cancel plan ds v in
      or_throw (order_of id last) resource_not_found last ≡ r
unfolding cancel
cancel_steps user id requested w planned written h = ground arith

-- A cancellation that succeeds returns the order CANCELLED, as it now stands, and leaves nothing of
-- it alive: no live assignment, tracking session or reservation, no open offer, and no attempt to
-- pay in flight.
pub cancel_closes :
    (user : AuthenticatedUser) (id : ℕ) (requested : Option OrderCancellation) (w : World)
    {o : TransportOrder} {w' : World}
    → cancel user id requested w ≡ (ok o, w')
    → (order_of id w' ≡ some o) × (o.status ≡ StatusOrders.cancelled) × IsClosed id w'
unfolding cancel
cancel_closes user id requested w {o} {w'} h =
    elim (Outcome-cases (plan_cancel user id requested w)) [
      | inr (e, u, refused) ↦ ground arith
      | inl (plan, u, planned) ↦ elim (Outcome-cases (commit_cancel user.id plan u)) [
        | inr (e, v, refused) ↦ ground arith
        | inl (ds, v, written) ↦
            let applied = commit_cancel-ok user.id plan u written in
            let (same, at, current, _, _, _) = plan_cancel_lem user id requested w planned in
            let reads = λ (k : ℕ) (v : World).
              or_throw (order_of k (announce_cancel plan ds v)) resource_not_found
                (announce_cancel plan ds v)
              ≡ (ok o, w') in
            let returned : reads id v = cancel_steps user id requested w planned written h in
            subst (λ k. Cancelled k o w') at
              (finish_cancel plan user.id u ds
                (ap (order_of plan.order_id) same ∙ ap (λ k. order_of k w) at ∙ current.1) current.2
                (subst (λ v. reads plan.order_id v) (sym applied)
                  (subst (λ k. reads k v) (sym at) returned)))
      ]
    ]
