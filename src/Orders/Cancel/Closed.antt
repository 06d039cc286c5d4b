-- ===== src/Orders/Cancel/Closed.antt =====
-- orders.service.ts, `cancel`: what closing an order leaves of it, table by table.
use transport_api.Common.{
  List, any, any-update_where, ap, arith, false, find_first, find_first-update_where,
  find_first_sound, refl, some, update_where, ℕ, ◌&&◌, ◌==◌, ◌∙◌, ◌≡◌,
}
use transport_api.Domain.{
  AssignmentStatus, ReservationsStatus, StatusOrders, TrackingSessions, same_status_refl,
}
use transport_api.Orders.Cancel.{
  CancelPlan, announce_cancel, apply_cancel, is_current, set_status, settlement_input,
}
use transport_api.Orders.Closing.{
  cancel_open_offers, close_order_reservations, holds_order, is_live_tracking,
  release_order_drivers,
}
use transport_api.Orders.Closing.Offers.{
  Announced, cancel_open_offers-Announced, cancel_open_offers-closes, is_open_offer,
  revoke_order_rooms-Announced,
}
use transport_api.Orders.Policy.{live_reservation_statuses}
use transport_api.Orders.Settlement.Frame.{settle-leaves, status_of}
use transport_api.Orders.Settlement.Rounds.{in_flight}
use transport_api.World.{
  Emit, OrderAssignment, Reservation, TrackingSession, TransportOrder, World, emit, order_of,
}
use mathlib.Core.Option

release_order_drivers-frees :
    (id : ℕ) (w : World)
    → let w' = (release_order_drivers id w).1 in
      (any (holds_order id) w'.assignments ≡ false)
      × (any (λ (t : TrackingSession). t.order_id == id && is_live_tracking t.status) w'.tracking
          ≡ false)
      × (w'.orders ≡ w.orders)
unfolding release_order_drivers
release_order_drivers-frees id w = (
  any-update_where (holds_order id) (holds_order id)
      (λ (a : OrderAssignment). record a { assignment_status = AssignmentStatus.cancelled })
      w.assignments (λ a h. ground arith) (λ a h. h),
  any-update_where (λ (t : TrackingSession). t.order_id == id && is_live_tracking t.status)
      (λ (t : TrackingSession). t.order_id == id && is_live_tracking t.status)
      (λ t. record t { status = TrackingSessions.ended; ended_at = some w.now }) w.tracking
      (λ t h. ground arith) (λ t h. h),
  refl,
)

pub settled_orders :
    (user_id : ℕ) (plan : CancelPlan) (w : World)
    → let w' = (apply_cancel user_id plan w).1 in
      (status_of plan.order_id w'
        ≡ Option.map
            (λ (o : TransportOrder). o.status)
            (find_first
              (λ (o : TransportOrder). o.id == plan.order_id)
              (update_where (is_current plan) (set_status StatusOrders.cancelled) w.orders)))
      × (any (holds_order plan.order_id) w'.assignments ≡ false)
      × (any
            (λ (t : TrackingSession). t.order_id == plan.order_id && is_live_tracking t.status)
            w'.tracking
          ≡ false)
      × (any
            (λ (r : Reservation).
              r.order_id == plan.order_id && live_reservation_statuses r.reservation_status)
            w'.reservations
          ≡ false)
      × (any (in_flight plan.order_id) w'.payments ≡ false)
unfolding apply_cancel close_order_reservations
settled_orders user_id plan w =
    let id = plan.order_id in
    let live =
      λ (r : Reservation). r.order_id == id && live_reservation_statuses r.reservation_status in
    let w₁ = record w {
      orders = update_where (is_current plan) (set_status StatusOrders.cancelled) w.orders;
    } in
    let freed = release_order_drivers-frees id w₁ in
    let w₂ = (release_order_drivers id w₁).1 in
    let closed =
      any-update_where live live
        (λ r. record r { reservation_status = ReservationsStatus.cancelled }) w₂.reservations
        (λ r h. ground arith) (λ r h. h) in
    let w₃ = close_order_reservations id w₂ in
    let kept = settle-leaves (settlement_input plan) w₃ in
    (
      kept.0 id
          ∙ ap
              (λ (os : List TransportOrder).
                Option.map (λ (o : TransportOrder). o.status)
                  (find_first (λ (o : TransportOrder). o.id == id) os))
              freed.2,
      ap (any (holds_order id)) kept.1 ∙ freed.0,
      ap (any (λ (t : TrackingSession). t.order_id == id && is_live_tracking t.status)) kept.4
          ∙ freed.1,
      ap (any live) kept.3 ∙ closed,
      kept.5,
    )

-- Nothing of a closed order is left alive: no assignment, tracking session, reservation, offer or
-- attempt to pay.
pub record IsClosed (id : ℕ) (w : World) : Type 0 where
  pub no_driver : any (holds_order id) w.assignments ≡ false
  pub no_tracking :
      any (λ (t : TrackingSession). t.order_id == id && is_live_tracking t.status) w.tracking
      ≡ false
  pub no_reservation :
      any
        (λ (r : Reservation). r.order_id == id && live_reservation_statuses r.reservation_status)
        w.reservations
      ≡ false
  pub no_attempt : any (in_flight id) w.payments ≡ false
  pub no_offer : any (is_open_offer id) w.offers ≡ false

pub announce_cancel-Announced :
    (plan : CancelPlan) (ds : List ℕ) (w : World)
    → Announced w (announce_cancel plan ds w)
      × (any (is_open_offer plan.order_id) (announce_cancel plan ds w).offers ≡ false)
unfolding announce_cancel
announce_cancel-Announced plan ds w =
    let w₁ = cancel_open_offers plan.order_id w in
    let w₂ =
      emit (Emit.order_status_changed plan.order_id StatusOrders.cancelled plan.status ds) w₁ in
    let first = cancel_open_offers-Announced plan.order_id w in
    let closed = cancel_open_offers-closes plan.order_id w in
    let second = revoke_order_rooms-Announced ds plan.order_id w₂ in
    ground (arith, first, second, closed)

pub cancelled_status :
    (plan : CancelPlan) (w : World) {o : TransportOrder}
    → order_of plan.order_id w ≡ some o
    → plan.status ≡ o.status
    → (user_id : ℕ)
    → status_of plan.order_id (apply_cancel user_id plan w).1 ≡ some StatusOrders.cancelled
cancelled_status plan w {o} found current user_id =
    let id = plan.order_id in
    let is_id = λ (x : TransportOrder). x.id == id in
    let moved =
      find_first-update_where (is_current plan) is_id (set_status StatusOrders.cancelled) w.orders
        (λ x. refl) in
    let here = find_first_sound is_id w.orders o found in
    ground (
      arith,
      settled_orders user_id plan w,
      ap (Option.map (λ (x : TransportOrder). x.status)) moved,
      here,
      same_status_refl o.status,
    )
