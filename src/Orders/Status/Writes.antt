-- ===== src/Orders/Status/Writes.antt =====
-- orders.service.ts, `updateStatus`: what its transaction does to an order, whatever happened to the
-- order since the checks read it.
use transport_api.Common.{
  Bool, List, Option, ap, arith, false, find_first, find_first-update_where, find_first_sound,
  if◌then◌else◌, refl, some, true, update_where, ℕ, ◌==◌, ◌∙◌, ◌≡◌,
}
use transport_api.Domain.{StatusOrders}
use transport_api.Orders.Closing.{
  close_order_reservations, driver_release_statuses, release_order_drivers,
}
use transport_api.Orders.Settlement.{settle_closed_order_payments}
use transport_api.Orders.Settlement.Frame.{settle-leaves, status_of}
use transport_api.Orders.Status.{
  complete_assignment, failed_trip, is_delivered, is_failed, move_order, write_status, write_update,
}
use transport_api.Orders.Transitions.{event_for_status}
use transport_api.World.{TransportOrder, World, add_event, order_of}
use mathlib.Core.Option

-- One write of the transaction, up to the settlement.
pub unsettled_update : ℕ → ℕ → StatusOrders → World → World
unsettled_update user_id id next w =
    let w₁ =
      add_event id (event_for_status next) user_id (move_order id (write_status next w.now) w) in
    let w₂ = if is_delivered next then (complete_assignment id w₁).1 else w₁ in
    if driver_release_statuses next then (release_order_drivers id w₂).1 else w₂

pub unsettled_update-leaves :
    (user_id id : ℕ) (next : StatusOrders) (w : World)
    → let w' = unsettled_update user_id id next w in
      (w'.orders
        ≡ update_where (λ (o : TransportOrder). o.id == id) (write_status next w.now) w.orders)
      × (w'.payments ≡ w.payments)
      × (w'.refunds ≡ w.refunds)
unfolding unsettled_update complete_assignment release_order_drivers
unsettled_update-leaves user_id id next w = ground arith

pub write_update-split :
    (user_id id : ℕ) (current next : StatusOrders) (w : World)
    → let w₃ = unsettled_update user_id id next w in
      (write_update user_id id current next w).world ≡ (
        if is_failed next
        then (settle_closed_order_payments
            (failed_trip id current)
            (close_order_reservations id w₃)).1
        else w₃)
unfolding write_update unsettled_update
write_update-split user_id id current next w = ground arith

written_status :
    (id : ℕ) (next : StatusOrders) (w : World) {o : TransportOrder}
    → order_of id w ≡ some o
    → Option.map
        (λ (x : TransportOrder). x.status)
        (find_first
          (λ (x : TransportOrder). x.id == id)
          (update_where (λ (x : TransportOrder). x.id == id) (write_status next w.now) w.orders))
      ≡ some next
written_status id next w {o} found =
    let is_id = λ (x : TransportOrder). x.id == id in
    let moved =
      find_first-update_where is_id is_id (write_status next w.now) w.orders (λ x. refl) in
    let here = find_first_sound is_id w.orders o found in
    ground (arith, ap (Option.map (λ (x : TransportOrder). x.status)) moved, here)

unsettled_update-status :
    (user_id id : ℕ) (next : StatusOrders) (w : World) {o : TransportOrder}
    → order_of id w ≡ some o
    → status_of id (unsettled_update user_id id next w) ≡ some next
unsettled_update-status user_id id next w found =
    ap
      (λ (os : List TransportOrder).
        Option.map (λ (x : TransportOrder). x.status)
          (find_first (λ (x : TransportOrder). x.id == id) os))
      (unsettled_update-leaves user_id id next w).0
    ∙ written_status id next w found

pub close_order_reservations-leaves :
    (id : ℕ) (w : World)
    → ((close_order_reservations id w).orders ≡ w.orders)
      × ((close_order_reservations id w).payments ≡ w.payments)
      × ((close_order_reservations id w).refunds ≡ w.refunds)
unfolding close_order_reservations
close_order_reservations-leaves id w = (refl, refl, refl)

either_branch :
    (id : ℕ) (b : Bool) (u v : World) (s : Option StatusOrders)
    → status_of id u ≡ s
    → status_of id v ≡ s
    → status_of id (if b then u else v) ≡ s
either_branch id true u v s h k = h
either_branch id false u v s h k = k

-- The transaction has no compare-and-set: at its end the order has the new status, whatever status
-- it had when the transaction ran, CANCELLED and the other terminal statuses included.
pub write_update_overwrites :
    (user_id id : ℕ) (current next : StatusOrders) (w : World) {o : TransportOrder}
    → order_of id w ≡ some o
    → status_of id (write_update user_id id current next w).world ≡ some next
write_update_overwrites user_id id current next w found =
    let w₃ = unsettled_update user_id id next w in
    let before = unsettled_update-status user_id id next w found in
    let closed = close_order_reservations id w₃ in
    let settled = (settle-leaves (failed_trip id current) closed).0 id in
    let status = λ (os : List TransportOrder).
      Option.map (λ (x : TransportOrder). x.status)
        (find_first (λ (x : TransportOrder). x.id == id) os) in
    ap (status_of id) (write_update-split user_id id current next w)
    ∙ either_branch id (is_failed next) _ w₃ (some next)
        (settled ∙ ap status (close_order_reservations-leaves id w₃).0 ∙ before) before
