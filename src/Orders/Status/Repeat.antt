-- ===== src/Orders/Status/Repeat.antt =====
-- orders.service.ts, `updateStatus`: the same status sent again. The check on transitions lets
-- X → X through, and the driver apps send a status again from their offline queue.
use transport_api.Common.{
  All, Option, ap, arith, false, if◌then◌else◌, none, refl, some, subst, sum_where, sym, true, ℕ,
  ◌&&◌, ◌++◌, ◌+◌, ◌==◌, ◌∙◌, ◌≡◌,
}
use transport_api.Common.Action.{Error, Result, ok, or_throw, resource_not_found}
use transport_api.Domain.{StatusOrders, same_status_refl}
use transport_api.Orders.Access.{assert_driver_can_access_order, assert_driver_holds_order}
use transport_api.Orders.Closing.{
  active_driver_ids, cancel_open_offers, close_order_reservations, driver_release_statuses,
}
use transport_api.Orders.Closing.Offers.{cancel_open_offers-Announced, revoke_order_rooms-Announced}
use transport_api.Orders.Roles.{is_staff}
use transport_api.Orders.Settlement.{is_corporate_credit}
use transport_api.Orders.Settlement.Conservation.{holding, money_in, settle_conserves}
use transport_api.Orders.Settlement.Loops.{committed, is_open}
use transport_api.Orders.Settlement.OpenRefunds.{
  NoCreditOn, settle-committed, settle_failed_trip-fee,
}
use transport_api.Orders.Status.{
  Written, announce_update, continue_update, failed_trip, update_status, write_update,
}
use transport_api.Orders.Status.Writes.{
  close_order_reservations-leaves, unsettled_update, unsettled_update-leaves, write_update-split,
}
use transport_api.Orders.Transitions.{assert_status_transition}
use transport_api.World.{
  AuthenticatedUser, Emit, Payment, Refund, TransportOrder, World, emit, order_of,
}

announce_update-refunds :
    (id : ℕ) (current next : StatusOrders) (t : Written)
    → (announce_update id current next t).refunds ≡ t.world.refunds
unfolding announce_update
announce_update-refunds id current next t =
    let closed = cancel_open_offers-Announced id t.world in
    let w₁ = if driver_release_statuses next then cancel_open_offers id t.world else t.world in
    let told = active_driver_ids id t.world ++ t.closed_for in
    let w₂ = emit (Emit.order_status_changed id next current told) w₁ in
    let revoked = revoke_order_rooms-Announced t.released id w₂ in
    ground (arith, closed.refunds, revoked.0.refunds)

failed_committed :
    (user_id id : ℕ) (w : World)
    → NoCreditOn id w
    → committed id (write_update user_id id StatusOrders.failed StatusOrders.failed w).world
      ≡ committed id w + money_in id w
failed_committed user_id id w none_credit =
    let failed = StatusOrders.failed in
    let w₃ = unsettled_update user_id id failed w in
    let before = unsettled_update-leaves user_id id failed w in
    let closed = close_order_reservations id w₃ in
    let kept = close_order_reservations-leaves id w₃ in
    let payments = kept.1 ∙ before.1 in
    let refunds = kept.2 ∙ before.2 in
    let input = failed_trip id failed in
    let none₃ : NoCreditOn id closed =
      subst
        (All (λ (p : Payment).
          (p.order_id == id) ≡ true → is_corporate_credit p.payment_method ≡ false))
        (sym payments) none_credit in
    let opened = settle-committed input closed none₃ in
    let sums = settle_conserves input closed in
    let held = ap (sum_where (λ (p : Payment). p.order_id == id) holding) payments in
    let had =
      ap
        (sum_where (λ (r : Refund). r.order_id == id && is_open r.status)
          (λ (r : Refund). r.amount))
        refunds in
    ap (committed id) (write_update-split user_id id failed failed w)
    ∙ omega (arith, opened, sums, held, had, settle_failed_trip-fee input closed refl)

or_throw-state : {A : Type 0} (o : Option A) (e : Error) (w : World) → (or_throw o e w).1 ≡ w
or_throw-state none e w = refl
or_throw-state (some a) e w = refl

-- Staff is under no check of a driver.
staff_access :
    (user : AuthenticatedUser) (id : ℕ) (w : World)
    → is_staff user ≡ true
    → (assert_driver_can_access_order user id w ≡ (ok tt, w))
      × (assert_driver_holds_order user id w ≡ (ok tt, w))
unfolding assert_driver_can_access_order assert_driver_holds_order
staff_access user id w staff = ground arith

continue_failed :
    (user : AuthenticatedUser) (id : ℕ) (w : World)
    → is_staff user ≡ true
    → let failed = StatusOrders.failed in
      (continue_update user id failed failed w).1
      ≡ announce_update id failed failed (write_update user.id id failed failed w)
unfolding continue_update
continue_failed user id w staff =
    let failed = StatusOrders.failed in
    let last = announce_update id failed failed (write_update user.id id failed failed w) in
    ground (
      arith,
      (staff_access user id w staff).1,
      or_throw-state (order_of id last) resource_not_found last,
    )

same_transition :
    (user : AuthenticatedUser) (s : StatusOrders) → assert_status_transition user s s ≡ ok tt
unfolding assert_status_transition
same_transition user s = ground (arith, same_status_refl s)

update_failed :
    (user : AuthenticatedUser) (id : ℕ) (w : World) {o : TransportOrder}
    → is_staff user ≡ true
    → order_of id w ≡ some o
    → o.status ≡ StatusOrders.failed
    → update_status user id StatusOrders.failed w
      ≡ continue_update user id StatusOrders.failed StatusOrders.failed w
unfolding update_status
update_failed user id w {o} staff found failed =
    ground (arith, (staff_access user id w staff).0, same_transition user StatusOrders.failed)

-- Sending FAILED again for an order that is FAILED already refunds it again: for staff, on an order
-- without corporate credit, every repetition adds all that the payments hold to the refunds that
-- are open or paid out.
pub failed_again_refunds_again :
    (user : AuthenticatedUser) (id : ℕ) (w : World) {o : TransportOrder}
    → is_staff user ≡ true
    → order_of id w ≡ some o
    → o.status ≡ StatusOrders.failed
    → NoCreditOn id w
    → committed id (update_status user id StatusOrders.failed w).1 ≡ committed id w + money_in id w
failed_again_refunds_again user id w staff found failed none_credit =
    let again = StatusOrders.failed in
    let written = write_update user.id id again again w in
    ap (λ (r : Result TransportOrder × World). committed id r.1)
      (update_failed user id w staff found failed)
    ∙ ap (committed id) (continue_failed user id w staff)
    ∙ ap
        (sum_where (λ (r : Refund). r.order_id == id && is_open r.status)
          (λ (r : Refund). r.amount))
        (announce_update-refunds id again again written)
    ∙ failed_committed user.id id w none_credit
