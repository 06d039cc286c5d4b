-- ===== src/Orders/Cancel.antt =====
-- orders.service.ts: `cancel`. It checks what it read, then commits by a compare-and-set in a
-- transaction, and then announces: three parts, between which other requests may run.
pub mod Checks
pub mod Closed
pub mod Effects
pub mod Money
use transport_api.Common.{
  Bool, List, Option, count_where, if◌then◌else◌, ltb, none, not, select, some, update_where, ℕ,
  ◌&&◌, ◌==◌, ◌∷◌,
}
use transport_api.Common.Action.{
  Action, Result, bad_request, domain_rule_violation, err, gets, modify, ok, or_throw, pure,
  resource_conflict, resource_not_found, throw_if, transaction, ◌>>=◌, ◌>>◌,
}
use transport_api.Common.Int.{pos, ℤ}
use transport_api.Domain.{EventType, OrderCancellation, StatusOrders, same_status}
use transport_api.Orders.Access.{assert_can_read_order}
use transport_api.Orders.Closing.{
  cancel_open_offers, cancellation_fee_for, close_order_reservations, release_order_drivers,
  revoke_order_rooms,
}
use transport_api.Orders.Policy.{
  customer_cancellable_statuses, is_customer_cancelled, is_past_cancellation_deadline,
  live_reservation_statuses, staff_cancellation_types,
}
use transport_api.Orders.Roles.{is_staff}
use transport_api.Orders.Settlement.{Settlement, SettlementInput, settle_closed_order_payments}
use transport_api.Orders.Transitions.{assert_status_transition}
use transport_api.World.{
  Audit, AuthenticatedUser, Emit, Reservation, TransportOrder, World, add_event, emit, order_of,
}

-- `cancellationTypeFor`
unfoldable pub cancellation_type_for :
    AuthenticatedUser → Option OrderCancellation → Result OrderCancellation
cancellation_type_for user requested =
    if not (is_staff user) then ok OrderCancellation.customer_cancelled else elim requested [
      | none ↦ ok OrderCancellation.admin_cancelled
      | some type ↦ if staff_cancellation_types type then ok type else err bad_request
    ]

abbrev pub lift : {A : Type 0} → Result A → Action World A
lift r w = (r, w)

-- What the checks hand to the transaction.
pub record CancelPlan : Type 0 where
  pub order_id : ℕ
  pub status : StatusOrders
  pub cancellation_type : OrderCancellation
  pub rule_fee : ℤ
  pub past_cancellation_deadline : Bool

abbrev pub live_reservations : ℕ → World → List Reservation
live_reservations order_id w =
    select
      (λ (r : Reservation).
        r.order_id == order_id && live_reservation_statuses r.reservation_status)
      w.reservations

-- The checks on the order that was read; they give the type of the cancellation.
unfoldable pub check_cancel :
    AuthenticatedUser → TransportOrder → Option OrderCancellation → Action World OrderCancellation
check_cancel user current requested = do
  assert_can_read_order user current.customer_id
  throw_if (same_status current.status StatusOrders.cancelled) domain_rule_violation
  lift (assert_status_transition user current.status StatusOrders.cancelled)
  throw_if (not (is_staff user) && not (customer_cancellable_statuses current.status))
      domain_rule_violation
  lift (cancellation_type_for user requested)

abbrev pub plan_of : ℕ → TransportOrder → OrderCancellation → World → CancelPlan
plan_of id current type w = record {
  order_id = id;
  status = current.status;
  cancellation_type = type;
  rule_fee = if is_customer_cancelled type then cancellation_fee_for current w else pos 0;
  past_cancellation_deadline = is_past_cancellation_deadline (live_reservations id w) w.now;
}

-- From the read of the order to the transaction.
unfoldable pub plan_cancel :
    AuthenticatedUser → ℕ → Option OrderCancellation → Action World CancelPlan
plan_cancel user id requested = do
  current ← or_throw (← gets (order_of id)) resource_not_found
  type ← check_cancel user current requested
  gets (plan_of id current type)

abbrev pub settlement_input : CancelPlan → SettlementInput
settlement_input plan = record {
  order_id = plan.order_id;
  status = plan.status;
  cancellation_type = some plan.cancellation_type;
  rule_fee = plan.rule_fee;
  past_cancellation_deadline = plan.past_cancellation_deadline;
}

-- The rows that record the cancellation.
abbrev pub record_cancellation : ℕ → CancelPlan → Settlement → World → World
record_cancellation user_id plan settlement w =
    let w₁ = record w {
      cancellations =
          record {
            order_id = plan.order_id;
            cancelled_by = user_id;
            cancellation_type = plan.cancellation_type;
            fee_applied = ltb 0 settlement.fee_amount;
            fee_amount = settlement.fee_amount;
            refund_amount = settlement.refund_amount;
          }
          ∷ w.cancellations;
      audits = Audit.order_soft_deleted plan.order_id ∷ w.audits;
    } in
    add_event plan.order_id EventType.cancelled user_id w₁

abbrev pub is_current : CancelPlan → TransportOrder → Bool
is_current plan o = o.id == plan.order_id && same_status o.status plan.status

abbrev pub set_status : StatusOrders → TransportOrder → TransportOrder
set_status s o = record o { status = s }

-- The writes of the transaction, once the compare-and-set has moved the order.
unfoldable pub apply_cancel : ℕ → CancelPlan → World → List ℕ × World
apply_cancel user_id plan w =
    let w₁ = record w {
      orders = update_where (is_current plan) (set_status StatusOrders.cancelled) w.orders;
    } in
    let (driver_ids, w₂) = release_order_drivers plan.order_id w₁ in
    let w₃ = close_order_reservations plan.order_id w₂ in
    let (settlement, w₄) = settle_closed_order_payments (settlement_input plan) w₃ in
    (driver_ids, record_cancellation user_id plan settlement w₄)

unfoldable pub commit_cancel : ℕ → CancelPlan → Action World (List ℕ)
commit_cancel user_id plan = transaction (do
  moved ← gets (λ w. count_where (is_current plan) w.orders)
  throw_if (not (moved == 1)) resource_conflict
  driver_ids ← gets (λ w. (apply_cancel user_id plan w).0)
  modify (λ w. (apply_cancel user_id plan w).1)
  pure driver_ids)

-- What follows the transaction.
unfoldable pub announce_cancel : CancelPlan → List ℕ → World → World
announce_cancel plan driver_ids w =
    let w₁ = cancel_open_offers plan.order_id w in
    let w₂ =
      emit (Emit.order_status_changed plan.order_id StatusOrders.cancelled plan.status driver_ids)
        w₁ in
    let w₃ = revoke_order_rooms driver_ids plan.order_id w₂ in
    emit (Emit.customer_notified plan.order_id) (emit (Emit.operators_notified plan.order_id) w₃)

-- `OrdersService.cancel`
unfoldable pub cancel :
    AuthenticatedUser → ℕ → Option OrderCancellation → Action World TransportOrder
cancel user id requested = do
  plan ← plan_cancel user id requested
  driver_ids ← commit_cancel user.id plan
  modify (announce_cancel plan driver_ids)
  or_throw (← gets (order_of id)) resource_not_found
