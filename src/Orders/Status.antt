-- ===== src/Orders/Status.antt =====
-- orders.service.ts: `updateStatus`, and `confirmByCustomer`. A request checks what it read, writes
-- in one transaction, and then announces.
pub mod Writes
pub mod Evidence
pub mod Repeat
pub mod Confirm
pub mod Over
pub mod Delivered
use transport_api.Common.{
  Bool, List, Option, [], false, find_first, if◌then◌else◌, ltb, none, not, some, true,
  update_where, ℕ, ◌&&◌, ◌++◌, ◌==◌, ◌∷◌,
}
use transport_api.Common.Action.{
  Action, bad_request, gets, modify, or_throw, pure, resource_not_found, throw_if, ◌>>=◌, ◌>>◌,
}
use transport_api.Common.Int.{pos}
use transport_api.Domain.{
  AssignmentStatus, EventType, OrderCancellation, PaymentStatus, QuoteStatus, StatusDriver,
  StatusOrders,
}
use transport_api.Orders.Access.{
  assert_delivery_evidence_ready, assert_driver_can_access_order, assert_driver_holds_order,
  get_customer_profile,
}
use transport_api.Orders.Cancel.{cancel, lift}
use transport_api.Orders.Closing.{
  active_driver_ids, cancel_open_offers, close_order_reservations, driver_release_statuses,
  holds_order, release_order_drivers, revoke_order_rooms,
}
use transport_api.Orders.Settlement.{SettlementInput, settle_closed_order_payments}
use transport_api.Orders.Transitions.{assert_status_transition, event_for_status}
use transport_api.World.{
  AuthenticatedUser, DriverProfile, Emit, OrderAssignment, PriceQuote, TransportOrder, World,
  add_event, emit, order_of,
}

abbrev pub is_pickup : StatusOrders → Bool
is_pickup StatusOrders.in_progress = true
is_pickup _ = false

abbrev pub is_delivered : StatusOrders → Bool
is_delivered StatusOrders.delivered = true
is_delivered _ = false

abbrev pub is_failed : StatusOrders → Bool
is_failed StatusOrders.failed = true
is_failed _ = false

abbrev pub is_cancelled : StatusOrders → Bool
is_cancelled StatusOrders.cancelled = true
is_cancelled _ = false

-- The columns that the new status writes on the order.
abbrev pub write_status : StatusOrders → ℕ → TransportOrder → TransportOrder
write_status next now o = record o {
  status = next;
  pickup_at = if is_pickup next then some now else o.pickup_at;
  delivered_at = if is_delivered next then some now else o.delivered_at;
}

abbrev pub move_order : ℕ → (TransportOrder → TransportOrder) → World → World
move_order id f w = record w {
  orders = update_where (λ (o : TransportOrder). o.id == id) f w.orders;
}

-- A delivery completes the newest live assignment and frees its driver.
unfoldable pub complete_assignment : ℕ → World → List ℕ × World
complete_assignment order_id w = elim (find_first (holds_order order_id) w.assignments) [
  | none ↦ ([], w)
  | some a ↦ (
    a.driver_id ∷ [],
    record w {
      assignments =
          update_where (λ (x : OrderAssignment). x.id == a.id)
            (λ x. record x { assignment_status = AssignmentStatus.completed }) w.assignments;
      drivers =
          update_where (λ (d : DriverProfile). d.id == a.driver_id)
            (λ d. record d { availability_status = StatusDriver.available }) w.drivers;
    },
  )
]

-- A failed trip is settled without a fee.
abbrev pub failed_trip : ℕ → StatusOrders → SettlementInput
failed_trip order_id status = record {
  order_id = order_id;
  status = status;
  cancellation_type = none;
  rule_fee = pos 0;
  past_cancellation_deadline = false;
}

-- The drivers whose assignment is closed, and those of them who are released.
pub record Written : Type 0 where
  pub closed_for : List ℕ
  pub released : List ℕ
  pub world : World

-- The transaction of `updateStatus`.
unfoldable pub write_update : ℕ → ℕ → StatusOrders → StatusOrders → World → Written
write_update user_id id current next w =
    let w₁ =
      add_event id (event_for_status next) user_id (move_order id (write_status next w.now) w) in
    let (completed, w₂) = if is_delivered next then complete_assignment id w₁ else ([], w₁) in
    let (released, w₃) =
      if driver_release_statuses next then release_order_drivers id w₂ else ([], w₂) in
    let w₄ =
      if is_failed next
      then (settle_closed_order_payments (failed_trip id current)
          (close_order_reservations id w₃)).1
      else w₃ in
    record { closed_for = completed ++ released; released = released; world = w₄ }

-- What follows the transaction.
unfoldable pub announce_update : ℕ → StatusOrders → StatusOrders → Written → World
announce_update id current next t =
    let w₁ = if driver_release_statuses next then cancel_open_offers id t.world else t.world in
    let told = active_driver_ids id t.world ++ t.closed_for in
    let w₂ = emit (Emit.order_status_changed id next current told) w₁ in
    let w₃ = revoke_order_rooms t.released id w₂ in
    emit (Emit.customer_notified id) (emit (Emit.operators_notified id) w₃)

-- The part of `updateStatus` behind the checks on the transition.
unfoldable pub continue_update :
    AuthenticatedUser → ℕ → StatusOrders → StatusOrders → Action World TransportOrder
continue_update user id current next = do
  assert_driver_holds_order user id
  if is_delivered next then assert_delivery_evidence_ready id else pure tt
  modify (λ w. announce_update id current next (write_update user.id id current next w))
  or_throw (← gets (order_of id)) resource_not_found

-- `OrdersService.updateStatus`; CANCELLED goes through `cancel`.
unfoldable pub update_status : AuthenticatedUser → ℕ → StatusOrders → Action World TransportOrder
update_status user id next = do
  order ← or_throw (← gets (order_of id)) resource_not_found
  assert_driver_can_access_order user id
  lift (assert_status_transition user order.status next)
  if is_cancelled next && not (is_cancelled order.status)
      then cancel user id (some OrderCancellation.admin_cancelled)
      else continue_update user id order.status next

-- `OrdersService.confirmByCustomer`
abbrev pub has_payable_amount : TransportOrder → Bool
has_payable_amount o = elim o.total_amount [ none ↦ false | some n ↦ ltb 0 n ]

abbrev is_awaiting_confirmation : StatusOrders → Bool
is_awaiting_confirmation StatusOrders.pending_customer_confirmation = true
is_awaiting_confirmation _ = false

abbrev accept_quote : Option ℕ → World → World
accept_quote none w = w
accept_quote (some quote_id) w = record w {
  quotes =
      update_where (λ (q : PriceQuote). q.id == quote_id)
        (λ q. record q { quote_status = QuoteStatus.accepted }) w.quotes;
}

unfoldable pub write_confirmation : ℕ → TransportOrder → World → World
write_confirmation user_id current w =
    let w₁ =
      move_order current.id
        (λ o. record o {
          status = StatusOrders.pending_payment;
          payment_status = PaymentStatus.pending;
        })
        w in
    add_event current.id EventType.accepted user_id (accept_quote current.quote_id w₁)

unfoldable pub confirm_by_customer : AuthenticatedUser → ℕ → Action World TransportOrder
confirm_by_customer user id = do
  customer ← get_customer_profile user.id
  current ←
      or_throw
        (← gets (λ w.
          find_first (λ (o : TransportOrder). o.id == id && o.customer_id == customer.id) w.orders))
        resource_not_found
  throw_if (not (is_awaiting_confirmation current.status)) bad_request
  throw_if (not (has_payable_amount current)) bad_request
  modify (write_confirmation user.id current)
  modify (λ w. emit (Emit.operators_notified id) (
      emit
        (Emit.order_status_changed id StatusOrders.pending_payment current.status
          (active_driver_ids id w))
        w))
  or_throw (← gets (order_of id)) resource_not_found
