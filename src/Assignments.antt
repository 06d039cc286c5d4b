-- ===== src/Assignments.antt =====
-- src/modules/operations/assignments/assignments.service.ts: how drivers get, accept, decline and
-- finish orders.
pub mod Decisions
pub mod Exclusive
pub mod Requests
pub mod Histories
pub mod Ownership
use transport_api.Common.{
  Bool, Option, [], any, count_where, false, find_first, leb, none, not, some, suc, true,
  update_where, ℕ, ◌&&◌, ◌==◌, ◌∷◌,
}
use transport_api.Common.Action.{
  Action, bad_request, forbidden, gets, modify, or_throw, pure, resource_conflict,
  resource_not_found, throw_if, transaction, ◌>>=◌, ◌>>◌,
}
use transport_api.Domain.{
  AssignmentStatus, EventType, PaymentStatus, StatusDriver, StatusOrders, StatusVehicle,
  VerificationStatus,
}
use transport_api.Orders.Cancel.{set_status}
use transport_api.Orders.Closing.{
  active_assignment_statuses, active_driver_order_statuses, holds_order,
}
use transport_api.World.{
  AuthenticatedUser, DriverProfile, Emit, OrderAssignment, TransportOrder, Vehicle, World,
  add_event, emit, order_of,
}

-- `DISPATCH_WAITING_STATUSES`
abbrev pub dispatch_waiting_statuses : StatusOrders → Bool
dispatch_waiting_statuses StatusOrders.requested = true
dispatch_waiting_statuses StatusOrders.assigning_driver = true
dispatch_waiting_statuses _ = false

-- `DISPATCHABLE_PAYMENT_STATUSES`
abbrev pub dispatchable_payment_statuses : PaymentStatus → Bool
dispatchable_payment_statuses PaymentStatus.paid = true
dispatchable_payment_statuses PaymentStatus.authorized = true
dispatchable_payment_statuses _ = false

abbrev pub is_available : StatusDriver → Bool
is_available StatusDriver.available = true
is_available _ = false

abbrev pub is_approved : VerificationStatus → Bool
is_approved VerificationStatus.approved = true
is_approved _ = false

abbrev pub is_active_vehicle : StatusVehicle → Bool
is_active_vehicle StatusVehicle.active = true
is_active_vehicle _ = false

-- `assertDriverReady`
unfoldable pub assert_driver_ready : DriverProfile → Action World (Unit {0})
assert_driver_ready d = do
  throw_if (not (is_approved d.verification_status)) forbidden
  throw_if (not (is_available d.availability_status)) resource_conflict
  now ← gets (λ w. w.now)
  throw_if (leb d.license_expiration now) bad_request

-- `assertDriverHasNoActiveTrip`
abbrev pub assert_driver_has_no_active_trip : ℕ → Action World (Unit {0})
assert_driver_has_no_active_trip driver_id w =
    throw_if
      (any
        (λ (a : OrderAssignment).
          a.driver_id == driver_id
          && active_assignment_statuses a.assignment_status
          && any
              (λ (o : TransportOrder). o.id == a.order_id && active_driver_order_statuses o.status)
              w.orders)
        w.assignments)
      resource_conflict w

-- `assertVehicleCanTakeOrder`
abbrev pub assert_vehicle_can_take_order : ℕ → ℕ → ℕ → Action World (Unit {0})
assert_vehicle_can_take_order vehicle_id driver_id category_id = do
  vehicle ←
      or_throw
        (← gets (λ w.
          find_first (λ (v : Vehicle). v.id == vehicle_id && v.driver_id == driver_id) w.vehicles))
        resource_not_found
  throw_if (not (is_active_vehicle vehicle.status)) forbidden
  throw_if (not (vehicle.category_id == category_id)) bad_request

abbrev pub driver_by_id : ℕ → World → Option DriverProfile
driver_by_id id w = find_first (λ (d : DriverProfile). d.id == id) w.drivers

abbrev pub driver_of_user : ℕ → World → Option DriverProfile
driver_of_user user_id w = find_first (λ (d : DriverProfile). d.user_id == user_id) w.drivers

abbrev pub assignment_of : ℕ → World → Option OrderAssignment
assignment_of id w = find_first (λ (a : OrderAssignment). a.id == id) w.assignments

-- `assertDriverVehicleCanTakeOrder`
unfoldable pub assert_driver_vehicle_can_take_order : ℕ → ℕ → ℕ → Action World (Unit {0})
assert_driver_vehicle_can_take_order driver_id vehicle_id category_id = do
  driver ← or_throw (← gets (driver_by_id driver_id)) resource_not_found
  assert_driver_ready driver
  assert_driver_has_no_active_trip driver.id
  assert_vehicle_can_take_order vehicle_id driver.id category_id

-- An order that waits for a driver, is paid for, and has no live assignment.
abbrev pub is_claimable : ℕ → World → TransportOrder → Bool
is_claimable id w o =
    o.id == id
    && dispatch_waiting_statuses o.status
    && dispatchable_payment_statuses o.payment_status
    && not (any (holds_order o.id) w.assignments)

-- The compare-and-set on the order, then the one on the driver.
unfoldable pub claim_row : ℕ → StatusOrders → Action World (Unit {0})
claim_row id next = do
  claimed ← gets (λ w. count_where (is_claimable id w) w.orders)
  throw_if (not (claimed == 1)) resource_conflict
  modify (λ w. record w { orders = update_where (is_claimable id w) (set_status next) w.orders })

abbrev pub is_free_driver : ℕ → DriverProfile → Bool
is_free_driver id d = d.id == id && is_available d.availability_status

abbrev pub set_availability : StatusDriver → DriverProfile → DriverProfile
set_availability s d = record d { availability_status = s }

unfoldable pub claim_driver : ℕ → Action World (Unit {0})
claim_driver id = do
  claimed ← gets (λ w. count_where (is_free_driver id) w.drivers)
  throw_if (not (claimed == 1)) resource_conflict
  modify (λ w. record w {
    drivers = update_where (is_free_driver id) (set_availability StatusDriver.busy) w.drivers;
  })

unfoldable pub insert_assignment : OrderAssignment → World → World
insert_assignment a w = record w { next_id = suc w.next_id; assignments = a ∷ w.assignments }

abbrev pub is_dispatchable : TransportOrder → Bool
is_dispatchable o =
    dispatch_waiting_statuses o.status && dispatchable_payment_statuses o.payment_status

-- `announceOrderStatus`
abbrev pub announce_order_status : ℕ → StatusOrders → StatusOrders → ℕ → World → World
announce_order_status order_id status previous driver_id w =
    emit (Emit.customer_notified order_id)
      (emit (Emit.order_status_changed order_id status previous (driver_id ∷ [])) w)

-- The assignment that an operator gives to a driver.
abbrev pub pending_assignment : ℕ → ℕ → ℕ → ℕ → World → OrderAssignment
pending_assignment user_id order_id driver_id vehicle_id w = record {
  id = w.next_id;
  order_id = order_id;
  driver_id = driver_id;
  vehicle_id = vehicle_id;
  assigned_by = some user_id;
  assignment_status = AssignmentStatus.pending;
  accepted_at = none;
  rejected_at = none;
}

unfoldable pub write_assignment : ℕ → ℕ → ℕ → ℕ → Action World OrderAssignment
write_assignment user_id order_id driver_id vehicle_id = do
  claim_row order_id StatusOrders.assigned
  claim_driver driver_id
  created ← gets (pending_assignment user_id order_id driver_id vehicle_id)
  modify (insert_assignment created)
  modify (add_event order_id EventType.assigned user_id)
  pure created

abbrev pub announce_assignment : OrderAssignment → World → World
announce_assignment a w =
    emit (Emit.assignment_created a.id)
      (emit (Emit.driver_notified a.driver_id) (emit (Emit.presence_removed a.driver_id) w))

-- `AssignmentsService.create`
unfoldable pub create : AuthenticatedUser → ℕ → ℕ → ℕ → Action World OrderAssignment
create user order_id driver_id vehicle_id = do
  order ← or_throw (← gets (order_of order_id)) resource_not_found
  throw_if (not (is_dispatchable order)) forbidden
  assert_driver_vehicle_can_take_order driver_id vehicle_id order.vehicle_category_id
  assignment ← transaction (write_assignment user.id order_id driver_id vehicle_id)
  modify (announce_assignment assignment)
  modify (announce_order_status order_id StatusOrders.assigned order.status driver_id)
  pure assignment

-- The assignment that a driver takes.
abbrev pub accepted_assignment : ℕ → ℕ → ℕ → World → OrderAssignment
accepted_assignment order_id driver_id vehicle_id w = record {
  id = w.next_id;
  order_id = order_id;
  driver_id = driver_id;
  vehicle_id = vehicle_id;
  assigned_by = none;
  assignment_status = AssignmentStatus.accepted;
  accepted_at = some w.now;
  rejected_at = none;
}

-- `ClaimHooks`: what the offers run inside the transaction of the claim.
pub record ClaimHooks : Type 0 where
  pub via_offer : Bool
  pub before_claim : Action World (Unit {0})
  pub after_claim : OrderAssignment → Action World (Unit {0})

-- `hooks = {}`
abbrev pub no_hooks : ClaimHooks
no_hooks = record { via_offer = false; before_claim = pure tt; after_claim = λ _. pure tt }

unfoldable pub write_claim : ClaimHooks → ℕ → ℕ → ℕ → ℕ → Action World OrderAssignment
write_claim hooks user_id order_id driver_id vehicle_id = do
  hooks.before_claim
  claim_row order_id StatusOrders.accepted
  claim_driver driver_id
  created ← gets (accepted_assignment order_id driver_id vehicle_id)
  modify (insert_assignment created)
  modify (add_event order_id EventType.accepted user_id)
  hooks.after_claim created
  pure created

-- The checks of `claimOrder` on the driver, the order and the vehicle; they give the driver.
unfoldable pub check_vehicle : DriverProfile → TransportOrder → ℕ → Action World ℕ
check_vehicle driver order vehicle_id = do
  throw_if (not (is_dispatchable order)) forbidden
  assert_driver_has_no_active_trip driver.id
  assert_vehicle_can_take_order vehicle_id driver.id order.vehicle_category_id
  pure driver.id

unfoldable pub check_driver : DriverProfile → ℕ → ℕ → Action World ℕ
check_driver driver order_id vehicle_id = do
  assert_driver_ready driver
  order ← or_throw (← gets (order_of order_id)) resource_not_found
  check_vehicle driver order vehicle_id

unfoldable pub check_claim : Bool → Bool → AuthenticatedUser → ℕ → ℕ → Action World ℕ
check_claim self_dispatch_enabled via_offer user order_id vehicle_id = do
  throw_if (not via_offer && not self_dispatch_enabled) forbidden
  driver ← or_throw (← gets (driver_of_user user.id)) resource_not_found
  check_driver driver order_id vehicle_id

-- `claimOrder`; the announcement says REQUESTED whatever the order's status was.
unfoldable pub claim_order :
    Bool → ClaimHooks → AuthenticatedUser → ℕ → ℕ → Action World OrderAssignment
claim_order self_dispatch_enabled hooks user order_id vehicle_id = do
  driver_id ← check_claim self_dispatch_enabled hooks.via_offer user order_id vehicle_id
  assignment ← transaction (write_claim hooks user.id order_id driver_id vehicle_id)
  modify (emit (Emit.presence_removed driver_id))
  modify (emit (Emit.assignment_created assignment.id))
  modify (announce_order_status order_id StatusOrders.accepted StatusOrders.requested driver_id)
  pure assignment
