-- ===== src/Orders/Views.antt =====
-- orders.service.ts, `findOne`, `findAvailableForDrivers`, `scopeAssignmentsForViewer` and `accept`: what a
-- driver is shown of an order, and the acceptance by the order's id.
pub mod Own
use transport_api.Assignments.{
  dispatchable_payment_statuses, driver_of_user, is_approved, is_available,
}
use transport_api.Assignments.Decisions.{accept}
use transport_api.Common.{
  Bool, List, Option, [], any, false, find_first, if◌then◌else◌, leb, map, none, not, select, some,
  true, ℕ, ◌&&◌, ◌==◌,
}
use transport_api.Common.Action.{
  Action, forbidden, gets, ok, or_throw, pure, resource_not_found, ◌>>=◌, ◌>>◌,
}
use transport_api.Domain.{AssignmentStatus, StatusOrders}
use transport_api.Matching.{has_active_trip, is_own_vehicle}
use transport_api.Orders.Access.{
  assert_can_read_order, assert_driver_can_access_order, driver_user_is,
}
use transport_api.Orders.Closing.{holds_order}
use transport_api.Orders.Roles.{is_driver_only}
use transport_api.World.{
  AuthenticatedUser, DriverProfile, OrderAssignment, TransportOrder, World, order_of,
}

-- An order with the assignments that `ORDER_INCLUDE` brings.
pub record OrderView : Type 0 where
  pub order : TransportOrder
  pub assignments : List OrderAssignment

abbrev pub view_of : World → TransportOrder → OrderView
view_of w o = record {
  order = o;
  assignments = select (λ (a : OrderAssignment). a.order_id == o.id) w.assignments;
}

-- `scopeAssignmentsForViewer`
abbrev pub scope_assignments_for_viewer : AuthenticatedUser → World → OrderView → OrderView
scope_assignments_for_viewer user w view = if not (is_driver_only user) then view else record view {
  assignments =
      select (λ (a : OrderAssignment). driver_user_is a.driver_id user.id w) view.assignments;
}

-- `findOne`, for an order that exists
unfoldable pub show_order : AuthenticatedUser → TransportOrder → Action World OrderView
show_order user o = do
  assert_can_read_order user o.customer_id
  assert_driver_can_access_order user o.id
  gets (λ w. scope_assignments_for_viewer user w (view_of w o))

unfoldable pub find_one : AuthenticatedUser → ℕ → Action World (Option OrderView)
find_one user id w = elim (order_of id w) [
  | none ↦ (ok none, w)
  | some o ↦ (show_order user o >>= λ view. pure (some view)) w
]

-- The orders of the job board, for a driver who may take one.
abbrev pub is_requested : StatusOrders → Bool
is_requested StatusOrders.requested = true
is_requested _ = false

abbrev pub is_on_board : World → ℕ → TransportOrder → Bool
is_on_board w driver_id o =
    is_requested o.status
    && dispatchable_payment_statuses o.payment_status
    && any (is_own_vehicle driver_id o.vehicle_category_id) w.vehicles
    && not (any (holds_order o.id) w.assignments)

abbrev pub is_ready_driver : World → DriverProfile → Bool
is_ready_driver w d =
    is_available d.availability_status
    && is_approved d.verification_status
    && not (leb d.license_expiration w.now)
    && not (has_active_trip w d.id)

-- `findAvailableForDrivers`
unfoldable pub find_available_for_drivers : Bool → AuthenticatedUser → World → List OrderView
find_available_for_drivers self_dispatch_enabled user w = elim (driver_of_user user.id w) [
  | none ↦ []
  | some d ↦
      let shown = select (is_on_board w d.id) w.orders in
      if self_dispatch_enabled && is_ready_driver w d
      then map (λ o. scope_assignments_for_viewer user w (view_of w o)) shown
      else []
]

abbrev pub is_pending_assignment : AssignmentStatus → Bool
is_pending_assignment AssignmentStatus.pending = true
is_pending_assignment _ = false

abbrev pub is_pending_of : ℕ → ℕ → OrderAssignment → Bool
is_pending_of order_id driver_id a =
    a.order_id == order_id && a.driver_id == driver_id && is_pending_assignment a.assignment_status

-- `OrdersService.accept`
unfoldable pub accept_order : AuthenticatedUser → ℕ → Action World OrderAssignment
accept_order user order_id = do
  driver ← or_throw (← gets (driver_of_user user.id)) resource_not_found
  assignment ←
      or_throw (← gets (λ w. find_first (is_pending_of order_id driver.id) w.assignments)) forbidden
  accept assignment.id user
