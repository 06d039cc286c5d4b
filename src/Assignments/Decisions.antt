-- ===== src/Assignments/Decisions.antt =====
-- src/modules/operations/assignments/assignments.service.ts: how drivers accept, decline and finish
-- the orders that they have.
use transport_api.Assignments.{
  announce_order_status, assignment_of, driver_of_user, set_availability,
}
use transport_api.Common.{
  Bool, count_where, if◌then◌else◌, none, not, some, true, update_where, ℕ, ◌&&◌, ◌==◌,
}
use transport_api.Common.Action.{
  Action, forbidden, gets, modify, or_throw, pure, resource_conflict, resource_not_found, throw_if,
  transaction, ◌>>=◌, ◌>>◌,
}
use transport_api.Domain.{
  AssignmentStatus, EventType, StatusDriver, StatusOrders, same_assignment, same_status,
}
use transport_api.Orders.Cancel.{set_status}
use transport_api.Orders.Closing.{is_busy}
use transport_api.Orders.Roles.{is_staff}
use transport_api.World.{
  AuthenticatedUser, DriverProfile, Emit, OrderAssignment, TransportOrder, World, add_event, emit,
}

-- `assertCanMutateAssignment`
unfoldable pub assert_can_mutate_assignment : ℕ → AuthenticatedUser → Action World (Unit {0})
assert_can_mutate_assignment id user = if is_staff user then pure tt else do
  driver ← gets (driver_of_user user.id)
  assignment ← or_throw (← gets (assignment_of id)) resource_not_found
  throw_if (elim driver [ none ↦ true | some d ↦ not (assignment.driver_id == d.id) ]) forbidden

-- `findPendingAssignment`
unfoldable pub find_pending_assignment : ℕ → Action World OrderAssignment
find_pending_assignment id = do
  assignment ← or_throw (← gets (assignment_of id)) resource_not_found
  throw_if (not (same_assignment assignment.assignment_status AssignmentStatus.pending))
      resource_conflict
  pure assignment

abbrev pub is_assignment_in : ℕ → AssignmentStatus → OrderAssignment → Bool
is_assignment_in id from a = a.id == id && same_assignment a.assignment_status from

-- `transition`
unfoldable pub transition :
    ℕ → AssignmentStatus → (OrderAssignment → OrderAssignment) → Action World (Unit {0})
transition id from set = do
  moved ← gets (λ w. count_where (is_assignment_in id from) w.assignments)
  exists ← gets (λ w. count_where (λ (a : OrderAssignment). a.id == id) w.assignments)
  throw_if (not (moved == 1)) (if exists == 0 then resource_not_found else resource_conflict)
  modify (λ w. record w { assignments = update_where (is_assignment_in id from) set w.assignments })

abbrev pub is_waiting_for_driver : ℕ → TransportOrder → Bool
is_waiting_for_driver id o = o.id == id && same_status o.status StatusOrders.assigned

abbrev pub move_assigned : ℕ → StatusOrders → World → World
move_assigned id next w = record w {
  orders = update_where (is_waiting_for_driver id) (set_status next) w.orders;
}

abbrev pub set_accepted : ℕ → OrderAssignment → OrderAssignment
set_accepted now a = record a {
  assignment_status = AssignmentStatus.accepted;
  accepted_at = some now;
}

abbrev pub set_rejected : ℕ → OrderAssignment → OrderAssignment
set_rejected now a = record a {
  assignment_status = AssignmentStatus.rejected;
  rejected_at = some now;
}

abbrev pub set_completed : OrderAssignment → OrderAssignment
set_completed a = record a { assignment_status = AssignmentStatus.completed }

abbrev pub free_driver : ℕ → World → World
free_driver id w = record w {
  drivers =
      update_where (λ (d : DriverProfile). d.id == id && is_busy d.availability_status)
        (set_availability StatusDriver.available) w.drivers;
}

unfoldable pub write_accept : ℕ → AuthenticatedUser → Action World OrderAssignment
write_accept id user = do
  assert_can_mutate_assignment id user
  pending ← find_pending_assignment id
  moved ← gets (λ w. count_where (is_waiting_for_driver pending.order_id) w.orders)
  throw_if (not (moved == 1)) resource_conflict
  modify (move_assigned pending.order_id StatusOrders.accepted)
  now ← gets (λ w. w.now)
  transition id AssignmentStatus.pending (set_accepted now)
  assignment ← or_throw (← gets (assignment_of id)) resource_not_found
  modify (add_event assignment.order_id EventType.accepted user.id)
  pure assignment

-- `AssignmentsService.accept`
unfoldable pub accept : ℕ → AuthenticatedUser → Action World OrderAssignment
accept id user = do
  a ← transaction (write_accept id user)
  modify (announce_order_status a.order_id StatusOrders.accepted StatusOrders.assigned a.driver_id)
  pure a

unfoldable pub write_reject : ℕ → AuthenticatedUser → Action World OrderAssignment
write_reject id user = do
  assert_can_mutate_assignment id user
  pending ← find_pending_assignment id
  modify (move_assigned pending.order_id StatusOrders.requested)
  now ← gets (λ w. w.now)
  transition id AssignmentStatus.pending (set_rejected now)
  assignment ← or_throw (← gets (assignment_of id)) resource_not_found
  modify (free_driver assignment.driver_id)
  modify (add_event assignment.order_id EventType.cancelled user.id)
  pure assignment

-- `AssignmentsService.reject`
unfoldable pub reject : ℕ → AuthenticatedUser → Action World OrderAssignment
reject id user = do
  a ← transaction (write_reject id user)
  modify (announce_order_status a.order_id StatusOrders.requested StatusOrders.assigned a.driver_id)
  modify (emit (Emit.order_room_revoked a.driver_id a.order_id))
  pure a

unfoldable pub write_complete : ℕ → Action World OrderAssignment
write_complete id = do
  transition id AssignmentStatus.accepted set_completed
  assignment ← or_throw (← gets (assignment_of id)) resource_not_found
  modify (free_driver assignment.driver_id)
  pure assignment

-- `AssignmentsService.complete`
unfoldable pub complete : ℕ → Action World OrderAssignment
complete id = transaction (write_complete id)
