-- ===== src/Tests/Assignments.antt =====
-- Runs of the assignments: assignments.service.ts.
use transport_api.Assignments.{
  assert_driver_ready, assignment_of, check_claim, check_driver, check_vehicle, claim_driver,
  claim_order, claim_row, driver_of_user, insert_assignment, no_hooks, write_claim,
}
use transport_api.Assignments.Decisions.{
  accept, assert_can_mutate_assignment, find_pending_assignment, transition, write_accept,
}
use transport_api.Assignments.Exclusive.{IsExclusive}
use transport_api.Assignments.Histories.{
  AssignmentRequest, assign, claim, complete_it, serve_all, serve_all-IsExclusive,
}
use transport_api.Assignments.Ownership.{own_decisions}
use transport_api.Common.{List, [], arith, false, inl, none, refl, some, true, ◌∷◌, ◌≡◌}
use transport_api.Common.Action.{err, forbidden, ok}
use transport_api.Domain.{
  AssignmentStatus, StatusDriver, StatusOrders, StatusVehicle, VerificationStatus,
}
use transport_api.Tests.Data.{accepted_order, busy_world, clerk, courier}
use transport_api.World.{DriverProfile, OrderAssignment, World}

-- A paid order that waits for a driver, and a driver who is free.
abbrev waiting_world : World
waiting_world = record busy_world {
  drivers =
      record {
        id = 6;
        user_id = 8;
        availability_status = StatusDriver.available;
        verification_status = VerificationStatus.approved;
        license_expiration = 9000;
      }
      ∷ [];
  vehicles = record { id = 30; driver_id = 6; status = StatusVehicle.active; category_id = 4 } ∷ [];
  orders = record accepted_order { status = StatusOrders.requested } ∷ [];
  assignments = [];
}

abbrev taken : OrderAssignment
taken = record {
  id = 100;
  order_id = 1;
  driver_id = 6;
  vehicle_id = 30;
  assigned_by = none;
  assignment_status = AssignmentStatus.accepted;
  accepted_at = some 500;
  rejected_at = none;
}

claim_works : (claim_order true no_hooks courier 1 30 waiting_world).0 ≡ ok taken
unfolding claim_order check_claim check_driver check_vehicle assert_driver_ready write_claim
    claim_row claim_driver insert_assignment
claim_works = refl

self_dispatch_off : (claim_order false no_hooks courier 1 30 waiting_world).0 ≡ err forbidden
unfolding claim_order check_claim
self_dispatch_off = refl

abbrev morning : List AssignmentRequest
morning = claim courier 1 30 ∷ assign clerk 1 6 30 ∷ complete_it 100 ∷ claim courier 1 30 ∷ []

serve_all-IsExclusive_example : IsExclusive (serve_all true morning waiting_world).assignments
serve_all-IsExclusive_example =
    serve_all-IsExclusive true morning waiting_world (λ order_id. omega arith)

abbrev offered : OrderAssignment
offered = record taken { assignment_status = AssignmentStatus.pending; accepted_at = none }

abbrev assigned_world : World
assigned_world = record waiting_world {
  orders = record accepted_order { status = StatusOrders.assigned } ∷ [];
  assignments = offered ∷ [];
}

abbrev after_acceptance : World
after_acceptance = (accept 100 courier assigned_world).1

accepted_run : accept 100 courier assigned_world ≡ (ok taken, after_acceptance)
unfolding accept write_accept assert_can_mutate_assignment find_pending_assignment transition
accepted_run = refl

own_decisions_example :
    (d : DriverProfile) × (b : OrderAssignment) × (driver_of_user 8 assigned_world ≡ some d)
    × (assignment_of 100 assigned_world ≡ some b)
    × (b.driver_id ≡ d.id)
own_decisions_example =
    own_decisions 100 courier assigned_world after_acceptance taken refl (inl accepted_run)
