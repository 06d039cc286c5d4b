-- ===== src/Tests/Offers.antt =====
-- Runs of the dispatch: offers.service.ts.
use transport_api.Assignments.{
  assert_driver_ready, assert_driver_vehicle_can_take_order, check_claim, check_driver,
  check_vehicle, claim_driver, claim_order, claim_row, create, insert_assignment, write_assignment,
  write_claim,
}
use transport_api.Common.{
  All, List, [], any, arith, false, find_first, none, not, refl, select, some, true, ℕ, ◌&&◌, ◌∷◌,
  ◌≡◌,
}
use transport_api.Common.Action.{ok}
use transport_api.Domain.{
  AssignmentStatus, OfferMode, OfferStatus, StatusDriver, StatusOrders, StatusVehicle,
  VerificationStatus,
}
use transport_api.Offers.{
  Dispatch, DispatchConfig, Matching, RankedCandidate, is_pending_for, set_waiting_status,
}
use transport_api.Offers.Acceptance.{IsTaken, accept_offer-takes}
use transport_api.Offers.Answers.{
  accept_offer, can_accept, driver_of, find_own_offer, move_offer, offer_of, take_offer,
}
use transport_api.Offers.Histories.{
  serve_steps-HasOneHolder, serve_steps-answers_once, serve_steps-refines,
}
use transport_api.Offers.Machine.{Moves}
use transport_api.Offers.Machine.Traces.{HasOneHolder, Traced}
use transport_api.Offers.Manual.{
  ManualAssignInput, assign_pick, cancel_pending_offers, check_pick, manual_assign,
  ranking_for_manual_pick, supersede, write_cancel,
}
use transport_api.Offers.Picks.{IsAuditOf, manual_assign-supersedes}
use transport_api.Offers.Requests.{DispatchStep, serve_steps}
use transport_api.Offers.Resting.{sweep-rests}
use transport_api.Offers.Sweep.{
  cancel_stale, dispatch_if_auto, dispatch_waiting, expire_due, expire_each, is_waiting_now,
  next_schedule, offer_each, plan_next_wake, requeue_stuck, settle_sweep, sweep, sweep_passes,
}
use transport_api.Orders.Closing.{contains, is_pending_offer}
use transport_api.Tests.Data.{accepted_order, busy_world, clerk, courier}
use transport_api.World.{DriverOffer, DriverProfile, OrderAssignment, World}

abbrev ranked : ℕ → ℕ → ℕ → RankedCandidate
ranked rank driver_id vehicle_id = record {
  rank = rank;
  driver_id = driver_id;
  vehicle_id = vehicle_id;
  eta_is_ok = true;
}

abbrev near : List RankedCandidate
near = ranked 1 6 30 ∷ ranked 2 16 31 ∷ []

-- A matching service with two drivers near every pickup.
abbrev two_near : Matching
two_near = record {
  rank_for_order = λ order_id ids w. ok (record {
    candidates = select (λ (c : RankedCandidate). not (contains c.driver_id ids)) near;
    presence_disabled = false;
  });
}

abbrev pub automatic : DispatchConfig
automatic = record {
  auto_offer = true;
  has_redis = true;
  has_queue = true;
  offer_ttl_sec = 30;
  retry_cooldown_sec = 60;
  manual_enforce = true;
}

abbrev free_courier : ℕ → ℕ → DriverProfile
free_courier id user_id = record {
  id = id;
  user_id = user_id;
  availability_status = StatusDriver.available;
  verification_status = VerificationStatus.approved;
  license_expiration = 9000;
}

-- A paid order that is due, two free drivers, and no offer yet.
abbrev pub due_world : World
due_world = record busy_world {
  drivers = free_courier 6 8 ∷ free_courier 16 18 ∷ [];
  vehicles =
      record { id = 30; driver_id = 6; status = StatusVehicle.active; category_id = 4 }
      ∷ record { id = 31; driver_id = 16; status = StatusVehicle.active; category_id = 4 }
      ∷ [];
  orders = record accepted_order { status = StatusOrders.requested } ∷ [];
  assignments = [];
  offers = [];
}

abbrev pub at_start : Dispatch
at_start = record {
  world = due_world;
  armed = true;
  cooldowns = [];
  expire_jobs = [];
  wake_jobs = [];
  cascades = [];
  statuses = [];
}

-- The payment starts the first offer; its driver declines, and the cascade goes on.
abbrev pub afternoon : List DispatchStep
afternoon =
    DispatchStep.order_paid 1
    ∷ DispatchStep.sweep_runs
    ∷ DispatchStep.driver_rejects courier 100
    ∷ DispatchStep.cascade_runs
    ∷ DispatchStep.tick 500
    ∷ DispatchStep.offer_expires 101
    ∷ []

abbrev evening : Dispatch
evening = serve_steps automatic two_near true afternoon at_start

serve_steps-refines_example : Moves two_near [] evening.world.offers
serve_steps-refines_example = serve_steps-refines automatic two_near true afternoon at_start

serve_steps-HasOneHolder_example : HasOneHolder evening.world.offers
serve_steps-HasOneHolder_example =
    serve_steps-HasOneHolder automatic two_near true afternoon at_start (λ k. omega arith)

abbrev pub first_offer : DriverOffer
first_offer = record {
  id = 100;
  order_id = 1;
  driver_id = 6;
  vehicle_id = 30;
  mode = OfferMode.auto;
  status = OfferStatus.pending;
  expires_at = some 30500;
  responded_at = none;
  actor_user_id = none;
  assignment_id = none;
}

abbrev offered_world : World
offered_world = record due_world {
  orders = record accepted_order { status = StatusOrders.assigning_driver } ∷ [];
  offers = first_offer ∷ [];
}

serve_steps-answers_once_example :
    All
      (λ o.
        Traced o
          (serve_steps automatic two_near true
            (DispatchStep.driver_rejects courier 100 ∷ [])
            (record at_start { world = offered_world })).world.offers)
      (first_offer ∷ [])
serve_steps-answers_once_example =
    serve_steps-answers_once automatic two_near true (DispatchStep.driver_rejects courier 100 ∷ [])
      (record at_start { world = offered_world })

abbrev after_take : World
after_take = (accept_offer true courier 100 offered_world).1

abbrev taken_by_offer : OrderAssignment
taken_by_offer = record {
  id = 100;
  order_id = 1;
  driver_id = 6;
  vehicle_id = 30;
  assigned_by = none;
  assignment_status = AssignmentStatus.accepted;
  accepted_at = some 500;
  rejected_at = none;
}

offer_taken : accept_offer true courier 100 offered_world ≡ (ok taken_by_offer, after_take)
unfolding accept_offer find_own_offer claim_order check_claim check_driver check_vehicle
    assert_driver_ready write_claim take_offer move_offer claim_row claim_driver insert_assignment
offer_taken = refl

accept_offer-takes_example :
    (o : DriverOffer) × (o' : DriverOffer) × (d : DriverProfile) × (offer_of 100 offered_world
      ≡ some o)
    × (driver_of courier offered_world ≡ some d)
    × (o.driver_id ≡ d.id)
    × (can_accept 500 100 o.driver_id o ≡ true)
    × (offer_of 100 after_take ≡ some o')
    × IsTaken 8 taken_by_offer o o'
accept_offer-takes_example =
    accept_offer-takes true courier 100 offered_world after_take taken_by_offer (tt, tt) offer_taken

-- The operator gives the order to the second driver, with a reason.
abbrev pick : ManualAssignInput
pick = record { driver_id = 16; vehicle_id = none; has_reason = true }

abbrev after_pick : World
after_pick = (manual_assign automatic two_near clerk 1 pick offered_world).1

abbrev picked_assignment : OrderAssignment
picked_assignment = record {
  id = 100;
  order_id = 1;
  driver_id = 16;
  vehicle_id = 31;
  assigned_by = some 9;
  assignment_status = AssignmentStatus.pending;
  accepted_at = none;
  rejected_at = none;
}

picked_run :
    manual_assign automatic two_near clerk 1 pick offered_world ≡ (ok picked_assignment, after_pick)
unfolding manual_assign ranking_for_manual_pick check_pick assign_pick supersede
    cancel_pending_offers write_cancel set_waiting_status create
    assert_driver_vehicle_can_take_order assert_driver_ready write_assignment claim_row claim_driver
    insert_assignment
picked_run = refl

manual_assign-supersedes_example :
    (any (is_pending_for 1) after_pick.offers ≡ false)
    × ((o : DriverOffer) × (find_first (λ _. true) after_pick.offers ≡ some o)
        × IsAuditOf 1 16 picked_assignment o)
manual_assign-supersedes_example =
    manual_assign-supersedes automatic two_near clerk 1 pick offered_world after_pick
      picked_assignment picked_run

-- The order is taken, so the sweep has nothing to do.
abbrev quiet : Dispatch
quiet = record at_start { world = record due_world { orders = accepted_order ∷ [] } }

abbrev after_sweep : Dispatch
after_sweep = sweep automatic two_near 500 quiet

sweep_stops : after_sweep.armed ≡ false
unfolding sweep sweep_passes settle_sweep plan_next_wake next_schedule expire_due expire_each
    cancel_stale cancel_pending_offers dispatch_if_auto dispatch_waiting requeue_stuck offer_each
sweep_stops = refl

sweep-rests_example :
    (any (λ (o : DriverOffer). is_pending_offer o.status) after_sweep.world.offers ≡ false)
    × ((true && any (is_waiting_now 500 after_sweep.world) after_sweep.world.orders) ≡ false)
sweep-rests_example = sweep-rests automatic two_near 500 quiet refl sweep_stops
