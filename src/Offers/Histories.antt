-- ===== src/Offers/Histories.antt =====
-- src/modules/operations/offers/offers.service.ts and offer.processor.ts: the requests, the jobs and
-- the cascades of a dispatch, in any order, against the machine.
use transport_api.Assignments.{create}
use transport_api.Common.{All, Bool, List, Option, Option-cases, [], arith, refl, ℕ, ◌∷◌, ◌≡◌}
use transport_api.Common.Action.{modify, pure, ◌>>◌}
use transport_api.Common.Respects.{bind-Respects, writing-Respects}
use transport_api.Offers.{Dispatch, DispatchConfig, Matching, MatchingResult, insert_offer}
use transport_api.Offers.Checks.{
  MovesOffers, keeps-MovesOffers, offers_frame, reads-MovesOffers, still,
}
use transport_api.Offers.Machine.{Moves, and_then, idle, recorded}
use transport_api.Offers.Machine.Traces.{HasOneHolder, Moves-HasOneHolder, Moves-Traced, Traced}
use transport_api.Offers.Manual.{
  ManualAssignInput, assign_pick, check_pick, find_candidate, manual_assign, manual_offer_for,
  ranking_for_manual_pick, supersede, vehicle_for,
}
use transport_api.Offers.Openings.{offer_next-Moves}
use transport_api.Offers.Operations.{
  accept_offer-MovesOffers, expire-Moves, ranking_for_manual_pick-MovesOffers, reject_offer-Moves,
  supersede-Moves,
}
use transport_api.Offers.Passes.{on_order_dispatchable-Moves, sweep-Moves}
use transport_api.Offers.Requests.{
  DispatchStep, cascade_runs, driver_accepts, driver_rejects, offer_expires, operator_assigns,
  order_paid, run_cascade, serve_step, serve_steps, sweep_runs, tick, wake_runs,
}
use transport_api.Offers.Steps.{MovesDispatch, create-KeepsOffers}
use transport_api.World.{AuthenticatedUser, OrderAssignment}

check_pick-MovesOffers :
    {m : Matching} (c : DispatchConfig) (input : ManualAssignInput) (r : Option MatchingResult)
    → MovesOffers m (check_pick c input r)
unfolding check_pick
check_pick-MovesOffers c input r =
    reads-MovesOffers (check_pick c input r)
      (λ w. ground (arith, Option-cases (vehicle_for input (find_candidate input.driver_id r))))

assign_pick-MovesOffers :
    {m : Matching} (user : AuthenticatedUser) (order_id driver_id vehicle_id : ℕ)
    → MovesOffers m (assign_pick user order_id driver_id vehicle_id)
unfolding assign_pick
assign_pick-MovesOffers {m} user order_id driver_id vehicle_id =
    writing-Respects (offers_frame m) (supersede order_id) _ (supersede-Moves order_id) (λ _.
      bind-Respects (offers_frame m) (create user order_id driver_id vehicle_id) _
        (keeps-MovesOffers (create user order_id driver_id vehicle_id)
          (create-KeepsOffers user order_id driver_id vehicle_id))
        (λ a. finish a))
  where
    finish :
        (a : OrderAssignment)
        → MovesOffers m (
            modify
              (λ w. insert_offer (manual_offer_for user.id order_id driver_id vehicle_id a.id w) w)
            >> pure a)
    finish a = record {
      holds = λ w.
          recorded (manual_offer_for user.id order_id driver_id vehicle_id a.id w)
            (refl, refl, refl, (w.now, refl), (user.id, refl), (a.id, refl));
    }

manual_assign-MovesOffers :
    (c : DispatchConfig) (m : Matching) (user : AuthenticatedUser) (order_id : ℕ)
    (input : ManualAssignInput)
    → MovesOffers m (manual_assign c m user order_id input)
unfolding manual_assign
manual_assign-MovesOffers c m user order_id input =
    bind-Respects (offers_frame m) (ranking_for_manual_pick m order_id) _
      (ranking_for_manual_pick-MovesOffers m order_id)
      (λ r.
        bind-Respects (offers_frame m) (check_pick c input r) _ (check_pick-MovesOffers c input r)
          (λ vehicle_id. assign_pick-MovesOffers user order_id input.driver_id vehicle_id))

run_cascade-Moves :
    (c : DispatchConfig) (m : Matching) (waiting : List ℕ) (d : Dispatch)
    → d.cascades ≡ waiting
    → MovesDispatch m d (run_cascade c m d)
unfolding run_cascade
run_cascade-Moves c m [] d e = still (ground arith)
run_cascade-Moves c m (order_id ∷ rest) d e =
    and_then (offer_next-Moves c m order_id (record d { cascades = rest })) (still (ground arith))

serve_step-Moves :
    (c : DispatchConfig) (m : Matching) (on : Bool) (s : DispatchStep) (d : Dispatch)
    → MovesDispatch m d (serve_step c m on s d)
unfolding serve_step
serve_step-Moves c m on (driver_accepts user id) d =
    (accept_offer-MovesOffers on user id).holds d.world
serve_step-Moves c m on (driver_rejects user id) d = reject_offer-Moves user id d
serve_step-Moves c m on (operator_assigns user id input) d =
    (manual_assign-MovesOffers c m user id input).holds d.world
serve_step-Moves c m on (offer_expires id) d = expire-Moves id d.world.now d
serve_step-Moves c m on (order_paid id) d = on_order_dispatchable-Moves c m id d
serve_step-Moves c m on sweep_runs d = sweep-Moves c m d.world.now d
serve_step-Moves c m on wake_runs d = still (ground arith)
serve_step-Moves c m on cascade_runs d = run_cascade-Moves c m d.cascades d refl
serve_step-Moves c m on (tick ms) d = idle

-- The dispatch refines the machine: whatever drivers, operators, payments, jobs and cascades do, and
-- in whatever order, the table of the offers goes by the machine's moves alone. A move answers the
-- offer of one id while it is pending, which writes its status, the instant and the user only,
-- accepts it only before its deadline and lets it expire only from then on; or it writes the
-- assignment of one id; or it adds a fresh automatic offer, of an order that has no offer pending and
-- to the best candidate of a ranking that left out everyone who had one; or it adds an operator's
-- pick, accepted and with its assignment.
pub serve_steps-refines :
    (c : DispatchConfig) (m : Matching) (on : Bool) (ss : List DispatchStep) (d : Dispatch)
    → Moves m d.world.offers (serve_steps c m on ss d).world.offers
unfolding serve_steps
serve_steps-refines c m on [] d = idle
serve_steps-refines c m on (s ∷ ss) d =
    and_then (serve_step-Moves c m on s d) (serve_steps-refines c m on ss (serve_step c m on s d))

-- Whatever reaches the dispatch, no order comes to have two pending offers, given that none had.
pub serve_steps-HasOneHolder :
    (c : DispatchConfig) (m : Matching) (on : Bool) (ss : List DispatchStep) (d : Dispatch)
    → HasOneHolder d.world.offers
    → HasOneHolder (serve_steps c m on ss d).world.offers
serve_steps-HasOneHolder c m on ss d = Moves-HasOneHolder (serve_steps-refines c m on ss d)

-- Whatever reaches the dispatch, every offer of the table is still there afterwards, for the same
-- order and the same driver, and its status has changed only if the offer was pending; then it is
-- pending no more.
pub serve_steps-answers_once :
    (c : DispatchConfig) (m : Matching) (on : Bool) (ss : List DispatchStep) (d : Dispatch)
    → All (λ o. Traced o (serve_steps c m on ss d).world.offers) d.world.offers
serve_steps-answers_once c m on ss d = Moves-Traced (serve_steps-refines c m on ss d)
