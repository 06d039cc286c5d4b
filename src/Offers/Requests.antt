-- ===== src/Offers/Requests.antt =====
-- src/modules/operations/offers/offers.service.ts and offer.processor.ts: the requests, the jobs and the
-- cascades that reach a dispatch.
use transport_api.Common.{Bool, List, [], ℕ, ◌+◌, ◌∷◌}
use transport_api.Offers.{Dispatch, DispatchConfig, Matching, in_world, offer_next, on_world}
use transport_api.Offers.Answers.{accept_offer, expire, reject_offer}
use transport_api.Offers.Manual.{ManualAssignInput, manual_assign}
use transport_api.Offers.Sweep.{on_order_dispatchable, sweep, wake_sweep}
use transport_api.World.{AuthenticatedUser}

-- What reaches the dispatch. A cascade that was started runs later, at any time; `tick` is the time
-- that passes in between.
pub data DispatchStep : Type 0 where
  driver_accepts driver_rejects : AuthenticatedUser → ℕ → DispatchStep
  operator_assigns : AuthenticatedUser → ℕ → ManualAssignInput → DispatchStep
  offer_expires order_paid : ℕ → DispatchStep
  sweep_runs wake_runs cascade_runs : DispatchStep
  tick : ℕ → DispatchStep

-- The first cascade that waits.
unfoldable pub run_cascade : DispatchConfig → Matching → Dispatch → Dispatch
run_cascade c m d = elim d.cascades [
  | [] ↦ d
  | order_id ∷ rest ↦ (offer_next c m order_id (record d { cascades = rest })).1
]

unfoldable pub serve_step : DispatchConfig → Matching → Bool → DispatchStep → Dispatch → Dispatch
serve_step c m on (driver_accepts user id) d = (in_world (accept_offer on user id) d).1
serve_step c m on (driver_rejects user id) d = (reject_offer user id d).1
serve_step c m on (operator_assigns user id input) d =
    (in_world (manual_assign c m user id input) d).1
serve_step c m on (offer_expires id) d = (expire id d.world.now d).1
serve_step c m on (order_paid id) d = on_order_dispatchable c m id d
serve_step c m on sweep_runs d = sweep c m d.world.now d
serve_step c m on wake_runs d = wake_sweep c d
serve_step c m on cascade_runs d = run_cascade c m d
serve_step c m on (tick ms) d = on_world (λ w. record w { now = w.now + ms }) d

unfoldable pub serve_steps :
    DispatchConfig → Matching → Bool → List DispatchStep → Dispatch → Dispatch
serve_steps c m on [] d = d
serve_steps c m on (s ∷ ss) d = serve_steps c m on ss (serve_step c m on s d)
