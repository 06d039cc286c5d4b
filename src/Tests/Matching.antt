-- ===== src/Tests/Matching.antt =====
-- Runs of the matching: matching.service.ts.
use transport_api.Common.{
  All, List, [], false, none, refl, some, suc, true, ℕ, ◌*◌, ◌+◌, ◌∷◌, ◌≡◌, ◌≤◌,
}
use transport_api.Common.Action.{Result, ok}
use transport_api.Matching.{
  MatchingEnv, driver_verdict, filter_eligible, profile_exclusion, route_ok, search_rings,
  vehicle_verdict,
}
use transport_api.Matching.Eligible.{
  IsOfferable, matching_service-LeavesOut, matching_service-RanksPool, rank_for_order-IsOfferable,
}
use transport_api.Matching.Ordered.{IsRanked, rank_drivers-IsRanked}
use transport_api.Matching.Ranking.{
  compare_ranked, matching_service, number_from, preselect, rank_drivers, rank_for_order,
  score_drivers,
}
use transport_api.Offers.{
  Dispatch, MatchingResult, RankedCandidate, announce_new_offer, is_waiting_for_offer,
  notify_driver, offer_best, offer_next, open_offer, schedule_expiry, set_waiting_status,
}
use transport_api.Offers.Cascade.{automatic_offers, drivers_left, serve_steps-offers_end}
use transport_api.Offers.Requests.{serve_steps}
use transport_api.Orders.Closing.{contains}
use transport_api.Tests.Data.{accepted_order}
use transport_api.Tests.Offers.{afternoon, at_start, automatic, due_world, first_offer}

-- Two drivers in the pickup's cell, one of them twice as far; the matrix answers for both.
abbrev town : MatchingEnv
town = record {
  presence_enabled = true;
  has_coordinates = λ order_id. true;
  max_rings = 2;
  min_candidates = 2;
  max_matrix_origins = 5;
  members_of_ring = λ order_id ring. record { fresh = 16 ∷ 6 ∷ []; stale = [] };
  presence_of = λ driver_id. some (record { vehicle_id = none; is_fresh = true });
  documents_of = λ vehicle_id. [];
  straight_line = λ order_id driver_id. driver_id * 100;
  matrix = λ order_id ids. some (λ index. route_ok (300 * suc index));
  score = λ driver_id eta. 5000;
}

abbrev ranking_of : List ℕ → Result MatchingResult
ranking_of skip = rank_for_order town 1 skip due_world

abbrev both_ranked : MatchingResult
both_ranked = record {
  candidates =
      record { rank = 1; driver_id = 6; vehicle_id = 30; eta_is_ok = true }
      ∷ record { rank = 2; driver_id = 16; vehicle_id = 31; eta_is_ok = true }
      ∷ [];
  presence_disabled = false;
}

ranked_run : ranking_of [] ≡ ok both_ranked
unfolding rank_for_order rank_drivers search_rings filter_eligible driver_verdict profile_exclusion
    vehicle_verdict preselect score_drivers compare_ranked number_from
ranked_run = refl

rank_for_order-IsOfferable_example :
    All (λ (c : RankedCandidate). IsOfferable due_world [] c.driver_id) both_ranked.candidates
rank_for_order-IsOfferable_example =
    rank_for_order-IsOfferable town 1 [] due_world both_ranked ranked_run

rank_drivers-IsRanked_example : IsRanked (rank_drivers town due_world accepted_order [])
rank_drivers-IsRanked_example = rank_drivers-IsRanked town due_world accepted_order []

-- The offers on top of this matching.
abbrev after_offer : Dispatch
after_offer = (offer_next automatic (matching_service town) 1 at_start).1

town_offers : (offer_next automatic (matching_service town) 1 at_start).0 ≡ ok (some first_offer)
unfolding offer_next offer_best open_offer announce_new_offer schedule_expiry is_waiting_for_offer
    set_waiting_status notify_driver rank_for_order rank_drivers search_rings filter_eligible
    driver_verdict profile_exclusion vehicle_verdict preselect score_drivers compare_ranked
    number_from
town_offers = refl

-- Nobody else is in the pickup's cells.
two_here :
    (order_id ring : ℕ)
    → All (λ id. contains id (6 ∷ 16 ∷ []) ≡ true) (town.members_of_ring order_id ring).fresh
two_here order_id ring = (refl, (refl, tt))

serve_steps-offers_end_example :
    automatic_offers 1
      (serve_steps automatic (matching_service town) true afternoon at_start).world.offers
    ≤ automatic_offers 1 at_start.world.offers + drivers_left 1 at_start.world.offers (6 ∷ 16 ∷ [])
serve_steps-offers_end_example =
    serve_steps-offers_end automatic (matching_service town) true (6 ∷ 16 ∷ []) 1 afternoon at_start
      (matching_service-LeavesOut town) (matching_service-RanksPool town (6 ∷ 16 ∷ []) two_here)
