-- ===== src/Matching/Ranking.antt =====
-- src/modules/operations/matching/matching.service.ts, `rankForOrder`, and scoring.ts, `compareRanked`:
-- from the eligible drivers to the ranking.
use transport_api.Common.{
  Bool, List, Option, [], if◌then◌else◌, is_none, leb, map, none, not, some, suc, ℕ, ◌+◌, ◌==◌, ◌∷◌,
}
use transport_api.Common.Action.{Result, bad_request, err, ok, resource_not_found}
use transport_api.Common.Int.{lt_ℤ, neg_part, negsuc, pos, pos_part, sub_ℕ, ℤ}
use transport_api.Common.Sorting.{sort}
use transport_api.Matching.{
  EligibleDriver, MatchingEnv, MatrixElement, route_failed, route_not_found, route_ok, search_rings,
}
use transport_api.Offers.{Matching, MatchingResult, RankedCandidate}
use transport_api.Offers.Sweep.{take}
use transport_api.World.{TransportOrder, World, order_of}

abbrev pub is_nearer : EligibleDriver → EligibleDriver → Bool
is_nearer a b = leb a.straight_line_meters b.straight_line_meters

-- `Rankable`, with the candidate that it ranks.
pub record ScoredDriver : Type 0 where
  pub driver : EligibleDriver
  pub eta_seconds : Option ℕ
  pub score : ℕ

abbrev pub is_zero : ℤ → Bool
is_zero n = pos_part n + neg_part n == 0

-- The tie-breakers: the score, the estimate, then the straight line.
abbrev pub straight_line_of : ScoredDriver → ℕ
straight_line_of s = s.driver.straight_line_meters

abbrev pub compare_eta : Option ℕ → Option ℕ → ℤ
compare_eta (some a) (some b) = sub_ℕ a b
compare_eta _ _ = pos 0

abbrev pub compare_scores : ScoredDriver → ScoredDriver → ℤ → ℤ
compare_scores a b by_eta =
    if not (a.score == b.score)
    then sub_ℕ b.score a.score
    else (if is_zero by_eta then sub_ℕ (straight_line_of a) (straight_line_of b) else by_eta)

-- `compareRanked`
unfoldable pub compare_ranked : ScoredDriver → ScoredDriver → ℤ
compare_ranked a b =
    if is_none a.eta_seconds
    then (if is_none b.eta_seconds then compare_scores a b (pos 0) else pos 1)
    else (if is_none b.eta_seconds
        then negsuc 0
        else compare_scores a b (compare_eta a.eta_seconds b.eta_seconds))

abbrev pub ranks_first : ScoredDriver → ScoredDriver → Bool
ranks_first a b = not (lt_ℤ (pos 0) (compare_ranked a b))

-- What the matrix says of the driver at an index; without a matrix every estimate has failed.
abbrev pub element_at : Option (ℕ → MatrixElement) → ℕ → MatrixElement
element_at none index = route_failed
element_at (some elements) index = elements index

abbrev pub scored : MatchingEnv → EligibleDriver → Option ℕ → ScoredDriver
scored env e eta = record { driver = e; eta_seconds = eta; score = env.score e.driver_id eta }

-- A driver without a road to the pickup is left out.
unfoldable pub score_drivers :
    MatchingEnv → Option (ℕ → MatrixElement) → ℕ → List EligibleDriver → List ScoredDriver
score_drivers env matrix index [] = []
score_drivers env matrix index (e ∷ es) =
    let rest = score_drivers env matrix (suc index) es in
    elim (element_at matrix index) [
      | route_ok seconds ↦ scored env e (some seconds) ∷ rest
      | route_not_found ↦ rest
      | route_failed ↦ scored env e none ∷ rest
    ]

unfoldable pub preselect : MatchingEnv → List EligibleDriver → List EligibleDriver
preselect env eligible = take env.max_matrix_origins (sort is_nearer eligible)

abbrev pub ids_of : List EligibleDriver → List ℕ
ids_of es = map (λ (e : EligibleDriver). e.driver_id) es

-- The drivers of the ranking, the best one first.
unfoldable pub rank_drivers : MatchingEnv → World → TransportOrder → List ℕ → List ScoredDriver
rank_drivers env w o skip =
    let eligible = search_rings env w o.id o.vehicle_category_id skip (suc env.max_rings) 0 [] [] in
    let preselected = preselect env eligible in
    sort ranks_first (score_drivers env (env.matrix o.id (ids_of preselected)) 0 preselected)

abbrev pub is_some_eta : Option ℕ → Bool
is_some_eta eta = not (is_none eta)

-- `rank = index + 1`
unfoldable pub number_from : ℕ → List ScoredDriver → List RankedCandidate
number_from index [] = []
number_from index (s ∷ ss) =
    record {
      rank = suc index;
      driver_id = s.driver.driver_id;
      vehicle_id = s.driver.vehicle_id;
      eta_is_ok = is_some_eta s.eta_seconds;
    }
    ∷ number_from (suc index) ss

-- `rankForOrder`
unfoldable pub rank_for_order : MatchingEnv → ℕ → List ℕ → World → Result MatchingResult
rank_for_order env order_id skip w = elim (order_of order_id w) [
  | none ↦ err resource_not_found
  | some o ↦
      if not (env.has_coordinates order_id)
      then err bad_request
      else ok (record {
        candidates = if env.presence_enabled then number_from 0 (rank_drivers env w o skip) else [];
        presence_disabled = not env.presence_enabled;
      })
]

-- The service, for the offers.
abbrev pub matching_service : MatchingEnv → Matching
matching_service env = record { rank_for_order = rank_for_order env }
