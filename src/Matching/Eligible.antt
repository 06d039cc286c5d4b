-- ===== src/Matching/Eligible.antt =====
-- src/modules/operations/matching/matching.service.ts, `filterEligible`: the filters and the ranking.
use transport_api.Assignments.{driver_by_id, is_approved, is_available}
use transport_api.Common.{
  All, All-append, All-map, All-select, Bool, Bool-cases, List, Option-cases, [], arith, false,
  if◌then◌else◌, inl, inr, leb, length, none, not, refl, select, some, subst, suc, sym, true, zero,
  ℕ, ◌++◌, ◌∷◌, ◌≡◌,
}
use transport_api.Common.Action.{ok}
use transport_api.Common.Sorting.{sort}
use transport_api.Matching.{
  EligibleDriver, MatchingEnv, PresenceRecord, Verdict, add_verdict, driver_verdict, eligible_as,
  excluded_for, filter_eligible, fresh_presence, has_active_trip, has_open_offer,
  has_valid_documents, is_own_vehicle, preferred_vehicle, profile_exclusion, search_rings, unseen,
  vehicle_verdict,
}
use transport_api.Matching.Kept.{number_from-All, score_drivers-All, sort-All, take-All}
use transport_api.Matching.Ranking.{
  ScoredDriver, ids_of, is_nearer, matching_service, number_from, preselect, rank_drivers,
  rank_for_order, ranks_first, score_drivers,
}
use transport_api.Offers.{MatchingResult, RankedCandidate}
use transport_api.Offers.Cascade.{LeavesOut, RanksPool}
use transport_api.Offers.Sweep.{take}
use transport_api.Orders.Closing.{contains}
use transport_api.World.{DriverProfile, TransportOrder, World, order_of}

-- Approved, available, licensed, on no trip, and with no other offer open.
abbrev pub PassesFilters : World → DriverProfile → Type 0
PassesFilters w d =
    (is_approved d.verification_status ≡ true)
    × (is_available d.availability_status ≡ true)
    × (leb d.license_expiration w.now ≡ false)
    × (has_active_trip w d.id ≡ false)
    × (has_open_offer w d.id ≡ false)

-- A driver who may be offered an order now.
abbrev pub IsFree : World → ℕ → Type 0
IsFree w driver_id = (d : DriverProfile) × ((driver_by_id driver_id w ≡ some d) × PassesFilters w d)

profile_exclusion-PassesFilters :
    (w : World) (d : DriverProfile) → profile_exclusion w d ≡ none → PassesFilters w d
unfolding profile_exclusion
profile_exclusion-PassesFilters w d passed = ground arith

vehicle_verdict-driver :
    (env : MatchingEnv) (w : World) (order_id category : ℕ) (p : PresenceRecord) (id : ℕ)
    (e : EligibleDriver)
    → vehicle_verdict env w order_id category p id ≡ eligible_as e
    → e.driver_id ≡ id
unfolding vehicle_verdict
vehicle_verdict-driver env w order_id category p id e passed =
    let own = select (is_own_vehicle id category) w.vehicles in
    let valid = select (has_valid_documents env w.now) own in
    elim (Option-cases (preferred_vehicle p.vehicle_id valid)) [
      | inl no_vehicle ↦ absurd (ground arith)
      | inr (v, chosen) ↦ ground arith
    ]

driver_verdict-IsFree :
    (env : MatchingEnv) (w : World) (order_id category id : ℕ) (e : EligibleDriver)
    → driver_verdict env w order_id category id ≡ eligible_as e
    → (e.driver_id ≡ id) × IsFree w id
unfolding driver_verdict
driver_verdict-IsFree env w order_id category id e passed =
    elim (Option-cases (driver_by_id id w)) [
      | inl unknown_one ↦ absurd (ground arith)
      | inr (d, known) ↦ elim (Option-cases (profile_exclusion w d)) [
        | inr (reason, out) ↦ absurd (ground arith)
        | inl stays ↦ elim (Option-cases (fresh_presence (env.presence_of id))) [
          | inl gone ↦ absurd (ground arith)
          | inr (p, nearby) ↦ (
            vehicle_verdict-driver env w order_id category p id e (ground arith),
            (d, (known, profile_exclusion-PassesFilters w d stays)),
          )
        ]
      ]
    ]

-- What is shown of each eligible driver.
abbrev pub IsOfferable : World → List ℕ → ℕ → Type 0
IsOfferable w skip id = (contains id skip ≡ false) × IsFree w id

-- What is known of everyone who was asked, and of everyone who is eligible.
abbrev IsFit : (ℕ → Type 0) → World → ℕ → Type 0
IsFit Q w id = Q id × IsFree w id

abbrev Passed : (ℕ → Type 0) → World → EligibleDriver → Type 0
Passed Q w e = IsFit Q w e.driver_id

-- Everyone whom the rings of an order ask has the property.
abbrev AsksOnly : (ℕ → Type 0) → MatchingEnv → ℕ → List ℕ → Type 0
AsksOnly Q env order_id skip =
    (ring : ℕ) (seen : List ℕ)
    → All Q (
        select (λ id. not (contains id skip))
          (unseen seen (env.members_of_ring order_id ring).fresh))

add_verdict-All :
    (P : EligibleDriver → Type 0) (v : Verdict) (rest : List EligibleDriver)
    → ((e : EligibleDriver) → v ≡ eligible_as e → P e)
    → All P rest
    → All P (add_verdict v rest)
add_verdict-All P (excluded_for reason) rest h tail = tail
add_verdict-All P (eligible_as e) rest h tail = (h e refl, tail)

filter_eligible-Passed :
    (Q : ℕ → Type 0) (env : MatchingEnv) (w : World) (order_id category : ℕ) (ids : List ℕ)
    → All Q ids
    → All (Passed Q w) (filter_eligible env w order_id category ids)
unfolding filter_eligible
filter_eligible-Passed Q env w order_id category [] apart = tt
filter_eligible-Passed Q env w order_id category (id ∷ ids) apart =
    add_verdict-All (Passed Q w) (driver_verdict env w order_id category id)
      (filter_eligible env w order_id category ids)
      (λ e passed.
        let (at, free) = driver_verdict-IsFree env w order_id category id e passed in
        subst (IsFit Q w) (sym at) (apart.0, free))
      (filter_eligible-Passed Q env w order_id category ids apart.1)

not_skipped :
    (skip ids : List ℕ)
    → All (λ id. contains id skip ≡ false) (select (λ id. not (contains id skip)) ids)
not_skipped skip [] = tt
not_skipped skip (id ∷ ids) = elim (Bool-cases (contains id skip)) [
  | inl out ↦ subst (All (λ x. contains x skip ≡ false)) (ground arith) (not_skipped skip ids)
  | inr stays ↦
      subst (All (λ x. contains x skip ≡ false))
        (select_kept (λ x. not (contains x skip)) id ids (ground arith))
        (stays, not_skipped skip ids)
]
  where
    select_kept :
        (p : ℕ → Bool) (x : ℕ) (xs : List ℕ) → p x ≡ true → x ∷ select p xs ≡ select p (x ∷ xs)
    select_kept p x xs h = ground arith

search_rings-Passed :
    (Q : ℕ → Type 0) (env : MatchingEnv) (w : World) (order_id category : ℕ) (skip : List ℕ)
    (left ring : ℕ) (seen : List ℕ) (eligible : List EligibleDriver)
    → AsksOnly Q env order_id skip
    → All (Passed Q w) eligible
    → All (Passed Q w) (search_rings env w order_id category skip left ring seen eligible)
unfolding search_rings
search_rings-Passed Q env w order_id category skip zero ring seen eligible asks so_far = so_far
search_rings-Passed Q env w order_id category skip (suc left) ring seen eligible asks so_far =
    let members = env.members_of_ring order_id ring in
    let fresh = unseen seen members.fresh in
    let stale = unseen seen members.stale in
    let asked = select (λ id. not (contains id skip)) fresh in
    let found = eligible ++ filter_eligible env w order_id category asked in
    let all_found : All (Passed Q w) found =
      All-append (Passed Q w) eligible (filter_eligible env w order_id category asked) so_far
        (filter_eligible-Passed Q env w order_id category asked (asks ring seen)) in
    go (leb env.min_candidates (length found)) found
      (search_rings env w order_id category skip left (suc ring) (seen ++ fresh ++ stale) found)
      all_found
      (search_rings-Passed Q env w order_id category skip left (suc ring) (seen ++ fresh ++ stale)
        found asks all_found)
  where
    go :
        (b : Bool) (xs ys : List EligibleDriver)
        → All (Passed Q w) xs
        → All (Passed Q w) ys
        → All (Passed Q w) (if b then xs else ys)
    go true xs ys h k = h
    go false xs ys h k = k

rank_drivers-Passed :
    (Q : ℕ → Type 0) (env : MatchingEnv) (w : World) (o : TransportOrder) (skip : List ℕ)
    → AsksOnly Q env o.id skip
    → All (λ (s : ScoredDriver). Passed Q w s.driver) (rank_drivers env w o skip)
unfolding rank_drivers preselect
rank_drivers-Passed Q env w o skip asks =
    let eligible = search_rings env w o.id o.vehicle_category_id skip (suc env.max_rings) 0 [] [] in
    let sorted = sort is_nearer eligible in
    let chosen = take env.max_matrix_origins sorted in
    sort-All (λ (s : ScoredDriver). Passed Q w s.driver) ranks_first
      (score_drivers env (env.matrix o.id (ids_of chosen)) 0 chosen)
      (score_drivers-All (Passed Q w) env (env.matrix o.id (ids_of chosen)) 0 chosen (
        take-All (Passed Q w) is_nearer env.max_matrix_origins sorted (
          sort-All (Passed Q w) is_nearer eligible (
            search_rings-Passed Q env w o.id o.vehicle_category_id skip (suc env.max_rings) 0 [] []
              asks tt))))

-- Every candidate was asked and is free.
rank_for_order-Passed :
    (Q : ℕ → Type 0) (env : MatchingEnv) (order_id : ℕ) (skip : List ℕ) (w : World)
    (r : MatchingResult)
    → ((id : ℕ) → AsksOnly Q env id skip)
    → rank_for_order env order_id skip w ≡ ok r
    → All (λ (c : RankedCandidate). IsFit Q w c.driver_id) r.candidates
unfolding rank_for_order
rank_for_order-Passed Q env order_id skip w r asks ranked =
    elim (Option-cases (order_of order_id w)) [
      | inl missing ↦ absurd (ground arith)
      | inr (o, found) ↦
          let numbered = number_from 0 (rank_drivers env w o skip) in
          let table : r.candidates ≡ (if env.presence_enabled then numbered else []) =
            ground arith in
          subst (All (λ (c : RankedCandidate). IsFit Q w c.driver_id)) (sym table) (
            go env.presence_enabled numbered (
              number_from-All (IsFit Q w) 0 (rank_drivers env w o skip)
                (rank_drivers-Passed Q env w o skip (asks o.id))))
    ]
  where
    go :
        (b : Bool) (xs : List RankedCandidate)
        → All (λ (c : RankedCandidate). IsFit Q w c.driver_id) xs
        → All (λ (c : RankedCandidate). IsFit Q w c.driver_id) (if b then xs else [])
    go true xs t = t
    go false xs t = tt

-- Every candidate of a ranking was not left out by the caller and is a driver who is approved,
-- available, licensed, on no trip and without another open offer.
pub rank_for_order-IsOfferable :
    (env : MatchingEnv) (order_id : ℕ) (skip : List ℕ) (w : World) (r : MatchingResult)
    → rank_for_order env order_id skip w ≡ ok r
    → All (λ (c : RankedCandidate). IsOfferable w skip c.driver_id) r.candidates
rank_for_order-IsOfferable env order_id skip w r ranked =
    rank_for_order-Passed (λ id. contains id skip ≡ false) env order_id skip w r
      (λ id ring seen. not_skipped skip (unseen seen (env.members_of_ring id ring).fresh)) ranked

-- The service ranks drivers of a pool only, if the presence store holds no others.
pub matching_service-RanksPool :
    (env : MatchingEnv) (pool : List ℕ)
    → ((order_id ring : ℕ)
        → All (λ id. contains id pool ≡ true) (env.members_of_ring order_id ring).fresh)
    → RanksPool (matching_service env) pool
matching_service-RanksPool env pool members order_id ids w r ranked =
    All-map (λ (c : RankedCandidate). IsFit (λ id. contains id pool ≡ true) w c.driver_id)
      (λ (c : RankedCandidate). contains c.driver_id pool ≡ true) r.candidates (λ c h. h.0)
      (rank_for_order-Passed (λ id. contains id pool ≡ true) env order_id ids w r
        (λ id ring seen.
          All-kept (λ x. not (contains x ids)) (unseen seen (env.members_of_ring id ring).fresh)
            (All-kept (λ x. not (contains x seen)) (env.members_of_ring id ring).fresh
              (members id ring)))
        ranked)
  where
    All-kept :
        (p : ℕ → Bool) (xs : List ℕ)
        → All (λ id. contains id pool ≡ true) xs
        → All (λ id. contains id pool ≡ true) (select p xs)
    All-kept p xs =
        All-select (λ id. contains id pool ≡ true) (λ id. contains id pool ≡ true) p xs (λ x h _. h)

-- The matching service leaves out whom it is told to, as the offers expect of it.
pub matching_service-LeavesOut : (env : MatchingEnv) → LeavesOut (matching_service env)
matching_service-LeavesOut env order_id ids w r ranked =
    All-map (λ (c : RankedCandidate). IsOfferable w ids c.driver_id)
      (λ (c : RankedCandidate). contains c.driver_id ids ≡ false) r.candidates (λ c h. h.0)
      (rank_for_order-IsOfferable env order_id ids w r ranked)
