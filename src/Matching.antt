-- ===== src/Matching.antt =====
-- src/modules/operations/matching/matching.service.ts and scoring.ts: which drivers near a pickup may be
-- offered an order, and in which order. Redis and Google are parameters, and so is the score, which
-- is computed in floating point; it is a whole number of ten thousandths here.
pub mod Ranking
pub mod Kept
pub mod Eligible
pub mod Ordered
use transport_api.Assignments.{driver_by_id, is_active_vehicle, is_approved, is_available}
use transport_api.Common.{
  Bool, List, Option, [], any, find_first, if◌then◌else◌, is_value, leb, length, ltb, none, not,
  select, some, suc, true, zero, ℕ, ◌&&◌, ◌++◌, ◌==◌, ◌||◌, ◌∷◌,
}
use transport_api.Offers.Answers.{expires_after}
use transport_api.Orders.Closing.{
  active_assignment_statuses, active_driver_order_statuses, contains, is_pending_offer,
}
use transport_api.World.{
  DriverOffer, DriverProfile, OrderAssignment, TransportOrder, Vehicle, World,
}

pub record VehicleDocument : Type 0 where
  pub is_required : Bool
  pub is_rejected : Bool
  pub expiration_date : ℕ

-- `PresenceRecord`, with `isFresh` already asked.
pub record PresenceRecord : Type 0 where
  pub vehicle_id : Option ℕ
  pub is_fresh : Bool

pub record CellMembers : Type 0 where
  pub fresh : List ℕ
  pub stale : List ℕ

-- An element of the route matrix, by its status.
pub data MatrixElement : Type 0 where
  route_ok : ℕ → MatrixElement
  route_not_found route_failed : MatrixElement

-- What the service reads beside the database: the pickup's coordinates (whether it has some), the
-- presence store by order and ring, the vehicles' documents, distances, the matrix and the score.
pub record MatchingEnv : Type 0 where
  pub presence_enabled : Bool
  pub has_coordinates : ℕ → Bool
  pub max_rings : ℕ
  pub min_candidates : ℕ
  pub max_matrix_origins : ℕ
  pub members_of_ring : ℕ → ℕ → CellMembers
  pub presence_of : ℕ → Option PresenceRecord
  pub documents_of : ℕ → List VehicleDocument
  pub straight_line : ℕ → ℕ → ℕ
  pub matrix : ℕ → List ℕ → Option (ℕ → MatrixElement)
  pub score : ℕ → Option ℕ → ℕ

-- `ExclusionReason`, as far as the filters give one
pub data ExclusionReason : Type 0 where
  driver_not_found not_approved not_available license_expired active_trip : ExclusionReason
  offer_pending_elsewhere position_stale no_active_vehicle_in_category : ExclusionReason
  vehicle_documents_invalid : ExclusionReason

pub record EligibleDriver : Type 0 where
  pub driver_id : ℕ
  pub vehicle_id : ℕ
  pub straight_line_meters : ℕ

-- What one round of `filterEligible` says of a driver.
pub data Verdict : Type 0 where
  excluded_for : ExclusionReason → Verdict
  eligible_as : EligibleDriver → Verdict

-- `busy`: the driver has a live assignment on an order that is under way.
abbrev pub has_active_trip : World → ℕ → Bool
has_active_trip w driver_id =
    any
      (λ (a : OrderAssignment).
        a.driver_id == driver_id
        && active_assignment_statuses a.assignment_status
        && any (λ (o : TransportOrder). o.id == a.order_id && active_driver_order_statuses o.status)
            w.orders)
      w.assignments

-- `offered`: the driver has an offer that is still open and in time.
abbrev pub has_open_offer : World → ℕ → Bool
has_open_offer w driver_id =
    any
      (λ (o : DriverOffer).
        o.driver_id == driver_id && is_pending_offer o.status && expires_after w.now o)
      w.offers

-- The filters on the driver's own row, in the code's order.
unfoldable pub profile_exclusion : World → DriverProfile → Option ExclusionReason
profile_exclusion w d =
    if not (is_approved d.verification_status)
    then some not_approved
    else (if not (is_available d.availability_status)
        then some not_available
        else (if leb d.license_expiration w.now
            then some license_expired
            else (if has_active_trip w d.id
                then some active_trip
                else (if has_open_offer w d.id then some offer_pending_elsewhere else none))))

abbrev pub is_document_valid : ℕ → VehicleDocument → Bool
is_document_valid now doc =
    not doc.is_required || (not doc.is_rejected && ltb now doc.expiration_date)

abbrev pub has_valid_documents : MatchingEnv → ℕ → Vehicle → Bool
has_valid_documents env now v =
    not (any (λ doc. not (is_document_valid now doc)) (env.documents_of v.id))

abbrev pub is_own_vehicle : ℕ → ℕ → Vehicle → Bool
is_own_vehicle driver_id category v =
    v.driver_id == driver_id && is_active_vehicle v.status && v.category_id == category

-- The vehicle that the app says it is driving, else the first of the valid ones.
abbrev pub preferred_vehicle : Option ℕ → List Vehicle → Option Vehicle
preferred_vehicle driving valid = elim (find_first (λ (v : Vehicle). is_value driving v.id) valid) [
  | some v ↦ some v
  | none ↦ find_first (λ _. true) valid
]

unfoldable pub vehicle_verdict : MatchingEnv → World → ℕ → ℕ → PresenceRecord → ℕ → Verdict
vehicle_verdict env w order_id category presence driver_id =
    let own = select (is_own_vehicle driver_id category) w.vehicles in
    let valid = select (has_valid_documents env w.now) own in
    elim (preferred_vehicle presence.vehicle_id valid) [
      | none ↦
          excluded_for (
            if any (λ _. true) own
            then vehicle_documents_invalid
            else no_active_vehicle_in_category)
      | some v ↦ eligible_as (record {
        driver_id = driver_id;
        vehicle_id = v.id;
        straight_line_meters = env.straight_line order_id driver_id;
      })
    ]

abbrev pub fresh_presence : Option PresenceRecord → Option PresenceRecord
fresh_presence none = none
fresh_presence (some p) = if p.is_fresh then some p else none

-- One round of `filterEligible`
unfoldable pub driver_verdict : MatchingEnv → World → ℕ → ℕ → ℕ → Verdict
driver_verdict env w order_id category driver_id = elim (driver_by_id driver_id w) [
  | none ↦ excluded_for driver_not_found
  | some d ↦ elim (profile_exclusion w d) [
    | some reason ↦ excluded_for reason
    | none ↦ elim (fresh_presence (env.presence_of driver_id)) [
      | none ↦ excluded_for position_stale
      | some p ↦ vehicle_verdict env w order_id category p driver_id
    ]
  ]
]

abbrev pub add_verdict : Verdict → List EligibleDriver → List EligibleDriver
add_verdict (excluded_for _) rest = rest
add_verdict (eligible_as e) rest = e ∷ rest

-- `filterEligible`
unfoldable pub filter_eligible : MatchingEnv → World → ℕ → ℕ → List ℕ → List EligibleDriver
filter_eligible env w order_id category [] = []
filter_eligible env w order_id category (id ∷ ids) =
    add_verdict (driver_verdict env w order_id category id)
      (filter_eligible env w order_id category ids)

abbrev pub unseen : List ℕ → List ℕ → List ℕ
unseen seen ids = select (λ id. not (contains id seen)) ids

-- The loop over the rings, on the rings that are left: it stops at enough eligible drivers.
unfoldable pub search_rings :
    MatchingEnv
    → World
    → ℕ
    → ℕ
    → List ℕ
    → ℕ
    → ℕ
    → List ℕ
    → List EligibleDriver
    → List EligibleDriver
search_rings env w order_id category skip zero ring seen eligible = eligible
search_rings env w order_id category skip (suc left) ring seen eligible =
    let members = env.members_of_ring order_id ring in
    let fresh = unseen seen members.fresh in
    let stale = unseen seen members.stale in
    let asked = select (λ id. not (contains id skip)) fresh in
    let found = eligible ++ filter_eligible env w order_id category asked in
    let further =
      search_rings env w order_id category skip left (suc ring) (seen ++ fresh ++ stale) found in
    if leb env.min_candidates (length found) then found else further
