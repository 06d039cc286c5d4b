-- ===== src/Offers/Manual.antt =====
-- src/modules/operations/offers/offers.service.ts: an operator picks the driver, whatever the
-- automatic offers were doing.
use transport_api.Assignments.{create}
use transport_api.Common.{
  Bool, List, Option, [], count_where, false, find_first, if◌then◌else◌, is_none, map, none, not,
  select, some, true, update_where, ℕ, ◌&&◌, ◌==◌, ◌∷◌,
}
use transport_api.Common.Action.{
  Action, bad_request, err, modify, ok, or_throw, pure, resource_conflict, resource_not_found,
  throw_if, ◌>>=◌, ◌>>◌,
}
use transport_api.Domain.{OfferMode, OfferStatus, StatusOrders}
use transport_api.Offers.{
  DispatchConfig, Matching, MatchingResult, RankedCandidate, announce, insert_offer, is_pending_for,
  set_waiting_status,
}
use transport_api.Orders.Closing.{is_pending_offer}
use transport_api.World.{AuthenticatedUser, DriverOffer, OrderAssignment, World}

-- `ManualAssignInput`; whether a reason is left once it is trimmed is all that is read of it.
pub record ManualAssignInput : Type 0 where
  pub driver_id : ℕ
  pub vehicle_id : Option ℕ
  pub has_reason : Bool

-- `rankingForManualPick`: only a missing order stops the operator.
unfoldable pub ranking_for_manual_pick : Matching → ℕ → Action World (Option MatchingResult)
ranking_for_manual_pick m order_id w = elim (m.rank_for_order order_id [] w) [
  | ok ranking ↦ (ok (some ranking), w)
  | err e ↦ elim e [ resource_not_found ↦ (err resource_not_found, w) | _ ↦ (ok none, w) ]
]

abbrev pub find_candidate : ℕ → Option MatchingResult → Option RankedCandidate
find_candidate driver_id none = none
find_candidate driver_id (some r) =
    find_first (λ (c : RankedCandidate). c.driver_id == driver_id) r.candidates

abbrev pub top_candidate : Option MatchingResult → Option RankedCandidate
top_candidate none = none
top_candidate (some r) = find_first (λ _. true) r.candidates

-- `enforce`: without a usable ranking the pick cannot be checked.
abbrev pub is_enforced : DispatchConfig → Option MatchingResult → Bool
is_enforced c none = false
is_enforced c (some r) = c.manual_enforce && not r.presence_disabled

abbrev pub is_someone_else : ℕ → Option RankedCandidate → Bool
is_someone_else driver_id none = false
is_someone_else driver_id (some top) = not (top.driver_id == driver_id)

abbrev pub vehicle_for : ManualAssignInput → Option RankedCandidate → Option ℕ
vehicle_for input candidate = elim input.vehicle_id [
  | some v ↦ some v
  | none ↦ elim candidate [ none ↦ none | some c ↦ some c.vehicle_id ]
]

-- The checks of `manualAssign`; they give the vehicle.
unfoldable pub check_pick :
    DispatchConfig → ManualAssignInput → Option MatchingResult → Action World ℕ
check_pick c input ranking = do
  let candidate = find_candidate input.driver_id ranking
  throw_if (is_none candidate && is_enforced c ranking) resource_conflict
  throw_if (is_someone_else input.driver_id (top_candidate ranking) && not input.has_reason)
      bad_request
  or_throw (vehicle_for input candidate) bad_request

abbrev pub set_cancelled : ℕ → DriverOffer → DriverOffer
set_cancelled now o = record o { status = OfferStatus.cancelled; responded_at = some now }

abbrev pub can_cancel : ℕ → DriverOffer → Bool
can_cancel id o = o.id == id && is_pending_offer o.status

unfoldable pub write_cancel : ℕ → World → World
write_cancel id w = record w {
  offers = update_where (can_cancel id) (set_cancelled w.now) w.offers;
}

-- `cancelPendingOffers`
unfoldable pub cancel_pending_offers : List DriverOffer → World → List DriverOffer × World
cancel_pending_offers [] w = ([], w)
cancel_pending_offers (o ∷ os) w =
    let updated = record o { status = OfferStatus.cancelled } in
    let w₁ = write_cancel o.id w in
    let moved = count_where (can_cancel o.id) w.offers == 1 in
    let (rest, w₂) = cancel_pending_offers os (if moved then announce updated w₁ else w₁) in
    (if moved then updated ∷ rest else rest, w₂)

-- The open offers of the order lose to the operator, and it waits in the queue again.
unfoldable pub supersede : ℕ → World → World
supersede order_id w =
    let (superseded, w₁) = cancel_pending_offers (select (is_pending_for order_id) w.offers) w in
    set_waiting_status order_id StatusOrders.assigning_driver StatusOrders.requested
      (map (λ (o : DriverOffer). o.driver_id) superseded) w₁

abbrev pub manual_offer_for : ℕ → ℕ → ℕ → ℕ → ℕ → World → DriverOffer
manual_offer_for user_id order_id driver_id vehicle_id assignment_id w = record {
  id = w.next_id;
  order_id = order_id;
  driver_id = driver_id;
  vehicle_id = vehicle_id;
  mode = OfferMode.manual;
  status = OfferStatus.accepted;
  expires_at = none;
  responded_at = some w.now;
  actor_user_id = some user_id;
  assignment_id = some assignment_id;
}

-- `manualAssign`, once the pick is allowed
unfoldable pub assign_pick : AuthenticatedUser → ℕ → ℕ → ℕ → Action World OrderAssignment
assign_pick user order_id driver_id vehicle_id = do
  modify (supersede order_id)
  assignment ← create user order_id driver_id vehicle_id
  modify
      (λ w. insert_offer (manual_offer_for user.id order_id driver_id vehicle_id assignment.id w) w)
  pure assignment

-- `manualAssign`
unfoldable pub manual_assign :
    DispatchConfig
    → Matching
    → AuthenticatedUser
    → ℕ
    → ManualAssignInput
    → Action World OrderAssignment
manual_assign c m user order_id input = do
  ranking ← ranking_for_manual_pick m order_id
  vehicle_id ← check_pick c input ranking
  assign_pick user order_id input.driver_id vehicle_id
