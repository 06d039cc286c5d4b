-- ===== src/Offers/Checks.antt =====
-- src/modules/operations/offers/offers.service.ts and assignments.service.ts: what the checks and the claims
-- of an assignment leave alone.
use transport_api.Assignments.{
  assert_driver_has_no_active_trip, assert_driver_ready, assert_vehicle_can_take_order, check_claim,
  check_driver, check_vehicle, claim_driver, claim_row, driver_of_user, is_active_vehicle,
  is_dispatchable,
}
use transport_api.Assignments.Requests.{assert_driver_ready-reads}
use transport_api.Common.{
  Bool, List, ap, arith, find_first, not, refl, subst, sym, ℕ, ◌&&◌, ◌==◌, ◌∙◌, ◌≡◌,
}
use transport_api.Common.Action.{Action, bad_request, forbidden, resource_not_found}
use transport_api.Common.Respects.{
  Respects, StateFrame, bind-Respects, given-Respects, guarded-Respects, guarded_last-Respects,
  reading-Respects, returning-Respects,
}
use transport_api.Domain.{StatusOrders}
use transport_api.Offers.{Matching}
use transport_api.Offers.Machine.{Moves, idle}
use transport_api.World.{
  AuthenticatedUser, DriverOffer, DriverProfile, TransportOrder, Vehicle, World, order_of,
}

abbrev pub offers_frame : Matching → StateFrame World
offers_frame matching = record {
  Rel = λ w w'. Moves matching w.offers w'.offers;
  reflexive = λ w. Moves.idle;
  transitive = λ u v w m n. Moves.and_then m n;
}

-- A handler that respects the machine.
abbrev pub MovesOffers : Matching → {A : Type 0} → Action World A → Type 0
MovesOffers matching = Respects (offers_frame matching)

-- An assignment that an operator makes leaves the offers alone.
abbrev pub same_offers : StateFrame World
same_offers = record {
  Rel = λ w w'. w'.offers ≡ w.offers;
  reflexive = λ w. refl;
  transitive = λ u v w e e'. e' ∙ e;
}

abbrev pub KeepsOffers : {A : Type 0} → Action World A → Type 0
KeepsOffers = Respects same_offers

pub still : {matching : Matching} {xs ys : List DriverOffer} → ys ≡ xs → Moves matching xs ys
still {matching} {xs} e = subst (Moves matching xs) (sym e) idle

pub keeps-MovesOffers :
    {matching : Matching} {A : Type 0} (m : Action World A) → KeepsOffers m → MovesOffers matching m
keeps-MovesOffers m keeps = record { holds = λ w. still (keeps.holds w) }

pub reads-MovesOffers :
    {matching : Matching} {A : Type 0} (m : Action World A)
    → ((w : World) → (m w).1.offers ≡ w.offers)
    → MovesOffers matching m
reads-MovesOffers m same = record { holds = λ w. still (same w) }

abbrev pub untouched : StateFrame World
untouched = record {
  Rel = λ w w'. w' ≡ w;
  reflexive = λ w. refl;
  transitive = λ u v w e e'. e' ∙ e;
}

-- The checks write nothing.
abbrev pub OnlyReads : {A : Type 0} → Action World A → Type 0
OnlyReads = Respects untouched

pub reading-MovesOffers :
    {matching : Matching} {A : Type 0} (m : Action World A) → OnlyReads m → MovesOffers matching m
reading-MovesOffers m reads = record {
  holds = λ w. still (ap (λ (v : World). v.offers) (reads.holds w));
}

pub assert_vehicle-OnlyReads :
    (vehicle_id driver_id category_id : ℕ)
    → OnlyReads (assert_vehicle_can_take_order vehicle_id driver_id category_id)
assert_vehicle-OnlyReads vehicle_id driver_id category_id =
    let owned = λ (v : Vehicle). v.id == vehicle_id && v.driver_id == driver_id in
    reading-Respects untouched (λ w. find_first owned w.vehicles) _
      (λ found. given-Respects untouched found resource_not_found _ (λ v.
        guarded-Respects untouched (not (is_active_vehicle v.status)) forbidden _
          (λ _. guarded_last-Respects untouched (not (v.category_id == category_id)) bad_request)))

pub check_vehicle-OnlyReads :
    (driver : DriverProfile) (o : TransportOrder) (vehicle_id : ℕ)
    → OnlyReads (check_vehicle driver o vehicle_id)
unfolding check_vehicle
check_vehicle-OnlyReads driver o vehicle_id =
    guarded-Respects untouched (not (is_dispatchable o)) forbidden _ (λ _.
      let rested = assert_driver_has_no_active_trip driver.id in
      bind-Respects untouched rested _ (record { holds = λ w. ground arith })
        (λ _.
          let owned = assert_vehicle_can_take_order vehicle_id driver.id o.vehicle_category_id in
          bind-Respects untouched owned _
            (assert_vehicle-OnlyReads vehicle_id driver.id o.vehicle_category_id)
            (λ _. returning-Respects untouched driver.id)))

pub check_driver-OnlyReads :
    (driver : DriverProfile) (order_id vehicle_id : ℕ)
    → OnlyReads (check_driver driver order_id vehicle_id)
unfolding check_driver
check_driver-OnlyReads driver order_id vehicle_id =
    let ready = assert_driver_ready driver in
    bind-Respects untouched ready _ (record { holds = assert_driver_ready-reads driver })
      (λ _. reading-Respects untouched (order_of order_id) _ (λ found.
        given-Respects untouched found resource_not_found _
          (λ o. check_vehicle-OnlyReads driver o vehicle_id)))

pub check_claim-OnlyReads :
    (on via_offer : Bool) (user : AuthenticatedUser) (order_id vehicle_id : ℕ)
    → OnlyReads (check_claim on via_offer user order_id vehicle_id)
unfolding check_claim
check_claim-OnlyReads on via_offer user order_id vehicle_id =
    guarded-Respects untouched (not via_offer && not on) forbidden _ (λ _.
      reading-Respects untouched (driver_of_user user.id) _ (λ found.
        given-Respects untouched found resource_not_found _
          (λ d. check_driver-OnlyReads d order_id vehicle_id)))

pub claim_row-KeepsOffers : (id : ℕ) (next : StatusOrders) → KeepsOffers (claim_row id next)
unfolding claim_row
claim_row-KeepsOffers id next = record { holds = λ w. ground arith }

pub claim_driver-KeepsOffers : (id : ℕ) → KeepsOffers (claim_driver id)
unfolding claim_driver
claim_driver-KeepsOffers id = record { holds = λ w. ground arith }
