-- ===== src/Offers/Answers.antt =====
-- src/modules/operations/offers/offers.service.ts: what a driver answers to an offer, and the
-- expiry of one that nobody answered.
use transport_api.Assignments.{ClaimHooks, claim_order, driver_of_user}
use transport_api.Common.{
  Bool, List, Option, [], count_where, false, find_first, if◌then◌else◌, leb, ltb, none, not,
  select, some, true, update_where, ℕ, ◌&&◌, ◌++◌, ◌==◌, ◌∷◌,
}
use transport_api.Common.Action.{
  Action, err, gets, modify, ok, or_throw, pure, resource_conflict, resource_not_found, throw_if,
  ◌>>=◌, ◌>>◌,
}
use transport_api.Domain.{OfferStatus}
use transport_api.Offers.{Dispatch, announce, in_world, on_world}
use transport_api.Orders.Closing.{is_pending_offer}
use transport_api.World.{AuthenticatedUser, DriverOffer, DriverProfile, OrderAssignment, World}

abbrev pub offer_of : ℕ → World → Option DriverOffer
offer_of id w = find_first (λ (o : DriverOffer). o.id == id) w.offers

-- `expiresAt: { gt: now }` and `expiresAt: { lte: now }`; neither holds of an offer without one.
abbrev pub expires_after : ℕ → DriverOffer → Bool
expires_after now o = elim o.expires_at [ none ↦ false | some at ↦ ltb now at ]

abbrev pub is_due : ℕ → DriverOffer → Bool
is_due now o = elim o.expires_at [ none ↦ false | some at ↦ leb at now ]

-- `driverOf`
abbrev pub driver_of : AuthenticatedUser → World → Option DriverProfile
driver_of user w = driver_of_user user.id w

-- `listMinePending`, for the driver of the caller
abbrev pub is_mine_pending : ℕ → ℕ → DriverOffer → Bool
is_mine_pending now driver_id o =
    o.driver_id == driver_id && is_pending_offer o.status && expires_after now o

unfoldable pub list_mine_pending : AuthenticatedUser → Action World (List DriverOffer)
list_mine_pending user = do
  driver ← or_throw (← gets (driver_of user)) resource_not_found
  gets (λ w. select (is_mine_pending w.now driver.id) w.offers)

-- One compare-and-set on the offers: it throws if no row, or more than one, was moved.
unfoldable pub move_offer :
    (DriverOffer → Bool) → (DriverOffer → DriverOffer) → Action World (Unit {0})
move_offer here set = do
  moved ← gets (λ w. count_where here w.offers)
  throw_if (not (moved == 1)) resource_conflict
  modify (λ w. record w { offers = update_where here set w.offers })

abbrev pub can_accept : ℕ → ℕ → ℕ → DriverOffer → Bool
can_accept now offer_id driver_id o =
    o.id == offer_id && o.driver_id == driver_id && is_pending_offer o.status && expires_after now o

abbrev pub set_answer : OfferStatus → ℕ → Option ℕ → DriverOffer → DriverOffer
set_answer s now actor o = record o { status = s; responded_at = some now; actor_user_id = actor }

abbrev pub link_assignment : ℕ → ℕ → World → World
link_assignment offer_id assignment_id w = record w {
  offers =
      update_where (λ (o : DriverOffer). o.id == offer_id)
        (λ o. record o { assignment_id = some assignment_id }) w.offers;
}

-- The first hook of `accept`.
unfoldable pub take_offer : ℕ → ℕ → ℕ → Action World (Unit {0})
take_offer offer_id driver_id user_id w =
    move_offer (can_accept w.now offer_id driver_id)
      (set_answer OfferStatus.accepted w.now (some user_id)) w

abbrev pub accept_hooks : ℕ → ℕ → ℕ → ClaimHooks
accept_hooks offer_id driver_id user_id = record {
  via_offer = true;
  before_claim = take_offer offer_id driver_id user_id;
  after_claim = λ created. modify (link_assignment offer_id created.id);
}

-- The offer that the caller's driver holds; anybody else's is not found.
unfoldable pub find_own_offer : AuthenticatedUser → ℕ → Action World DriverOffer
find_own_offer user offer_id = do
  driver ← or_throw (← gets (driver_of user)) resource_not_found
  offer ← or_throw (← gets (offer_of offer_id)) resource_not_found
  throw_if (not (offer.driver_id == driver.id)) resource_not_found
  pure offer

-- `accept`
unfoldable pub accept_offer : Bool → AuthenticatedUser → ℕ → Action World OrderAssignment
accept_offer self_dispatch_enabled user offer_id = do
  offer ← find_own_offer user offer_id
  let hooks = accept_hooks offer_id offer.driver_id user.id
  assignment ← claim_order self_dispatch_enabled hooks user offer.order_id offer.vehicle_id
  modify (announce (record offer { status = OfferStatus.accepted }))
  pure assignment

abbrev pub can_reject : ℕ → ℕ → DriverOffer → Bool
can_reject offer_id driver_id o =
    o.id == offer_id && o.driver_id == driver_id && is_pending_offer o.status

unfoldable pub write_offer_rejection : AuthenticatedUser → ℕ → Action World DriverOffer
write_offer_rejection user offer_id = do
  driver ← or_throw (← gets (driver_of user)) resource_not_found
  now ← gets (λ w. w.now)
  move_offer (can_reject offer_id driver.id) (set_answer OfferStatus.rejected now (some user.id))
  offer ← or_throw (← gets (offer_of offer_id)) resource_not_found
  modify (announce offer)
  pure offer

-- `cascade`: the next offer is started, and nobody waits for it.
abbrev pub cascade : ℕ → Dispatch → Dispatch
cascade order_id d = record d { cascades = d.cascades ++ order_id ∷ [] }

-- `reject`
unfoldable pub reject_offer : AuthenticatedUser → ℕ → Action Dispatch DriverOffer
reject_offer user offer_id = do
  offer ← in_world (write_offer_rejection user offer_id)
  modify (cascade offer.order_id)
  pure offer

abbrev pub can_expire : ℕ → ℕ → DriverOffer → Bool
can_expire now offer_id o = o.id == offer_id && is_pending_offer o.status && is_due now o

-- An expiry keeps who answered, which is nobody.
abbrev pub set_expired : ℕ → DriverOffer → DriverOffer
set_expired now o = record o { status = OfferStatus.expired; responded_at = some now }

unfoldable pub write_expiry : ℕ → ℕ → World → World
write_expiry offer_id now w = record w {
  offers = update_where (can_expire now offer_id) (set_expired now) w.offers;
}

-- `expire`
unfoldable pub expire : ℕ → ℕ → Action Dispatch Bool
expire offer_id now d =
    let moved = on_world (write_expiry offer_id now) d in
    if not (count_where (can_expire now offer_id) d.world.offers == 1)
    then (ok false, moved)
    else elim (offer_of offer_id moved.world) [
      | none ↦ (err resource_not_found, moved)
      | some o ↦ (ok true, cascade o.order_id (on_world (announce o) moved))
    ]
