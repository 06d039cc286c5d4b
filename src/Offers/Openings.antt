-- ===== src/Offers/Openings.antt =====
-- src/modules/operations/offers/offers.service.ts, `offerNext`: a new automatic offer, as a step of the
-- machine of the offers.
use transport_api.Assignments.{driver_by_id}
use transport_api.Common.{
  Bool-cases, List, Option-cases, [], any, ap, arith, inl, inr, length, not, refl, some, suc, ℕ,
  ◌||◌, ◌∙◌, ◌∷◌, ◌≡◌,
}
use transport_api.Common.Action.{Result-cases, ok}
use transport_api.Domain.{StatusOrders}
use transport_api.Offers.{
  Dispatch, DispatchConfig, Matching, MatchingResult, RankedCandidate, announce, announce_new_offer,
  auto_enabled, auto_offer_for, best_candidate, insert_offer, is_on_cooldown, is_pending_for,
  is_waiting_for_offer, no_driver_left, notify_driver, offer_best, offer_next, offered_drivers,
  on_world, open_offer, schedule_expiry, schedule_wake, set_waiting_status,
}
use transport_api.Offers.Checks.{still}
use transport_api.Offers.Machine.{and_then, offered_to, opened}
use transport_api.Offers.Steps.{MovesDispatch}
use transport_api.World.{DriverOffer, World}

pub set_waiting_status-offers :
    (order_id : ℕ) (from to : StatusOrders) (ds : List ℕ) (w : World)
    → (set_waiting_status order_id from to ds w).offers ≡ w.offers
unfolding set_waiting_status
set_waiting_status-offers order_id from to ds w = ground arith

pub notify_driver-offers : (o : DriverOffer) (w : World) → (notify_driver o w).offers ≡ w.offers
unfolding notify_driver
notify_driver-offers o w = ground (arith, Option-cases (driver_by_id o.driver_id w))

pub schedule_expiry-world :
    (c : DispatchConfig) (id delay : ℕ) (d : Dispatch)
    → (schedule_expiry c id delay d).world ≡ d.world
unfolding schedule_expiry
schedule_expiry-world c id delay d = ground arith

pub schedule_wake-world :
    (c : DispatchConfig) (at : ℕ) (d : Dispatch) → (schedule_wake c at d).world ≡ d.world
unfolding schedule_wake
schedule_wake-world c at d = ground arith

pub announce_new_offer-offers :
    (c : DispatchConfig) (attempt : ℕ) (o : DriverOffer) (d : Dispatch)
    → (announce_new_offer c attempt o d).world.offers ≡ d.world.offers
unfolding announce_new_offer
announce_new_offer-offers c attempt o d =
    let timed = schedule_expiry c o.id c.offer_ttl_sec d in
    let moved =
      set_waiting_status o.order_id StatusOrders.requested StatusOrders.assigning_driver
        (o.driver_id ∷ []) timed.world in
    notify_driver-offers o (announce o moved)
    ∙ set_waiting_status-offers o.order_id StatusOrders.requested StatusOrders.assigning_driver
        (o.driver_id ∷ []) timed.world
    ∙ ap (λ (w : World). w.offers) (schedule_expiry-world c o.id c.offer_ttl_sec d)

pub open_offer-Moves :
    (c : DispatchConfig) (m : Matching) (order_id attempt : ℕ) (r : MatchingResult)
    (best : RankedCandidate) (d : Dispatch)
    → m.rank_for_order order_id (offered_to order_id d.world.offers) d.world ≡ ok r
    → best_candidate r ≡ some best
    → MovesDispatch m d (open_offer c order_id attempt best d).1
unfolding open_offer
open_offer-Moves c m order_id attempt r best d ranked found =
    let o = auto_offer_for c order_id best d.world in
    elim (Bool-cases (any (is_pending_for order_id) d.world.offers)) [
      | inl busy ↦ still (ground arith)
      | inr free ↦
          let same = announce_new_offer-offers c attempt o (on_world (insert_offer o) d) in
          and_then
            (opened o (refl, refl, (_, refl), refl, refl, refl)
              (d.world, r, best, ranked, found, refl) free)
            (still (ground (arith, same)))
    ]

pub offer_best-Moves :
    (c : DispatchConfig) (m : Matching) (order_id attempts : ℕ) (r : MatchingResult) (d : Dispatch)
    → m.rank_for_order order_id (offered_to order_id d.world.offers) d.world ≡ ok r
    → MovesDispatch m d (offer_best c order_id attempts r d).1
unfolding offer_best no_driver_left
offer_best-Moves c m order_id attempts r d ranked = elim (Option-cases (best_candidate r)) [
  | inl nobody ↦
      let same =
        set_waiting_status-offers order_id StatusOrders.assigning_driver StatusOrders.requested []
          d.world in
      still (ground (arith, same))
  | inr (best, found) ↦
      and_then (open_offer-Moves c m order_id (suc attempts) r best d ranked found)
        (still (ground arith))
]

pub offer_next-Moves :
    (c : DispatchConfig) (m : Matching) (order_id : ℕ) (d : Dispatch)
    → MovesDispatch m d (offer_next c m order_id d).1
unfolding offer_next
offer_next-Moves c m order_id d =
    let previous = offered_drivers order_id d.world in
    elim (Bool-cases (
      not (auto_enabled c)
      || is_on_cooldown order_id d
      || not (is_waiting_for_offer order_id d.world))) [
        | inl idle_now ↦ still (ground arith)
        | inr goes ↦ elim (Result-cases (m.rank_for_order order_id previous d.world)) [
          | inr (e, failed) ↦ still (ground arith)
          | inl (r, ranked) ↦
              and_then (offer_best-Moves c m order_id (length previous) r d ranked)
                (still (ground arith))
        ]
      ]
