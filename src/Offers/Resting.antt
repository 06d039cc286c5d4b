-- ===== src/Offers/Resting.antt =====
-- src/modules/operations/offers/offers.service.ts, `sweep`: when the sweep comes to rest.
use transport_api.Common.{
  Bool-cases, List, Option-cases, [], any, ap, arith, false, inl, inr, length, refl, reverse,
  select, subst, suc, sym, true, ℕ, ◌&&◌, ◌∙◌, ◌∷◌, ◌≡◌,
}
use transport_api.Common.Action.{Result-cases}
use transport_api.Offers.{
  Dispatch, DispatchConfig, Matching, RankedCandidate, announce_new_offer, auto_enabled,
  best_candidate, no_driver_left, offer_best, offer_next, offered_drivers, on_world, open_offer,
  schedule_expiry,
}
use transport_api.Offers.Answers.{expire, offer_of, write_expiry}
use transport_api.Offers.Passes.{settle_sweep-world}
use transport_api.Offers.Sweep.{
  cancel_stale, dispatch_if_auto, dispatch_waiting, expire_due, expire_each, is_pending_due,
  is_waiting_now, offer_each, requeue_stuck, settle_sweep, sweep, sweep_passes, take,
}
use transport_api.Orders.Closing.{is_pending_offer}
use transport_api.World.{DriverOffer, TransportOrder, World}

expire-armed : (id now : ℕ) (d : Dispatch) → (expire id now d).1.armed ≡ d.armed
unfolding expire
expire-armed id now d = elim (Option-cases (offer_of id (write_expiry id now d.world))) [
  | inl gone ↦ ground arith
  | inr (o, there_is) ↦ ground arith
]

expire_each-armed :
    (os : List DriverOffer) (now : ℕ) (d : Dispatch) → (expire_each os now d).armed ≡ d.armed
unfolding expire_each
expire_each-armed [] now d = refl
expire_each-armed (o ∷ os) now d =
    expire_each-armed os now (expire o.id now d).1 ∙ expire-armed o.id now d

open_offer-armed :
    (c : DispatchConfig) (order_id attempt : ℕ) (best : RankedCandidate) (d : Dispatch)
    → d.armed ≡ true
    → (open_offer c order_id attempt best d).1.armed ≡ true
unfolding open_offer announce_new_offer schedule_expiry
open_offer-armed c order_id attempt best d on = ground arith

offer_next-armed :
    (c : DispatchConfig) (m : Matching) (order_id : ℕ) (d : Dispatch)
    → d.armed ≡ true
    → (offer_next c m order_id d).1.armed ≡ true
unfolding offer_next offer_best no_driver_left
offer_next-armed c m order_id d on =
    let previous = offered_drivers order_id d.world in
    elim (Result-cases (m.rank_for_order order_id previous d.world)) [
      | inr (e, failed) ↦ ground arith
      | inl (r, ranked) ↦ elim (Option-cases (best_candidate r)) [
        | inl nobody ↦ ground arith
        | inr (best, found) ↦
            let kept = open_offer-armed c order_id (suc (length previous)) best d on in
            ground (arith, kept)
      ]
    ]

offer_each-armed :
    (c : DispatchConfig) (m : Matching) (os : List TransportOrder) (d : Dispatch)
    → d.armed ≡ true
    → (offer_each c m os d).armed ≡ true
unfolding offer_each
offer_each-armed c m [] d on = on
offer_each-armed c m (o ∷ os) d on =
    offer_each-armed c m os (offer_next c m o.id d).1 (offer_next-armed c m o.id d on)

sweep_passes-armed :
    (c : DispatchConfig) (m : Matching) (now : ℕ) (d : Dispatch)
    → d.armed ≡ true
    → (sweep_passes c m now d).armed ≡ true
unfolding sweep_passes expire_due dispatch_if_auto dispatch_waiting
sweep_passes-armed c m now d on =
    let expired = expire_each (take 100 (select (is_pending_due now) d.world.offers)) now d in
    let on_expired : expired.armed ≡ true =
      expire_each-armed (take 100 (select (is_pending_due now) d.world.offers)) now d ∙ on in
    let cleaned = on_world cancel_stale expired in
    let queued = on_world requeue_stuck cleaned in
    let waiting =
      take 50 (reverse (select (is_waiting_now now queued.world) queued.world.orders)) in
    elim (Bool-cases (auto_enabled c)) [
      | inr off ↦ ground arith
      | inl auto ↦ let kept = offer_each-armed c m waiting queued on_expired in ground (arith, kept)
    ]

settle_sweep-rests :
    (c : DispatchConfig) (now : ℕ) (d : Dispatch)
    → d.armed ≡ true
    → (settle_sweep c now d).armed ≡ false
    → (any (λ (o : DriverOffer). is_pending_offer o.status) d.world.offers ≡ false)
      × ((auto_enabled c && any (is_waiting_now now d.world) d.world.orders) ≡ false)
unfolding settle_sweep
settle_sweep-rests c now d on rests = ground arith

-- When an armed sweep comes to rest, no offer is pending any more, and in automatic mode no order
-- that is due waits for a driver: while there is either, the sweep runs again at the next tick.
pub sweep-rests :
    (c : DispatchConfig) (m : Matching) (now : ℕ) (d : Dispatch)
    → d.armed ≡ true
    → (sweep c m now d).armed ≡ false
    → (any (λ (o : DriverOffer). is_pending_offer o.status) (sweep c m now d).world.offers ≡ false)
      × ((auto_enabled c
            && any (is_waiting_now now (sweep c m now d).world) (sweep c m now d).world.orders)
          ≡ false)
unfolding sweep
sweep-rests c m now d on rests =
    let passed = sweep_passes c m now d in
    let runs : sweep c m now d ≡ settle_sweep c now passed = ground arith in
    let idle_now =
      settle_sweep-rests c now passed (sweep_passes-armed c m now d on)
        (ap (λ (x : Dispatch). x.armed) (sym runs) ∙ rests) in
    let same : passed.world ≡ (sweep c m now d).world =
      sym (settle_sweep-world c now passed) ∙ ap (λ (x : Dispatch). x.world) (sym runs) in
    subst
      (λ (w : World).
        (any (λ (o : DriverOffer). is_pending_offer o.status) w.offers ≡ false)
        × ((auto_enabled c && any (is_waiting_now now w) w.orders) ≡ false))
      same idle_now
