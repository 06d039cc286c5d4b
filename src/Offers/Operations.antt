-- ===== src/Offers/Operations.antt =====
-- src/modules/operations/offers/offers.service.ts: the answers, the expiries and the new offers, as steps
-- of the machine of the offers.
use transport_api.Assignments.{claim_order}
use transport_api.Common.{
  ==_iff, Bool, List, Option-cases, [], arith, count_where, if◌then◌else◌, inl, inr, map, not,
  select, some, true, update_where, ℕ, ◌==◌, ◌∷◌, ◌≡◌,
}
use transport_api.Common.Action.{
  Outcome-cases, Result-cases, modify, pure, resource_conflict, resource_not_found, ◌>>◌,
}
use transport_api.Common.Respects.{
  bind-Respects, given-Respects, guarded-Respects, last_write-Respects, reading-Respects,
  returning-Respects, writing-Respects,
}
use transport_api.Domain.{OfferStatus, StatusOrders}
use transport_api.Offers.{Dispatch, Matching, announce, is_pending_for}
use transport_api.Offers.Answers.{
  accept_hooks, accept_offer, can_accept, can_expire, can_reject, driver_of, expire, find_own_offer,
  link_assignment, move_offer, offer_of, reject_offer, set_answer, take_offer, write_expiry,
  write_offer_rejection,
}
use transport_api.Offers.Checks.{MovesOffers, offers_frame, reads-MovesOffers, still}
use transport_api.Offers.Machine.{
  Answer, Moves, accepts, and_then, answer_offer, answered, cancels, expires, idle, linked,
  may_answer, rejects,
}
use transport_api.Offers.Manual.{
  can_cancel, cancel_pending_offers, ranking_for_manual_pick, supersede, write_cancel,
}
use transport_api.Offers.Openings.{set_waiting_status-offers}
use transport_api.Offers.Steps.{HooksMoveOffers, MovesDispatch, claim_order-MovesOffers}
use transport_api.World.{AuthenticatedUser, DriverOffer, OrderAssignment, World}

module _ {matching : Matching} where
  move_offer-MovesOffers :
      (now id : ℕ) (a : Answer) (p : DriverOffer → Bool)
      → ((o : DriverOffer) → p o ≡ true → (o.id ≡ id) × (may_answer now a o ≡ true))
      → MovesOffers matching (move_offer p (answer_offer now a))
  unfolding move_offer
  move_offer-MovesOffers now id a p may =
      reading-Respects (offers_frame matching) (λ w. count_where p w.offers) _
        (λ moved.
          guarded-Respects (offers_frame matching) (not (moved == 1)) resource_conflict _ (λ _.
            last_write-Respects (offers_frame matching)
              (λ w. record w { offers = update_where p (answer_offer now a) w.offers })
              (λ w. answered now id a p may)))

  accept_hooks-Move :
      (offer_id driver_id user_id : ℕ)
      → HooksMoveOffers matching (accept_hooks offer_id driver_id user_id)
  unfolding take_offer
  accept_hooks-Move offer_id driver_id user_id = (
    record {
      holds = λ w.
          (move_offer-MovesOffers w.now offer_id (accepts user_id)
              (can_accept w.now offer_id driver_id)
              (λ o hit. ((==_iff o.id offer_id).0 (ground arith), ground arith))).holds
            w;
    },
    λ created.
        last_write-Respects (offers_frame matching) (link_assignment offer_id created.id)
          (λ w. linked offer_id created.id),
  )

  find_own_offer-MovesOffers :
      (user : AuthenticatedUser) (id : ℕ) → MovesOffers matching (find_own_offer user id)
  unfolding find_own_offer
  find_own_offer-MovesOffers user id =
      reading-Respects (offers_frame matching) (driver_of user) _ (λ found.
        given-Respects (offers_frame matching) found resource_not_found _ (λ d.
          reading-Respects (offers_frame matching) (offer_of id) _ (λ held.
            given-Respects (offers_frame matching) held resource_not_found _ (λ o.
              guarded-Respects (offers_frame matching) (not (o.driver_id == d.id))
                resource_not_found _ (λ _. returning-Respects (offers_frame matching) o)))))

  pub accept_offer-MovesOffers :
      (on : Bool) (user : AuthenticatedUser) (id : ℕ)
      → MovesOffers matching (accept_offer on user id)
  unfolding accept_offer
  accept_offer-MovesOffers on user id =
      bind-Respects (offers_frame matching) (find_own_offer user id) _
        (find_own_offer-MovesOffers user id)
        (λ o.
          bind-Respects (offers_frame matching)
            (claim_order on (accept_hooks id o.driver_id user.id) user o.order_id o.vehicle_id) _
            (claim_order-MovesOffers on (accept_hooks id o.driver_id user.id) user o.order_id
              o.vehicle_id (accept_hooks-Move id o.driver_id user.id))
            (λ a. finish o a))
    where
      finish :
          (o : DriverOffer) (a : OrderAssignment)
          → MovesOffers matching
              (modify (announce (record o { status = OfferStatus.accepted })) >> pure a)
      finish o a = record { holds = λ w. idle }

  write_offer_rejection-MovesOffers :
      (user : AuthenticatedUser) (id : ℕ) → MovesOffers matching (write_offer_rejection user id)
  unfolding write_offer_rejection
  write_offer_rejection-MovesOffers user id =
      reading-Respects (offers_frame matching) (driver_of user) _ (λ found.
        given-Respects (offers_frame matching) found resource_not_found _ (λ d.
          reading-Respects (offers_frame matching) (λ w. w.now) _
            (λ now.
              bind-Respects (offers_frame matching)
                (move_offer (can_reject id d.id)
                  (set_answer OfferStatus.rejected now (some user.id)))
                _
                (move_offer-MovesOffers now id (rejects user.id) (can_reject id d.id)
                  (λ o hit. ((==_iff o.id id).0 (ground arith), ground arith)))
                (λ _. reading-Respects (offers_frame matching) (offer_of id) _ (λ held.
                  given-Respects (offers_frame matching) held resource_not_found _ (λ o.
                    writing-Respects (offers_frame matching) (announce o) (λ _. pure o) (λ w. idle)
                      (λ _. returning-Respects (offers_frame matching) o)))))))

  pub reject_offer-Moves :
      (user : AuthenticatedUser) (id : ℕ) (d : Dispatch)
      → MovesDispatch matching d (reject_offer user id d).1
  unfolding reject_offer
  reject_offer-Moves user id d =
      and_then ((write_offer_rejection-MovesOffers user id).holds d.world) (
        still (elim (Outcome-cases (write_offer_rejection user id d.world)) [
          | inl (o, w, done) ↦ ground arith
          | inr (e, w, failed) ↦ ground arith
        ]))

  write_expiry-Moves :
      (id now : ℕ) (w : World) → Moves matching w.offers (write_expiry id now w).offers
  unfolding write_expiry
  write_expiry-Moves id now w =
      answered now id expires (can_expire now id)
        (λ o hit. ((==_iff o.id id).0 (ground arith), ground arith))

  pub expire-Moves : (id now : ℕ) (d : Dispatch) → MovesDispatch matching d (expire id now d).1
  unfolding expire
  expire-Moves id now d = and_then (write_expiry-Moves id now d.world) (
      still (elim (Option-cases (offer_of id (write_expiry id now d.world))) [
        | inl gone ↦ ground arith
        | inr (o, there_is) ↦ ground arith
      ]))

  write_cancel-Moves : (id : ℕ) (w : World) → Moves matching w.offers (write_cancel id w).offers
  unfolding write_cancel
  write_cancel-Moves id w =
      answered w.now id cancels (can_cancel id)
        (λ o hit. ((==_iff o.id id).0 (ground arith), ground arith))

  pub cancel_pending_offers-Moves :
      (os : List DriverOffer) (w : World)
      → Moves matching w.offers (cancel_pending_offers os w).1.offers
  unfolding cancel_pending_offers
  cancel_pending_offers-Moves [] w = idle
  cancel_pending_offers-Moves (o ∷ os) w =
      let w₁ = write_cancel o.id w in
      let updated = record o { status = OfferStatus.cancelled } in
      let w₂ = if count_where (can_cancel o.id) w.offers == 1 then announce updated w₁ else w₁ in
      let same : w₂.offers ≡ w₁.offers = ground arith in
      and_then (write_cancel-Moves o.id w)
        (and_then (still same) (cancel_pending_offers-Moves os w₂))

  pub supersede-Moves :
      (order_id : ℕ) (w : World) → Moves matching w.offers (supersede order_id w).offers
  unfolding supersede
  supersede-Moves order_id w =
      let open_ones = select (is_pending_for order_id) w.offers in
      let r = cancel_pending_offers open_ones w in
      and_then (cancel_pending_offers-Moves open_ones w) (
        still (
          set_waiting_status-offers order_id StatusOrders.assigning_driver StatusOrders.requested
            (map (λ (o : DriverOffer). o.driver_id) r.0) r.1))

  pub ranking_for_manual_pick-MovesOffers :
      (m : Matching) (order_id : ℕ) → MovesOffers matching (ranking_for_manual_pick m order_id)
  unfolding ranking_for_manual_pick
  ranking_for_manual_pick-MovesOffers m order_id =
      reads-MovesOffers (ranking_for_manual_pick m order_id)
        (λ w. ground (arith, Result-cases (m.rank_for_order order_id [] w)))
