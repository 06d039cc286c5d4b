-- ===== src/Offers/Picks.antt =====
-- src/modules/operations/offers/offers.service.ts, `manualAssign`: the operator's pick and the
-- automatic offers.
use transport_api.Assignments.{create}
use transport_api.Common.{
  ==_refl, Bool, List, Option, Option-cases, [], any, any-congr, any-update_where_step,
  any_unselected, ap, arith, count_where, false, find_first, if◌then◌else◌, inl, inr, map, not,
  refl, select, some, subst, sym, true, ℕ, ◌&&◌, ◌==◌, ◌∙◌, ◌∷◌, ◌≡◌,
}
use transport_api.Common.Action.{Outcome-cases, Result-cases, ok}
use transport_api.Domain.{OfferMode, OfferStatus, StatusOrders}
use transport_api.Offers.{DispatchConfig, Matching, MatchingResult, announce, is_pending_for}
use transport_api.Offers.Manual.{
  ManualAssignInput, assign_pick, can_cancel, cancel_pending_offers, check_pick, find_candidate,
  manual_assign, manual_offer_for, ranking_for_manual_pick, set_cancelled, supersede, vehicle_for,
  write_cancel,
}
use transport_api.Offers.Openings.{set_waiting_status-offers}
use transport_api.Offers.Steps.{create-KeepsOffers}
use transport_api.World.{AuthenticatedUser, DriverOffer, OrderAssignment, World}

abbrev same_id : DriverOffer → DriverOffer → Bool
same_id a b = a.id == b.id

-- The offers of the order that are still pending and are not waiting in the loop's list.
abbrev missed : ℕ → List DriverOffer → DriverOffer → Bool
missed order_id os o = is_pending_for order_id o && not (any (same_id o) os)

write_cancel-missed :
    (order_id : ℕ) (o : DriverOffer) (os : List DriverOffer) (w : World)
    → any (missed order_id (o ∷ os)) w.offers ≡ false
    → any (missed order_id os) (write_cancel o.id w).offers ≡ false
unfolding write_cancel
write_cancel-missed order_id o os w h =
    any-update_where_step (can_cancel o.id) (missed order_id (o ∷ os)) (missed order_id os)
      (set_cancelled w.now) w.offers (λ x k. ground arith) h

cancel_pending_offers-closes :
    (order_id : ℕ) (os : List DriverOffer) (w : World)
    → any (missed order_id os) w.offers ≡ false
    → any (is_pending_for order_id) (cancel_pending_offers os w).1.offers ≡ false
unfolding cancel_pending_offers
cancel_pending_offers-closes order_id [] w h =
    any-congr (is_pending_for order_id) (missed order_id []) w.offers (λ o. ground arith) ∙ h
cancel_pending_offers-closes order_id (o ∷ os) w h =
    let w₁ = write_cancel o.id w in
    let updated = record o { status = OfferStatus.cancelled } in
    let w₂ = if count_where (can_cancel o.id) w.offers == 1 then announce updated w₁ else w₁ in
    let same : w₂.offers ≡ w₁.offers = ground arith in
    cancel_pending_offers-closes order_id os w₂
      (ap (any (missed order_id os)) same ∙ write_cancel-missed order_id o os w h)

supersede-closes :
    (order_id : ℕ) (w : World) → any (is_pending_for order_id) (supersede order_id w).offers ≡ false
unfolding supersede
supersede-closes order_id w =
    let open_ones = select (is_pending_for order_id) w.offers in
    let r = cancel_pending_offers open_ones w in
    ap (any (is_pending_for order_id)) (
      set_waiting_status-offers order_id StatusOrders.assigning_driver StatusOrders.requested
        (map (λ (o : DriverOffer). o.driver_id) r.0) r.1)
    ∙ cancel_pending_offers-closes order_id open_ones w
        (any_unselected (is_pending_for order_id) same_id w.offers (λ o. ==_refl o.id))

-- The offer that an operator's pick leaves for the audit.
abbrev pub IsAuditOf : ℕ → ℕ → OrderAssignment → DriverOffer → Type 0
IsAuditOf order_id driver_id a o =
    (o.order_id ≡ order_id)
    × (o.driver_id ≡ driver_id)
    × (o.mode ≡ OfferMode.manual)
    × (o.status ≡ OfferStatus.accepted)
    × (o.assignment_id ≡ some a.id)

assign_pick-ok :
    (user : AuthenticatedUser) (order_id driver_id vehicle_id : ℕ) (w w' : World)
    (a : OrderAssignment)
    → assign_pick user order_id driver_id vehicle_id w ≡ (ok a, w')
    → (o : DriverOffer) × (w'.offers ≡ o ∷ (supersede order_id w).offers)
      × IsAuditOf order_id driver_id a o
unfolding assign_pick
assign_pick-ok user order_id driver_id vehicle_id w w' a picked =
    let w₁ = supersede order_id w in
    elim (Outcome-cases (create user order_id driver_id vehicle_id w₁)) [
      | inr (e, u, refused) ↦ absurd (ground arith)
      | inl (b, u, made) ↦
          let o = manual_offer_for user.id order_id driver_id vehicle_id b.id u in
          let kept : u.offers ≡ w₁.offers =
            sym (ap (λ r. r.1.offers) made)
            ∙ (create-KeepsOffers user order_id driver_id vehicle_id).holds w₁ in
          let it : b ≡ a = ground arith in
          let table : w'.offers ≡ o ∷ u.offers = ground arith in
          (
            o,
            table ∙ ap (λ xs. o ∷ xs) kept,
            (refl, refl, refl, refl, ap (λ (x : OrderAssignment). some x.id) it),
          )
    ]

ranking_for_manual_pick-reads :
    (m : Matching) (order_id : ℕ) (w : World) → (ranking_for_manual_pick m order_id w).1 ≡ w
unfolding ranking_for_manual_pick
ranking_for_manual_pick-reads m order_id w =
    ground (arith, Result-cases (m.rank_for_order order_id [] w))

check_pick-reads :
    (c : DispatchConfig) (input : ManualAssignInput) (r : Option MatchingResult) (w : World)
    → (check_pick c input r w).1 ≡ w
unfolding check_pick
check_pick-reads c input r w =
    ground (arith, Option-cases (vehicle_for input (find_candidate input.driver_id r)))

-- An operator's pick that goes through was allowed on the ranking that was asked for it.
manual_assign-passes :
    (c : DispatchConfig) (m : Matching) (user : AuthenticatedUser) (order_id : ℕ)
    (input : ManualAssignInput) (w w' : World) (a : OrderAssignment)
    → manual_assign c m user order_id input w ≡ (ok a, w')
    → (r : Option MatchingResult) × (vehicle_id : ℕ) × ((ranking_for_manual_pick m order_id w).0
        ≡ ok r)
      × ((check_pick c input r w).0 ≡ ok vehicle_id)
      × (assign_pick user order_id input.driver_id vehicle_id w ≡ (ok a, w'))
unfolding manual_assign
manual_assign-passes c m user order_id input w w' a done =
    elim (Outcome-cases (ranking_for_manual_pick m order_id w)) [
      | inr (e, u, missing) ↦ absurd (ground arith)
      | inl (r, u, ranked) ↦
          let at_w : u ≡ w =
            sym (ap (λ x. x.1) ranked) ∙ ranking_for_manual_pick-reads m order_id w in
          elim (Outcome-cases (check_pick c input r u)) [
            | inr (e, v, refused) ↦ absurd (ground arith)
            | inl (vehicle_id, v, allowed) ↦
                let v_w : v ≡ w =
                  sym (ap (λ x. x.1) allowed) ∙ check_pick-reads c input r u ∙ at_w in
                let rest : assign_pick user order_id input.driver_id vehicle_id v ≡ (ok a, w') =
                  ground arith in
                (
                  r,
                  vehicle_id,
                  ap (λ x. x.0) ranked,
                  subst (λ z. (check_pick c input r z).0 ≡ ok vehicle_id) at_w
                      (ap (λ x. x.0) allowed),
                  subst (λ z. assign_pick user order_id input.driver_id vehicle_id z ≡ (ok a, w'))
                      v_w rest,
                )
          ]
    ]

-- An operator's pick that goes through leaves no offer of the order pending, and as its newest offer
-- one in the mode MANUAL, ACCEPTED, for the picked driver and linked to the new assignment.
pub manual_assign-supersedes :
    (c : DispatchConfig) (m : Matching) (user : AuthenticatedUser) (order_id : ℕ)
    (input : ManualAssignInput) (w w' : World) (a : OrderAssignment)
    → manual_assign c m user order_id input w ≡ (ok a, w')
    → (any (is_pending_for order_id) w'.offers ≡ false)
      × ((o : DriverOffer) × (find_first (λ _. true) w'.offers ≡ some o)
          × IsAuditOf order_id input.driver_id a o)
manual_assign-supersedes c m user order_id input w w' a done =
    let (r, vehicle_id, _, _, picked) = manual_assign-passes c m user order_id input w w' a done in
    let (o, table, audit) = assign_pick-ok user order_id input.driver_id vehicle_id w w' a picked in
    let (_, _, _, accepted, _) = audit in
    let shut : is_pending_for order_id o ≡ false = ground arith in
    let closed = supersede-closes order_id w in
    (
      ap (any (is_pending_for order_id)) table ∙ ground arith,
      (o, ap (find_first (λ _. true)) table, audit),
    )
