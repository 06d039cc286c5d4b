-- ===== src/Offers/Hooks.antt =====
-- src/modules/operations/assignments/assignments.service.ts, `claimOrder`: what the hooks of a claim
-- meet.
use transport_api.Assignments.{
  ClaimHooks, accepted_assignment, check_claim, claim_driver, claim_order, claim_row,
  insert_assignment, write_claim,
}
use transport_api.Common.{Bool, ap, arith, inl, inr, subst, sym, ℕ, ◌∙◌, ◌≡◌}
use transport_api.Common.Action.{Outcome-cases, ok}
use transport_api.Domain.{EventType, StatusOrders}
use transport_api.Offers.Checks.{
  check_claim-OnlyReads, claim_driver-KeepsOffers, claim_row-KeepsOffers,
}
use transport_api.World.{AuthenticatedUser, OrderAssignment, World, add_event}

-- A claim that returns ran its two hooks, and nothing between them touched the offers.
pub write_claim-hooks :
    (h : ClaimHooks) (user_id order_id driver_id vehicle_id : ℕ) (w w' : World)
    (a : OrderAssignment)
    → write_claim h user_id order_id driver_id vehicle_id w ≡ (ok a, w')
    → (t : Unit {0}) × (u : World) × (t' : Unit {0}) × (v : World) × (h.before_claim w ≡ (ok t, u))
      × (v.offers ≡ u.offers)
      × (h.after_claim a v ≡ (ok t', w'))
      × (a.order_id ≡ order_id)
      × (a.driver_id ≡ driver_id)
unfolding write_claim insert_assignment
write_claim-hooks h user_id order_id driver_id vehicle_id w w' a returned =
    elim (Outcome-cases (h.before_claim w)) [
      | inr (e, u, late) ↦ absurd (ground arith)
      | inl (t, u, took) ↦ elim (Outcome-cases (claim_row order_id StatusOrders.accepted u)) [
        | inr (e, x, taken) ↦ absurd (ground arith)
        | inl (s, x, claimed) ↦ elim (Outcome-cases (claim_driver driver_id x)) [
          | inr (e, y, busy) ↦ absurd (ground arith)
          | inl (s', y, free) ↦
              let b = accepted_assignment order_id driver_id vehicle_id y in
              let z = add_event order_id EventType.accepted user_id (insert_assignment b y) in
              elim (Outcome-cases (h.after_claim b z)) [
                | inr (e, v, failed) ↦ absurd (ground arith)
                | inl (t', v, linked) ↦
                    let it : b ≡ a = ground arith in
                    let at_end : v ≡ w' = ground arith in
                    let kept : y.offers ≡ u.offers =
                      (sym (ap (λ r. r.1.offers) free)
                        ∙ (claim_driver-KeepsOffers driver_id).holds x)
                      ∙ (sym (ap (λ r. r.1.offers) claimed)
                          ∙ (claim_row-KeepsOffers order_id StatusOrders.accepted).holds u) in
                    (
                      t,
                      u,
                      t',
                      z,
                      took,
                      kept,
                      subst (λ k. h.after_claim k z ≡ (ok t', w')) it
                          (subst (λ k. h.after_claim b z ≡ (ok t', k)) at_end linked),
                      ap (λ (k : OrderAssignment). k.order_id) (sym it),
                      ap (λ (k : OrderAssignment). k.driver_id) (sym it),
                    )
              ]
        ]
      ]
    ]

pub claim_order-hooks :
    (on : Bool) (h : ClaimHooks) (user : AuthenticatedUser) (order_id vehicle_id : ℕ) (w w' : World)
    (a : OrderAssignment)
    → claim_order on h user order_id vehicle_id w ≡ (ok a, w')
    → (driver_id : ℕ) × (u : World) × ((check_claim on h.via_offer user order_id vehicle_id w).0
        ≡ ok driver_id)
      × (write_claim h user.id order_id driver_id vehicle_id w ≡ (ok a, u))
      × (w'.offers ≡ u.offers)
unfolding claim_order
claim_order-hooks on h user order_id vehicle_id w w' a returned =
    elim (Outcome-cases (check_claim on h.via_offer user order_id vehicle_id w)) [
      | inr (e, u, refused) ↦ absurd (ground arith)
      | inl (driver_id, v, allowed) ↦
          let at_w : v ≡ w =
            sym (ap (λ r. r.1) allowed)
            ∙ (check_claim-OnlyReads on h.via_offer user order_id vehicle_id).holds w in
          elim (Outcome-cases (write_claim h user.id order_id driver_id vehicle_id v)) [
            | inr (e, u, late) ↦ absurd (ground arith)
            | inl (b, u, done) ↦
                let it : b ≡ a = ground arith in
                (
                  driver_id,
                  u,
                  ap (λ r. r.0) allowed,
                  subst (λ k. write_claim h user.id order_id driver_id vehicle_id k ≡ (ok a, u))
                      at_w
                      (subst
                        (λ k. write_claim h user.id order_id driver_id vehicle_id v ≡ (ok k, u)) it
                        done),
                  ground arith,
                )
          ]
    ]
