-- ===== src/Offers/Acceptance.antt =====
-- src/modules/operations/offers/offers.service.ts, `accept`: who can take an offer, and what it becomes.
use transport_api.Assignments.{claim_order}
use transport_api.Common.{
  ==_iff, All, All-map, Bool, Bool-cases, Distinct, List, Option-cases, [], any, any_of_count, ap,
  arith, count_where, find_first, find_first-update_where, find_first_sound, found_agrees, inl, inr,
  refl, some, subst, sym, true, update_where, ℕ, ◌==◌, ◌∙◌, ◌∷◌, ◌≡◌,
}
use transport_api.Common.Action.{Outcome-cases, ok}
use transport_api.Domain.{OfferStatus}
use transport_api.Offers.Answers.{
  accept_hooks, accept_offer, can_accept, driver_of, find_own_offer, move_offer, offer_of,
  set_answer, take_offer,
}
use transport_api.Offers.Hooks.{claim_order-hooks, write_claim-hooks}
use transport_api.World.{AuthenticatedUser, DriverOffer, DriverProfile, OrderAssignment, World}

hit_is :
    (p : DriverOffer → Bool) (o : DriverOffer) (xs : List DriverOffer)
    → All (λ x. p x ≡ true → x ≡ o) xs
    → any p xs ≡ true
    → p o ≡ true
hit_is p o [] only hit = absurd (ground arith)
hit_is p o (x ∷ xs) only hit = elim (Bool-cases (p x)) [
  | inl here ↦ subst (λ k. p k ≡ true) (only.0 here) here
  | inr not_here ↦ hit_is p o xs only.1 (ground arith)
]

-- The offer that is taken is the one that the driver was shown, still open and in time.
take_offer-ok :
    (id driver_id user_id : ℕ) (w u : World) (t : Unit {0}) (o : DriverOffer)
    → Distinct (λ (x : DriverOffer). x.id) w.offers
    → offer_of id w ≡ some o
    → take_offer id driver_id user_id w ≡ (ok t, u)
    → (can_accept w.now id driver_id o ≡ true)
      × (u.offers
          ≡ update_where
              (can_accept w.now id driver_id)
              (set_answer OfferStatus.accepted w.now (some user_id))
              w.offers)
unfolding take_offer move_offer
take_offer-ok id driver_id user_id w u t o distinct held took =
    let here = λ (x : DriverOffer). x.id == id in
    let p = can_accept w.now id driver_id in
    let one : count_where p w.offers ≡ 1 = ground arith in
    let own : (o.id == id) ≡ true = find_first_sound here w.offers o held in
    let at : o.id ≡ id = (==_iff o.id id).0 own in
    let agree = found_agrees (λ (x : DriverOffer). x.id) here w.offers o distinct held in
    let only =
      All-map (λ x. (x.id == o.id) ≡ true → x ≡ o) (λ x. p x ≡ true → x ≡ o) w.offers
        (λ x same hit. same (subst (λ k. (x.id == k) ≡ true) (sym at) (ground arith))) agree in
    (hit_is p o w.offers only (any_of_count p w.offers one), ground arith)

-- What an accepted offer is.
abbrev pub IsTaken : ℕ → OrderAssignment → DriverOffer → DriverOffer → Type 0
IsTaken user_id a o o' =
    (o'.status ≡ OfferStatus.accepted)
    × (o'.assignment_id ≡ some a.id)
    × (o'.actor_user_id ≡ some user_id)
    × (o'.id ≡ o.id)
    × (a.order_id ≡ o.order_id)

IsTaken-row :
    (id driver_id user_id now : ℕ) (a : OrderAssignment) (o : DriverOffer) (xs : List DriverOffer)
    → find_first (λ (x : DriverOffer). x.id == id) xs ≡ some o
    → can_accept now id driver_id o ≡ true
    → a.order_id ≡ o.order_id
    → (o' : DriverOffer) × (find_first
          (λ (x : DriverOffer). x.id == id)
          (update_where
            (λ (x : DriverOffer). x.id == id)
            (λ x. record x { assignment_id = some a.id })
            (update_where
              (can_accept now id driver_id)
              (set_answer OfferStatus.accepted now (some user_id))
              xs))
        ≡ some o')
      × IsTaken user_id a o o'
IsTaken-row id driver_id user_id now a o xs held open_one same_order =
    let here = λ (x : DriverOffer). x.id == id in
    let f = set_answer OfferStatus.accepted now (some user_id) in
    let g = λ (x : DriverOffer). record x { assignment_id = some a.id } in
    let p = can_accept now id driver_id in
    let first = find_first-update_where p here f xs (λ x. refl) in
    let second = find_first-update_where here here g (update_where p f xs) (λ x. refl) in
    let own : here o ≡ true = find_first_sound here xs o held in
    (g (f o), ground (arith, first, second), (refl, refl, refl, refl, same_order))

claimed-IsTaken :
    (on : Bool) (user : AuthenticatedUser) (id : ℕ) (w v : World) (a : OrderAssignment)
    (o : DriverOffer)
    → Distinct (λ (x : DriverOffer). x.id) w.offers
    → offer_of id w ≡ some o
    → claim_order on (accept_hooks id o.driver_id user.id) user o.order_id o.vehicle_id w
      ≡ (ok a, v)
    → (o' : DriverOffer) × ((can_accept w.now id o.driver_id o ≡ true) × (offer_of id v ≡ some o'))
      × IsTaken user.id a o o'
claimed-IsTaken on user id w v a o distinct held claimed =
    let h = accept_hooks id o.driver_id user.id in
    let (driver_id, x, _, written, same) =
      claim_order-hooks on h user o.order_id o.vehicle_id w v a claimed in
    let (t, u, t', y, took, kept, linked, of_order, _) =
      write_claim-hooks h user.id o.order_id driver_id o.vehicle_id w x a written in
    let (can, answered) = take_offer-ok id o.driver_id user.id w u t o distinct held took in
    let (o', row, taken) =
      IsTaken-row id o.driver_id user.id w.now a o w.offers held can of_order in
    let g = λ (x : DriverOffer). record x { assignment_id = some a.id } in
    let here = λ (x : DriverOffer). x.id == id in
    let last : v.offers ≡ update_where here g y.offers = same ∙ sym (ap (λ r. r.1.offers) linked) in
    (
      o',
      (can, ap (find_first here) (last ∙ ap (update_where here g) (kept ∙ answered)) ∙ row),
      taken,
    )

find_own_offer-ok :
    (user : AuthenticatedUser) (id : ℕ) (w w' : World) (o : DriverOffer)
    → find_own_offer user id w ≡ (ok o, w')
    → (w' ≡ w)
      × (offer_of id w ≡ some o)
      × ((d : DriverProfile) × (driver_of user w ≡ some d) × (o.driver_id ≡ d.id))
unfolding find_own_offer
find_own_offer-ok user id w w' o found = elim (Option-cases (driver_of user w)) [
  | inl no_driver ↦ absurd (ground arith)
  | inr (d, driving) ↦ elim (Option-cases (offer_of id w)) [
    | inl no_offer ↦ absurd (ground arith)
    | inr (x, held) ↦
        let it : x ≡ o = ground arith in
        let mine : (x.driver_id == d.id) ≡ true = ground arith in
        (
          ground arith,
          held ∙ ap (λ k. some k) it,
          (
            d,
            driving,
            sym (ap (λ (k : DriverOffer). k.driver_id) it) ∙ (==_iff x.driver_id d.id).0 mine,
          ),
        )
  ]
]

-- A driver takes an offer only if it is an offer to that driver which is still pending and not past
-- its deadline; then the offer is ACCEPTED by the caller and linked to the new assignment, which is
-- of the offer's order. The ids of the offers are taken to be distinct.
pub accept_offer-takes :
    (on : Bool) (user : AuthenticatedUser) (id : ℕ) (w w' : World) (a : OrderAssignment)
    → Distinct (λ (x : DriverOffer). x.id) w.offers
    → accept_offer on user id w ≡ (ok a, w')
    → (o : DriverOffer) × (o' : DriverOffer) × (d : DriverProfile) × (offer_of id w ≡ some o)
      × (driver_of user w ≡ some d)
      × (o.driver_id ≡ d.id)
      × (can_accept w.now id o.driver_id o ≡ true)
      × (offer_of id w' ≡ some o')
      × IsTaken user.id a o o'
unfolding accept_offer
accept_offer-takes on user id w w' a distinct accepted =
    elim (Outcome-cases (find_own_offer user id w)) [
      | inr (e, u, missing) ↦ absurd (ground arith)
      | inl (o, u, found) ↦
          let (at_w, held, own) = find_own_offer-ok user id w u o found in
          let (d, driving, mine) = own in
          let h = accept_hooks id o.driver_id user.id in
          elim (Outcome-cases (claim_order on h user o.order_id o.vehicle_id u)) [
            | inr (e, v, refused) ↦ absurd (ground arith)
            | inl (b, v, claimed) ↦
                let it : b ≡ a = ground arith in
                let table : w'.offers ≡ v.offers = ground arith in
                let claimed_w : claim_order on h user o.order_id o.vehicle_id w ≡ (ok a, v) =
                  subst (λ k. claim_order on h user o.order_id o.vehicle_id k ≡ (ok a, v)) at_w
                    (subst (λ k. claim_order on h user o.order_id o.vehicle_id u ≡ (ok k, v)) it
                      claimed) in
                let (o', is_now, taken) =
                  claimed-IsTaken on user id w v a o distinct held claimed_w in
                (
                  o,
                  o',
                  d,
                  held,
                  driving,
                  mine,
                  is_now.0,
                  ap (find_first (λ (x : DriverOffer). x.id == id)) table ∙ is_now.1,
                  taken,
                )
          ]
    ]
