-- ===== src/Offers/Cascade.antt =====
-- src/modules/operations/offers/offers.service.ts, `offerNext`: to whom a cascade goes on, and how
-- long.
use transport_api.Common.{
  ==_iff, All, All-found, Bool, Bool-cases, List, [], any, ap, arith, count_where, false, inl, inr,
  map, not, refl, select, subst, sym, true, update_where, ℕ, ◌&&◌, ◌+◌, ◌<◌, ◌==◌, ◌∙◌, ◌∷◌, ◌≡◌,
  ◌≤◌,
}
use transport_api.Common.Action.{ok}
use transport_api.Domain.{OfferMode}
use transport_api.Offers.{Dispatch, DispatchConfig, Matching, MatchingResult, RankedCandidate}
use transport_api.Offers.Histories.{serve_steps-refines}
use transport_api.Offers.Machine.{
  Answer, IsChoice, Moves, accepts, and_then, answer_offer, answered, cancels, expires, idle,
  link_offer, linked, offered_to, opened, recorded, rejects,
}
use transport_api.Offers.Requests.{DispatchStep, serve_steps}
use transport_api.Orders.Closing.{contains}
use transport_api.World.{DriverOffer, World}

-- The driver had an offer of the order.
abbrev pub was_offered : ℕ → List DriverOffer → ℕ → Bool
was_offered order_id os driver_id =
    any (λ (o : DriverOffer). o.order_id == order_id && o.driver_id == driver_id) os

-- What `rankForOrder` promises of `excludeDriverIds`: who is excluded is no candidate.
abbrev pub LeavesOut : Matching → Type 0
LeavesOut m =
    (order_id : ℕ) (ids : List ℕ) (w : World) (r : MatchingResult)
    → m.rank_for_order order_id ids w ≡ ok r
    → All (λ (c : RankedCandidate). contains c.driver_id ids ≡ false) r.candidates

-- Only drivers of the pool are ever ranked.
abbrev pub RanksPool : Matching → List ℕ → Type 0
RanksPool m pool =
    (order_id : ℕ) (ids : List ℕ) (w : World) (r : MatchingResult)
    → m.rank_for_order order_id ids w ≡ ok r
    → All (λ (c : RankedCandidate). contains c.driver_id pool ≡ true) r.candidates

offered-contains :
    (order_id driver_id : ℕ) (os : List DriverOffer)
    → contains driver_id (
        map
          (λ (o : DriverOffer). o.driver_id)
          (select (λ (o : DriverOffer). o.order_id == order_id) os))
      ≡ was_offered order_id os driver_id
offered-contains order_id driver_id [] = refl
offered-contains order_id driver_id (o ∷ os) =
    ground (arith, offered-contains order_id driver_id os)

-- The drivers of the pool whom the order was not offered to.
abbrev pub drivers_left : ℕ → List DriverOffer → List ℕ → ℕ
drivers_left order_id os pool = count_where (λ dr. not (was_offered order_id os dr)) pool

fewer_left :
    (order_id : ℕ) (o : DriverOffer) (os : List DriverOffer) (pool : List ℕ)
    → drivers_left order_id (o ∷ os) pool ≤ drivers_left order_id os pool
fewer_left order_id o os [] = omega arith
fewer_left order_id o os (x ∷ xs) = ground (arith, fewer_left order_id o os xs)

one_less :
    (o : DriverOffer) (order_id : ℕ) (os : List DriverOffer) (pool : List ℕ)
    → o.order_id ≡ order_id
    → was_offered order_id os o.driver_id ≡ false
    → contains o.driver_id pool ≡ true
    → drivers_left order_id (o ∷ os) pool < drivers_left order_id os pool
one_less o order_id os [] same fresh among = absurd (ground arith)
one_less o order_id os (x ∷ xs) same fresh among = elim (Bool-cases (x == o.driver_id)) [
  | inl it ↦
      let at : x ≡ o.driver_id = (==_iff x o.driver_id).0 it in
      let fresh_x : was_offered order_id os x ≡ false =
        subst (λ k. was_offered order_id os k ≡ false) (sym at) fresh in
      ground (arith, fewer_left order_id o os xs, fresh_x)
  | inr other ↦ ground (arith, one_less o order_id os xs same fresh)
]

abbrev pub is_automatic : OfferMode → Bool
is_automatic OfferMode.auto = true
is_automatic OfferMode.manual = false

-- The automatic offers of an order.
abbrev pub automatic_offers : ℕ → List DriverOffer → ℕ
automatic_offers order_id os =
    count_where (λ (o : DriverOffer). o.order_id == order_id && is_automatic o.mode) os

-- The automatic offers that there are, and those that there can still be.
abbrev potential : ℕ → List ℕ → List DriverOffer → ℕ
potential order_id pool os = automatic_offers order_id os + drivers_left order_id os pool

same_left :
    (order_id : ℕ) (xs ys : List DriverOffer) (pool : List ℕ)
    → ((dr : ℕ) → was_offered order_id ys dr ≡ was_offered order_id xs dr)
    → drivers_left order_id ys pool ≡ drivers_left order_id xs pool
same_left order_id xs ys [] same = refl
same_left order_id xs ys (dr ∷ pool) same =
    ground (arith, same dr, same_left order_id xs ys pool same)

-- A change that leaves what an offer is about.
module _ (p : DriverOffer → Bool) (f : DriverOffer → DriverOffer)
    (same_order : (o : DriverOffer) → (f o).order_id ≡ o.order_id)
    (same_driver : (o : DriverOffer) → (f o).driver_id ≡ o.driver_id)
    (same_mode : (o : DriverOffer) → (f o).mode ≡ o.mode) where
  kept_offered :
      (order_id dr : ℕ) (xs : List DriverOffer)
      → was_offered order_id (update_where p f xs) dr ≡ was_offered order_id xs dr
  kept_offered order_id dr [] = refl
  kept_offered order_id dr (x ∷ xs) =
      ground (arith, same_order x, same_driver x, kept_offered order_id dr xs)

  kept_automatic :
      (order_id : ℕ) (xs : List DriverOffer)
      → automatic_offers order_id (update_where p f xs) ≡ automatic_offers order_id xs
  kept_automatic order_id [] = refl
  kept_automatic order_id (x ∷ xs) =
      ground (arith, same_order x, same_mode x, kept_automatic order_id xs)

  kept_potential :
      (order_id : ℕ) (pool : List ℕ) (xs : List DriverOffer)
      → potential order_id pool (update_where p f xs) ≤ potential order_id pool xs
  kept_potential order_id pool xs = omega (
    arith,
    kept_automatic order_id xs,
    same_left order_id xs (update_where p f xs) pool (λ dr. kept_offered order_id dr xs),
  )

answered_order :
    (now : ℕ) (a : Answer) (o : DriverOffer) → (answer_offer now a o).order_id ≡ o.order_id
answered_order now (accepts user_id) o = refl
answered_order now (rejects user_id) o = refl
answered_order now expires o = refl
answered_order now cancels o = refl

answered_driver :
    (now : ℕ) (a : Answer) (o : DriverOffer) → (answer_offer now a o).driver_id ≡ o.driver_id
answered_driver now (accepts user_id) o = refl
answered_driver now (rejects user_id) o = refl
answered_driver now expires o = refl
answered_driver now cancels o = refl

answered_mode : (now : ℕ) (a : Answer) (o : DriverOffer) → (answer_offer now a o).mode ≡ o.mode
answered_mode now (accepts user_id) o = refl
answered_mode now (rejects user_id) o = refl
answered_mode now expires o = refl
answered_mode now cancels o = refl

module _ (m : Matching) (pool : List ℕ) (leaves_out : LeavesOut m)
    (in_pool : RanksPool m pool) where
  -- A choice of the ranking is of the pool, and had no offer of the order.
  choice_is_new :
      (o : DriverOffer) (xs : List DriverOffer)
      → IsChoice m xs o
      → (was_offered o.order_id xs o.driver_id ≡ false) × (contains o.driver_id pool ≡ true)
  choice_is_new o xs (w, r, best, ranked, found, driver) =
      let ids = offered_to o.order_id xs in
      let apart =
        All-found (λ (x : RankedCandidate). contains x.driver_id ids ≡ false)
          (λ (x : RankedCandidate). x.eta_is_ok) r.candidates best
          (leaves_out o.order_id ids w r ranked) found in
      let among =
        All-found (λ (x : RankedCandidate). contains x.driver_id pool ≡ true)
          (λ (x : RankedCandidate). x.eta_is_ok) r.candidates best
          (in_pool o.order_id ids w r ranked) found in
      (
        subst (λ k. was_offered o.order_id xs k ≡ false) (sym driver)
            (sym (offered-contains o.order_id best.driver_id xs) ∙ apart),
        subst (λ k. contains k pool ≡ true) (sym driver) among,
      )

  Moves-potential :
      (order_id : ℕ) {xs ys : List DriverOffer}
      → Moves m xs ys
      → potential order_id pool ys ≤ potential order_id pool xs
  Moves-potential order_id idle = omega arith
  Moves-potential order_id (answered {xs} now id a p may) =
      kept_potential p (answer_offer now a) (answered_order now a) (answered_driver now a)
        (answered_mode now a) order_id pool xs
  Moves-potential order_id (linked {xs} id assignment_id) =
      kept_potential (λ (o : DriverOffer). o.id == id) (link_offer assignment_id) (λ o. refl)
        (λ o. refl) (λ o. refl) order_id pool xs
  Moves-potential order_id (opened {xs} o fresh choice free) =
      elim (Bool-cases (o.order_id == order_id)) [
        | inr other ↦ ground (arith, fewer_left order_id o xs pool)
        | inl it ↦
            let at : o.order_id ≡ order_id = (==_iff o.order_id order_id).0 it in
            let (new, among) = choice_is_new o xs choice in
            let new_here : was_offered order_id xs o.driver_id ≡ false =
              subst (λ k. was_offered k xs o.driver_id ≡ false) at new in
            ground (arith, one_less o order_id xs pool at new_here among)
      ]
  Moves-potential order_id (recorded {xs} o pick) =
      let by_hand : is_automatic o.mode ≡ false = ap is_automatic pick.0 in
      ground (arith, fewer_left order_id o xs pool)
  Moves-potential order_id (and_then n k) =
      omega (arith, Moves-potential order_id n, Moves-potential order_id k)

-- The cascade of an order ends: whatever reaches the dispatch, in whatever order and for how long,
-- the automatic offers that it adds for an order are at most as many as the drivers of the pool who
-- had no offer of the order at the start, given that the ranking stays in the pool and leaves out
-- the drivers that it is told to.
pub serve_steps-offers_end :
    (c : DispatchConfig) (m : Matching) (on : Bool) (pool : List ℕ) (order_id : ℕ)
    (ss : List DispatchStep) (d : Dispatch)
    → LeavesOut m
    → RanksPool m pool
    → automatic_offers order_id (serve_steps c m on ss d).world.offers
      ≤ automatic_offers order_id d.world.offers + drivers_left order_id d.world.offers pool
serve_steps-offers_end c m on pool order_id ss d leaves_out in_pool =
    omega
      (arith, Moves-potential m pool leaves_out in_pool order_id (serve_steps-refines c m on ss d))
