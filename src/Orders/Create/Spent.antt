-- ===== src/Orders/Create/Spent.antt =====
-- orders.service.ts, `create`: the order, its quote and its price.
use transport_api.Common.{
  ==_iff, ==_refl, Bool, List, Option-cases, [], any, arith, count_where, false, find_first, inl,
  inr, refl, some, subst, sym, true, ℕ, ◌==◌, ◌∷◌, ◌≡◌,
}
use transport_api.Common.Action.{Outcome-cases, err, ok, resource_conflict}
use transport_api.Orders.Create.{
  announce_order, can_claim, commit_order, create_order, insert_order, is_customer_quote,
  plan_order, uses_quote,
}
use transport_api.Orders.Create.Placed.{
  IsQuotedTrip, commit_order-places, commit_order-spends, matched-IsQuotedTrip,
}
use transport_api.Orders.Trip.{CreateOrder, assert_order_matches_quote}
use transport_api.World.{
  AuthenticatedUser, Coordinates, CustomerProfile, PriceQuote, TransportOrder, VehicleCategory,
  World,
}

plan_order-checks :
    (meters : Coordinates → Coordinates → ℕ) (user : AuthenticatedUser) (dto : CreateOrder)
    (w t : World) (c : CustomerProfile) (q : PriceQuote)
    → plan_order meters user dto w ≡ (ok (c, q), t)
    → (find_first (λ (x : CustomerProfile). x.user_id == user.id) w.customers ≡ some c)
      × (find_first (is_customer_quote dto.quote_id c.id) w.quotes ≡ some q)
      × IsQuotedTrip meters dto q
      × (t ≡ w)
unfolding plan_order
plan_order-checks meters user dto w t c q planned =
    elim (Option-cases (find_first (λ (x : CustomerProfile). x.user_id == user.id) w.customers)) [
      | inl stranger ↦ absurd (ground arith)
      | inr (c', known) ↦
          elim (Option-cases (find_first (is_customer_quote dto.quote_id c'.id) w.quotes)) [
            | inl unknown ↦ absurd (ground arith)
            | inr (q', quoted) ↦
                elim (Option-cases (
                  find_first (λ (x : VehicleCategory). x.id == q'.vehicle_category_id)
                    w.categories)) [
                      | inl missing ↦ absurd (ground arith)
                      | inr (category, found) ↦
                          elim (Outcome-cases (assert_order_matches_quote meters dto q' w)) [
                            | inl (u, s, passed) ↦
                                let (trip, same) = matched-IsQuotedTrip meters dto q' w s passed in
                                let it : q' ≡ q = ground arith in
                                (
                                  ground arith,
                                  ground arith,
                                  subst (IsQuotedTrip meters dto) it trip,
                                  ground arith,
                                )
                            | inr (e, s, refused) ↦ absurd (ground arith)
                          ]
                    ]
          ]
    ]

count_where_none :
    {A : Type 0} (p : A → Bool) (xs : List A) → any p xs ≡ false → count_where p xs ≡ 0
count_where_none p [] none_yet = refl
count_where_none p (x ∷ xs) none_yet = ground (arith, count_where_none p xs)

-- An order that was created belongs to the caller, costs what a quote of the caller's own says, and
-- is the trip of that quote. It is the newest row, no other order is on the quote, and the customer
-- cannot claim the quote again.
pub create_order-spends :
    (meters : Coordinates → Coordinates → ℕ) (user : AuthenticatedUser) (dto : CreateOrder)
    (w w' : World) (o : TransportOrder)
    → create_order meters user dto w ≡ (ok o, w')
    → (c : CustomerProfile) × (q : PriceQuote) × (find_first
          (λ (x : CustomerProfile). x.user_id == user.id)
          w.customers
        ≡ some c)
      × (find_first (is_customer_quote dto.quote_id c.id) w.quotes ≡ some q)
      × IsQuotedTrip meters dto q
      × (o.customer_id ≡ c.id)
      × (o.total_amount ≡ some q.total_amount)
      × (w'.orders ≡ o ∷ w.orders)
      × (count_where (uses_quote q.id) w'.orders ≡ 1)
      × (any (can_claim w'.now q.id c.id) w'.quotes ≡ false)
unfolding create_order
create_order-spends meters user dto w w' o created =
    elim (Outcome-cases (plan_order meters user dto w)) [
      | inr (e, t, refused) ↦ absurd (ground arith)
      | inl ((c, q), t, planned) ↦
          let (known, quoted, trip, same) = plan_order-checks meters user dto w t c q planned in
          elim (Outcome-cases (commit_order user.id c q dto w)) [
            | inr (e, t', conflict) ↦ absurd (ground arith)
            | inl (o', w₁, written) ↦
                let (unused, new, orders, quotes, at) =
                  commit_order-places user.id c q dto w w₁ o' written in
                let it : o' ≡ o = ground arith in
                let rows : w'.orders ≡ w₁.orders = ground arith in
                let tail = count_where_none (uses_quote q.id) w.orders unused in
                let spent = commit_order-spends user.id c q dto w w₁ o' written in
                let finished : w' ≡ announce_order user.id o' w₁ = ground arith in
                (
                  c,
                  q,
                  known,
                  quoted,
                  trip,
                  ground arith,
                  ground arith,
                  ground arith,
                  ground (arith, ==_refl q.id),
                  subst (λ v. any (can_claim v.now q.id c.id) v.quotes ≡ false) (sym finished)
                      spent,
                )
          ]
    ]

-- Of two requests that both hold a plan on one quote, only the first gets an order: the other one's
-- transaction is refused as a conflict and leaves everything as it was.
pub commit_order-once :
    (m n : ℕ) (c d : CustomerProfile) (q r : PriceQuote) (dto other : CreateOrder) (w w' : World)
    (o : TransportOrder)
    → q.id ≡ r.id
    → commit_order m c q dto w ≡ (ok o, w')
    → commit_order n d r other w' ≡ (err resource_conflict, w')
unfolding commit_order insert_order
commit_order-once m n c d q r dto other w w' o same first =
    let (unused, new, orders, quotes, at) = commit_order-places m c q dto w w' o first in
    let taken : any (uses_quote r.id) w'.orders ≡ true =
      subst (λ os. any (uses_quote r.id) os ≡ true) (sym orders)
        (ground (arith, (==_iff q.id r.id).1 same)) in
    ground arith
