-- ===== src/Orders/Create/Placed.antt =====
-- orders.service.ts, `create`: what a call that returns has checked, and what its transaction wrote.
use transport_api.Common.{
  Bool-cases, Option-cases, any, any-update_where, arith, count_where, false, inl, inr, some, subst,
  suc, sym, true, update_where, ℕ, ◌==◌, ◌∷◌, ◌≡◌,
}
use transport_api.Common.Action.{ok}
use transport_api.Common.Sorting.{sort}
use transport_api.Domain.{EventType}
use transport_api.Orders.Create.{
  can_claim, claim_quote, commit_order, insert_order, new_order, reserve, spend, uses_quote,
}
use transport_api.Orders.Trip.{
  CreateOrder, CreateOrderStop, assert_order_matches_quote, ends_of, goes_before, near,
}
use transport_api.World.{
  Coordinates, CustomerProfile, PriceQuote, QuotedRoute, TransportOrder, World, add_event,
}

-- The trip that was quoted: one pickup and one dropoff, each near its end of the quoted route.
abbrev pub IsQuotedTrip : (Coordinates → Coordinates → ℕ) → CreateOrder → PriceQuote → Type 0
IsQuotedTrip meters dto quote =
    (route : QuotedRoute) × (pickup : CreateOrderStop) × (dropoff : CreateOrderStop) × (quote.route
      ≡ some route)
    × (ends_of (sort goes_before dto.stops) ≡ some (pickup, dropoff))
    × (near meters pickup route.origin ≡ true)
    × (near meters dropoff route.destination ≡ true)

pub matched-IsQuotedTrip :
    (meters : Coordinates → Coordinates → ℕ) (dto : CreateOrder) (quote : PriceQuote) (w t : World)
    → assert_order_matches_quote meters dto quote w ≡ (ok tt, t)
    → IsQuotedTrip meters dto quote × (t ≡ w)
unfolding assert_order_matches_quote
matched-IsQuotedTrip meters dto quote w t passed = elim (Option-cases quote.route) [
  | inl none_quoted ↦ absurd (ground arith)
  | inr (route, quoted) ↦ elim (Option-cases (ends_of (sort goes_before dto.stops))) [
    | inl other_shape ↦ absurd (ground arith)
    | inr ((a, b), ends) ↦ ((route, a, b, quoted, ends, ground arith, ground arith), ground arith)
  ]
]

reserve-keeps :
    (dto : CreateOrder) (id : ℕ) (w : World)
    → ((reserve dto id w).orders ≡ w.orders)
      × ((reserve dto id w).quotes ≡ w.quotes)
      × ((reserve dto id w).now ≡ w.now)
unfolding reserve
reserve-keeps dto id w = elim (Option-cases dto.schedule_at) [
  | inl unset ↦ ground arith
  | inr (at, set) ↦ ground arith
]

-- A transaction that returns found no order on the quote and one row to claim.
pub commit_order-places :
    (user_id : ℕ) (c : CustomerProfile) (q : PriceQuote) (dto : CreateOrder) (w w' : World)
    (o : TransportOrder)
    → commit_order user_id c q dto w ≡ (ok o, w')
    → (any (uses_quote q.id) w.orders ≡ false)
      × (o ≡ new_order w.next_id c q dto)
      × (w'.orders ≡ new_order w.next_id c q dto ∷ w.orders)
      × (w'.quotes ≡ update_where (can_claim w.now q.id c.id) (spend w.next_id true) w.quotes)
      × (w'.now ≡ w.now)
unfolding commit_order insert_order claim_quote
commit_order-places user_id c q dto w w' o returned =
    elim (Bool-cases (any (uses_quote q.id) w.orders)) [
      | inl taken ↦ absurd (ground arith)
      | inr unused ↦ elim (Bool-cases (count_where (can_claim w.now q.id c.id) w.quotes == 1)) [
        | inl one ↦
            let inserted : World = record w {
              next_id = suc w.next_id;
              orders = new_order w.next_id c q dto ∷ w.orders;
            } in
            let claimed : World = record (add_event w.next_id EventType.created user_id inserted) {
              quotes = update_where (can_claim w.now q.id c.id) (spend w.next_id true) w.quotes;
            } in
            let kept = reserve-keeps dto w.next_id claimed in
            (unused, ground arith, ground (arith, kept), ground (arith, kept), ground (arith, kept))
        | inr gone ↦ absurd (ground arith)
      ]
    ]

spent_row :
    (now quote_id customer_id order_id : ℕ) (q : PriceQuote)
    → can_claim now quote_id customer_id (spend order_id true q) ≡ false
spent_row now quote_id customer_id order_id q = ground arith

-- After it, the quote cannot be claimed again.
pub commit_order-spends :
    (user_id : ℕ) (c : CustomerProfile) (q : PriceQuote) (dto : CreateOrder) (w w' : World)
    (o : TransportOrder)
    → commit_order user_id c q dto w ≡ (ok o, w')
    → any (can_claim w'.now q.id c.id) w'.quotes ≡ false
commit_order-spends user_id c q dto w w' o returned =
    let (unused, new, orders, quotes, at) = commit_order-places user_id c q dto w w' o returned in
    let claim = can_claim w.now q.id c.id in
    let spent =
      any-update_where claim claim (spend w.next_id true) w.quotes
        (λ x h. spent_row w.now q.id c.id w.next_id x) (λ x h. h) in
    subst (λ qs. any (can_claim w'.now q.id c.id) qs ≡ false) (sym quotes)
      (subst
        (λ now.
          any (can_claim now q.id c.id) (update_where claim (spend w.next_id true) w.quotes)
          ≡ false)
        (sym at) spent)
