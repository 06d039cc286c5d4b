-- ===== src/Orders/Closing/Offers.antt =====
-- orders.service.ts, `cancelOpenOffers`: the offers of a closed order.
use transport_api.Common.{
  ==_refl, Bool, List, [], any, any-congr, any-update_where_step, any_unselected, arith, false, not,
  select, some, ℕ, ◌&&◌, ◌==◌, ◌∙◌, ◌∷◌, ◌≡◌,
}
use transport_api.Domain.{OfferStatus}
use transport_api.Orders.Closing.{
  cancel_each_offer, cancel_open_offer, cancel_open_offers, is_pending_offer, revoke_order_rooms,
}
use transport_api.World.{DriverOffer, Emit, World, emit}

-- A pending offer of the order.
abbrev pub is_open_offer : ℕ → DriverOffer → Bool
is_open_offer order_id o = o.order_id == order_id && is_pending_offer o.status

abbrev same_offer : DriverOffer → DriverOffer → Bool
same_offer a b = a.id == b.id

-- The offers that are still open and are not waiting in the loop's list.
abbrev missed : ℕ → List DriverOffer → DriverOffer → Bool
missed order_id os o = is_open_offer order_id o && not (any (same_offer o) os)

cancel_open_offer-missed :
    (order_id : ℕ) (o : DriverOffer) (os : List DriverOffer) (w : World)
    → any (missed order_id (o ∷ os)) w.offers ≡ false
    → any (missed order_id os) (cancel_open_offer o w).offers ≡ false
unfolding cancel_open_offer
cancel_open_offer-missed order_id o os w h =
    let step =
      any-update_where_step (λ (x : DriverOffer). x.id == o.id && is_pending_offer x.status)
        (missed order_id (o ∷ os)) (missed order_id os)
        (λ x. record x { status = OfferStatus.cancelled; responded_at = some w.now }) w.offers
        (λ x k. ground arith) h in
    ground (arith, step)

cancel_each_offer-missed :
    (order_id : ℕ) (os : List DriverOffer) (w : World)
    → any (missed order_id os) w.offers ≡ false
    → any (is_open_offer order_id) (cancel_each_offer os w).offers ≡ false
unfolding cancel_each_offer
cancel_each_offer-missed order_id [] w h =
    any-congr (is_open_offer order_id) (missed order_id []) w.offers (λ o. ground arith) ∙ h
cancel_each_offer-missed order_id (o ∷ os) w h =
    cancel_each_offer-missed order_id os (cancel_open_offer o w)
      (cancel_open_offer-missed order_id o os w h)

-- Once the open offers of an order have been cancelled one by one, none of its offers is open.
pub cancel_open_offers-closes :
    (order_id : ℕ) (w : World)
    → any (is_open_offer order_id) (cancel_open_offers order_id w).offers ≡ false
unfolding cancel_open_offers
cancel_open_offers-closes order_id w =
    cancel_each_offer-missed order_id (select (is_open_offer order_id) w.offers) w
      (any_unselected (is_open_offer order_id) same_offer w.offers (λ o. ==_refl o.id))

-- What the announcements leave alone.
pub record Announced (w w' : World) : Type 0 where
  pub orders : w'.orders ≡ w.orders
  pub assignments : w'.assignments ≡ w.assignments
  pub reservations : w'.reservations ≡ w.reservations
  pub tracking : w'.tracking ≡ w.tracking
  pub payments : w'.payments ≡ w.payments
  pub refunds : w'.refunds ≡ w.refunds

pub Announced-trans : {u v w : World} → Announced u v → Announced v w → Announced u w
Announced-trans f g = record {
  orders = g.orders ∙ f.orders;
  assignments = g.assignments ∙ f.assignments;
  reservations = g.reservations ∙ f.reservations;
  tracking = g.tracking ∙ f.tracking;
  payments = g.payments ∙ f.payments;
  refunds = g.refunds ∙ f.refunds;
}

cancel_open_offer-Announced : (o : DriverOffer) (w : World) → Announced w (cancel_open_offer o w)
unfolding cancel_open_offer
cancel_open_offer-Announced o w = ground arith

cancel_each_offer-Announced :
    (os : List DriverOffer) (w : World) → Announced w (cancel_each_offer os w)
unfolding cancel_each_offer
cancel_each_offer-Announced [] w = ground arith
cancel_each_offer-Announced (o ∷ os) w =
    Announced-trans (cancel_open_offer-Announced o w)
      (cancel_each_offer-Announced os (cancel_open_offer o w))

pub cancel_open_offers-Announced :
    (order_id : ℕ) (w : World) → Announced w (cancel_open_offers order_id w)
unfolding cancel_open_offers
cancel_open_offers-Announced order_id w =
    cancel_each_offer-Announced (select (is_open_offer order_id) w.offers) w

pub revoke_order_rooms-Announced :
    (ds : List ℕ) (order_id : ℕ) (w : World)
    → Announced w (revoke_order_rooms ds order_id w)
      × ((revoke_order_rooms ds order_id w).offers ≡ w.offers)
unfolding revoke_order_rooms
revoke_order_rooms-Announced [] order_id w = ground arith
revoke_order_rooms-Announced (d ∷ ds) order_id w =
    let rest =
      revoke_order_rooms-Announced ds order_id (emit (Emit.order_room_revoked d order_id) w) in
    ground (arith, rest)
