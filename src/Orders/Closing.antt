-- ===== src/Orders/Closing.antt =====
-- orders.service.ts: what closing an order does to its driver, its reservation and its offers; and
-- pricing.service.ts: the cancellation fee of the rule that an order was priced with.
pub mod Offers
use transport_api.Common.{
  Bool, List, Option, [], any, count_where, false, find_first, if◌then◌else◌, leb, ltb, map, none,
  not, select, some, true, update_where, ℕ, ◌&&◌, ◌==◌, ◌||◌, ◌∷◌,
}
use transport_api.Common.Int.{lt_ℤ, pos, pos_part, ℤ}
use transport_api.Domain.{
  AssignmentStatus, OfferStatus, ReservationsStatus, StatusDriver, StatusOrders, TrackingSessions,
}
use transport_api.Orders.Policy.{live_reservation_statuses}
use transport_api.World.{
  DriverOffer, DriverProfile, Emit, OrderAssignment, PriceQuote, RateRule, Reservation,
  TrackingSession, TransportOrder, World, emit,
}

-- `ACTIVE_ASSIGNMENT_STATUSES`
abbrev pub active_assignment_statuses : AssignmentStatus → Bool
active_assignment_statuses AssignmentStatus.pending = true
active_assignment_statuses AssignmentStatus.accepted = true
active_assignment_statuses _ = false

-- `ACTIVE_DRIVER_ORDER_STATUSES`
abbrev pub active_driver_order_statuses : StatusOrders → Bool
active_driver_order_statuses StatusOrders.assigned = true
active_driver_order_statuses StatusOrders.accepted = true
active_driver_order_statuses StatusOrders.in_progress = true
active_driver_order_statuses _ = false

-- `DRIVER_RELEASE_STATUSES`
abbrev pub driver_release_statuses : StatusOrders → Bool
driver_release_statuses StatusOrders.cancelled = true
driver_release_statuses StatusOrders.failed = true
driver_release_statuses _ = false

abbrev pub is_busy : StatusDriver → Bool
is_busy StatusDriver.busy = true
is_busy _ = false

abbrev pub is_live_tracking : TrackingSessions → Bool
is_live_tracking TrackingSessions.active = true
is_live_tracking _ = false

abbrev pub is_pending_offer : OfferStatus → Bool
is_pending_offer OfferStatus.pending = true
is_pending_offer _ = false

-- An assignment that keeps its driver on the order.
abbrev pub holds_order : ℕ → OrderAssignment → Bool
holds_order order_id a = a.order_id == order_id && active_assignment_statuses a.assignment_status

-- `[...new Set(ids)]`
abbrev pub dedup : List ℕ → List ℕ
dedup [] = []
dedup (x ∷ xs) = x ∷ select (λ y. not (y == x)) (dedup xs)

abbrev pub contains : ℕ → List ℕ → Bool
contains x xs = any (λ y. y == x) xs

-- A live assignment of the driver on another order that is under way.
abbrev pub has_other_trip : ℕ → World → ℕ → Bool
has_other_trip order_id w driver_id =
    any
      (λ (a : OrderAssignment).
        a.driver_id == driver_id
        && not (a.order_id == order_id)
        && active_assignment_statuses a.assignment_status
        && any (λ (o : TransportOrder). o.id == a.order_id && active_driver_order_statuses o.status)
            w.orders)
      w.assignments

cancel_assignments : ℕ → World → World
cancel_assignments order_id w = record w {
  assignments =
      update_where (holds_order order_id)
        (λ (a : OrderAssignment). record a { assignment_status = AssignmentStatus.cancelled })
        w.assignments;
}

-- Only a driver who was BUSY and has no other trip comes back as AVAILABLE.
free_drivers : ℕ → List ℕ → World → World
free_drivers order_id driver_ids w = record w {
  drivers =
      update_where
        (λ (d : DriverProfile).
          contains d.id driver_ids
          && is_busy d.availability_status
          && not (has_other_trip order_id w d.id))
        (λ d. record d { availability_status = StatusDriver.available }) w.drivers;
}

end_tracking : ℕ → World → World
end_tracking order_id w = record w {
  tracking =
      update_where (λ (t : TrackingSession). t.order_id == order_id && is_live_tracking t.status)
        (λ t. record t { status = TrackingSessions.ended; ended_at = some w.now }) w.tracking;
}

-- `releaseOrderDrivers`; where no assignment is live, the two updates reach no row.
unfoldable pub release_order_drivers : ℕ → World → List ℕ × World
unfolding cancel_assignments free_drivers end_tracking
release_order_drivers order_id w =
    let active = select (holds_order order_id) w.assignments in
    let driver_ids = dedup (map (λ (a : OrderAssignment). a.driver_id) active) in
    let w₁ = free_drivers order_id driver_ids (cancel_assignments order_id w) in
    (driver_ids, end_tracking order_id w₁)

-- `closeOrderReservations`
unfoldable pub close_order_reservations : ℕ → World → World
close_order_reservations order_id w = record w {
  reservations =
      update_where
        (λ (r : Reservation).
          r.order_id == order_id && live_reservation_statuses r.reservation_status)
        (λ r. record r { reservation_status = ReservationsStatus.cancelled }) w.reservations;
}

-- One round of `cancelOpenOffers`: a compare-and-set, announced if it moved the offer.
cancel_open_offer : DriverOffer → World → World
cancel_open_offer offer w =
    let where_open = λ (o : DriverOffer). o.id == offer.id && is_pending_offer o.status in
    let w₁ = record w {
      offers =
          update_where where_open
            (λ o. record o { status = OfferStatus.cancelled; responded_at = some w.now }) w.offers;
    } in
    if count_where where_open w.offers == 1
    then emit (Emit.offer_updated offer.id OfferStatus.cancelled) w₁
    else w₁

cancel_each_offer : List DriverOffer → World → World
cancel_each_offer [] w = w
cancel_each_offer (o ∷ os) w = cancel_each_offer os (cancel_open_offer o w)

-- `cancelOpenOffers`
unfoldable pub cancel_open_offers : ℕ → World → World
unfolding cancel_each_offer cancel_open_offer
cancel_open_offers order_id w =
    cancel_each_offer
      (select (λ (o : DriverOffer). o.order_id == order_id && is_pending_offer o.status) w.offers) w

-- `revokeOrderRooms`
unfoldable pub revoke_order_rooms : List ℕ → ℕ → World → World
revoke_order_rooms [] order_id w = w
revoke_order_rooms (d ∷ ds) order_id w =
    revoke_order_rooms ds order_id (emit (Emit.order_room_revoked d order_id) w)

-- `activeDriverIds`
abbrev pub active_driver_ids : ℕ → World → List ℕ
active_driver_ids order_id w =
    map (λ (a : OrderAssignment). a.driver_id) (select (holds_order order_id) w.assignments)

-- `activeRateCardWhere`, on the category
abbrev pub active_rate_card : ℕ → ℕ → RateRule → Bool
active_rate_card now category r =
    r.vehicle_category_id == category
    && r.card_is_active
    && leb r.card_valid_from now
    && elim r.card_valid_to [ none ↦ true | some until ↦ leb now until ]

-- The order of `findActiveRule`: the card's priority, then the newest rule.
abbrev pub outranks : RateRule → RateRule → Bool
outranks a b =
    lt_ℤ b.card_priority a.card_priority
    || (not (lt_ℤ a.card_priority b.card_priority) && ltb b.created_at a.created_at)

best_rule : List RateRule → Option RateRule
best_rule [] = none
best_rule (r ∷ rs) = elim (best_rule rs) [
  | none ↦ some r
  | some best ↦ if outranks best r then some best else some r
]

unfoldable pub find_active_rule : ℕ → World → Option RateRule
unfolding best_rule
find_active_rule category w = best_rule (select (active_rate_card w.now category) w.rate_rules)

abbrev pub rule_by_id : Option ℕ → World → Option RateRule
rule_by_id none w = none
rule_by_id (some id) w = find_first (λ (r : RateRule). r.id == id) w.rate_rules

abbrev pub quote_of : TransportOrder → World → Option PriceQuote
quote_of o w = elim o.quote_id [
  | none ↦ none
  | some id ↦ find_first (λ (q : PriceQuote). q.id == id) w.quotes
]

abbrev pub priced_rule_id : Option PriceQuote → Option ℕ
priced_rule_id none = none
priced_rule_id (some q) = q.rate_rule_id

-- `cancellationFeeFor`: the rule that priced the order, else today's rule, else no fee.
unfoldable pub cancellation_fee_for : TransportOrder → World → ℤ
unfolding find_active_rule
cancellation_fee_for o w =
    let fee = λ (r : RateRule). pos (pos_part r.cancellation_fee) in
    elim (rule_by_id (priced_rule_id (quote_of o w)) w) [
      | some r ↦ fee r
      | none ↦ elim (find_active_rule o.vehicle_category_id w) [ none ↦ pos 0 | some r ↦ fee r ]
    ]
