-- ===== src/Orders/Create.antt =====
-- src/modules/transport/orders/orders.service.ts, `create` and `claimQuote`: how a customer's
-- order is made from a quote.
pub mod Placed
pub mod Spent
use transport_api.Common.{
  Bool, any, count_where, false, find_first, if◌then◌else◌, is_none, is_value, ltb, none, not, some,
  suc, true, update_where, ℕ, ◌&&◌, ◌*◌, ◌-◌, ◌==◌, ◌||◌, ◌∷◌,
}
use transport_api.Common.Action.{
  Action, bad_request, gets, modify, or_throw, pure, resource_conflict, resource_not_found,
  throw_if, transaction, ◌>>=◌, ◌>>◌,
}
use transport_api.Domain.{
  EventType, PaymentStatus, QuoteStatus, ReservationsStatus, ServiceType, StatusOrders,
}
use transport_api.Orders.Access.{get_customer_profile}
use transport_api.Orders.Trip.{
  CreateOrder, assert_order_matches_quote, assert_vehicle_category_capacity,
  consumable_quote_statuses,
}
use transport_api.World.{
  AuthenticatedUser, Coordinates, CustomerProfile, Emit, PriceQuote, Reservation, TransportOrder,
  VehicleCategory, World, add_event, emit,
}

abbrev pub is_scheduled : ServiceType → Bool
is_scheduled ServiceType.scheduled = true
is_scheduled ServiceType.inmediate = false

abbrev pub is_customer_quote : ℕ → ℕ → PriceQuote → Bool
is_customer_quote id customer_id q = q.id == id && q.customer_id == customer_id

-- What `create` decides before its transaction: whose order it is, and from which quote. A quote
-- always has the category that its foreign key names.
unfoldable pub plan_order :
    (Coordinates → Coordinates → ℕ)
    → AuthenticatedUser
    → CreateOrder
    → Action World (CustomerProfile × PriceQuote)
plan_order meters user dto = do
  customer ← get_customer_profile user.id
  quote ←
      or_throw (← gets (λ w. find_first (is_customer_quote dto.quote_id customer.id) w.quotes))
        resource_not_found
  now ← gets (λ w. w.now)
  throw_if (ltb quote.expires_at now) bad_request
  throw_if (not (is_none quote.order_id) || not (consumable_quote_statuses quote.quote_status))
      resource_conflict
  throw_if (is_scheduled dto.service_type && is_none dto.schedule_at) bad_request
  category ←
      or_throw
        (← gets (λ w.
          find_first (λ (c : VehicleCategory). c.id == quote.vehicle_category_id) w.categories))
        resource_not_found
  assert_vehicle_category_capacity dto category
  assert_order_matches_quote meters dto quote
  pure (customer, quote)

abbrev pub new_order : ℕ → CustomerProfile → PriceQuote → CreateOrder → TransportOrder
new_order id customer quote dto = record {
  id = id;
  customer_id = customer.id;
  quote_id = some quote.id;
  vehicle_category_id = quote.vehicle_category_id;
  service_type = dto.service_type;
  status = StatusOrders.pending_payment;
  schedule_at = dto.schedule_at;
  pickup_at = none;
  delivered_at = none;
  total_amount = some quote.total_amount;
  payment_status = PaymentStatus.pending;
}

abbrev pub uses_quote : ℕ → TransportOrder → Bool
uses_quote quote_id o = is_value o.quote_id quote_id

-- `transportOrder.create`, under the unique index on `quotes_id`, whose violation is a conflict.
unfoldable pub insert_order : ℕ → TransportOrder → ℕ → Action World (Unit {0})
insert_order user_id o quote_id = do
  throw_if (← gets (λ w. any (uses_quote quote_id) w.orders)) resource_conflict
  modify (λ w.
      add_event o.id EventType.created user_id
        (record w { next_id = suc w.next_id; orders = o ∷ w.orders }))

abbrev pub can_claim : ℕ → ℕ → ℕ → PriceQuote → Bool
can_claim now quote_id customer_id q =
    q.id == quote_id
    && q.customer_id == customer_id
    && is_none q.order_id
    && consumable_quote_statuses q.quote_status
    && ltb now q.expires_at

abbrev pub spend : ℕ → Bool → PriceQuote → PriceQuote
spend order_id accepts q = record q {
  order_id = some order_id;
  quote_status = if accepts then QuoteStatus.accepted else q.quote_status;
}

-- `claimQuote`
unfoldable pub claim_quote : ℕ → ℕ → ℕ → Bool → Action World (Unit {0})
claim_quote quote_id customer_id order_id accepts = do
  claimed ← gets (λ w. count_where (can_claim w.now quote_id customer_id) w.quotes)
  modify (λ w. record w {
    quotes = update_where (can_claim w.now quote_id customer_id) (spend order_id accepts) w.quotes;
  })
  throw_if (not (claimed == 1)) resource_conflict

abbrev pub reservation_for : ℕ → ℕ → ℕ → Reservation
reservation_for id order_id schedule_at = record {
  id = id;
  order_id = order_id;
  reserved_for = schedule_at;
  reservation_status = ReservationsStatus.active;
  reschedule_count = 0;
  cancellation_deadline = schedule_at - 60 * 60000;
}

unfoldable pub reserve : CreateOrder → ℕ → World → World
reserve dto order_id w = elim dto.schedule_at [
  | none ↦ w
  | some schedule_at ↦ if not (is_scheduled dto.service_type) then w else record w {
    next_id = suc w.next_id;
    reservations = reservation_for w.next_id order_id schedule_at ∷ w.reservations;
  }
]

-- The transaction of `create`
unfoldable pub commit_order :
    ℕ → CustomerProfile → PriceQuote → CreateOrder → Action World TransportOrder
commit_order user_id customer quote dto = transaction (do
  order ← gets (λ w. new_order w.next_id customer quote dto)
  insert_order user_id order quote.id
  claim_quote quote.id customer.id order.id true
  modify (reserve dto order.id)
  pure order)

abbrev pub announce_order : ℕ → TransportOrder → World → World
announce_order user_id o w =
    emit (Emit.operators_notified o.id) (emit (Emit.order_created o.id user_id) w)

-- `OrdersService.create`
unfoldable pub create_order :
    (Coordinates → Coordinates → ℕ) → AuthenticatedUser → CreateOrder → Action World TransportOrder
create_order meters user dto = do
  plan ← plan_order meters user dto
  order ← commit_order user.id plan.0 plan.1 dto
  modify (announce_order user.id order)
  pure order
