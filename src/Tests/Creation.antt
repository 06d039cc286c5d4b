-- ===== src/Tests/Creation.antt =====
-- Orders made from quotes.
use transport_api.Common.{
  [], any, count_where, false, find_first, none, refl, some, ℕ, ◌+◌, ◌-◌, ◌==◌, ◌∷◌, ◌≡◌,
}
use transport_api.Common.Action.{err, ok, resource_conflict}
use transport_api.Common.Int.{pos, pos_part}
use transport_api.Domain.{QuoteStatus, ServiceType, TypeCustomer}
use transport_api.Orders.Create.{
  can_claim, claim_quote, commit_order, create_order, insert_order, is_customer_quote, new_order,
  plan_order, reserve, uses_quote,
}
use transport_api.Orders.Create.Placed.{IsQuotedTrip}
use transport_api.Orders.Create.Spent.{commit_order-once, create_order-spends}
use transport_api.Orders.Trip.{CreateOrder, StopType, assert_order_matches_quote}
use transport_api.Tests.Data.{busy_world, rider}
use transport_api.World.{Coordinates, CustomerProfile, PriceQuote, TransportOrder, World}

abbrev home : Coordinates
home = record { latitude = pos 100; longitude = pos 0 }

abbrev office : Coordinates
office = record { latitude = pos 9000; longitude = pos 0 }

-- A distance for the examples: along the meridian, north of the equator.
abbrev meters : Coordinates → Coordinates → ℕ
meters a b =
    (pos_part a.latitude - pos_part b.latitude) + (pos_part b.latitude - pos_part a.latitude)

abbrev offered_quote : PriceQuote
offered_quote = record {
  id = 70;
  customer_id = 3;
  order_id = none;
  vehicle_category_id = 4;
  total_amount = 4500;
  quote_status = QuoteStatus.calculated;
  rate_rule_id = some 5;
  route = some (record { origin = home; destination = office });
  require_helper = false;
  expires_at = 900;
}

abbrev quoted_world : World
quoted_world = record busy_world {
  categories = record { id = 4; max_weight_kg = 1000; max_volumen_m3 = 50 } ∷ [];
  quotes = offered_quote ∷ [];
}

-- The stops come in the wrong order, and the second one is some meters off.
abbrev parcel : CreateOrder
parcel = record {
  quote_id = 70;
  service_type = ServiceType.scheduled;
  schedule_at = some 7200000;
  stops =
      record {
        stop_type = StopType.dropoff;
        sequence = 2;
        location = some (record { latitude = pos 9100; longitude = pos 0 });
      }
      ∷ record { stop_type = StopType.pickup; sequence = 1; location = some home }
      ∷ [];
  items = record { quantity = 2; weight_kg = 300; volume_m3 = none; require_helper = false } ∷ [];
}

abbrev customer : CustomerProfile
customer = record { id = 3; user_id = 7; customer_type = TypeCustomer.business }

abbrev parcel_order : TransportOrder
parcel_order = new_order 100 customer offered_quote parcel

abbrev created_world : World
created_world = (create_order meters rider parcel quoted_world).1

created : create_order meters rider parcel quoted_world ≡ (ok parcel_order, created_world)
unfolding create_order plan_order commit_order assert_order_matches_quote insert_order claim_quote
    reserve
created = refl

create_order-spends_example :
    (c : CustomerProfile) × (q : PriceQuote) × (find_first
        (λ (x : CustomerProfile). x.user_id == 7)
        quoted_world.customers
      ≡ some c)
    × (find_first (is_customer_quote 70 c.id) quoted_world.quotes ≡ some q)
    × IsQuotedTrip meters parcel q
    × (parcel_order.customer_id ≡ c.id)
    × (parcel_order.total_amount ≡ some q.total_amount)
    × (created_world.orders ≡ parcel_order ∷ quoted_world.orders)
    × (count_where (uses_quote q.id) created_world.orders ≡ 1)
    × (any (can_claim created_world.now q.id c.id) created_world.quotes ≡ false)
create_order-spends_example =
    create_order-spends meters rider parcel quoted_world created_world parcel_order created

abbrev committed_world : World
committed_world = (commit_order 7 customer offered_quote parcel quoted_world).1

written :
    commit_order 7 customer offered_quote parcel quoted_world ≡ (ok parcel_order, committed_world)
unfolding commit_order insert_order claim_quote reserve
written = refl

commit_order-once_example :
    commit_order 7 customer offered_quote parcel committed_world
    ≡ (err resource_conflict, committed_world)
commit_order-once_example =
    commit_order-once 7 7 customer customer offered_quote offered_quote parcel parcel quoted_world
      committed_world parcel_order refl written
