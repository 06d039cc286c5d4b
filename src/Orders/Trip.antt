-- ===== src/Orders/Trip.antt =====
-- src/modules/transport/orders/orders.service.ts and dto/create-order.dto.ts: what a new order asks for,
-- and whether that is the trip that its quote has priced.
use transport_api.Common.{
  Bool, List, Option, [], any, false, if◌then◌else◌, leb, ltb, none, not, some, sum_by, true, ℕ,
  ◌&&◌, ◌*◌, ◌||◌, ◌∷◌,
}
use transport_api.Common.Action.{Action, bad_request, or_throw, throw_if, ◌>>=◌, ◌>>◌}
use transport_api.Common.Sorting.{sort}
use transport_api.Domain.{QuoteStatus, ServiceType}
use transport_api.World.{Coordinates, PriceQuote, VehicleCategory, World}

pub data StopType : Type 0 where
  pickup dropoff intermediate : StopType

-- A stop may come without coordinates.
pub record CreateOrderStop : Type 0 where
  pub stop_type : StopType
  pub sequence : ℕ
  pub location : Option Coordinates

-- Weights and volumes are in the smallest unit of their columns.
pub record CreateOrderItem : Type 0 where
  pub quantity : ℕ
  pub weight_kg : ℕ
  pub volume_m3 : Option ℕ
  pub require_helper : Bool

pub record CreateOrder : Type 0 where
  pub quote_id : ℕ
  pub service_type : ServiceType
  pub schedule_at : Option ℕ
  pub stops : List CreateOrderStop
  pub items : List CreateOrderItem

-- `CONSUMABLE_QUOTE_STATUSES`
abbrev pub consumable_quote_statuses : QuoteStatus → Bool
consumable_quote_statuses QuoteStatus.provisional = true
consumable_quote_statuses QuoteStatus.calculated = true
consumable_quote_statuses QuoteStatus.sent = true
consumable_quote_statuses _ = false

abbrev pub volume_or_zero : Option ℕ → ℕ
volume_or_zero none = 0
volume_or_zero (some volume) = volume

abbrev pub total_weight_kg : List CreateOrderItem → ℕ
total_weight_kg items = sum_by (λ (i : CreateOrderItem). i.weight_kg * i.quantity) items

abbrev pub total_volume_m3 : List CreateOrderItem → ℕ
total_volume_m3 items =
    sum_by (λ (i : CreateOrderItem). volume_or_zero i.volume_m3 * i.quantity) items

-- `assertVehicleCategoryCapacity`
abbrev pub assert_vehicle_category_capacity :
    CreateOrder → VehicleCategory → Action World (Unit {0})
assert_vehicle_category_capacity dto category = do
  throw_if (ltb category.max_weight_kg (total_weight_kg dto.items)) bad_request
  throw_if (ltb category.max_volumen_m3 (total_volume_m3 dto.items)) bad_request

-- `QUOTE_STOP_TOLERANCE_METERS`
abbrev pub quote_stop_tolerance_meters : ℕ
quote_stop_tolerance_meters = 150

abbrev pub is_pickup : StopType → Bool
is_pickup StopType.pickup = true
is_pickup _ = false

abbrev pub is_dropoff : StopType → Bool
is_dropoff StopType.dropoff = true
is_dropoff _ = false

-- `near`; the distance is computed in floating point, so that it is a parameter.
abbrev pub near : (Coordinates → Coordinates → ℕ) → CreateOrderStop → Coordinates → Bool
near meters stop place = elim stop.location [
  | none ↦ false
  | some location ↦ leb (meters location place) quote_stop_tolerance_meters
]

abbrev pub goes_before : CreateOrderStop → CreateOrderStop → Bool
goes_before a b = leb a.sequence b.sequence

-- The two ends of a trip that has no other stops.
abbrev pub ends_of : List CreateOrderStop → Option (CreateOrderStop × CreateOrderStop)
ends_of (a ∷ b ∷ []) = if is_pickup a.stop_type && is_dropoff b.stop_type then some (a, b) else none
ends_of _ = none

-- `assertOrderMatchesQuote`
unfoldable pub assert_order_matches_quote :
    (Coordinates → Coordinates → ℕ) → CreateOrder → PriceQuote → Action World (Unit {0})
assert_order_matches_quote meters dto quote = do
  route ← or_throw quote.route bad_request
  ends ← or_throw (ends_of (sort goes_before dto.stops)) bad_request
  throw_if (not (near meters ends.0 route.origin) || not (near meters ends.1 route.destination))
      bad_request
  throw_if (not quote.require_helper && any (λ (i : CreateOrderItem). i.require_helper) dto.items)
      bad_request
