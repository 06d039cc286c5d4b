-- ===== src/Orders/Policy.antt =====
-- cancellation-policy.ts: who may cancel what, and what it costs. Amounts are whole cents, on which
-- `roundMoney` changes nothing.
use transport_api.Common.{
  ℕ, Bool, true, false, ◌&&◌, ◌||◌, not, List, min, if◌then◌else◌, leb, any, select, sum_by,
}
use transport_api.Common.Int.{ℤ, pos_part}
use transport_api.Domain.{
  StatusOrders, PaymentStatus, PaymentMethod, OrderCancellation, ReservationsStatus,
}
use transport_api.World.{Payment, Reservation}

-- `CUSTOMER_CANCELLABLE_STATUSES`
abbrev pub customer_cancellable_statuses : StatusOrders → Bool
customer_cancellable_statuses StatusOrders.in_progress = false
customer_cancellable_statuses StatusOrders.delivered = false
customer_cancellable_statuses StatusOrders.cancelled = false
customer_cancellable_statuses StatusOrders.failed = false
customer_cancellable_statuses _ = true

-- `DRIVER_COMMITTED_STATUSES`
abbrev pub driver_committed_statuses : StatusOrders → Bool
driver_committed_statuses StatusOrders.assigned = true
driver_committed_statuses StatusOrders.accepted = true
driver_committed_statuses StatusOrders.in_progress = true
driver_committed_statuses _ = false

-- `STAFF_CANCELLATION_TYPES`
abbrev pub staff_cancellation_types : OrderCancellation → Bool
staff_cancellation_types OrderCancellation.system_cancelled = false
staff_cancellation_types _ = true

-- `MANUAL_METHODS`
abbrev pub manual_methods : PaymentMethod → Bool
manual_methods PaymentMethod.check = true
manual_methods PaymentMethod.corporate_credit = true
manual_methods _ = false

abbrev pub is_paid : PaymentStatus → Bool
is_paid PaymentStatus.paid = true
is_paid _ = false

abbrev pub is_authorized : PaymentStatus → Bool
is_authorized PaymentStatus.authorized = true
is_authorized _ = false

abbrev pub is_collected : Payment → Bool
is_collected p = is_paid p.status || (is_authorized p.status && manual_methods p.payment_method)

abbrev pub amount_of : Payment → ℕ
amount_of p = p.amount

unfoldable pub collected_amount : List Payment → ℕ
collected_amount payments = sum_by amount_of (select is_collected payments)

abbrev pub is_customer_cancelled : OrderCancellation → Bool
is_customer_cancelled OrderCancellation.customer_cancelled = true
is_customer_cancelled _ = false

-- `Math.max(ruleFee, 0)` is the positive part of the configured fee.
unfoldable pub cancellation_fee : StatusOrders → OrderCancellation → ℤ → ℕ → Bool → ℕ
cancellation_fee status cancellation_type rule_fee collected past_cancellation_deadline =
    let late = driver_committed_statuses status || past_cancellation_deadline in
    if not (is_customer_cancelled cancellation_type) || not late
    then 0
    else min (pos_part rule_fee) collected

unfoldable pub is_past_cancellation_deadline : List Reservation → ℕ → Bool
is_past_cancellation_deadline reservations now =
    any (λ (r : Reservation). leb r.cancellation_deadline now) reservations

-- `LIVE_RESERVATION_STATUSES`
abbrev pub live_reservation_statuses : ReservationsStatus → Bool
live_reservation_statuses ReservationsStatus.active = true
live_reservation_statuses ReservationsStatus.reschuduled = true
live_reservation_statuses _ = false
