-- ===== src/Orders/FeePreview.antt =====
-- cancellation-fees.service.ts: what cancelling would cost the customer right now.
pub mod Agreement
use transport_api.Common.{
  Bool, List, Option, [], false, if◌then◌else◌, ltb, min, none, not, select, some, true, ℕ, ◌&&◌,
  ◌-◌, ◌==◌, ◌||◌, ◌∷◌,
}
use transport_api.Common.Action.{Action, gets, or_throw, resource_not_found, ◌>>=◌, ◌>>◌}
use transport_api.Domain.{OrderCancellation, StatusOrders}
use transport_api.Orders.Cancel.{live_reservations}
use transport_api.Orders.Closing.{cancellation_fee_for}
use transport_api.Orders.Policy.{
  cancellation_fee, collected_amount, customer_cancellable_statuses, is_past_cancellation_deadline,
}
use transport_api.Orders.Roles.{is_staff}
use transport_api.World.{AuthenticatedUser, Payment, Reservation, TransportOrder, World, order_of}

pub record CancellationFeePreview : Type 0 where
  pub order_id : ℕ
  pub cancellable : Bool
  pub fee_applied : Bool
  pub fee_amount : ℕ
  pub refund_amount : ℕ
  pub free_cancellation_until : Option ℕ

-- `TERMINAL_STATUSES`
abbrev pub terminal_statuses : StatusOrders → Bool
terminal_statuses StatusOrders.delivered = true
terminal_statuses StatusOrders.failed = true
terminal_statuses StatusOrders.cancelled = true
terminal_statuses _ = false

abbrev pub is_cancellable : AuthenticatedUser → TransportOrder → Bool
is_cancellable user o =
    not (terminal_statuses o.status) && (is_staff user || customer_cancellable_statuses o.status)

-- The earliest deadline: the reservations are read in that order.
abbrev earliest_deadline : List Reservation → Option ℕ
earliest_deadline [] = none
earliest_deadline (r ∷ rs) = elim (earliest_deadline rs) [
  | none ↦ some r.cancellation_deadline
  | some d ↦ some (min r.cancellation_deadline d)
]

abbrev pub preview_of : AuthenticatedUser → TransportOrder → World → CancellationFeePreview
preview_of user o w =
    let live = live_reservations o.id w in
    let collected = collected_amount (select (λ (p : Payment). p.order_id == o.id) w.payments) in
    let cancellable = is_cancellable user o in
    let fee =
      if cancellable
      then cancellation_fee o.status OrderCancellation.customer_cancelled (cancellation_fee_for o w)
          collected (is_past_cancellation_deadline live w.now)
      else 0 in
    record {
      order_id = o.id;
      cancellable = cancellable;
      fee_applied = ltb 0 fee;
      fee_amount = fee;
      refund_amount = if cancellable then collected - fee else 0;
      free_cancellation_until = earliest_deadline live;
    }

-- `CancellationFeesService.calculate`
unfoldable pub calculate : ℕ → AuthenticatedUser → Action World CancellationFeePreview
calculate order_id user = do
  order ← or_throw (← gets (order_of order_id)) resource_not_found
  gets (preview_of user order)
