-- ===== src/Orders/Cancel/Money.antt =====
-- orders.service.ts, `cancel`: the money of a cancellation, as it is recorded and as the customer
-- was shown it before.
use transport_api.Common.{
  List, ap, ltb, refl, select, sum_where, update_where, ℕ, ◌+◌, ◌==◌, ◌∙◌, ◌∷◌, ◌≡◌,
}
use transport_api.Domain.{StatusOrders}
use transport_api.Orders.Cancel.{CancelPlan, apply_cancel, is_current, set_status, settlement_input}
use transport_api.Orders.Closing.{close_order_reservations, release_order_drivers}
use transport_api.Orders.Policy.{is_collected}
use transport_api.Orders.Settlement.{
  SettlementInput, fee_of, payments_of, settle_closed_order_payments, void_unsettled,
}
use transport_api.Orders.Settlement.Conservation.{holding, money_in, settle_conserves}
use transport_api.Orders.Settlement.Frame.{settle-leaves}
use transport_api.Orders.Settlement.Loops.{fees_booked, is_fee}
use transport_api.World.{CancellationRow, Payment, PaymentTransaction, World}

unsettled_yet : CancelPlan → World → World
unsettled_yet plan w =
    let w₁ = record w {
      orders = update_where (is_current plan) (set_status StatusOrders.cancelled) w.orders;
    } in
    close_order_reservations plan.order_id (release_order_drivers plan.order_id w₁).1

unsettled_yet-money :
    (plan : CancelPlan) (w : World)
    → ((unsettled_yet plan w).payments ≡ w.payments)
      × ((unsettled_yet plan w).transactions ≡ w.transactions)
      × ((unsettled_yet plan w).cancellations ≡ w.cancellations)
unfolding unsettled_yet close_order_reservations release_order_drivers
unsettled_yet-money plan w = (refl, refl, refl)

unsettled_yet-collected :
    (plan : CancelPlan) (w : World)
    → payments_of plan.order_id (void_unsettled plan.order_id (unsettled_yet plan w))
      ≡ payments_of plan.order_id (void_unsettled plan.order_id w)
unfolding unsettled_yet close_order_reservations release_order_drivers void_unsettled
unsettled_yet-collected plan w = refl

settlement-fee :
    (input : SettlementInput) (w : World)
    → (settle_closed_order_payments input w).0.fee_amount
      ≡ fee_of input
          (select is_collected (payments_of input.order_id (void_unsettled input.order_id w)))
unfolding settle_closed_order_payments
settlement-fee input w = refl

-- The row that a committed cancellation writes.
pub row_of : ℕ → CancelPlan → World → CancellationRow
row_of user_id plan w =
    let settlement =
      (settle_closed_order_payments (settlement_input plan) (unsettled_yet plan w)).0 in
    record {
      order_id = plan.order_id;
      cancelled_by = user_id;
      cancellation_type = plan.cancellation_type;
      fee_applied = ltb 0 settlement.fee_amount;
      fee_amount = settlement.fee_amount;
      refund_amount = settlement.refund_amount;
    }

-- The fee of that row is the policy's, on what is collected at that moment.
pub row_of-fee :
    (user_id : ℕ) (plan : CancelPlan) (w : World)
    → (row_of user_id plan w).fee_amount
      ≡ fee_of
          (settlement_input plan)
          (select is_collected (payments_of plan.order_id (void_unsettled plan.order_id w)))
unfolding row_of
row_of-fee user_id plan w =
    settlement-fee (settlement_input plan) (unsettled_yet plan w)
    ∙ ap (λ (ps : List Payment). fee_of (settlement_input plan) (select is_collected ps))
        (unsettled_yet-collected plan w)

-- A committed cancellation records one row, whose fee and refund add up to what the order's
-- payments held, and its fee is booked on the payments in full.
pub apply_cancel_accounts :
    (user_id : ℕ) (plan : CancelPlan) (w : World)
    → let w' = (apply_cancel user_id plan w).1 in
      let c = row_of user_id plan w in
      (w'.cancellations ≡ c ∷ w.cancellations)
      × (c.fee_amount + c.refund_amount ≡ money_in plan.order_id w)
      × (fees_booked w' ≡ fees_booked w + c.fee_amount)
unfolding apply_cancel unsettled_yet row_of
apply_cancel_accounts user_id plan w =
    let input = settlement_input plan in
    let w₃ = unsettled_yet plan w in
    let same = unsettled_yet-money plan w in
    let fee = (settle_closed_order_payments input w₃).0.fee_amount in
    let kept = settle-leaves input w₃ in
    let sums = settle_conserves input w₃ in
    (
      ap (λ (cs : List CancellationRow). row_of user_id plan w ∷ cs) (kept.6 ∙ same.2),
      sums.0 ∙ ap (sum_where (λ (p : Payment). p.order_id == plan.order_id) holding) same.0,
      sums.1
          ∙ ap
              (λ (ts : List PaymentTransaction).
                sum_where is_fee (λ (t : PaymentTransaction). t.amount) ts + fee)
              same.1,
    )
