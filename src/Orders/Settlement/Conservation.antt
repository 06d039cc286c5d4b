-- ===== src/Orders/Settlement/Conservation.antt =====
-- orders.service.ts, `settleClosedOrderPayments`: no money is lost or made up when an order closes.
use transport_api.Common.{
  List, [], ap, arith, if◌then◌else◌, length, ltb, refl, select, subst, sum_by, sum_by-reverse,
  sum_by-select, sum_where, sum_where-update_where, ℕ, ◌&&◌, ◌+◌, ◌==◌, ◌||◌, ◌∙◌, ◌∷◌, ◌≡◌, ◌≤◌,
}
use transport_api.Domain.{PaymentStatus}
use transport_api.Orders.Policy.{
  amount_of, cancellation_fee, collected_amount, is_authorized, is_collected, is_paid,
}
use transport_api.Orders.Settlement.{
  SettlementInput, Settling, close_payment_status, fee_of, is_held, is_unsettled, payments_of,
  run_settlement, settle_closed_order_payments, settle_held, void_unsettled,
}
use transport_api.Orders.Settlement.Loops.{
  fees_booked, is_fee, settle_collected-moves, settle_held-moves,
}
use transport_api.World.{Payment, PaymentTransaction, World}

-- What a payment holds: captured, or authorized by whatever method.
abbrev pub holding : Payment → ℕ
holding p = if is_paid p.status || is_authorized p.status then p.amount else 0

abbrev pub money_in : ℕ → World → ℕ
money_in order_id w = sum_where (λ (p : Payment). p.order_id == order_id) holding w.payments

-- A fee never exceeds what was collected.
pub fee_of-le :
    (input : SettlementInput) (ps : List Payment) → fee_of input ps ≤ collected_amount ps
unfolding cancellation_fee
fee_of-le input ps = ground arith

pub select-is_collected :
    (ps : List Payment) → select is_collected (select is_collected ps) ≡ select is_collected ps
select-is_collected [] = refl
select-is_collected (p ∷ ps) = ground (arith, select-is_collected ps)

sum-collected-held :
    (ps : List Payment)
    → sum_by amount_of (select is_collected ps) + sum_by amount_of (select is_held ps)
      ≡ sum_by holding ps
sum-collected-held [] = refl
sum-collected-held (p ∷ ps) = ground (arith, sum-collected-held ps)

pub money_in-void_unsettled :
    (order_id : ℕ) (w : World) → money_in order_id (void_unsettled order_id w) ≡ money_in order_id w
unfolding void_unsettled
money_in-void_unsettled order_id w =
    sum_where-update_where (λ (p : Payment). p.order_id == order_id && is_unsettled p.status)
      (λ (p : Payment). p.order_id == order_id) (λ p. record p { status = PaymentStatus.cancelled })
      holding w.payments λ p h. ground arith

sum-payments_of :
    (order_id : ℕ) (w : World) → sum_by holding (payments_of order_id w) ≡ money_in order_id w
sum-payments_of order_id w =
    sum_by-reverse holding (select (λ (p : Payment). p.order_id == order_id) w.payments)
    ∙ sum_by-select (λ (p : Payment). p.order_id == order_id) holding w.payments

pub close_payment_status-money :
    (order_id : ℕ) (ps : List Payment) (s : Settling)
    → ((close_payment_status order_id ps s).transactions ≡ s.world.transactions)
      × ((close_payment_status order_id ps s).refunds ≡ s.world.refunds)
      × ((close_payment_status order_id ps s).payments ≡ s.world.payments)
unfolding close_payment_status
close_payment_status-money order_id ps s = ground arith

-- The fee that is kept, and what the loops leave, from the payments that they read.
module _ (input : SettlementInput) (ps : List Payment) (w : World) where
  run_settlement-moves :
      let t = run_settlement input ps w in
      let fee = fee_of input (select is_collected ps) in
      (t.refund_amount + fee ≡ sum_by holding ps) × (fees_booked t.world ≡ fees_booked w + fee)
  unfolding run_settlement collected_amount
  run_settlement-moves =
      let collected = select is_collected ps in
      let held = select is_held ps in
      let start : Settling = record {
        fee_left = fee_of input collected;
        refund_amount = 0;
        still_holds_money = ltb 0 (length held);
        world = w;
      } in
      let first = settle_held-moves input.order_id held start in
      let t = settle_held input.order_id held start in
      let rest = settle_collected-moves input.order_id collected t in
      let total = sum-collected-held ps in
      let bound : fee_of input collected ≤ sum_by amount_of collected =
        subst (λ l. fee_of input collected ≤ sum_by amount_of l) (select-is_collected ps)
          (fee_of-le input collected) in
      (omega (arith, first, rest, total, bound), omega (arith, first, rest, total, bound))

-- The fee and the refund of a settlement add up to what the order's payments hold, captured or
-- authorized, and the fee is booked exactly once: the fee transactions grow by it.
pub settle_conserves :
    (input : SettlementInput) (w : World)
    → let (settlement, w') = settle_closed_order_payments input w in
      (settlement.fee_amount + settlement.refund_amount ≡ money_in input.order_id w)
      × (fees_booked w' ≡ fees_booked w + settlement.fee_amount)
unfolding settle_closed_order_payments void_unsettled
settle_conserves input w =
    let w₁ = void_unsettled input.order_id w in
    let ps = payments_of input.order_id w₁ in
    let moves = run_settlement-moves input ps w₁ in
    let held = sum-payments_of input.order_id w₁ ∙ money_in-void_unsettled input.order_id w in
    let same =
      close_payment_status-money input.order_id (select is_collected ps)
        (run_settlement input ps w₁) in
    let booked = ap (sum_where is_fee (λ (t : PaymentTransaction). t.amount)) same.0 in
    (omega (arith, moves, held), booked ∙ moves.1)
