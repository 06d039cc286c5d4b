-- ===== src/Orders/Settlement/OpenRefunds.antt =====
-- orders.service.ts, `settleClosedOrderPayments`: the refunds that it opens, next to those that an
-- order already has. The loops read the payments without their refunds.
use transport_api.Common.{
  All, All-reverse, All-select, All-update_where, List, ap, arith, false, length, ltb, none, refl,
  select, subst, sum_where, sym, true, ℕ, ◌&&◌, ◌+◌, ◌==◌, ◌∙◌, ◌≡◌,
}
use transport_api.Domain.{PaymentStatus}
use transport_api.Orders.Policy.{is_collected}
use transport_api.Orders.Settlement.{
  SettlementInput, Settling, fee_of, is_corporate_credit, is_held, is_unsettled, payments_of,
  run_settlement, settle_closed_order_payments, settle_held, void_unsettled,
}
use transport_api.Orders.Settlement.Conservation.{
  close_payment_status-money, holding, money_in, money_in-void_unsettled,
}
use transport_api.Orders.Settlement.Loops.{
  NoCredit, committed, is_open, settle_collected-committed, settle_collected-moves,
  settle_collected-payments, settle_held-moves, settle_held-payments,
}
use transport_api.World.{Payment, Refund, World}

-- No payment of the order is corporate credit.
abbrev pub NoCreditOn : ℕ → World → Type 0
NoCreditOn order_id w =
    All
      (λ (p : Payment).
        (p.order_id == order_id) ≡ true → is_corporate_credit p.payment_method ≡ false)
      w.payments

void_unsettled-NoCreditOn :
    (order_id : ℕ) (w : World)
    → NoCreditOn order_id w
    → NoCreditOn order_id (void_unsettled order_id w)
unfolding void_unsettled
void_unsettled-NoCreditOn order_id w h =
    All-update_where
      (λ (p : Payment).
        (p.order_id == order_id) ≡ true → is_corporate_credit p.payment_method ≡ false)
      (λ (p : Payment). p.order_id == order_id && is_unsettled p.status)
      (λ p. record p { status = PaymentStatus.cancelled }) w.payments (λ p k. k) h

payments_of-NoCredit :
    (order_id : ℕ) (w : World) → NoCreditOn order_id w → NoCredit (payments_of order_id w)
payments_of-NoCredit order_id w h =
    All-reverse _ (select (λ (p : Payment). p.order_id == order_id) w.payments)
      (All-select _ _ (λ (p : Payment). p.order_id == order_id) w.payments (λ p k e. k e) h)

module _ (input : SettlementInput) (ps : List Payment) (w : World) (cash : NoCredit ps) where
  start_of : Settling
  start_of = record {
    fee_left = fee_of input (select is_collected ps);
    refund_amount = 0;
    still_holds_money = ltb 0 (length (select is_held ps));
    world = w;
  }

  run_settlement-refunds :
      let t = run_settlement input ps w in
      (committed input.order_id t.world ≡ committed input.order_id w + t.refund_amount)
      × (t.world.payments ≡ w.payments)
  unfolding run_settlement start_of
  run_settlement-refunds =
      let collected = select is_collected ps in
      let held = select is_held ps in
      let cash_collected : NoCredit collected = All-select _ _ is_collected ps (λ p k e. k) cash in
      let s₁ = settle_held input.order_id held start_of in
      let first = settle_held-moves input.order_id held start_of in
      let rest = settle_collected-moves input.order_id collected s₁ in
      let opened = settle_collected-committed input.order_id collected s₁ cash_collected in
      let payments =
        settle_collected-payments input.order_id collected s₁ cash_collected
        ∙ settle_held-payments input.order_id held start_of in
      (omega (arith, first, rest, opened), payments)

committed-void_unsettled :
    (id : ℕ) (w : World) (n : ℕ) → committed id (void_unsettled id w) + n ≡ committed id w + n
unfolding void_unsettled
committed-void_unsettled id w n = refl

pub settle_failed_trip-fee :
    (input : SettlementInput) (w : World)
    → input.cancellation_type ≡ none
    → (settle_closed_order_payments input w).0.fee_amount ≡ 0
unfolding settle_closed_order_payments
settle_failed_trip-fee input w e = ground arith

-- Without corporate credit, a settlement opens refunds for exactly the amount that it reports, on
-- top of those that are open or paid out already, and the payments hold what they held.
pub settle-committed :
    (input : SettlementInput) (w : World)
    → NoCreditOn input.order_id w
    → let (settlement, w') = settle_closed_order_payments input w in
      (committed input.order_id w' ≡ committed input.order_id w + settlement.refund_amount)
      × (money_in input.order_id w' ≡ money_in input.order_id w)
      × NoCreditOn input.order_id w'
unfolding settle_closed_order_payments
settle-committed input w none_credit =
    let id = input.order_id in
    let w₁ = void_unsettled id w in
    let ps = payments_of id w₁ in
    let none₁ = void_unsettled-NoCreditOn id w none_credit in
    let run = run_settlement-refunds input ps w₁ (payments_of-NoCredit id w₁ none₁) in
    let same =
      close_payment_status-money id (select is_collected ps) (run_settlement input ps w₁) in
    let payments = same.2 ∙ run.1 in
    let open_rows = λ (rows : List Refund).
      sum_where (λ (r : Refund). r.order_id == id && is_open r.status) (λ r. r.amount) rows in
    let held_rows =
      λ (rows : List Payment). sum_where (λ (p : Payment). p.order_id == id) holding rows in
    (
      ap open_rows same.1 ∙ run.0 ∙ committed-void_unsettled id w _,
      ap held_rows payments ∙ money_in-void_unsettled id w,
      subst
          (All (λ (p : Payment).
            (p.order_id == id) ≡ true → is_corporate_credit p.payment_method ≡ false))
          (sym payments) none₁,
    )
