-- ===== src/Orders/Settlement.antt =====
-- orders.service.ts: `settleClosedOrderPayments` and `releaseCorporateCredit`, what an order that
-- ends without being delivered does with its money.
pub mod Loops
pub mod Rounds
pub mod Frame
pub mod Conservation
pub mod OpenRefunds
use transport_api.Common.{
  Bool, List, Option, [], false, find_first, if◌then◌else◌, length, ltb, min, none, not, reverse,
  select, some, suc, true, update_where, ℕ, ◌&&◌, ◌+◌, ◌-◌, ◌==◌, ◌∷◌,
}
use transport_api.Common.Int.{pos, ℤ, ◌-ℤ◌}
use transport_api.Domain.{
  OrderCancellation, PaymentMethod, PaymentStatus, PaymentTransactionsType, PaymentsRefundStatus,
  PaymentsTransactionsStatus, StatusOrders,
}
use transport_api.Orders.Policy.{cancellation_fee, collected_amount, is_authorized, is_collected}
use transport_api.World.{CustomerCreditAccount, Payment, TransportOrder, World}

abbrev pub is_unsettled : PaymentStatus → Bool
is_unsettled PaymentStatus.pending = true
is_unsettled PaymentStatus.processing = true
is_unsettled _ = false

abbrev pub is_corporate_credit : PaymentMethod → Bool
is_corporate_credit PaymentMethod.corporate_credit = true
is_corporate_credit _ = false

-- `tx.refund.create` with the status PENDING
unfoldable pub create_refund : Payment → ℕ → ℕ → World → World
create_refund payment order_id amount w = record w {
  next_id = suc w.next_id;
  refunds =
      record {
        id = w.next_id;
        payment_id = payment.id;
        order_id = order_id;
        amount = amount;
        status = PaymentsRefundStatus.pending;
        provider_reference = none;
      }
      ∷ w.refunds;
}

-- `tx.paymentTransaction.create` with the status SUCCESS
unfoldable pub create_transaction : Payment → PaymentTransactionsType → ℕ → World → World
create_transaction payment type amount w = record w {
  transactions =
      record {
        payment_id = payment.id;
        transaction_type = type;
        amount = amount;
        status = PaymentsTransactionsStatus.success;
      }
      ∷ w.transactions;
}

-- The last step of `releaseCorporateCredit`: the authorization shrinks to the fee, or is over.
abbrev pub shrink_authorization : ℕ → Payment → Payment
shrink_authorization kept p =
    if ltb 0 kept then record p { amount = kept } else record p { status = PaymentStatus.refunded }

release_to_account : Payment → ℕ → ℕ → ℕ → CustomerCreditAccount → World → World
unfolding create_transaction
release_to_account payment kept released order_id account w =
    let after = account.balance_used -ℤ pos released in
    let w₁ = record w {
      credit_accounts =
          update_where (λ (a : CustomerCreditAccount). a.id == account.id)
            (λ a. record a { balance_used = a.balance_used -ℤ pos released }) w.credit_accounts;
      credit_movements =
          record {
            credit_account_id = account.id;
            order_id = order_id;
            payment_id = payment.id;
            amount = released;
            balance_after = after;
          }
          ∷ w.credit_movements;
      payments =
          update_where (λ (p : Payment). p.id == payment.id) (shrink_authorization kept) w.payments;
    } in
    create_transaction payment PaymentTransactionsType.refund released w₁

unfoldable pub release_corporate_credit : Payment → ℕ → ℕ → ℕ → World → World
unfolding release_to_account
release_corporate_credit payment kept released order_id w =
    elim (find_first (λ (a : CustomerCreditAccount). a.customer_id == payment.customer_id)
      w.credit_accounts) [
        | none ↦ w
        | some account ↦ release_to_account payment kept released order_id account w
      ]

-- The variables that the loops of `settleClosedOrderPayments` assign, with the state.
pub record Settling : Type 0 where
  pub fee_left : ℕ
  pub refund_amount : ℕ
  pub still_holds_money : Bool
  pub world : World

-- One round of `for (const payment of held)`.
unfoldable pub settle_held_payment : ℕ → Payment → Settling → Settling
unfolding create_refund
settle_held_payment order_id payment s = record s {
  refund_amount = s.refund_amount + payment.amount;
  world = create_refund payment order_id payment.amount s.world;
}

-- One round of `for (const payment of collected)`: the fee is kept first ...
unfoldable pub keep_fee : Payment → Settling → Settling
unfolding create_transaction
keep_fee payment s =
    let kept = min s.fee_left payment.amount in
    if ltb 0 kept
    then record s {
      fee_left = s.fee_left - kept;
      still_holds_money = true;
      world = create_transaction payment PaymentTransactionsType.cancellation_fee kept s.world;
    }
    else s

-- ... and what is left of the payment goes back.
unfoldable pub release_rest : ℕ → Payment → ℕ → Settling → Settling
unfolding create_refund release_corporate_credit
release_rest order_id payment kept s =
    let released = payment.amount - kept in
    if released == 0
    then s
    else if is_corporate_credit payment.payment_method
    then record s {
      refund_amount = s.refund_amount + released;
      world = release_corporate_credit payment kept released order_id s.world;
    }
    else record s {
      refund_amount = s.refund_amount + released;
      still_holds_money = true;
      world = create_refund payment order_id released s.world;
    }

unfoldable pub settle_collected_payment : ℕ → Payment → Settling → Settling
settle_collected_payment order_id payment s =
    release_rest order_id payment (min s.fee_left payment.amount) (keep_fee payment s)

unfoldable pub settle_held : ℕ → List Payment → Settling → Settling
settle_held order_id [] s = s
settle_held order_id (p ∷ ps) s = settle_held order_id ps (settle_held_payment order_id p s)

unfoldable pub settle_collected : ℕ → List Payment → Settling → Settling
settle_collected order_id [] s = s
settle_collected order_id (p ∷ ps) s =
    settle_collected order_id ps (settle_collected_payment order_id p s)

-- Attempts still in flight are voided.
unfoldable pub void_unsettled : ℕ → World → World
void_unsettled order_id w = record w {
  payments =
      update_where (λ (p : Payment). p.order_id == order_id && is_unsettled p.status)
        (λ p. record p { status = PaymentStatus.cancelled }) w.payments;
}

-- `findMany` ordered by `createdAt`, oldest first
abbrev pub payments_of : ℕ → World → List Payment
payments_of order_id w = reverse (select (λ (p : Payment). p.order_id == order_id) w.payments)

abbrev pub is_held : Payment → Bool
is_held p = is_authorized p.status && not (is_collected p)

pub record SettlementInput : Type 0 where
  pub order_id : ℕ
  pub status : StatusOrders
  pub cancellation_type : Option OrderCancellation
  pub rule_fee : ℤ
  pub past_cancellation_deadline : Bool

pub record Settlement : Type 0 where
  pub fee_amount : ℕ
  pub refund_amount : ℕ

abbrev pub fee_of : SettlementInput → List Payment → ℕ
fee_of input collected = elim input.cancellation_type [
  | none ↦ 0
  | some type ↦
      cancellation_fee input.status type input.rule_fee (collected_amount collected)
        input.past_cancellation_deadline
]

-- The order's `paymentStatus` once nothing is held any more.
unfoldable pub close_payment_status : ℕ → List Payment → Settling → World
close_payment_status order_id collected s =
    if s.still_holds_money then s.world else record (s.world) {
      orders =
          update_where (λ (o : TransportOrder). o.id == order_id)
            (λ o. record o {
              payment_status =
                  if ltb 0 (length collected)
                  then PaymentStatus.refunded
                  else PaymentStatus.cancelled;
            })
            s.world.orders;
    }

-- The loops of `settleClosedOrderPayments` from the payments that it reads.
unfoldable pub run_settlement : SettlementInput → List Payment → World → Settling
run_settlement input payments w =
    let collected = select is_collected payments in
    let held = select is_held payments in
    let start : Settling = record {
      fee_left = fee_of input collected;
      refund_amount = 0;
      still_holds_money = ltb 0 (length held);
      world = w;
    } in
    settle_collected input.order_id collected (settle_held input.order_id held start)

unfoldable pub settle_closed_order_payments : SettlementInput → World → Settlement × World
settle_closed_order_payments input w₀ =
    let w = void_unsettled input.order_id w₀ in
    let payments = payments_of input.order_id w in
    let collected = select is_collected payments in
    let s = run_settlement input payments w in
    let settlement : Settlement = record {
      fee_amount = fee_of input collected;
      refund_amount = s.refund_amount;
    } in
    (settlement, close_payment_status input.order_id collected s)
