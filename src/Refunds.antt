-- ===== src/Refunds.antt =====
-- src/modules/billing/refunds/refunds.service.ts: refunds that operations return by hand.
pub mod Solvency
pub mod Final
use transport_api.Common.{
  Bool, Option, any, count_where, false, find_first, if◌then◌else◌, is_none, leb, ltb, none, not,
  some, suc, sum_where, true, update_where, ℕ, ◌&&◌, ◌-◌, ◌==◌, ◌||◌, ◌∷◌,
}
use transport_api.Common.Action.{
  Action, bad_request, gets, modify, or_throw, pure, resource_conflict, resource_not_found,
  throw_if, transaction, ◌>>=◌, ◌>>◌,
}
use transport_api.Domain.{
  PaymentStatus, PaymentTransactionsType, PaymentsRefundStatus, PaymentsTransactionsStatus,
}
use transport_api.Orders.Policy.{is_authorized, is_paid}
use transport_api.Orders.Settlement.{is_corporate_credit}
use transport_api.Orders.Settlement.Loops.{committed, is_open}
use transport_api.Orders.Status.{is_cancelled, move_order}
use transport_api.World.{Audit, Payment, Refund, World, order_of}

-- `REFUNDABLE_PAYMENT_STATUSES`
abbrev pub refundable_payment_statuses : PaymentStatus → Bool
refundable_payment_statuses PaymentStatus.paid = true
refundable_payment_statuses PaymentStatus.authorized = true
refundable_payment_statuses _ = false

abbrev pub is_pending_refund : PaymentsRefundStatus → Bool
is_pending_refund PaymentsRefundStatus.pending = true
is_pending_refund _ = false

abbrev pub is_success_refund : PaymentsRefundStatus → Bool
is_success_refund PaymentsRefundStatus.success = true
is_success_refund _ = false

abbrev pub payment_of : ℕ → World → Option Payment
payment_of id w = find_first (λ (p : Payment). p.id == id) w.payments

abbrev pub refund_of : ℕ → World → Option Refund
refund_of id w = find_first (λ (r : Refund). r.id == id) w.refunds

-- What the open and the paid refunds of a payment add up to: `committed` in the code.
abbrev pub committed_on : ℕ → World → ℕ
committed_on payment_id w =
    sum_where (λ (r : Refund). r.payment_id == payment_id && is_open r.status)
      (λ (r : Refund). r.amount) w.refunds

abbrev pub add_audit : Audit → World → World
add_audit a w = record w { audits = a ∷ w.audits }

abbrev pub new_refund : Payment → ℕ → World → Refund
new_refund payment amount w = record {
  id = w.next_id;
  payment_id = payment.id;
  order_id = payment.order_id;
  amount = amount;
  status = PaymentsRefundStatus.pending;
  provider_reference = none;
}

abbrev pub insert_refund : Refund → World → World
insert_refund r w =
    add_audit (Audit.refund_requested r.id)
      (record w { next_id = suc w.next_id; refunds = r ∷ w.refunds })

-- `RefundsService.create`; the amount is in whole cents, so `amount <= 0` is `amount == 0`.
unfoldable pub create : ℕ → ℕ → Action World Refund
create payment_id amount = transaction (do
  payment ← or_throw (← gets (payment_of payment_id)) resource_not_found
  throw_if (is_corporate_credit payment.payment_method) resource_conflict
  throw_if (not (refundable_payment_statuses payment.status)) resource_conflict
  committed ← gets (committed_on payment.id)
  throw_if (amount == 0 || ltb (payment.amount - committed) amount) bad_request
  refund ← gets (new_refund payment amount)
  modify (insert_refund refund)
  pure refund)

-- What is paid out of a payment.
abbrev pub refunded_on : ℕ → World → ℕ
refunded_on payment_id w =
    sum_where (λ (r : Refund). r.payment_id == payment_id && is_success_refund r.status)
      (λ (r : Refund). r.amount) w.refunds

abbrev pub holds_money : ℕ → World → Bool
holds_money order_id w =
    any (λ (p : Payment). p.order_id == order_id && (is_paid p.status || is_authorized p.status))
      w.payments

-- The payment becomes REFUNDED once nothing of it is left. The foreign key of the refund keeps the
-- payment, so that `findUniqueOrThrow` does not throw.
unfoldable pub mark_payment : ℕ → World → World
mark_payment payment_id w = elim (payment_of payment_id w) [
  | none ↦ w
  | some payment ↦
      if leb payment.amount (refunded_on payment_id w)
      then record w {
        payments =
            update_where (λ (p : Payment). p.id == payment_id)
              (λ p. record p { status = PaymentStatus.refunded }) w.payments;
      }
      else w
]

-- A cancelled order whose money is all returned becomes REFUNDED.
unfoldable pub mark_order : ℕ → World → World
mark_order order_id w = elim (order_of order_id w) [
  | none ↦ w
  | some order ↦
      if is_cancelled order.status && not (holds_money order_id w)
      then move_order order_id (λ o. record o { payment_status = PaymentStatus.refunded }) w
      else w
]

-- `applyRefund`
unfoldable pub apply_refund : Refund → World → World
apply_refund refund w =
    let w₁ = record w {
      transactions =
          record {
            payment_id = refund.payment_id;
            transaction_type = PaymentTransactionsType.refund;
            status = PaymentsTransactionsStatus.success;
            amount = refund.amount;
          }
          ∷ w.transactions;
    } in
    mark_order refund.order_id (mark_payment refund.payment_id w₁)

-- The rows that the compare-and-set of `updateStatus` moves.
abbrev pub is_open_row : ℕ → Refund → Bool
is_open_row id r = r.id == id && is_pending_refund r.status

abbrev pub set_refund_status : PaymentsRefundStatus → Option ℕ → Refund → Refund
set_refund_status s reference r = record r { status = s; provider_reference = reference }

abbrev pub move_refund : ℕ → PaymentsRefundStatus → Option ℕ → World → World
move_refund id s reference w = record w {
  refunds = update_where (is_open_row id) (set_refund_status s reference) w.refunds;
}

abbrev pub finish_refund : PaymentsRefundStatus → Refund → World → World
finish_refund s refund w =
    if is_success_refund s
    then add_audit (Audit.refund_completed refund.id) (apply_refund refund w)
    else add_audit (Audit.refund_failed refund.id) w

-- The transaction of `updateStatus`.
unfoldable pub record_status : ℕ → PaymentsRefundStatus → Option ℕ → Action World Refund
record_status id s reference = do
  moved ← gets (λ w. count_where (is_open_row id) w.refunds)
  exists ← gets (refund_of id)
  throw_if (not (moved == 1)) (if is_none exists then resource_not_found else resource_conflict)
  modify (move_refund id s reference)
  refund ← or_throw (← gets (refund_of id)) resource_not_found
  modify (finish_refund s refund)
  or_throw (← gets (refund_of id)) resource_not_found

-- `RefundsService.updateStatus`; the reference is the trimmed text, and `none` where that is empty.
unfoldable pub update_status : ℕ → PaymentsRefundStatus → Option ℕ → Action World Refund
update_status id s reference = do
  throw_if (is_pending_refund s) bad_request
  throw_if (is_success_refund s && is_none reference) bad_request
  transaction (record_status id s reference)
