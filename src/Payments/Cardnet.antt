-- ===== src/Payments/Cardnet.antt =====
-- src/modules/billing/payments/payments.service.ts: payments by card on the page of CardNET. The
-- gateway and the random numbers are parameters.
use transport_api.Common.{
  Bool, Option, any, count_where, false, find_first, if◌then◌else◌, is_value, none, not, select,
  some, true, update_where, ℕ, ◌&&◌, ◌==◌, ◌||◌,
}
use transport_api.Common.Action.{
  Action, Error, bad_gateway, bad_request, forbidden, gets, modify, ok, or_throw, pure,
  resource_conflict, resource_not_found, throw_if, transaction, ◌>>=◌, ◌>>◌,
}
use transport_api.Domain.{PaymentStatus, PaymentTransactionsType, PaymentsTransactionsStatus}
use transport_api.Orders.Policy.{is_paid}
use transport_api.Orders.Roles.{is_staff}
use transport_api.Orders.Settlement.{create_refund}
use transport_api.Payments.{
  add_transaction, customer_payable_order_statuses, is_covered, payment_of, payments_of,
  sync_order_after_payment, terminal_payment_statuses,
}
use transport_api.Payments.Manual.{set_payment_status}
use transport_api.World.{
  AuthenticatedUser, CustomerProfile, Emit, Payment, Refund, TransportOrder, World, emit, order_of,
}

-- `ResponseCode`: `'00'`, `'09'`, or anything else.
pub data ResponseCode : Type 0 where
  code_00 code_09 other_code : ResponseCode

-- `getResult`, with the fields that are compared or read for the status.
pub record CardnetResult : Type 0 where
  pub order_code : Option ℕ
  pub transaction_id : Option ℕ
  pub response_code : ResponseCode

-- `CardnetGateway`, and `buildCardnetPayload` as far as it may throw.
pub record CardnetGateway : Type 0 where
  pub build_payload : TransportOrder → Option Error
  pub create_session : Payment → Option ℕ
  pub get_result : ℕ → Option CardnetResult

abbrev pub has_session : ℕ → Payment → Bool
has_session session p = elim p.cardnet [ none ↦ false | some c ↦ is_value c.session_id session ]

abbrev pub payment_of_session : ℕ → World → Option Payment
payment_of_session session w = find_first (has_session session) w.payments

abbrev pub has_session_key : Payment → Bool
has_session_key p = elim p.cardnet [ none ↦ false | some c ↦ c.has_session_key ]

-- `paymentStatusFromCardnetResponse`
abbrev pub payment_status_from_response : ResponseCode → PaymentStatus
payment_status_from_response code_00 = PaymentStatus.paid
payment_status_from_response code_09 = PaymentStatus.processing
payment_status_from_response other_code = PaymentStatus.failed

-- `transactionStatusFromPaymentStatus`
abbrev pub transaction_status_from : PaymentStatus → PaymentsTransactionsStatus
transaction_status_from PaymentStatus.paid = PaymentsTransactionsStatus.success
transaction_status_from PaymentStatus.processing = PaymentsTransactionsStatus.pending
transaction_status_from PaymentStatus.pending = PaymentsTransactionsStatus.pending
transaction_status_from _ = PaymentsTransactionsStatus.failed

abbrev pub differs : Option ℕ → ℕ → Bool
differs none b = false
differs (some a) b = not (a == b)

abbrev pub is_other_transaction : CardnetResult → Payment → Bool
is_other_transaction r p = elim p.cardnet [
  | none ↦ false
  | some c ↦ differs r.transaction_id c.transaction_id
]

-- The conditional write: a payment that is settled is left alone.
abbrev pub is_unsettled : ℕ → Payment → Bool
is_unsettled id p = p.id == id && not (terminal_payment_statuses p.status)

unfoldable pub settle_payment : ℕ → PaymentStatus → World → World
settle_payment id status w = record w {
  payments = update_where (is_unsettled id) (set_payment_status status) w.payments;
}

-- `rejectedCaptureReason`, as whether there is one
unfoldable pub is_rejected_capture : Payment → World → Bool
is_rejected_capture p w = elim (order_of p.order_id w) [
  | none ↦ true
  | some o ↦
      not (customer_payable_order_statuses o.status)
      || is_covered o (select (λ (x : Payment). not (x.id == p.id)) (payments_of p.order_id w))
]

-- `requestRefundForCapture`
unfoldable pub request_refund_for_capture : Payment → World → World
request_refund_for_capture p w =
    if any (λ (r : Refund). r.payment_id == p.id) w.refunds
    then w
    else create_refund p p.order_id p.amount w

unfoldable pub apply_capture : Payment → PaymentStatus → Action World (Payment × Bool)
apply_capture p status = do
  modify (
      add_transaction p.id PaymentTransactionsType.capture p.amount
        (transaction_status_from status))
  rejected ← gets (λ w. is_paid status && is_rejected_capture p w)
  modify (if rejected then request_refund_for_capture p else sync_order_after_payment p.order_id)
  pure (p, rejected)

-- The transaction of `verifyCardnetPaymentBySession`.
unfoldable pub write_verification : ℕ → PaymentStatus → Action World (Payment × Bool)
write_verification id status = do
  claimed ← gets (λ w. count_where (is_unsettled id) w.payments)
  modify (settle_payment id status)
  updated ← or_throw (← gets (payment_of id)) resource_not_found
  let applied = apply_capture updated status
  if claimed == 0 then pure (updated, false) else applied

abbrev pub alert_capture : Payment × Bool → World → World
alert_capture r w = if r.1 then emit (Emit.operators_notified r.0.order_id) w else w

-- `verifyCardnetPaymentBySession`, once the payment is found open
unfoldable pub verify_open : CardnetGateway → ℕ → Payment → Action World Payment
verify_open gateway session payment = do
  throw_if (not (has_session_key payment)) bad_gateway
  result ← or_throw (gateway.get_result session) bad_gateway
  throw_if (differs result.order_code payment.order_id) resource_conflict
  throw_if (is_other_transaction result payment) resource_conflict
  verified ←
      transaction
        (write_verification payment.id (payment_status_from_response result.response_code))
  modify (alert_capture verified)
  pure verified.0

-- `verifyCardnetPaymentBySession`
unfoldable pub verify_by_session : CardnetGateway → ℕ → Action World Payment
verify_by_session gateway session = do
  payment ← or_throw (← gets (payment_of_session session)) resource_not_found
  let opened = verify_open gateway session payment
  if terminal_payment_statuses payment.status then pure payment else opened

-- `assertCanReadPayment`
unfoldable pub assert_can_read_payment : Payment → AuthenticatedUser → Action World (Unit {0})
assert_can_read_payment p user w =
    let owner = λ (o : TransportOrder).
      any (λ (c : CustomerProfile). c.id == o.customer_id && c.user_id == user.id) w.customers in
    throw_if
      (not (is_staff user) && elim (order_of p.order_id w) [ none ↦ true | some o ↦ not (owner o) ])
      forbidden w

-- `verifyCardnetPayment`
unfoldable pub verify_cardnet_payment :
    CardnetGateway → ℕ → AuthenticatedUser → Action World Payment
verify_cardnet_payment gateway id user = do
  payment ← or_throw (← gets (payment_of id)) resource_not_found
  assert_can_read_payment payment user
  columns ← or_throw payment.cardnet bad_request
  session ← or_throw columns.session_id bad_request
  verify_by_session gateway session

-- What follows a cancellation that moved the payment.
abbrev pub void_session : ℕ → Payment → World → World
void_session claimed p w =
    if claimed == 0
    then w
    else add_transaction p.id PaymentTransactionsType.void p.amount
        PaymentsTransactionsStatus.failed (sync_order_after_payment p.order_id w)

unfoldable pub write_void : ℕ → Action World Payment
write_void id = do
  claimed ← gets (λ w. count_where (is_unsettled id) w.payments)
  modify (settle_payment id PaymentStatus.cancelled)
  updated ← or_throw (← gets (payment_of id)) resource_not_found
  modify (void_session claimed updated)
  pure updated

-- `cancelCardnetPaymentBySession`
unfoldable pub cancel_by_session : ℕ → Action World (Option Payment)
cancel_by_session session w = elim (payment_of_session session w) [
  | none ↦ (ok none, w)
  | some p ↦
      if terminal_payment_statuses p.status
      then (ok (some p), w)
      else (transaction (write_void p.id) >>= λ updated. pure (some updated)) w
]
