-- ===== src/Payments/Checkout.antt =====
-- src/modules/billing/payments/payments.service.ts: where a customer starts a payment, by the checkout
-- of a provider or on the page of CardNET.
use transport_api.Common.{
  Bool, List, Option, [], any, false, find_first, if◌then◌else◌, is_none, ltb, none, not, some,
  true, update_where, ℕ, ◌&&◌, ◌+◌, ◌==◌, ◌||◌, ◌∷◌,
}
use transport_api.Common.Action.{
  Action, Error, Result, bad_gateway, bad_request, err, forbidden, gets, modify, ok, or_throw, pure,
  resource_conflict, resource_not_found, throw, throw_if, ◌>>=◌, ◌>>◌,
}
use transport_api.Domain.{
  PaymentMethod, PaymentStatus, PaymentTransactionsType, PaymentsTransactionsStatus,
}
use transport_api.Orders.Policy.{is_authorized, is_paid}
use transport_api.Orders.Roles.{is_staff}
use transport_api.Payments.{
  add_transaction, assert_order_accepts_payment, insert_payment, is_dispatch_authorized_payment,
  is_in_progress_payment, new_payment, payable_amount, payments_of, price_payment,
  sync_order_after_payment,
}
use transport_api.Payments.Cardnet.{CardnetGateway}
use transport_api.Payments.Manual.{approve_corporate_credit, set_payment_status, write_status}
use transport_api.World.{
  AuthenticatedUser, CardnetColumns, CustomerProfile, Payment, TransportOrder, World, order_of,
}

-- `PaymentCheckoutResult.status`; a status that the switch does not name counts as pending.
pub data CheckoutStatus : Type 0 where
  checkout_authorized checkout_paid checkout_failed checkout_pending : CheckoutStatus

-- A provider's `createCheckout`, which may throw.
abbrev pub PaymentProvider : Type 0
PaymentProvider = Payment → Result CheckoutStatus

-- `paymentStatusFromCheckout`
abbrev pub payment_status_from_checkout : CheckoutStatus → PaymentStatus
payment_status_from_checkout checkout_authorized = PaymentStatus.authorized
payment_status_from_checkout checkout_paid = PaymentStatus.paid
payment_status_from_checkout checkout_failed = PaymentStatus.failed
payment_status_from_checkout checkout_pending = PaymentStatus.pending

-- `transactionStatusFromCheckout`
abbrev pub transaction_status_from_checkout : CheckoutStatus → PaymentsTransactionsStatus
transaction_status_from_checkout checkout_authorized = PaymentsTransactionsStatus.success
transaction_status_from_checkout checkout_paid = PaymentsTransactionsStatus.success
transaction_status_from_checkout checkout_failed = PaymentsTransactionsStatus.failed
transaction_status_from_checkout checkout_pending = PaymentsTransactionsStatus.pending

abbrev pub owns_order : AuthenticatedUser → World → TransportOrder → Bool
owns_order user w o =
    any (λ (c : CustomerProfile). c.id == o.customer_id && c.user_id == user.id) w.customers

-- Anybody but staff has to be the customer of the order.
abbrev pub is_foreign_order : Option AuthenticatedUser → World → TransportOrder → Bool
is_foreign_order none w o = false
is_foreign_order (some user) w o = not (is_staff user) && not (owns_order user w o)

unfoldable pub open_checkout : PaymentProvider → TransportOrder → ℕ → Action World Payment
open_checkout provider order amount = do
  payment ← gets (new_payment order amount PaymentMethod.card PaymentStatus.pending none)
  modify (insert_payment payment)
  checkout ← (λ w. (provider payment, w))
  modify (write_status payment.id (payment_status_from_checkout checkout))
  modify (
      add_transaction payment.id PaymentTransactionsType.authorization payment.amount
        (transaction_status_from_checkout checkout))
  modify (sync_order_after_payment payment.order_id)
  pure (set_payment_status (payment_status_from_checkout checkout) payment)

-- `create` by card
unfoldable pub create_card_payment :
    PaymentProvider → Option AuthenticatedUser → ℕ → Option ℕ → Action World Payment
create_card_payment provider user order_id requested = do
  order ← or_throw (← gets (order_of order_id)) resource_not_found
  foreign ← gets (λ w. is_foreign_order user w order)
  throw_if foreign forbidden
  amount ← price_payment order user requested
  open_checkout provider order amount

unfoldable pub create_by_credit : Option AuthenticatedUser → ℕ → Option ℕ → Action World Payment
create_by_credit none order_id requested = throw forbidden
create_by_credit (some user) order_id requested = approve_corporate_credit user order_id requested

-- `create`
unfoldable pub create_payment :
    PaymentProvider → Option AuthenticatedUser → ℕ → PaymentMethod → Option ℕ → Action World Payment
create_payment provider user order_id method requested = elim method [
  | PaymentMethod.corporate_credit ↦ create_by_credit user order_id requested
  | PaymentMethod.card ↦ create_card_payment provider user order_id requested
  | _ ↦ throw bad_request
]

-- `generateTransactionId`, by the numbers that `randomInt` gives, ten at most
unfoldable pub generate_transaction_id : List ℕ → World → Option ℕ
generate_transaction_id [] w = none
generate_transaction_id (n ∷ ns) w =
    let later = generate_transaction_id ns w in
    if any (λ (p : Payment). elim p.cardnet [ none ↦ false | some c ↦ c.transaction_id == n ])
      w.payments
    then later
    else some n

abbrev pub is_open_session : ℕ → Payment → Bool
is_open_session now p = is_in_progress_payment p.status && elim p.cardnet [
  | none ↦ false
  | some c ↦
      not (is_none c.session_id)
      && c.has_session_key
      && elim c.expires_at [ none ↦ false | some at ↦ ltb now at ]
]

-- The session's columns, half an hour long.
abbrev pub with_session : ℕ → ℕ → ℕ → Payment → Payment
with_session transaction_id session now p = record p {
  status = PaymentStatus.processing;
  cardnet = some (record {
    transaction_id = transaction_id;
    session_id = some session;
    has_session_key = true;
    expires_at = some (now + 1800000);
  });
}

abbrev pub write_session : ℕ → ℕ → ℕ → World → World
write_session id transaction_id session w = record w {
  payments =
      update_where (λ (p : Payment). p.id == id) (with_session transaction_id session w.now)
        w.payments;
}

abbrev pub bare_columns : ℕ → CardnetColumns
bare_columns transaction_id = record {
  transaction_id = transaction_id;
  session_id = none;
  has_session_key = false;
  expires_at = none;
}

-- The `try` of `createCardnetSession`: a failure marks the payment FAILED.
unfoldable pub request_session : CardnetGateway → ℕ → Payment → Action World Payment
request_session gateway transaction_id payment w = elim (gateway.create_session payment) [
  | none ↦ (err bad_gateway, write_status payment.id PaymentStatus.failed w)
  | some session ↦ (
    ok (with_session transaction_id session w.now payment),
    add_transaction payment.id PaymentTransactionsType.authorization payment.amount
        PaymentsTransactionsStatus.pending (write_session payment.id transaction_id session w),
  )
]

abbrev pub throw_some : Option Error → Action World (Unit {0})
throw_some none w = (ok tt, w)
throw_some (some e) w = (err e, w)

unfoldable pub open_session : CardnetGateway → List ℕ → TransportOrder → ℕ → Action World Payment
open_session gateway draws order amount = do
  transaction_id ← or_throw (← gets (generate_transaction_id draws)) resource_conflict
  payment ← gets (
      new_payment order amount PaymentMethod.card PaymentStatus.pending
        (some (bare_columns transaction_id)))
  modify (insert_payment payment)
  throw_some (gateway.build_payload order)
  request_session gateway transaction_id payment

-- `createCardnetSession`
unfoldable pub create_cardnet_session :
    CardnetGateway → List ℕ → AuthenticatedUser → ℕ → Action World Payment
create_cardnet_session gateway draws user order_id = do
  order ←
      or_throw
        (← gets (λ w.
          find_first (λ (o : TransportOrder). o.id == order_id && owns_order user w o) w.orders))
        resource_not_found
  assert_order_accepts_payment order (some user)
  payments ← gets (payments_of order.id)
  throw_if
      (is_paid order.payment_status
        || is_authorized order.payment_status
        || any is_dispatch_authorized_payment payments)
      resource_conflict
  amount ← payable_amount order payments none
  reusable ← gets (λ w. find_first (is_open_session w.now) payments)
  let opened = open_session gateway draws order amount
  elim reusable [ some p ↦ pure p | none ↦ opened ]
