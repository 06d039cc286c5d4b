-- ===== src/Payments/Manual.antt =====
-- src/modules/billing/payments/payments.service.ts: checks and corporate credit, which authorize the
-- dispatch at once, and the status that staff sets by hand.
use transport_api.Common.{
  Bool, Option, count_where, false, find_first, none, not, some, true, update_where, ℕ, ◌&&◌, ◌==◌,
  ◌∷◌,
}
use transport_api.Common.Action.{
  Action, bad_request, forbidden, gets, modify, or_throw, pure, resource_conflict,
  resource_not_found, throw_if, transaction, ◌>>=◌, ◌>>◌,
}
use transport_api.Common.Int.{lt_ℤ, pos, sub_ℕ, ℤ, ◌+ℤ◌}
use transport_api.Domain.{
  CreditAccountStatus, PaymentMethod, PaymentStatus, PaymentTransactionsType,
  PaymentsTransactionsStatus, TypeCustomer,
}
use transport_api.Orders.Roles.{is_staff}
use transport_api.Payments.{
  add_transaction, insert_payment, lock_and_price, new_payment, payment_of, price_payment,
  sync_order_after_payment,
}
use transport_api.World.{
  AuthenticatedUser, CustomerCreditAccount, CustomerCreditMovement, CustomerProfile, Payment,
  TransportOrder, World, order_of,
}

unfoldable pub write_check : AuthenticatedUser → TransportOrder → Option ℕ → Action World Payment
write_check user order requested = do
  amount ← lock_and_price order.id (some user) requested
  payment ← gets (new_payment order amount PaymentMethod.check PaymentStatus.authorized none)
  modify (insert_payment payment)
  modify (
      add_transaction payment.id PaymentTransactionsType.authorization amount
        PaymentsTransactionsStatus.success)
  modify (sync_order_after_payment order.id)
  pure payment

-- `registerCheck`
unfoldable pub register_check : AuthenticatedUser → ℕ → Option ℕ → Action World Payment
register_check user order_id requested = do
  order ← or_throw (← gets (order_of order_id)) resource_not_found
  price_payment order (some user) requested
  transaction (write_check user order requested)

abbrev pub customer_of : ℕ → World → Option CustomerProfile
customer_of id w = find_first (λ (c : CustomerProfile). c.id == id) w.customers

abbrev pub account_of_customer : ℕ → World → Option CustomerCreditAccount
account_of_customer id w =
    find_first (λ (a : CustomerCreditAccount). a.customer_id == id) w.credit_accounts

abbrev pub credit_account : ℕ → World → Option CustomerCreditAccount
credit_account id w = find_first (λ (a : CustomerCreditAccount). a.id == id) w.credit_accounts

abbrev pub is_business : TypeCustomer → Bool
is_business TypeCustomer.business = true
is_business _ = false

abbrev pub is_active_credit : CreditAccountStatus → Bool
is_active_credit CreditAccountStatus.active = true
is_active_credit _ = false

-- `balanceUsed: { lte: creditLimit - amount }`
abbrev pub has_room : ℕ → ℕ → ℤ → Bool
has_room limit amount balance = not (lt_ℤ (sub_ℕ limit amount) balance)

-- The compare-and-set on the account that was read.
abbrev pub can_charge : CustomerCreditAccount → ℕ → CustomerCreditAccount → Bool
can_charge account amount a =
    a.id == account.id
    && is_active_credit a.status
    && a.credit_limit == account.credit_limit
    && has_room account.credit_limit amount a.balance_used

abbrev pub charge : ℕ → CustomerCreditAccount → CustomerCreditAccount
charge amount a = record a { balance_used = a.balance_used +ℤ pos amount }

unfoldable pub charge_account : CustomerCreditAccount → ℕ → Action World (Unit {0})
charge_account account amount = do
  charged ← gets (λ w. count_where (can_charge account amount) w.credit_accounts)
  throw_if (not (charged == 1)) resource_conflict
  modify (λ w. record w {
    credit_accounts = update_where (can_charge account amount) (charge amount) w.credit_accounts;
  })

abbrev pub credit_movement : ℕ → Payment → ℤ → CustomerCreditMovement
credit_movement account_id p after = record {
  credit_account_id = account_id;
  order_id = p.order_id;
  payment_id = p.id;
  amount = p.amount;
  balance_after = after;
}

-- The charge of the account, with its movement.
unfoldable pub book_credit : CustomerCreditAccount → TransportOrder → Payment → Action World Payment
book_credit account order payment = do
  charge_account account payment.amount
  charged ← or_throw (← gets (credit_account account.id)) resource_not_found
  modify (λ w. record w {
    credit_movements = credit_movement account.id payment charged.balance_used ∷ w.credit_movements;
  })
  modify (sync_order_after_payment order.id)
  pure payment

unfoldable pub write_credit :
    AuthenticatedUser → TransportOrder → CustomerCreditAccount → Option ℕ → Action World Payment
write_credit user order account requested = do
  amount ← lock_and_price order.id (some user) requested
  payment ←
      gets (new_payment order amount PaymentMethod.corporate_credit PaymentStatus.authorized none)
  modify (insert_payment payment)
  modify (
      add_transaction payment.id PaymentTransactionsType.authorization amount
        PaymentsTransactionsStatus.success)
  book_credit account order payment

-- The checks of `approveCorporateCredit` on the customer; they give the account.
unfoldable pub check_credit_customer :
    AuthenticatedUser → TransportOrder → Action World CustomerCreditAccount
check_credit_customer user order = do
  customer ← or_throw (← gets (customer_of order.customer_id)) resource_not_found
  throw_if (not (is_staff user) && not (customer.user_id == user.id)) forbidden
  throw_if (not (is_business customer.customer_type)) bad_request
  account ← or_throw (← gets (account_of_customer customer.id)) bad_request
  throw_if (not (is_active_credit account.status)) bad_request
  pure account

-- `approveCorporateCredit`
unfoldable pub approve_corporate_credit : AuthenticatedUser → ℕ → Option ℕ → Action World Payment
approve_corporate_credit user order_id requested = do
  order ← or_throw (← gets (order_of order_id)) resource_not_found
  account ← check_credit_customer user order
  estimate ← price_payment order (some user) requested
  throw_if (lt_ℤ (pos account.credit_limit) (account.balance_used +ℤ pos estimate))
      resource_conflict
  transaction (write_credit user order account requested)

abbrev pub set_payment_status : PaymentStatus → Payment → Payment
set_payment_status s p = record p { status = s }

abbrev pub write_status : ℕ → PaymentStatus → World → World
write_status id status w = record w {
  payments = update_where (λ (p : Payment). p.id == id) (set_payment_status status) w.payments;
}

unfoldable pub write_payment_status : ℕ → PaymentStatus → Action World Payment
write_payment_status id status = do
  payment ← or_throw (← gets (payment_of id)) resource_not_found
  modify (write_status id status)
  modify (sync_order_after_payment payment.order_id)
  pure (set_payment_status status payment)

-- `PaymentsService.updateStatus`
unfoldable pub update_payment_status : ℕ → PaymentStatus → Action World Payment
update_payment_status id status = transaction (write_payment_status id status)
