-- ===== src/Payments.antt =====
-- src/modules/billing/payments/payments.service.ts: what may be paid, and what a payment does to its
-- order. Amounts are in whole cents; an order without an amount counts as one of nothing.
pub mod Manual
pub mod Cardnet
pub mod Checkout
pub mod Limits
pub mod Authorized
pub mod Credit
pub mod Settled
pub mod Callbacks
pub mod Captures
use transport_api.Common.{
  Bool, List, Option, [], any, false, find_first, if◌then◌else◌, leb, ltb, none, not, select, some,
  suc, true, update_where, ℕ, ◌&&◌, ◌+◌, ◌-◌, ◌==◌, ◌||◌, ◌∷◌,
}
use transport_api.Common.Action.{
  Action, bad_request, gets, or_throw, pure, resource_conflict, resource_not_found, throw_if, ◌>>=◌,
  ◌>>◌,
}
use transport_api.Domain.{
  PaymentMethod, PaymentStatus, PaymentTransactionsType, PaymentsTransactionsStatus, StatusOrders,
}
use transport_api.Orders.Policy.{is_authorized, is_paid}
use transport_api.Orders.Roles.{is_staff}
use transport_api.World.{
  AuthenticatedUser, CardnetColumns, Emit, Payment, TransportOrder, World, emit, order_of,
}

-- `DISPATCHABLE_MANUAL_METHODS`
abbrev pub dispatchable_manual_methods : PaymentMethod → Bool
dispatchable_manual_methods PaymentMethod.check = true
dispatchable_manual_methods PaymentMethod.corporate_credit = true
dispatchable_manual_methods _ = false

-- `ORDER_STATUSES_AWAITING_PAYMENT`
abbrev pub order_statuses_awaiting_payment : StatusOrders → Bool
order_statuses_awaiting_payment StatusOrders.draft = true
order_statuses_awaiting_payment StatusOrders.pending_quote = true
order_statuses_awaiting_payment StatusOrders.pending_customer_confirmation = true
order_statuses_awaiting_payment StatusOrders.pending_payment = true
order_statuses_awaiting_payment StatusOrders.confirmed = true
order_statuses_awaiting_payment _ = false

-- `CUSTOMER_PAYABLE_ORDER_STATUSES`
abbrev pub customer_payable_order_statuses : StatusOrders → Bool
customer_payable_order_statuses StatusOrders.pending_payment = true
customer_payable_order_statuses StatusOrders.confirmed = true
customer_payable_order_statuses _ = false

-- `CLOSED_ORDER_STATUSES`
abbrev pub closed_order_statuses : StatusOrders → Bool
closed_order_statuses StatusOrders.cancelled = true
closed_order_statuses StatusOrders.failed = true
closed_order_statuses _ = false

-- `TERMINAL_PAYMENT_STATUSES`
abbrev pub terminal_payment_statuses : PaymentStatus → Bool
terminal_payment_statuses PaymentStatus.paid = true
terminal_payment_statuses PaymentStatus.refunded = true
terminal_payment_statuses _ = false

-- `isDispatchAuthorizedPayment`
abbrev pub is_dispatch_authorized_payment : Payment → Bool
is_dispatch_authorized_payment p =
    is_paid p.status || (is_authorized p.status && dispatchable_manual_methods p.payment_method)

-- `dispatchAuthorizedAmount`
abbrev pub dispatch_authorized_amount : List Payment → ℕ
dispatch_authorized_amount [] = 0
dispatch_authorized_amount (p ∷ ps) =
    (if is_dispatch_authorized_payment p then p.amount else 0) + dispatch_authorized_amount ps

abbrev pub payments_of : ℕ → World → List Payment
payments_of order_id w = select (λ (p : Payment). p.order_id == order_id) w.payments

-- `Number(order.totalAmount)`
abbrev pub total_of : TransportOrder → ℕ
total_of o = elim o.total_amount [ none ↦ 0 | some total ↦ total ]

-- The payments that count cover the whole amount.
abbrev pub is_covered : TransportOrder → List Payment → Bool
is_covered o payments = ltb 0 (total_of o) && leb (total_of o) (dispatch_authorized_amount payments)

abbrev pub amount_or : Option ℕ → ℕ → ℕ
amount_or none remaining = remaining
amount_or (some a) _ = a

-- `payableAmount`
unfoldable pub payable_amount : TransportOrder → List Payment → Option ℕ → Action World ℕ
payable_amount o payments requested = do
  throw_if (total_of o == 0) bad_request
  let remaining = total_of o - dispatch_authorized_amount payments
  let amount = amount_or requested remaining
  throw_if (amount == 0) bad_request
  throw_if (ltb remaining amount) resource_conflict
  pure amount

abbrev pub is_staff_user : Option AuthenticatedUser → Bool
is_staff_user none = false
is_staff_user (some user) = is_staff user

-- `assertOrderAcceptsPayment`
unfoldable pub assert_order_accepts_payment :
    TransportOrder → Option AuthenticatedUser → Action World (Unit {0})
assert_order_accepts_payment o user =
    let accepts =
      if is_staff_user user
      then not (closed_order_statuses o.status)
      else customer_payable_order_statuses o.status in
    throw_if (not accepts) resource_conflict

-- `assertOrderNotAlreadyDispatchable`
unfoldable pub assert_order_not_already_dispatchable :
    TransportOrder → List Payment → Action World (Unit {0})
assert_order_not_already_dispatchable o payments =
    throw_if (is_paid o.payment_status || is_authorized o.payment_status || is_covered o payments)
      resource_conflict

-- The three checks on an order, which give the amount to pay.
unfoldable pub price_payment : TransportOrder → Option AuthenticatedUser → Option ℕ → Action World ℕ
price_payment o user requested = do
  payments ← gets (payments_of o.id)
  assert_order_accepts_payment o user
  assert_order_not_already_dispatchable o payments
  payable_amount o payments requested

-- `lockAndPrice`: the lock holds for the transaction, which is one step here.
unfoldable pub lock_and_price : ℕ → Option AuthenticatedUser → Option ℕ → Action World ℕ
lock_and_price order_id user requested = do
  o ← or_throw (← gets (order_of order_id)) resource_not_found
  price_payment o user requested

abbrev pub is_manual_authorized : Payment → Bool
is_manual_authorized p = is_authorized p.status && dispatchable_manual_methods p.payment_method

abbrev pub is_in_progress_payment : PaymentStatus → Bool
is_in_progress_payment PaymentStatus.pending = true
is_in_progress_payment PaymentStatus.processing = true
is_in_progress_payment _ = false

abbrev pub next_payment_status : TransportOrder → List Payment → PaymentStatus
next_payment_status o payments =
    if is_covered o payments
    then (if any is_manual_authorized payments
        then PaymentStatus.authorized
        else PaymentStatus.paid)
    else (if any (λ (p : Payment). is_in_progress_payment p.status) payments
        then PaymentStatus.processing
        else PaymentStatus.pending)

abbrev pub becomes_dispatchable : TransportOrder → List Payment → Bool
becomes_dispatchable o payments = is_covered o payments && order_statuses_awaiting_payment o.status

abbrev pub set_paid_state : PaymentStatus → Bool → TransportOrder → TransportOrder
set_paid_state status dispatchable o = record o {
  payment_status = status;
  status = if dispatchable then StatusOrders.requested else o.status;
}

-- `syncOrderAfterPayment`
unfoldable pub sync_order_after_payment : ℕ → World → World
sync_order_after_payment order_id w = elim (order_of order_id w) [
  | none ↦ w
  | some o ↦
      let payments = payments_of order_id w in
      let dispatchable = becomes_dispatchable o payments in
      let synced = record w {
        orders =
            update_where (λ (x : TransportOrder). x.id == order_id)
              (set_paid_state (next_payment_status o payments) dispatchable) w.orders;
      } in
      if dispatchable then emit (Emit.dispatch_triggered order_id) synced else synced
]

abbrev pub insert_payment : Payment → World → World
insert_payment p w = record w { next_id = suc w.next_id; payments = p ∷ w.payments }

abbrev pub add_transaction :
    ℕ → PaymentTransactionsType → ℕ → PaymentsTransactionsStatus → World → World
add_transaction payment_id type amount status w = record w {
  transactions =
      record { payment_id = payment_id; transaction_type = type; amount = amount; status = status }
      ∷ w.transactions;
}

abbrev pub payment_of : ℕ → World → Option Payment
payment_of id w = find_first (λ (p : Payment). p.id == id) w.payments

abbrev pub new_payment :
    TransportOrder → ℕ → PaymentMethod → PaymentStatus → Option CardnetColumns → World → Payment
new_payment o amount method status cardnet w = record {
  id = w.next_id;
  order_id = o.id;
  customer_id = o.customer_id;
  amount = amount;
  payment_method = method;
  status = status;
  cardnet = cardnet;
}
