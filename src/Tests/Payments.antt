-- ===== src/Tests/Payments.antt =====
-- Runs of the payments: payments.service.ts.
use transport_api.Common.{All, List, [], arith, inr, none, refl, some, true, ◌∷◌, ◌≡◌}
use transport_api.Common.Action.{ok}
use transport_api.Common.Int.{pos, ◌+ℤ◌}
use transport_api.Domain.{CreditAccountStatus, PaymentMethod, PaymentStatus, StatusOrders}
use transport_api.Orders.Settlement.{create_refund}
use transport_api.Payments.{
  assert_order_accepts_payment, assert_order_not_already_dispatchable, lock_and_price,
  payable_amount, price_payment, sync_order_after_payment,
}
use transport_api.Payments.Authorized.{authorized_payment-IsWithinTotal}
use transport_api.Payments.Callbacks.{
  CardnetCall, asked, cancelled_there, returned, serve_calls, serve_calls-KeepsAll,
}
use transport_api.Payments.Captures.{has_refund, verify_by_session-sets_aside}
use transport_api.Payments.Cardnet.{
  CardnetGateway, apply_capture, code_00, is_rejected_capture, request_refund_for_capture,
  settle_payment, verify_by_session, verify_open, write_verification,
}
use transport_api.Payments.Credit.{IsWithinLimit, approve_corporate_credit-IsWithinLimit}
use transport_api.Payments.Limits.{IsWithinTotal}
use transport_api.Payments.Manual.{
  approve_corporate_credit, book_credit, charge_account, check_credit_customer, set_payment_status,
  write_credit,
}
use transport_api.Payments.Settled.{KeepsAll}
use transport_api.Tests.Data.{accepted_order, busy_world, payment, rider}
use transport_api.World.{CustomerCreditAccount, Payment, TransportOrder, World}

-- An order that waits for its payment, a card payment in flight at CardNET, and credit for 9000.
abbrev card_payment : Payment
card_payment = record (payment 15 4000 PaymentMethod.card PaymentStatus.processing) {
  cardnet = some (record {
    transaction_id = 777;
    session_id = some 88;
    has_session_key = true;
    expires_at = some 900;
  });
}

abbrev payable_order : TransportOrder
payable_order = record accepted_order {
  status = StatusOrders.pending_payment;
  payment_status = PaymentStatus.pending;
}

abbrev account : CustomerCreditAccount
account = record {
  id = 75;
  customer_id = 3;
  status = CreditAccountStatus.active;
  credit_limit = 9000;
  balance_used = pos 1500;
}

abbrev unpaid_world : World
unpaid_world = record busy_world {
  orders = payable_order ∷ [];
  assignments = [];
  payments = card_payment ∷ payment 14 1000 PaymentMethod.check PaymentStatus.authorized ∷ [];
  credit_accounts = account ∷ [];
}

-- The customer pays the rest by credit.
abbrev after_credit : World
after_credit = (approve_corporate_credit rider 1 none unpaid_world).1

abbrev by_credit : Payment
by_credit = record {
  id = 100;
  order_id = 1;
  customer_id = 3;
  amount = 6000;
  payment_method = PaymentMethod.corporate_credit;
  status = PaymentStatus.authorized;
  cardnet = none;
}

credit_run : approve_corporate_credit rider 1 none unpaid_world ≡ (ok by_credit, after_credit)
unfolding approve_corporate_credit check_credit_customer price_payment payable_amount
    assert_order_accepts_payment assert_order_not_already_dispatchable write_credit lock_and_price
    book_credit charge_account sync_order_after_payment ◌+ℤ◌
credit_run = refl

authorized_payment-IsWithinTotal_example : IsWithinTotal 1 by_credit unpaid_world after_credit
authorized_payment-IsWithinTotal_example =
    authorized_payment-IsWithinTotal rider 1 none unpaid_world after_credit by_credit
      (inr credit_run)

approve_corporate_credit-IsWithinLimit_example : All IsWithinLimit after_credit.credit_accounts
approve_corporate_credit-IsWithinLimit_example =
    approve_corporate_credit-IsWithinLimit rider 1 none unpaid_world (omega arith, tt)

-- CardNET confirms the capture.
abbrev confirming : CardnetGateway
confirming = record {
  build_payload = λ o. none;
  create_session = λ p. some 88;
  get_result = λ session.
      some (record { order_code = some 1; transaction_id = some 777; response_code = code_00 });
}

abbrev calls : List CardnetCall
calls = returned confirming 88 ∷ cancelled_there 88 ∷ asked confirming 15 rider ∷ []

serve_calls-KeepsAll_example :
    KeepsAll unpaid_world.payments (serve_calls calls unpaid_world).payments
serve_calls-KeepsAll_example = serve_calls-KeepsAll calls unpaid_world

-- The customer cancelled while the page of CardNET was open.
abbrev dropped_world : World
dropped_world = record unpaid_world {
  orders = record payable_order { status = StatusOrders.cancelled } ∷ [];
}

abbrev after_capture : World
after_capture = (verify_by_session confirming 88 dropped_world).1

abbrev captured_payment : Payment
captured_payment = record card_payment { status = PaymentStatus.paid }

capture_run : verify_by_session confirming 88 dropped_world ≡ (ok captured_payment, after_capture)
unfolding verify_by_session verify_open write_verification settle_payment apply_capture
    is_rejected_capture request_refund_for_capture create_refund
capture_run = refl

verify_by_session-sets_aside_example :
    (after_capture.orders ≡ dropped_world.orders)
    × (has_refund 15 after_capture.refunds ≡ true)
    × (captured_payment ≡ set_payment_status PaymentStatus.paid card_payment)
verify_by_session-sets_aside_example =
    verify_by_session-sets_aside confirming 88 card_payment captured_payment
      (record payable_order { status = StatusOrders.cancelled })
      (record { order_code = some 1; transaction_id = some 777; response_code = code_00 })
      dropped_world after_capture refl refl refl refl refl refl refl capture_run
