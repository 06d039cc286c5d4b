-- ===== src/Payments/Captures.antt =====
-- src/modules/billing/payments/payments.service.ts: the captures that come in for orders that
-- cannot be paid.
use transport_api.Common.{
  ==_refl, Bool, Bool-cases, List, [], any, ap, arith, count_where, false, find_first,
  find_first-update_where, inl, inr, refl, some, some-injective, sym, true, ℕ, ◌==◌, ◌∙◌, ◌∷◌, ◌≡◌,
}
use transport_api.Common.Action.{Outcome-cases, ok}
use transport_api.Domain.{PaymentStatus, PaymentTransactionsType, PaymentsTransactionsStatus}
use transport_api.Orders.Settlement.{create_refund}
use transport_api.Payments.{
  add_transaction, customer_payable_order_statuses, payment_of, terminal_payment_statuses,
}
use transport_api.Payments.Cardnet.{
  CardnetGateway, CardnetResult, alert_capture, apply_capture, code_00, is_rejected_capture,
  is_unsettled, payment_of_session, payment_status_from_response, request_refund_for_capture,
  settle_payment, verify_by_session, verify_open, write_verification,
}
use transport_api.Payments.Manual.{set_payment_status}
use transport_api.World.{Payment, Refund, TransportOrder, World, order_of}

abbrev pub has_refund : ℕ → List Refund → Bool
has_refund payment_id refunds = any (λ (r : Refund). r.payment_id == payment_id) refunds

request_refund_for_capture-refunds :
    (p : Payment) (w : World)
    → (has_refund p.id (request_refund_for_capture p w).refunds ≡ true)
      × ((request_refund_for_capture p w).orders ≡ w.orders)
unfolding request_refund_for_capture create_refund
request_refund_for_capture-refunds p w = ground (arith, ==_refl p.id)

-- A capture of an order that is not payable, or of none.
apply_capture-sets_aside :
    (p : Payment) (w w' : World) (r : Payment × Bool) (o : TransportOrder)
    → order_of p.order_id w ≡ some o
    → customer_payable_order_statuses o.status ≡ false
    → apply_capture p PaymentStatus.paid w ≡ (ok r, w')
    → (w'.orders ≡ w.orders) × (has_refund p.id w'.refunds ≡ true) × (r.0 ≡ p)
unfolding apply_capture is_rejected_capture
apply_capture-sets_aside p w w' r o found closed applied =
    let captured =
      add_transaction p.id PaymentTransactionsType.capture p.amount
        PaymentsTransactionsStatus.success w in
    let (refunded, same) = request_refund_for_capture-refunds p captured in
    let at_end : w' ≡ request_refund_for_capture p captured = ground arith in
    (
      ap (λ (x : World). x.orders) at_end ∙ same,
      ap (λ (x : World). has_refund p.id x.refunds) at_end ∙ refunded,
      ground arith,
    )

counted :
    (q p : Payment → Bool) (xs : List Payment) (x : Payment)
    → find_first q xs ≡ some x
    → p x ≡ true
    → (count_where p xs == 0) ≡ false
counted q p [] x found hit = cc
counted q p (y ∷ ys) x found hit = elim (Bool-cases (q y)) [
  | inl here ↦
      let it : y ≡ x = some-injective y x (ground arith) in
      let hit_y : p y ≡ true = ap p it ∙ hit in ground arith
  | inr later ↦ ground (arith, counted q p ys x)
]

write_verification-sets_aside :
    (p : Payment) (w w' : World) (r : Payment × Bool) (o : TransportOrder)
    → payment_of p.id w ≡ some p
    → terminal_payment_statuses p.status ≡ false
    → order_of p.order_id w ≡ some o
    → customer_payable_order_statuses o.status ≡ false
    → write_verification p.id PaymentStatus.paid w ≡ (ok r, w')
    → (w'.orders ≡ w.orders)
      × (has_refund p.id w'.refunds ≡ true)
      × (r.0 ≡ set_payment_status PaymentStatus.paid p)
unfolding write_verification settle_payment
write_verification-sets_aside p w w' r o own open_one found closed written =
    let id_p = λ (x : Payment). x.id == p.id in
    let paid = set_payment_status PaymentStatus.paid p in
    let w₁ = settle_payment p.id PaymentStatus.paid w in
    let unsettled : is_unsettled p.id p ≡ true = ground (arith, ==_refl p.id) in
    let moved = counted id_p (is_unsettled p.id) w.payments p own unsettled in
    let again : payment_of p.id w₁ ≡ some paid =
      find_first-update_where (is_unsettled p.id) id_p (set_payment_status PaymentStatus.paid)
        w.payments (λ x. refl)
      ∙ ground arith in
    let applied : apply_capture paid PaymentStatus.paid w₁ ≡ (ok r, w') = ground arith in
    apply_capture-sets_aside paid w₁ w' r o found closed applied

-- When CardNET confirms the capture of a payment that is not settled, and the order of the payment is
-- not payable any more, the payment becomes PAID, no order changes, and the capture has a refund.
-- The payment is taken to be the row with its id.
pub verify_by_session-sets_aside :
    (g : CardnetGateway) (session : ℕ) (p p' : Payment) (o : TransportOrder) (c : CardnetResult)
    (w w' : World)
    → payment_of_session session w ≡ some p
    → payment_of p.id w ≡ some p
    → terminal_payment_statuses p.status ≡ false
    → order_of p.order_id w ≡ some o
    → customer_payable_order_statuses o.status ≡ false
    → g.get_result session ≡ some c
    → c.response_code ≡ code_00
    → verify_by_session g session w ≡ (ok p', w')
    → (w'.orders ≡ w.orders)
      × (has_refund p.id w'.refunds ≡ true)
      × (p' ≡ set_payment_status PaymentStatus.paid p)
unfolding verify_by_session verify_open
verify_by_session-sets_aside g session p p' o c w w' held own open_one found closed answered
      approved verified =
    let status : payment_status_from_response c.response_code ≡ PaymentStatus.paid =
      ap payment_status_from_response approved in
    elim (Outcome-cases (write_verification p.id PaymentStatus.paid w)) [
      | inr (e, u, failed) ↦ absurd (ground arith)
      | inl (r, u, written) ↦
          let (orders, refunded, paid) =
            write_verification-sets_aside p w u r o own open_one found closed written in
          let at_end : w' ≡ alert_capture r u = ground arith in
          let it : r.0 ≡ p' = ground arith in
          (
            ap (λ (x : World). x.orders) at_end ∙ (ground arith),
            ap (λ (x : World). has_refund p.id x.refunds) at_end ∙ (ground arith),
            sym it ∙ paid,
          )
    ]
