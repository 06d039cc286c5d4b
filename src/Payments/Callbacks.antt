-- ===== src/Payments/Callbacks.antt =====
-- src/modules/billing/payments/payments.service.ts: the return from CardNET's page, its webhook and the
-- cancel redirect, which race on one session.
use transport_api.Common.{
  Bool, Bool-cases, List, Option-cases, [], ap, arith, count_where, false, if◌then◌else◌, inl, inr,
  not, true, ℕ, ◌&&◌, ◌==◌, ◌∷◌, ◌≡◌,
}
use transport_api.Common.Action.{
  Outcome-cases, bad_gateway, bad_request, pure, resource_conflict, resource_not_found, transaction,
}
use transport_api.Common.Respects.{
  Respects, bind-Respects, given-Respects, guarded-Respects, reading-Respects, returning-Respects,
  transaction-Respects, writing-Respects,
}
use transport_api.Domain.{PaymentStatus, PaymentTransactionsType}
use transport_api.Orders.Policy.{is_paid}
use transport_api.Orders.Settlement.{create_refund}
use transport_api.Payments.{add_transaction, payment_of, terminal_payment_statuses}
use transport_api.Payments.Cardnet.{
  CardnetGateway, alert_capture, apply_capture, assert_can_read_payment, cancel_by_session, differs,
  has_session_key, is_other_transaction, is_rejected_capture, is_unsettled, payment_of_session,
  payment_status_from_response, request_refund_for_capture, settle_payment, transaction_status_from,
  verify_by_session, verify_cardnet_payment, verify_open, void_session, write_verification,
  write_void,
}
use transport_api.Payments.Limits.{sync_order_after_payment-payments}
use transport_api.Payments.Settled.{
  KeepsAll, KeepsAll-refl, KeepsAll-trans, same_payments, settled_frame, settled_rows,
}
use transport_api.World.{AuthenticatedUser, Payment, World, order_of}

settle_payment-KeepsAll :
    (id : ℕ) (status : PaymentStatus) (w : World)
    → KeepsAll w.payments (settle_payment id status w).payments
unfolding settle_payment
settle_payment-KeepsAll id status w = settled_rows id status w.payments

request_refund_for_capture-payments :
    (p : Payment) (w : World) → (request_refund_for_capture p w).payments ≡ w.payments
unfolding request_refund_for_capture create_refund
request_refund_for_capture-payments p w = ground arith

apply_capture-KeepsAll :
    (p : Payment) (status : PaymentStatus) (w : World)
    → KeepsAll w.payments (apply_capture p status w).1.payments
unfolding apply_capture
apply_capture-KeepsAll p status w =
    let captured =
      add_transaction p.id PaymentTransactionsType.capture p.amount (transaction_status_from status)
        w in
    let refunding = request_refund_for_capture-payments p captured in
    let syncing = sync_order_after_payment-payments p.order_id captured in
    same_payments (elim (Bool-cases (is_paid status && is_rejected_capture p captured)) [
      | inl rejected ↦ ground (arith, refunding)
      | inr applied ↦ ground (arith, syncing)
    ])

write_verification-KeepsAll :
    (id : ℕ) (status : PaymentStatus) → Respects settled_frame (write_verification id status)
unfolding write_verification
write_verification-KeepsAll id status =
    reading-Respects settled_frame (λ w. count_where (is_unsettled id) w.payments) _
      (λ claimed.
        writing-Respects settled_frame (settle_payment id status) _
          (settle_payment-KeepsAll id status)
          (λ _. reading-Respects settled_frame (payment_of id) _ (λ found.
            given-Respects settled_frame found resource_not_found _
              (λ updated. go (claimed == 0) updated))))
  where
    go :
        (b : Bool) (p : Payment)
        → Respects settled_frame (if b then pure (p, false) else apply_capture p status)
    go true p = returning-Respects settled_frame (p, false)
    go false p = record { holds = apply_capture-KeepsAll p status }

alert_capture-payments :
    (r : Payment × Bool) (w : World) → (alert_capture r w).payments ≡ w.payments
alert_capture-payments r w = ground arith

verify_open-KeepsAll :
    (g : CardnetGateway) (session : ℕ) (p : Payment)
    → Respects settled_frame (verify_open g session p)
unfolding verify_open
verify_open-KeepsAll g session p =
    guarded-Respects settled_frame (not (has_session_key p)) bad_gateway _ (λ _.
      given-Respects settled_frame (g.get_result session) bad_gateway _ (λ result.
        guarded-Respects settled_frame (differs result.order_code p.order_id) resource_conflict _
          (λ _.
            guarded-Respects settled_frame (is_other_transaction result p) resource_conflict _ (λ _.
              bind-Respects settled_frame
                (transaction
                  (write_verification p.id (payment_status_from_response result.response_code)))
                _
                (transaction-Respects settled_frame
                  (write_verification p.id (payment_status_from_response result.response_code))
                  (write_verification-KeepsAll p.id
                    (payment_status_from_response result.response_code)))
                (λ r.
                  writing-Respects settled_frame (alert_capture r) _
                    (λ w. same_payments (alert_capture-payments r w))
                    (λ _. returning-Respects settled_frame r.0))))))

verify_by_session-KeepsAll :
    (g : CardnetGateway) (session : ℕ) → Respects settled_frame (verify_by_session g session)
unfolding verify_by_session
verify_by_session-KeepsAll g session =
    reading-Respects settled_frame (payment_of_session session) _ (λ found.
      given-Respects settled_frame found resource_not_found _
        (λ p. go (terminal_payment_statuses p.status) p))
  where
    go :
        (b : Bool) (p : Payment)
        → Respects settled_frame (if b then pure p else verify_open g session p)
    go true p = returning-Respects settled_frame p
    go false p = verify_open-KeepsAll g session p

void_session-payments :
    (claimed : ℕ) (p : Payment) (w : World) → (void_session claimed p w).payments ≡ w.payments
void_session-payments claimed p w = elim (Bool-cases (claimed == 0)) [
  | inl late ↦ ground arith
  | inr first ↦ let kept = sync_order_after_payment-payments p.order_id w in ground (arith, kept)
]

write_void-KeepsAll : (id : ℕ) → Respects settled_frame (write_void id)
unfolding write_void
write_void-KeepsAll id =
    reading-Respects settled_frame (λ w. count_where (is_unsettled id) w.payments) _
      (λ claimed.
        writing-Respects settled_frame (settle_payment id PaymentStatus.cancelled) _
          (settle_payment-KeepsAll id PaymentStatus.cancelled)
          (λ _. reading-Respects settled_frame (payment_of id) _ (λ found.
            given-Respects settled_frame found resource_not_found _ (λ p.
              writing-Respects settled_frame (void_session claimed p) _
                (λ w. same_payments (void_session-payments claimed p w))
                (λ _. returning-Respects settled_frame p)))))

cancel_by_session-KeepsAll :
    (session : ℕ) (w : World) → KeepsAll w.payments (cancel_by_session session w).1.payments
unfolding cancel_by_session
cancel_by_session-KeepsAll session w = elim (Option-cases (payment_of_session session w)) [
  | inl unknown_one ↦ same_payments (ground arith)
  | inr (p, found) ↦ elim (Bool-cases (terminal_payment_statuses p.status)) [
    | inl over ↦ same_payments (ground arith)
    | inr open_one ↦
        KeepsAll-trans
          ((transaction-Respects settled_frame (write_void p.id) (write_void-KeepsAll p.id)).holds
            w)
          (same_payments (elim (Outcome-cases (write_void p.id w)) [
            | inl (q, u, done) ↦ ground arith
            | inr (e, u, failed) ↦ ground arith
          ]))
  ]
]

-- What reaches the payments from CardNET; each verification has the answer of its own moment.
pub data CardnetCall : Type 0 where
  returned : CardnetGateway → ℕ → CardnetCall
  asked : CardnetGateway → ℕ → AuthenticatedUser → CardnetCall
  cancelled_there : ℕ → CardnetCall

unfoldable pub serve_call : CardnetCall → World → World
serve_call (returned g session) w = (verify_by_session g session w).1
serve_call (asked g id user) w = (verify_cardnet_payment g id user w).1
serve_call (cancelled_there session) w = (cancel_by_session session w).1

unfoldable pub serve_calls : List CardnetCall → World → World
serve_calls [] w = w
serve_calls (c ∷ cs) w = serve_calls cs (serve_call c w)

assert_can_read_payment-reads :
    (p : Payment) (user : AuthenticatedUser) (w : World) → (assert_can_read_payment p user w).1 ≡ w
unfolding assert_can_read_payment
assert_can_read_payment-reads p user w = ground (arith, Option-cases (order_of p.order_id w))

verify_cardnet_payment-KeepsAll :
    (g : CardnetGateway) (id : ℕ) (user : AuthenticatedUser)
    → Respects settled_frame (verify_cardnet_payment g id user)
unfolding verify_cardnet_payment
verify_cardnet_payment-KeepsAll g id user =
    reading-Respects settled_frame (payment_of id) _ (λ found.
      given-Respects settled_frame found resource_not_found _ (λ p.
        bind-Respects settled_frame (assert_can_read_payment p user) _
          (record {
            holds = λ w.
                same_payments
                  (ap (λ (x : World). x.payments) (assert_can_read_payment-reads p user w));
          })
          (λ _. given-Respects settled_frame p.cardnet bad_request _ (λ c.
            given-Respects settled_frame c.session_id bad_request _
              (λ session. verify_by_session-KeepsAll g session)))))

serve_call-KeepsAll : (c : CardnetCall) (w : World) → KeepsAll w.payments (serve_call c w).payments
unfolding serve_call
serve_call-KeepsAll (returned g session) w = (verify_by_session-KeepsAll g session).holds w
serve_call-KeepsAll (asked g id user) w = (verify_cardnet_payment-KeepsAll g id user).holds w
serve_call-KeepsAll (cancelled_there session) w = cancel_by_session-KeepsAll session w

-- Whatever CardNET answers, and in whatever order its calls come in, every payment that is PAID or
-- REFUNDED stays exactly as it is, and no payment is lost or changes its amount.
pub serve_calls-KeepsAll :
    (cs : List CardnetCall) (w : World) → KeepsAll w.payments (serve_calls cs w).payments
unfolding serve_calls
serve_calls-KeepsAll [] w = KeepsAll-refl w.payments
serve_calls-KeepsAll (c ∷ cs) w =
    KeepsAll-trans (serve_call-KeepsAll c w) (serve_calls-KeepsAll cs (serve_call c w))
