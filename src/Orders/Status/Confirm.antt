-- ===== src/Orders/Status/Confirm.antt =====
-- orders.service.ts, `confirmByCustomer`: what the customer's confirmation of a quote does.
use transport_api.Common.{
  ==_iff, Bool-cases, List, Option, Option-cases, [], ap, arith, find_first, find_first_sound, inl,
  inr, refl, some, subst, true, update_where, ℕ, ◌&&◌, ◌==◌, ◌∙◌, ◌∷◌, ◌≡◌,
}
use transport_api.Common.Action.{ok}
use transport_api.Domain.{PaymentStatus, StatusOrders}
use transport_api.Orders.Status.{
  confirm_by_customer, has_payable_amount, is_awaiting_confirmation, write_confirmation,
}
use transport_api.World.{AuthenticatedUser, CustomerProfile, TransportOrder, World, order_of}

moved_found :
    (id : ℕ) (f : TransportOrder → TransportOrder) (s : StatusOrders) (os : List TransportOrder)
    (o : TransportOrder)
    → ((x : TransportOrder) → (f x).status ≡ s)
    → find_first
        (λ (x : TransportOrder). x.id == id)
        (update_where (λ (x : TransportOrder). x.id == id) f os)
      ≡ some o
    → ((x : TransportOrder) → (f x).id ≡ x.id)
    → o.status ≡ s
moved_found id f s [] o to found same = absurd (ground arith)
moved_found id f s (x ∷ os) o to found same =
    ground (arith, to x, same x, moved_found id f s os o to)

write_confirmation-orders :
    (user_id : ℕ) (x : TransportOrder) (w : World)
    → (write_confirmation user_id x w).orders
      ≡ update_where
          (λ (o : TransportOrder). o.id == x.id)
          (λ o. record o {
            status = StatusOrders.pending_payment;
            payment_status = PaymentStatus.pending;
          })
          w.orders
unfolding write_confirmation
write_confirmation-orders user_id x w = ground arith

-- The order of the customer that waits for its confirmation.
abbrev pub own_order : ℕ → CustomerProfile → World → Option TransportOrder
own_order id c w = find_first (λ (o : TransportOrder). o.id == id && o.customer_id == c.id) w.orders

-- A confirmation that returns is of an order of the caller's own that waited for it and has an
-- amount to pay, and the order that it returns waits for the payment.
pub confirm_by_customer_lem :
    (user : AuthenticatedUser) (id : ℕ) (w w' : World) (o : TransportOrder)
    → confirm_by_customer user id w ≡ (ok o, w')
    → ((c : CustomerProfile) × (x : TransportOrder) × (find_first
            (λ (c : CustomerProfile). c.user_id == user.id)
            w.customers
          ≡ some c)
        × (own_order id c w ≡ some x)
        × (x.status ≡ StatusOrders.pending_customer_confirmation)
        × (has_payable_amount x ≡ true))
      × (o.status ≡ StatusOrders.pending_payment)
unfolding confirm_by_customer
confirm_by_customer_lem user id w w' o returned =
    elim (Option-cases (find_first (λ (c : CustomerProfile). c.user_id == user.id) w.customers)) [
      | inl nobody ↦ absurd (ground arith)
      | inr (c, known) ↦ elim (Option-cases (own_order id c w)) [
        | inl missing ↦ absurd (ground arith)
        | inr (x, found) ↦
            elim (Bool-cases (is_awaiting_confirmation x.status && has_payable_amount x)) [
              | inr refused ↦ absurd (ground arith)
              | inl waits ↦
                  let u = write_confirmation user.id x w in
                  elim (Option-cases (order_of id u)) [
                    | inl gone ↦ absurd (ground arith)
                    | inr (y, there) ↦
                        let f = λ (o : TransportOrder). record o {
                          status = StatusOrders.pending_payment;
                          payment_status = PaymentStatus.pending;
                        } in
                        let mine =
                          find_first_sound
                            (λ (o : TransportOrder). o.id == id && o.customer_id == c.id) w.orders x
                            found in
                        let at : x.id ≡ id = (==_iff x.id id).0 (ground (arith, mine)) in
                        let rows =
                          write_confirmation-orders user.id x w
                          ∙ ap
                              (λ (k : ℕ).
                                update_where (λ (o : TransportOrder). o.id == k) f w.orders)
                              at in
                        let last : y.status ≡ StatusOrders.pending_payment =
                          moved_found id f StatusOrders.pending_payment w.orders y (λ z. refl)
                            (subst
                              (λ os. find_first (λ (o : TransportOrder). o.id == id) os ≡ some y)
                              rows there)
                            (λ z. refl) in
                        let same : o ≡ y = ground arith in
                        (
                          (c, x, known, found, ground arith, ground arith),
                          ap (λ (o : TransportOrder). o.status) same ∙ last,
                        )
                  ]
            ]
      ]
    ]
