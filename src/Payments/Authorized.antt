-- ===== src/Payments/Authorized.antt =====
-- src/modules/billing/payments/payments.service.ts, `registerCheck` and `approveCorporateCredit`: a
-- payment that authorizes the dispatch fits its order.
use transport_api.Common.{
  ==_iff, ==_refl, Option, Option-cases, ap, arith, find_first_sound, inl, inr, none, not, refl,
  some, subst, sym, ℕ, ◌&&◌, ◌==◌, ◌∙◌, ◌∷◌, ◌≡◌, ◌⊎◌,
}
use transport_api.Common.Action.{Outcome-cases, bad_request, forbidden, ok, resource_not_found}
use transport_api.Common.Respects.{
  Respects, given-Respects, guarded-Respects, reading-Respects, returning-Respects,
}
use transport_api.Domain.{
  PaymentMethod, PaymentStatus, PaymentTransactionsType, PaymentsTransactionsStatus,
}
use transport_api.Orders.Roles.{is_staff}
use transport_api.Payments.{
  add_transaction, insert_payment, lock_and_price, new_payment, price_payment,
  sync_order_after_payment,
}
use transport_api.Payments.Limits.{
  IsWithinTotal, charge_account-payments, inserted-IsWithinTotal, lock_and_price-fits,
  price_payment-Respects, sync_order_after_payment-payments, untouched,
}
use transport_api.Payments.Manual.{
  account_of_customer, approve_corporate_credit, book_credit, charge_account, check_credit_customer,
  credit_account, credit_movement, customer_of, is_active_credit, is_business, register_check,
  write_check, write_credit,
}
use transport_api.World.{
  AuthenticatedUser, CustomerCreditAccount, Payment, TransportOrder, World, order_of,
}

write_check-IsWithinTotal :
    (user : AuthenticatedUser) (order : TransportOrder) (requested : Option ℕ) (w w' : World)
    (p : Payment)
    → write_check user order requested w ≡ (ok p, w')
    → IsWithinTotal order.id p w w'
unfolding write_check
write_check-IsWithinTotal user order requested w w' p written =
    elim (Outcome-cases (lock_and_price order.id (some user) requested w)) [
      | inr (e, u, refused) ↦ absurd (ground arith)
      | inl (amount, u, priced) ↦
          let (at_w, priced_order) =
            lock_and_price-fits order.id (some user) requested w u amount priced in
          let (o, found, positive, fits) = priced_order in
          let new = new_payment order amount PaymentMethod.check PaymentStatus.authorized none u in
          let it : new ≡ p = ground arith in
          let paid =
            add_transaction new.id PaymentTransactionsType.authorization amount
              PaymentsTransactionsStatus.success (insert_payment new u) in
          let last : w' ≡ sync_order_after_payment order.id paid = ground arith in
          let table : w'.payments ≡ new ∷ w.payments =
            ap (λ (x : World). x.payments) last
            ∙ (sync_order_after_payment-payments order.id paid
                ∙ ap (λ (x : World). new ∷ x.payments) at_w) in
          subst (λ q. IsWithinTotal order.id q w w') it
            (inserted-IsWithinTotal order.id new o w w' (==_refl order.id) refl found positive fits
              table)
    ]

write_credit-IsWithinTotal :
    (user : AuthenticatedUser) (order : TransportOrder) (account : CustomerCreditAccount)
    (requested : Option ℕ) (w w' : World) (p : Payment)
    → write_credit user order account requested w ≡ (ok p, w')
    → IsWithinTotal order.id p w w'
unfolding write_credit book_credit
write_credit-IsWithinTotal user order account requested w w' p written =
    elim (Outcome-cases (lock_and_price order.id (some user) requested w)) [
      | inr (e, u, refused) ↦ absurd (ground arith)
      | inl (amount, u, priced) ↦
          let (at_w, priced_order) =
            lock_and_price-fits order.id (some user) requested w u amount priced in
          let (o, found, positive, fits) = priced_order in
          let new =
            new_payment order amount PaymentMethod.corporate_credit PaymentStatus.authorized none
              u in
          let paid =
            add_transaction new.id PaymentTransactionsType.authorization amount
              PaymentsTransactionsStatus.success (insert_payment new u) in
          elim (Outcome-cases (charge_account account amount paid)) [
            | inr (e, v, no_room) ↦ absurd (ground arith)
            | inl (t, v, charged) ↦ elim (Option-cases (credit_account account.id v)) [
              | inl gone ↦ absurd (ground arith)
              | inr (a, there_is) ↦
                  let it : new ≡ p = ground arith in
                  let moved = record v {
                    credit_movements =
                        credit_movement account.id new a.balance_used ∷ v.credit_movements;
                  } in
                  let last : w' ≡ sync_order_after_payment order.id moved = ground arith in
                  let kept : v.payments ≡ paid.payments =
                    sym (ap (λ r. r.1.payments) charged)
                    ∙ charge_account-payments account amount paid in
                  let table : w'.payments ≡ new ∷ w.payments =
                    ap (λ (x : World). x.payments) last
                    ∙ (sync_order_after_payment-payments order.id moved
                        ∙ (kept ∙ ap (λ (x : World). new ∷ x.payments) at_w)) in
                  subst (λ q. IsWithinTotal order.id q w w') it
                    (inserted-IsWithinTotal order.id new o w w' (==_refl order.id) refl found
                      positive fits table)
            ]
          ]
    ]

-- The order that a request names is the one that its transaction reads again.
same_order :
    (order_id : ℕ) (o : TransportOrder) (w : World) → order_of order_id w ≡ some o → o.id ≡ order_id
same_order order_id o w found =
    (==_iff o.id order_id).0
      (find_first_sound (λ (x : TransportOrder). x.id == order_id) w.orders o found)

register_check-IsWithinTotal :
    (user : AuthenticatedUser) (order_id : ℕ) (requested : Option ℕ) (w w' : World) (p : Payment)
    → register_check user order_id requested w ≡ (ok p, w')
    → IsWithinTotal order_id p w w'
unfolding register_check
register_check-IsWithinTotal user order_id requested w w' p registered =
    elim (Option-cases (order_of order_id w)) [
      | inl missing ↦ absurd (ground arith)
      | inr (o, found) ↦ elim (Outcome-cases (price_payment o (some user) requested w)) [
        | inr (e, u, refused) ↦ absurd (ground arith)
        | inl (amount, u, priced) ↦
            let at_w : u ≡ w =
              sym (ap (λ r. r.1) priced)
              ∙ (price_payment-Respects o (some user) requested).holds w in
            elim (Outcome-cases (write_check user o requested u)) [
              | inr (e, v, failed) ↦ absurd (ground arith)
              | inl (q, v, written) ↦
                  let done : write_check user o requested u ≡ (ok p, w') = ground arith in
                  subst (λ k. IsWithinTotal k p w w') (same_order order_id o w found)
                    (write_check-IsWithinTotal user o requested w w' p
                      (subst (λ z. write_check user o requested z ≡ (ok p, w')) at_w done))
            ]
      ]
    ]

pub check_credit_customer-Respects :
    (user : AuthenticatedUser) (o : TransportOrder)
    → Respects untouched (check_credit_customer user o)
unfolding check_credit_customer
check_credit_customer-Respects user o =
    reading-Respects untouched (customer_of o.customer_id) _ (λ found.
      given-Respects untouched found resource_not_found _ (λ c.
        guarded-Respects untouched (not (is_staff user) && not (c.user_id == user.id)) forbidden _
          (λ _. guarded-Respects untouched (not (is_business c.customer_type)) bad_request _ (λ _.
            reading-Respects untouched (account_of_customer c.id) _ (λ held.
              given-Respects untouched held bad_request _ (λ a.
                guarded-Respects untouched (not (is_active_credit a.status)) bad_request _
                  (λ _. returning-Respects untouched a)))))))

-- An approval that goes through wrote its transaction on the state that it was asked in.
pub approve_corporate_credit-writes :
    (user : AuthenticatedUser) (order_id : ℕ) (requested : Option ℕ) (w w' : World) (p : Payment)
    → approve_corporate_credit user order_id requested w ≡ (ok p, w')
    → (o : TransportOrder) × (account : CustomerCreditAccount) × (order_of order_id w ≡ some o)
      × (write_credit user o account requested w ≡ (ok p, w'))
unfolding approve_corporate_credit
approve_corporate_credit-writes user order_id requested w w' p approved =
    elim (Option-cases (order_of order_id w)) [
      | inl missing ↦ absurd (ground arith)
      | inr (o, found) ↦ elim (Outcome-cases (check_credit_customer user o w)) [
        | inr (e, s, foreign_one) ↦ absurd (ground arith)
        | inl (account, s, customer_ok) ↦
            let s_w : s ≡ w =
              sym (ap (λ r. r.1) customer_ok) ∙ (check_credit_customer-Respects user o).holds w in
            elim (Outcome-cases (price_payment o (some user) requested s)) [
              | inr (e, u, refused) ↦ absurd (ground arith)
              | inl (amount, u, priced) ↦
                  let u_w : u ≡ w =
                    sym (ap (λ r. r.1) priced)
                    ∙ ((price_payment-Respects o (some user) requested).holds s ∙ s_w) in
                  elim (Outcome-cases (write_credit user o account requested u)) [
                    | inr (e, v, failed) ↦ absurd (ground arith)
                    | inl (q, v, written) ↦
                        let done : write_credit user o account requested u ≡ (ok p, w') =
                          ground arith in
                        (
                          o,
                          account,
                          found,
                          subst (λ z. write_credit user o account requested z ≡ (ok p, w')) u_w
                              done,
                        )
                  ]
            ]
      ]
    ]

-- A check or a corporate credit that goes through is for a positive amount, adds that amount to what
-- counts as authorized for the order, and what counts then is at most the order's amount.
pub authorized_payment-IsWithinTotal :
    (user : AuthenticatedUser) (order_id : ℕ) (requested : Option ℕ) (w w' : World) (p : Payment)
    → (register_check user order_id requested w ≡ (ok p, w'))
      ⊎ (approve_corporate_credit user order_id requested w ≡ (ok p, w'))
    → IsWithinTotal order_id p w w'
authorized_payment-IsWithinTotal user order_id requested w w' p (inl registered) =
    register_check-IsWithinTotal user order_id requested w w' p registered
authorized_payment-IsWithinTotal user order_id requested w w' p (inr approved) =
    let (o, account, found, written) =
      approve_corporate_credit-writes user order_id requested w w' p approved in
    subst (λ k. IsWithinTotal k p w w') (same_order order_id o w found)
      (write_credit-IsWithinTotal user o account requested w w' p written)
