-- ===== src/Payments/Limits.antt =====
-- src/modules/billing/payments/payments.service.ts, `registerCheck` and `approveCorporateCredit`: how much
-- may be authorized and charged.
use transport_api.Common.{
  ==_iff, List, Option, Option-cases, ap, arith, find_first_sound, inl, inr, refl, select, some,
  subst, sym, true, ℕ, ◌+◌, ◌<◌, ◌==◌, ◌∙◌, ◌∷◌, ◌≡◌, ◌≤◌,
}
use transport_api.Common.Action.{ok, resource_not_found}
use transport_api.Common.Respects.{
  Respects, StateFrame, bind-Respects, given-Respects, reading-Respects,
}
use transport_api.Payments.{
  assert_order_accepts_payment, assert_order_not_already_dispatchable, dispatch_authorized_amount,
  is_dispatch_authorized_payment, lock_and_price, payable_amount, payments_of, price_payment,
  sync_order_after_payment, total_of,
}
use transport_api.Payments.Manual.{charge_account}
use transport_api.World.{
  AuthenticatedUser, CustomerCreditAccount, Payment, TransportOrder, World, order_of,
}

abbrev pub untouched : StateFrame World
untouched = record {
  Rel = λ w w'. w' ≡ w;
  reflexive = λ w. refl;
  transitive = λ u v w e e'. e' ∙ e;
}

payable_amount-Respects :
    (o : TransportOrder) (ps : List Payment) (requested : Option ℕ)
    → Respects untouched (payable_amount o ps requested)
unfolding payable_amount
payable_amount-Respects o ps requested = record { holds = λ w. ground arith }

pub price_payment-Respects :
    (o : TransportOrder) (user : Option AuthenticatedUser) (requested : Option ℕ)
    → Respects untouched (price_payment o user requested)
unfolding price_payment assert_order_accepts_payment assert_order_not_already_dispatchable
price_payment-Respects o user requested = reading-Respects untouched (payments_of o.id) _ (λ ps.
    bind-Respects untouched (assert_order_accepts_payment o user) _
      (record { holds = λ w. ground arith })
      (λ _.
        bind-Respects untouched (assert_order_not_already_dispatchable o ps) _
          (record { holds = λ w. ground arith }) (λ _. payable_amount-Respects o ps requested)))

pub lock_and_price-Respects :
    (id : ℕ) (user : Option AuthenticatedUser) (requested : Option ℕ)
    → Respects untouched (lock_and_price id user requested)
unfolding lock_and_price
lock_and_price-Respects id user requested = reading-Respects untouched (order_of id) _ (λ found.
    given-Respects untouched found resource_not_found _
      (λ o. price_payment-Respects o user requested))

-- A price that is given fits what the payments that count leave open.
price_payment-fits :
    (o : TransportOrder) (user : Option AuthenticatedUser) (requested : Option ℕ) (w w' : World)
    (amount : ℕ)
    → price_payment o user requested w ≡ (ok amount, w')
    → (0 < amount) × (dispatch_authorized_amount (payments_of o.id w) + amount ≤ total_of o)
unfolding price_payment payable_amount assert_order_accepts_payment
    assert_order_not_already_dispatchable
price_payment-fits o user requested w w' amount priced = ground arith

pub lock_and_price-fits :
    (id : ℕ) (user : Option AuthenticatedUser) (requested : Option ℕ) (w w' : World) (amount : ℕ)
    → lock_and_price id user requested w ≡ (ok amount, w')
    → (w' ≡ w)
      × ((o : TransportOrder) × (order_of id w ≡ some o)
          × (0 < amount)
          × (dispatch_authorized_amount (payments_of id w) + amount ≤ total_of o))
unfolding lock_and_price
lock_and_price-fits id user requested w w' amount priced = elim (Option-cases (order_of id w)) [
  | inl missing ↦ absurd (ground arith)
  | inr (o, found) ↦
      let at : o.id ≡ id =
        (==_iff o.id id).0
          (find_first_sound (λ (x : TransportOrder). x.id == id) w.orders o found) in
      let (positive, fits) = price_payment-fits o user requested w w' amount (ground arith) in
      (
        sym (ap (λ r. r.1) priced) ∙ (lock_and_price-Respects id user requested).holds w,
        (
          o,
          found,
          positive,
          subst (λ k. dispatch_authorized_amount (payments_of k w) + amount ≤ total_of o) at fits,
        ),
      )
]

pub sync_order_after_payment-payments :
    (id : ℕ) (w : World) → (sync_order_after_payment id w).payments ≡ w.payments
unfolding sync_order_after_payment
sync_order_after_payment-payments id w = ground (arith, Option-cases (order_of id w))

pub charge_account-payments :
    (a : CustomerCreditAccount) (n : ℕ) (w : World) → (charge_account a n w).1.payments ≡ w.payments
unfolding charge_account
charge_account-payments a n w = ground arith

-- An authorization that fits its order.
abbrev pub IsWithinTotal : ℕ → Payment → World → World → Type 0
IsWithinTotal order_id p w w' =
    (o : TransportOrder) × (order_of order_id w ≡ some o)
    × (0 < p.amount)
    × (dispatch_authorized_amount (payments_of order_id w')
        ≡ dispatch_authorized_amount (payments_of order_id w) + p.amount)
    × (dispatch_authorized_amount (payments_of order_id w') ≤ total_of o)

-- A payment that counts, put in front of the others.
pub inserted-IsWithinTotal :
    (order_id : ℕ) (p : Payment) (o : TransportOrder) (w w' : World)
    → (p.order_id == order_id) ≡ true
    → is_dispatch_authorized_payment p ≡ true
    → order_of order_id w ≡ some o
    → 0 < p.amount
    → dispatch_authorized_amount (payments_of order_id w) + p.amount ≤ total_of o
    → w'.payments ≡ p ∷ w.payments
    → IsWithinTotal order_id p w w'
inserted-IsWithinTotal order_id p o w w' own counts found positive fits table =
    let here = λ (x : Payment). x.order_id == order_id in
    let after : dispatch_authorized_amount (payments_of order_id w')
        ≡ dispatch_authorized_amount (payments_of order_id w) + p.amount =
      ap (λ ps. dispatch_authorized_amount (select here ps)) table ∙ ground arith in
    (o, found, positive, after, omega (arith, after, fits))
