-- ===== src/Orders/FeePreview/Agreement.antt =====
-- cancellation-fees.service.ts against orders.service.ts: the fee that the customer is shown and
-- the fee that the cancellation charges cannot drift apart.
use transport_api.Common.{
  ==_iff, List, Option, [], ap, arith, false, find_first_sound, if◌then◌else◌, refl, reverse,
  select, subst, sum_by, sum_by-reverse, sum_by-select, sum_where, sum_where-update_where, sym,
  true, ℕ, ◌&&◌, ◌+◌, ◌==◌, ◌∙◌, ◌∷◌, ◌≡◌,
}
use transport_api.Common.Action.{ok}
use transport_api.Domain.{OrderCancellation, PaymentStatus}
use transport_api.Orders.Cancel.{CancelPlan, plan_cancel, plan_of, settlement_input}
use transport_api.Orders.Cancel.Checks.{plan_cancel-plan_of, plan_cancel_lem}
use transport_api.Orders.Cancel.Money.{apply_cancel_accounts, row_of, row_of-fee}
use transport_api.Orders.FeePreview.{CancellationFeePreview, calculate, is_cancellable, preview_of}
use transport_api.Orders.Policy.{
  amount_of, cancellation_fee, collected_amount, customer_cancellable_statuses, is_collected,
}
use transport_api.Orders.Roles.{is_staff}
use transport_api.Orders.Settlement.{fee_of, is_held, is_unsettled, payments_of, void_unsettled}
use transport_api.Orders.Settlement.Conservation.{holding, select-is_collected}
use transport_api.World.{AuthenticatedUser, Payment, TransportOrder, World}

abbrev collected_of : Payment → ℕ
collected_of p = if is_collected p then p.amount else 0

abbrev held_of : Payment → ℕ
held_of p = if is_held p then p.amount else 0

-- Card authorizations of the order that the provider has not captured.
abbrev pub held_in : ℕ → World → ℕ
held_in order_id w = sum_where (λ (p : Payment). p.order_id == order_id) held_of w.payments

abbrev pub collected_in : ℕ → World → ℕ
collected_in order_id w =
    sum_where (λ (p : Payment). p.order_id == order_id) collected_of w.payments

sum-collected :
    (ps : List Payment) → sum_by amount_of (select is_collected ps) ≡ sum_by collected_of ps
sum-collected [] = refl
sum-collected (p ∷ ps) = ground (arith, sum-collected ps)

money_in-split :
    (id : ℕ) (ps : List Payment)
    → let here = λ (p : Payment). p.order_id == id in
      sum_where here holding ps ≡ sum_where here collected_of ps + sum_where here held_of ps
money_in-split id [] = refl
money_in-split id (p ∷ ps) = ground (arith, money_in-split id ps)

collected-void_unsettled :
    (id : ℕ) (w : World) → collected_in id (void_unsettled id w) ≡ collected_in id w
unfolding void_unsettled
collected-void_unsettled id w =
    sum_where-update_where (λ (p : Payment). p.order_id == id && is_unsettled p.status)
      (λ (p : Payment). p.order_id == id) (λ p. record p { status = PaymentStatus.cancelled })
      collected_of w.payments λ p h. ground arith

-- Both sides read the same collected amount: the preview over the order's payments as they stand,
-- the settlement over those that it has voided, sorted and filtered.
preview_collected :
    (id : ℕ) (w : World)
    → collected_amount (select (λ (p : Payment). p.order_id == id) w.payments) ≡ collected_in id w
unfolding collected_amount
preview_collected id w =
    sum-collected (select (λ (p : Payment). p.order_id == id) w.payments)
    ∙ sum_by-select (λ (p : Payment). p.order_id == id) collected_of w.payments

settlement_collected :
    (id : ℕ) (w : World)
    → collected_amount (select is_collected (payments_of id (void_unsettled id w)))
      ≡ collected_in id w
unfolding collected_amount
settlement_collected id w =
    let w₁ = void_unsettled id w in
    let mine = select (λ (p : Payment). p.order_id == id) w₁.payments in
    ap (sum_by amount_of) (select-is_collected (reverse mine))
    ∙ sum-collected (reverse mine)
    ∙ sum_by-reverse collected_of mine
    ∙ sum_by-select (λ (p : Payment). p.order_id == id) collected_of w₁.payments
    ∙ collected-void_unsettled id w

customer_cancellable-is_cancellable :
    (user : AuthenticatedUser) (o : TransportOrder)
    → customer_cancellable_statuses o.status ≡ true
    → is_cancellable user o ≡ true
customer_cancellable-is_cancellable user o h = ground arith

-- The fee of a customer's plan, on any amount collected, is the one that the preview computes.
planned_fee :
    (user : AuthenticatedUser) (o : TransportOrder) (w : World) (ps : List Payment)
    → customer_cancellable_statuses o.status ≡ true
    → collected_amount ps ≡ collected_in o.id w
    → fee_of (settlement_input (plan_of o.id o OrderCancellation.customer_cancelled w)) ps
      ≡ (preview_of user o w).fee_amount
planned_fee user o w ps allowed same =
    let yet = customer_cancellable-is_cancellable user o allowed in
    let shown = preview_collected o.id w in rw (yet, same, shown)

-- What the preview keeps and what it gives back are all that was collected.
preview-sums :
    (user : AuthenticatedUser) (o : TransportOrder) (w : World)
    → is_cancellable user o ≡ true
    → let p = preview_of user o w in p.fee_amount + p.refund_amount ≡ collected_in o.id w
unfolding cancellation_fee
preview-sums user o w yet = let shown = preview_collected o.id w in rw (yet, shown) (ground arith)

abbrev Agrees : AuthenticatedUser → ℕ → CancelPlan → CancellationFeePreview → World → Type 0
Agrees user id plan p w =
    ((row_of user.id plan w).fee_amount ≡ p.fee_amount)
    × ((row_of user.id plan w).refund_amount ≡ p.refund_amount + held_in id w)

plan_of-Agrees :
    (user : AuthenticatedUser) (o : TransportOrder) (w : World)
    → customer_cancellable_statuses o.status ≡ true
    → let plan = plan_of o.id o OrderCancellation.customer_cancelled w in
      Agrees user o.id plan (preview_of user o w) w
plan_of-Agrees user o w allowed =
    let plan = plan_of o.id o OrderCancellation.customer_cancelled w in
    let ps = select is_collected (payments_of o.id (void_unsettled o.id w)) in
    let fee =
      row_of-fee user.id plan w ∙ planned_fee user o w ps allowed (settlement_collected o.id w) in
    let sums = apply_cancel_accounts user.id plan w in
    let parts = money_in-split o.id w.payments in
    let shown = preview-sums user o w (customer_cancellable-is_cancellable user o allowed) in
    (fee, omega (arith, fee, sums.1, parts, shown))

-- For a customer whose cancellation passes the checks, the preview at the same moment shows exactly
-- the fee that the committed cancellation records, and its refund is what the preview shows plus
-- the card authorizations that are released without ever having been collected.
pub fee_shown_is_charged :
    (user : AuthenticatedUser) (id : ℕ) (requested : Option OrderCancellation) (w : World)
    {plan : CancelPlan} {u : World}
    → is_staff user ≡ false
    → plan_cancel user id requested w ≡ (ok plan, u)
    → (p : CancellationFeePreview) × (calculate id user w ≡ (ok p, w))
      × ((row_of user.id plan w).fee_amount ≡ p.fee_amount)
      × ((row_of user.id plan w).refund_amount ≡ p.refund_amount + held_in id w)
unfolding calculate
fee_shown_is_charged user id requested w {plan} {u} customer h =
    let (_, _, (o, found, status), _, _, limits) = plan_cancel_lem user id requested w h in
    let mine : customer_cancellable_statuses plan.status ≡ true = ground (arith, limits) in
    let (type, made, as_customer) = plan_cancel-plan_of user id requested w found h in
    let is_id =
      (==_iff o.id id).0 (find_first_sound (λ (x : TransportOrder). x.id == id) w.orders o found) in
    let allowed = subst (λ s. customer_cancellable_statuses s ≡ true) status mine in
    let planned =
      made
      ∙ ap (λ t. plan_of id o t w) (as_customer customer)
      ∙ ap (λ k. plan_of k o OrderCancellation.customer_cancelled w) (sym is_id) in
    let agrees =
      subst
        (λ (k : ℕ).
          Agrees user k (plan_of o.id o OrderCancellation.customer_cancelled w)
            (preview_of user o w) w)
        is_id (plan_of-Agrees user o w allowed) in
    let final =
      subst (λ (q : CancelPlan). Agrees user id q (preview_of user o w) w) (sym planned) agrees in
    (preview_of user o w, rw found, final.0, final.1)
