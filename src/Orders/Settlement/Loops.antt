-- ===== src/Orders/Settlement/Loops.antt =====
-- The loops of `settleClosedOrderPayments`, one lemma for each quantity that they move.
use transport_api.Common.{
  All, Bool, List, [], arith, false, min, refl, sum_by, sum_where, true, ℕ, ◌&&◌, ◌+◌, ◌-◌, ◌==◌,
  ◌∙◌, ◌∷◌, ◌≡◌, ◌≤◌,
}
use transport_api.Domain.{PaymentTransactionsType, PaymentsRefundStatus}
use transport_api.Orders.Policy.{amount_of}
use transport_api.Orders.Settlement.{
  Settling, is_corporate_credit, keep_fee, release_rest, settle_collected, settle_collected_payment,
  settle_held, settle_held_payment,
}
use transport_api.World.{Payment, PaymentTransaction, Refund, World}

-- The fees that have been booked, over all payments.
abbrev pub is_fee : PaymentTransaction → Bool
is_fee t = elim t.transaction_type [ PaymentTransactionsType.cancellation_fee ↦ true | _ ↦ false ]

abbrev pub fees_booked : World → ℕ
fees_booked w = sum_where is_fee (λ (t : PaymentTransaction). t.amount) w.transactions

-- The refunds of an order that are open or paid out.
abbrev pub is_open : PaymentsRefundStatus → Bool
is_open PaymentsRefundStatus.failed = false
is_open _ = true

abbrev pub committed : ℕ → World → ℕ
committed order_id w =
    sum_where (λ (r : Refund). r.order_id == order_id && is_open r.status)
      (λ (r : Refund). r.amount) w.refunds

module _ (order_id : ℕ) (payment : Payment) (s : Settling) where
  settle_held_payment-moves :
      let t = settle_held_payment order_id payment s in
      (t.fee_left ≡ s.fee_left)
      × (t.refund_amount ≡ s.refund_amount + payment.amount)
      × (fees_booked t.world ≡ fees_booked s.world)
      × (committed order_id t.world ≡ committed order_id s.world + payment.amount)
  unfolding settle_held_payment
  settle_held_payment-moves = ground arith

  keep_fee-moves :
      let t = keep_fee payment s in
      let kept = min s.fee_left payment.amount in
      (t.fee_left + kept ≡ s.fee_left)
      × (t.refund_amount ≡ s.refund_amount)
      × (fees_booked t.world ≡ fees_booked s.world + kept)
      × (committed order_id t.world ≡ committed order_id s.world)
  unfolding keep_fee
  keep_fee-moves = ground arith

  release_rest-moves :
      (kept : ℕ)
      → kept ≤ payment.amount
      → let t = release_rest order_id payment kept s in
        (t.fee_left ≡ s.fee_left)
        × (t.refund_amount + kept ≡ s.refund_amount + payment.amount)
        × (fees_booked t.world ≡ fees_booked s.world)
  unfolding release_rest
  release_rest-moves kept h = ground arith

  release_rest-committed :
      (kept : ℕ)
      → kept ≤ payment.amount
      → is_corporate_credit payment.payment_method ≡ false
      → committed order_id (release_rest order_id payment kept s).world + kept
        ≡ committed order_id s.world + payment.amount
  unfolding release_rest
  release_rest-committed kept h cash = ground arith

-- No payment of the list is corporate credit.
abbrev pub NoCredit : List Payment → Type 0
NoCredit = All (λ (p : Payment). is_corporate_credit p.payment_method ≡ false)

-- Where no credit is released, the loops leave the payments as they are.
pub settle_held-payments :
    (order_id : ℕ) (ps : List Payment) (s : Settling)
    → (settle_held order_id ps s).world.payments ≡ s.world.payments
unfolding settle_held settle_held_payment
settle_held-payments order_id [] s = refl
settle_held-payments order_id (p ∷ ps) s =
    settle_held-payments order_id ps (settle_held_payment order_id p s)

settle_collected_payment-payments :
    (order_id : ℕ) (p : Payment) (s : Settling)
    → is_corporate_credit p.payment_method ≡ false
    → (settle_collected_payment order_id p s).world.payments ≡ s.world.payments
unfolding settle_collected_payment keep_fee release_rest
settle_collected_payment-payments order_id p s cash = ground arith

pub settle_collected-payments :
    (order_id : ℕ) (ps : List Payment) (s : Settling)
    → NoCredit ps
    → (settle_collected order_id ps s).world.payments ≡ s.world.payments
unfolding settle_collected
settle_collected-payments order_id [] s cash = refl
settle_collected-payments order_id (p ∷ ps) s cash =
    settle_collected-payments order_id ps (settle_collected_payment order_id p s) cash.1
    ∙ settle_collected_payment-payments order_id p s cash.0

module _ (order_id : ℕ) where
  settle_collected_payment-moves :
      (p : Payment) (s : Settling)
      → let t = settle_collected_payment order_id p s in
        (t.refund_amount + s.fee_left ≡ s.refund_amount + p.amount + t.fee_left)
        × (t.fee_left ≡ s.fee_left - p.amount)
        × (fees_booked t.world + t.fee_left ≡ fees_booked s.world + s.fee_left)
  unfolding settle_collected_payment
  settle_collected_payment-moves p s =
      let kept : ℕ = min s.fee_left p.amount in
      let first = keep_fee-moves order_id p s in
      let rest = release_rest-moves order_id p (keep_fee p s) kept (omega arith) in
      (omega (arith, first, rest), omega (arith, first, rest), omega (arith, first, rest))

  settle_collected_payment-committed :
      (p : Payment) (s : Settling)
      → is_corporate_credit p.payment_method ≡ false
      → let t = settle_collected_payment order_id p s in
        committed order_id t.world + s.fee_left ≡ committed order_id s.world + p.amount + t.fee_left
  unfolding settle_collected_payment
  settle_collected_payment-committed p s cash =
      let kept : ℕ = min s.fee_left p.amount in
      let first = keep_fee-moves order_id p s in
      let rest = release_rest-moves order_id p (keep_fee p s) kept (omega arith) in
      let refunds = release_rest-committed order_id p (keep_fee p s) kept (omega arith) cash in
      omega (arith, first, rest, refunds)

  pub settle_held-moves :
      (ps : List Payment) (s : Settling)
      → let t = settle_held order_id ps s in
        (t.fee_left ≡ s.fee_left)
        × (t.refund_amount ≡ s.refund_amount + sum_by amount_of ps)
        × (fees_booked t.world ≡ fees_booked s.world)
        × (committed order_id t.world ≡ committed order_id s.world + sum_by amount_of ps)
  unfolding settle_held
  settle_held-moves [] s = ground arith
  settle_held-moves (p ∷ ps) s =
      let s₁ = settle_held_payment order_id p s in
      ground (arith, settle_held_payment-moves order_id p s, settle_held-moves ps s₁)

  pub settle_collected-moves :
      (ps : List Payment) (s : Settling)
      → let t = settle_collected order_id ps s in
        (t.refund_amount + s.fee_left ≡ s.refund_amount + sum_by amount_of ps + t.fee_left)
        × (t.fee_left ≡ s.fee_left - sum_by amount_of ps)
        × (fees_booked t.world + t.fee_left ≡ fees_booked s.world + s.fee_left)
  unfolding settle_collected
  settle_collected-moves [] s = ground arith
  settle_collected-moves (p ∷ ps) s =
      let s₁ = settle_collected_payment order_id p s in
      ground (arith, settle_collected_payment-moves p s, settle_collected-moves ps s₁)

  pub settle_collected-committed :
      (ps : List Payment) (s : Settling)
      → NoCredit ps
      → let t = settle_collected order_id ps s in
        committed order_id t.world + s.fee_left
        ≡ committed order_id s.world + sum_by amount_of ps + t.fee_left
  unfolding settle_collected
  settle_collected-committed [] s cash = ground arith
  settle_collected-committed (p ∷ ps) s cash =
      let s₁ = settle_collected_payment order_id p s in
      omega (
        arith,
        settle_collected_payment-committed p s cash.0,
        settle_collected-committed ps s₁ cash.1,
      )
