-- ===== src/Refunds/Solvency.antt =====
-- refunds.service.ts: no more is promised back than was paid.
use transport_api.Common.{
  ==_iff, Bool-cases, Option-cases, arith, find_first_sound, inl, inr, ltb, some, subst, sym, ℕ,
  ◌-◌, ◌<◌, ◌==◌, ◌||◌, ◌≡◌, ◌≤◌, ◌⊎◌,
}
use transport_api.Orders.Settlement.{is_corporate_credit}
use transport_api.Refunds.{
  committed_on, create, insert_refund, new_refund, payment_of, refundable_payment_statuses,
}
use transport_api.World.{Payment, World}

-- The open and the paid refunds of every payment fit its amount.
abbrev pub IsSolvent : World → Type 0
IsSolvent w = (id : ℕ) (p : Payment) → payment_of id w ≡ some p → committed_on id w ≤ p.amount

-- How `create` can end: it throws and writes nothing, or its refund fits what is left.
create-cases :
    (payment_id amount : ℕ) (w : World)
    → ((create payment_id amount w).1 ≡ w)
      ⊎ ((p : Payment) × (payment_of payment_id w ≡ some p)
          × (amount ≤ p.amount - committed_on p.id w)
          × (0 < amount)
          × ((create payment_id amount w).1 ≡ insert_refund (new_refund p amount w) w))
unfolding create
create-cases payment_id amount w = elim (Option-cases (payment_of payment_id w)) [
  | inl missing ↦ inl (ground arith)
  | inr (p, found) ↦ elim (Bool-cases (is_corporate_credit p.payment_method)) [
    | inl credit ↦ inl (ground arith)
    | inr cash ↦ elim (Bool-cases (refundable_payment_statuses p.status)) [
      | inr empty ↦ inl (ground arith)
      | inl holds ↦ elim (Bool-cases (amount == 0 || ltb (p.amount - committed_on p.id w) amount)) [
        | inl refused ↦ inl (ground arith)
        | inr fits ↦ inr (p, found, ground arith, ground arith, ground arith)
      ]
    ]
  ]
]

insert_refund-IsSolvent :
    (payment_id amount : ℕ) (w : World) (p : Payment)
    → payment_of payment_id w ≡ some p
    → amount ≤ p.amount - committed_on p.id w
    → 0 < amount
    → IsSolvent w
    → IsSolvent (insert_refund (new_refund p amount w) w)
insert_refund-IsSolvent payment_id amount w p found fits some_money solvent id q here =
    let own =
      (==_iff p.id payment_id).0
        (find_first_sound (λ (x : Payment). x.id == payment_id) w.payments p found) in
    ground (arith, own, solvent id q here)

-- Requesting a refund keeps every payment solvent, whatever the request: the refunds that are open
-- or paid out never exceed the payment's amount.
pub create-IsSolvent :
    (payment_id amount : ℕ) (w : World) → IsSolvent w → IsSolvent (create payment_id amount w).1
create-IsSolvent payment_id amount w solvent = elim (create-cases payment_id amount w) [
  | inl same ↦ subst IsSolvent (sym same) solvent
  | inr (p, found, fits, positive, written) ↦
      subst IsSolvent (sym written)
        (insert_refund-IsSolvent payment_id amount w p found fits positive solvent)
]
