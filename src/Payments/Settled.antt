-- ===== src/Payments/Settled.antt =====
-- src/modules/billing/payments/payments.service.ts: what becomes of the payments, row by row, while
-- CardNET's calls come in.
use transport_api.Common.{
  Bool, List, [], arith, false, if◌then◌else◌, inl, inr, refl, subst, sym, true, update_where, ℕ,
  ◌∙◌, ◌∷◌, ◌≡◌, ◌⊎◌,
}
use transport_api.Common.Respects.{StateFrame}
use transport_api.Domain.{PaymentStatus}
use transport_api.Payments.{terminal_payment_statuses}
use transport_api.Payments.Cardnet.{is_unsettled}
use transport_api.Payments.Manual.{set_payment_status}
use transport_api.World.{Payment, World}

-- A payment that was PAID or REFUNDED is as it was; another keeps its identity and its amount.
pub record KeepsSettled (p p' : Payment) : Type 0 where
  pub id : p'.id ≡ p.id
  pub amount : p'.amount ≡ p.amount
  pub settled : (p' ≡ p) ⊎ (terminal_payment_statuses p.status ≡ false)

-- The same, row by row.
pub data KeepsAll : List Payment → List Payment → Type 0 where
  no_rows : KeepsAll [] []
  kept_row :
      {p p' : Payment} {ps ps' : List Payment}
      → KeepsSettled p p'
      → KeepsAll ps ps'
      → KeepsAll (p ∷ ps) (p' ∷ ps')

pub KeepsSettled-refl : (p : Payment) → KeepsSettled p p
KeepsSettled-refl p = record { id = refl; amount = refl; settled = inl refl }

pub KeepsSettled-trans : (p q r : Payment) → KeepsSettled p q → KeepsSettled q r → KeepsSettled p r
KeepsSettled-trans p q r f g = record {
  id = g.id ∙ f.id;
  amount = g.amount ∙ f.amount;
  settled = elim f.settled [
    | inr open_one ↦ inr open_one
    | inl same ↦ elim g.settled [
      | inl same' ↦ inl (same' ∙ same)
      | inr open_one ↦ inr (subst (λ x. terminal_payment_statuses x.status ≡ false) same open_one)
    ]
  ];
}

pub KeepsAll-refl : (ps : List Payment) → KeepsAll ps ps
KeepsAll-refl [] = no_rows
KeepsAll-refl (p ∷ ps) = kept_row (KeepsSettled-refl p) (KeepsAll-refl ps)

pub KeepsAll-trans : {ps qs rs : List Payment} → KeepsAll ps qs → KeepsAll qs rs → KeepsAll ps rs
KeepsAll-trans no_rows no_rows = no_rows
KeepsAll-trans (kept_row {p} {p' = q} f fs) (kept_row {p' = r} g gs) =
    kept_row (KeepsSettled-trans p q r f g) (KeepsAll-trans fs gs)

pub settled_rows :
    (id : ℕ) (status : PaymentStatus) (ps : List Payment)
    → KeepsAll ps (update_where (is_unsettled id) (set_payment_status status) ps)
settled_rows id status [] = no_rows
settled_rows id status (p ∷ ps) = kept_row (go (is_unsettled id p) refl) (settled_rows id status ps)
  where
    go :
        (b : Bool)
        → is_unsettled id p ≡ b
        → KeepsSettled p (if b then set_payment_status status p else p)
    go true e = record { id = refl; amount = refl; settled = inr (ground arith) }
    go false e = KeepsSettled-refl p

abbrev pub settled_frame : StateFrame World
settled_frame = record {
  Rel = λ w w'. KeepsAll w.payments w'.payments;
  reflexive = λ w. KeepsAll-refl w.payments;
  transitive = λ u v w f g. KeepsAll-trans f g;
}

pub same_payments : {ps qs : List Payment} → qs ≡ ps → KeepsAll ps qs
same_payments {ps} e = subst (KeepsAll ps) (sym e) (KeepsAll-refl ps)
