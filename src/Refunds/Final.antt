-- ===== src/Refunds/Final.antt =====
-- refunds.service.ts, `updateStatus`: recording a refund is final.
use transport_api.Common.{
  Option, Option-cases, ap, arith, count_where, count_where-update_where, false, inl, inr, is_none,
  subst, true, ℕ, ◌&&◌, ◌∙◌, ◌≡◌,
}
use transport_api.Common.Action.{
  Error, IsAtomic, Outcome-cases, bad_request, err, guarded-IsAtomic, ok, transaction,
  transaction-IsAtomic,
}
use transport_api.Domain.{PaymentsRefundStatus}
use transport_api.Refunds.{
  apply_refund, finish_refund, is_open_row, is_pending_refund, is_success_refund, mark_order,
  mark_payment, move_refund, record_status, refund_of, set_refund_status, update_status,
}
use transport_api.World.{Refund, World}

apply_refund-refunds : (r : Refund) (w : World) → (apply_refund r w).refunds ≡ w.refunds
unfolding apply_refund mark_order mark_payment
apply_refund-refunds r w = ground arith

finish_refund-refunds :
    (s : PaymentsRefundStatus) (r : Refund) (w : World) → (finish_refund s r w).refunds ≡ w.refunds
finish_refund-refunds s r w = ground (arith, apply_refund-refunds r w)

-- Recorded, the refund is not pending any more.
settled_row :
    (id : ℕ) (s : PaymentsRefundStatus) (reference : Option ℕ) (r : Refund)
    → is_pending_refund s ≡ false
    → is_open_row id r ≡ true
    → is_open_row id (set_refund_status s reference r) ≡ false
settled_row id s reference r settled here = ground arith

none_open_after :
    (id : ℕ) (s : PaymentsRefundStatus) (reference : Option ℕ) (w : World)
    → is_pending_refund s ≡ false
    → count_where (is_open_row id) (move_refund id s reference w).refunds ≡ 0
none_open_after id s reference w settled =
    count_where-update_where (is_open_row id) (set_refund_status s reference) w.refunds
      (λ r. settled_row id s reference r settled)

-- A call that returns has moved exactly one row, and only that row's table entry.
update_status-moved :
    (id : ℕ) (s : PaymentsRefundStatus) (reference : Option ℕ) (w w' : World) (r : Refund)
    → update_status id s reference w ≡ (ok r, w')
    → (is_pending_refund s ≡ false)
      × (count_where (is_open_row id) w.refunds ≡ 1)
      × (w'.refunds ≡ (move_refund id s reference w).refunds)
unfolding update_status record_status
update_status-moved id s reference w w' r returned =
    elim (Option-cases (refund_of id (move_refund id s reference w))) [
      | inl missing ↦ absurd (ground arith)
      | inr (x, found) ↦ ground (arith, finish_refund-refunds s x (move_refund id s reference w))
    ]

pub update_status-IsAtomic :
    (id : ℕ) (s : PaymentsRefundStatus) (reference : Option ℕ)
    → IsAtomic (update_status id s reference)
unfolding update_status
update_status-IsAtomic id s reference = guarded-IsAtomic (is_pending_refund s) bad_request _ (
    guarded-IsAtomic (is_success_refund s && is_none reference) bad_request
      (transaction (record_status id s reference))
      (transaction-IsAtomic (record_status id s reference)))

update_status-unmoved :
    (id : ℕ) (s : PaymentsRefundStatus) (reference : Option ℕ) (w : World)
    → count_where (is_open_row id) w.refunds ≡ 0
    → (e : Error) × (update_status id s reference w ≡ (err e, w))
update_status-unmoved id s reference w closed =
    elim (Outcome-cases (update_status id s reference w)) [
      | inl (r, w', returned) ↦
          let (_, one, _) = update_status-moved id s reference w w' r returned in
          absurd (omega (arith, closed, one))
      | inr (e, w', failed) ↦ (
        e,
        subst (λ x. update_status id s reference w ≡ (err e, x))
            (update_status-IsAtomic id s reference w w' e failed) failed,
      )
    ]

-- A refund is recorded once. If `updateStatus` returns, exactly one pending row with the id
-- was there before, and a later call for that id throws and changes nothing, whatever its status
-- and reference are.
pub recorded_refund_is_final :
    (id : ℕ) (s s' : PaymentsRefundStatus) (reference reference' : Option ℕ) (w w' : World)
    → (r : Refund) → update_status id s reference w ≡ (ok r, w')
    → (count_where (is_open_row id) w.refunds ≡ 1)
      × ((e : Error) × (update_status id s' reference' w' ≡ (err e, w')))
recorded_refund_is_final id s s' reference reference' w w' r returned =
    let (settled, one, rows) = update_status-moved id s reference w w' r returned in
    let closed : count_where (is_open_row id) w'.refunds ≡ 0 =
      ap (count_where (is_open_row id)) rows ∙ none_open_after id s reference w settled in
    (one, update_status-unmoved id s' reference' w' closed)
