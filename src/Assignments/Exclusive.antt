-- ===== src/Assignments/Exclusive.antt =====
-- src/modules/operations/assignments/assignments.service.ts: an order never has two drivers.
use transport_api.Assignments.{
  accepted_assignment, claim_driver, claim_row, insert_assignment, is_claimable, no_hooks,
  pending_assignment, write_assignment, write_claim,
}
use transport_api.Assignments.Decisions.{is_assignment_in, transition}
use transport_api.Common.{
  ==_iff, Bool, Bool-cases, List, [], any, any_of_count, ap, arith, count_where, false, inl, inr,
  refl, subst, sym, true, update_where, ℕ, ◌==◌, ◌∙◌, ◌∷◌, ◌≡◌, ◌≤◌,
}
use transport_api.Common.Action.{Outcome-cases, ok}
use transport_api.Domain.{AssignmentStatus, StatusOrders}
use transport_api.Orders.Closing.{holds_order}
use transport_api.World.{OrderAssignment, TransportOrder, World}

-- No order has two live assignments, pending or accepted.
abbrev pub IsExclusive : List OrderAssignment → Type 0
IsExclusive xs = (order_id : ℕ) → count_where (holds_order order_id) xs ≤ 1

claimable-free :
    (id : ℕ) (w : World) (os : List TransportOrder)
    → any (is_claimable id w) os ≡ true
    → any (holds_order id) w.assignments ≡ false
claimable-free id w [] h = absurd (ground arith)
claimable-free id w (o ∷ os) h = elim (Bool-cases (is_claimable id w o)) [
  | inl here ↦
      let at : o.id ≡ id = (==_iff o.id id).0 (ground arith) in
      ap (λ k. any (holds_order k) w.assignments) (sym at) ∙ ground arith
  | inr not_here ↦ claimable-free id w os (ground arith)
]

-- A claim that returns was of an order without a driver.
pub claim_row-ok :
    (id : ℕ) (next : StatusOrders) (w w' : World) (u : Unit {0})
    → claim_row id next w ≡ (ok u, w')
    → (any (holds_order id) w.assignments ≡ false) × (w'.assignments ≡ w.assignments)
unfolding claim_row
claim_row-ok id next w w' u returned =
    let one : count_where (is_claimable id w) w.orders ≡ 1 = ground arith in
    (claimable-free id w w.orders (any_of_count (is_claimable id w) w.orders one), ground arith)

claim_driver-ok :
    (id : ℕ) (w w' : World) (u : Unit {0})
    → claim_driver id w ≡ (ok u, w')
    → w'.assignments ≡ w.assignments
unfolding claim_driver
claim_driver-ok id w w' u returned = ground arith

none_held :
    (p : OrderAssignment → Bool) (xs : List OrderAssignment)
    → any p xs ≡ false
    → count_where p xs ≡ 0
none_held p [] h = refl
none_held p (a ∷ xs) h = ground (arith, none_held p xs)

-- A row for an order without a driver.
inserted-IsExclusive :
    (a : OrderAssignment) (xs : List OrderAssignment)
    → any (holds_order a.order_id) xs ≡ false
    → IsExclusive xs
    → IsExclusive (a ∷ xs)
inserted-IsExclusive a xs free exclusive order_id = elim (Bool-cases (a.order_id == order_id)) [
  | inr other ↦ ground (arith, exclusive order_id)
  | inl here ↦
      let zero_held = none_held (holds_order a.order_id) xs free in
      let zero_here : count_where (holds_order order_id) xs ≡ 0 =
        subst (λ k. count_where (holds_order k) xs ≡ 0) ((==_iff a.order_id order_id).0 here)
          zero_held in
      ground (arith, zero_here)
]

-- Rows that were not live do not become so.
pub moved-IsExclusive :
    (p : OrderAssignment → Bool) (f : OrderAssignment → OrderAssignment) (xs : List OrderAssignment)
    → ((k : ℕ) (a : OrderAssignment)
        → p a ≡ true
        → holds_order k (f a) ≡ true
        → holds_order k a ≡ true)
    → IsExclusive xs
    → IsExclusive (update_where p f xs)
moved-IsExclusive p f xs back exclusive k = omega (arith, exclusive k, fewer xs)
  where
    fewer :
        (ys : List OrderAssignment)
        → count_where (holds_order k) (update_where p f ys) ≤ count_where (holds_order k) ys
    fewer [] = omega arith
    fewer (y ∷ ys) = ground (arith, back k y, fewer ys)

pub write_assignment-IsExclusive :
    (user_id order_id driver_id vehicle_id : ℕ) (w w' : World) (a : OrderAssignment)
    → write_assignment user_id order_id driver_id vehicle_id w ≡ (ok a, w')
    → IsExclusive w.assignments
    → IsExclusive w'.assignments
unfolding write_assignment insert_assignment
write_assignment-IsExclusive user_id order_id driver_id vehicle_id w w' a returned exclusive =
    elim (Outcome-cases (claim_row order_id StatusOrders.assigned w)) [
      | inr (e, u, taken) ↦ absurd (ground arith)
      | inl (t, u, claimed) ↦ elim (Outcome-cases (claim_driver driver_id u)) [
        | inr (e, v, busy) ↦ absurd (ground arith)
        | inl (t', v, free) ↦
            let (none_yet, same) = claim_row-ok order_id StatusOrders.assigned w u t claimed in
            let rows : v.assignments ≡ w.assignments =
              claim_driver-ok driver_id u v t' free ∙ same in
            let new = pending_assignment user_id order_id driver_id vehicle_id v in
            let written : w'.assignments ≡ new ∷ v.assignments = ground arith in
            subst IsExclusive (sym (written ∙ ap (λ xs. new ∷ xs) rows))
              (inserted-IsExclusive new w.assignments none_yet exclusive)
      ]
    ]

pub write_claim-IsExclusive :
    (user_id order_id driver_id vehicle_id : ℕ) (w w' : World) (a : OrderAssignment)
    → write_claim no_hooks user_id order_id driver_id vehicle_id w ≡ (ok a, w')
    → IsExclusive w.assignments
    → IsExclusive w'.assignments
unfolding write_claim insert_assignment
write_claim-IsExclusive user_id order_id driver_id vehicle_id w w' a returned exclusive =
    elim (Outcome-cases (claim_row order_id StatusOrders.accepted w)) [
      | inr (e, u, taken) ↦ absurd (ground arith)
      | inl (t, u, claimed) ↦ elim (Outcome-cases (claim_driver driver_id u)) [
        | inr (e, v, busy) ↦ absurd (ground arith)
        | inl (t', v, free) ↦
            let (none_yet, same) = claim_row-ok order_id StatusOrders.accepted w u t claimed in
            let rows : v.assignments ≡ w.assignments =
              claim_driver-ok driver_id u v t' free ∙ same in
            let new = accepted_assignment order_id driver_id vehicle_id v in
            let written : w'.assignments ≡ new ∷ v.assignments = ground arith in
            subst IsExclusive (sym (written ∙ ap (λ xs. new ∷ xs) rows))
              (inserted-IsExclusive new w.assignments none_yet exclusive)
      ]
    ]

pub transition-ok :
    (id : ℕ) (from : AssignmentStatus) (set : OrderAssignment → OrderAssignment) (w w' : World)
    (u : Unit {0})
    → transition id from set w ≡ (ok u, w')
    → w'.assignments ≡ update_where (is_assignment_in id from) set w.assignments
unfolding transition
transition-ok id from set w w' u returned = ground arith
