-- ===== src/Assignments/Requests.antt =====
-- src/modules/operations/assignments/assignments.service.ts: the requests of operators and drivers,
-- in any order.
use transport_api.Assignments.{
  assert_driver_ready, assert_driver_vehicle_can_take_order, assignment_of, create, driver_by_id,
  is_dispatchable, write_assignment,
}
use transport_api.Assignments.Decisions.{
  accept, assert_can_mutate_assignment, find_pending_assignment, is_assignment_in, move_assigned,
  reject, set_accepted, set_completed, set_rejected, transition, write_accept, write_complete,
  write_reject,
}
use transport_api.Assignments.Exclusive.{transition-ok}
use transport_api.Common.{
  Bool-cases, Option-cases, ap, arith, find_first, inl, inr, subst, sym, update_where, ℕ, ◌&&◌,
  ◌==◌, ◌∙◌, ◌≡◌, ◌⊎◌,
}
use transport_api.Common.Action.{Outcome-cases, ok}
use transport_api.Domain.{AssignmentStatus, StatusOrders}
use transport_api.World.{
  AuthenticatedUser, DriverProfile, OrderAssignment, Vehicle, World, order_of,
}

-- The checks only read.
pub assert_driver_ready-reads : (d : DriverProfile) (w : World) → (assert_driver_ready d w).1 ≡ w
unfolding assert_driver_ready
assert_driver_ready-reads d w = ground arith

pub assert_driver_vehicle_can_take_order-reads :
    (driver_id vehicle_id category_id : ℕ) (w : World)
    → (assert_driver_vehicle_can_take_order driver_id vehicle_id category_id w).1 ≡ w
unfolding assert_driver_vehicle_can_take_order assert_driver_ready
assert_driver_vehicle_can_take_order-reads driver_id vehicle_id category_id w =
    elim (Option-cases (driver_by_id driver_id w)) [
      | inl missing ↦ ground arith
      | inr (d, found) ↦
          elim (Option-cases
            (find_first (λ (v : Vehicle). v.id == vehicle_id && v.driver_id == d.id) w.vehicles)) [
              | inl none_such ↦ ground arith
              | inr (v, there) ↦ ground arith
            ]
    ]

assert_can_mutate_assignment-reads :
    (id : ℕ) (user : AuthenticatedUser) (w : World) → (assert_can_mutate_assignment id user w).1 ≡ w
unfolding assert_can_mutate_assignment
assert_can_mutate_assignment-reads id user w = ground (arith, Option-cases (assignment_of id w))

find_pending_assignment-reads : (id : ℕ) (w : World) → (find_pending_assignment id w).1 ≡ w
unfolding find_pending_assignment
find_pending_assignment-reads id w = ground (arith, Option-cases (assignment_of id w))

-- What a decision on a pending assignment does to the table.
module _ (id : ℕ) (user : AuthenticatedUser) (w w' : World) (a : OrderAssignment) where
  pub write_accept-ok :
      write_accept id user w ≡ (ok a, w')
      → w'.assignments
        ≡ update_where
            (is_assignment_in id AssignmentStatus.pending)
            (set_accepted w.now)
            w.assignments
  unfolding write_accept
  write_accept-ok returned = elim (Outcome-cases (assert_can_mutate_assignment id user w)) [
    | inr (e, u, refused) ↦ absurd (ground arith)
    | inl (t, u, allowed) ↦ elim (Outcome-cases (find_pending_assignment id u)) [
      | inr (e, v, refused) ↦ absurd (ground arith)
      | inl (pending, v, found) ↦
          let moved = move_assigned pending.order_id StatusOrders.accepted v in
          elim (Outcome-cases (transition id AssignmentStatus.pending (set_accepted v.now) moved)) [
            | inr (e, x, late) ↦ absurd (ground arith)
            | inl (t', x, done) ↦
                let at_v : v ≡ w =
                  (sym (ap (λ r. r.1) found) ∙ find_pending_assignment-reads id u)
                  ∙ (sym (ap (λ r. r.1) allowed) ∙ assert_can_mutate_assignment-reads id user w) in
                let last : w'.assignments ≡ x.assignments =
                  elim (Option-cases (assignment_of id x)) [
                    | inl gone ↦ absurd (ground arith)
                    | inr (b, there) ↦ ground arith
                  ] in
                subst
                  (λ (z : World).
                    w'.assignments
                    ≡ update_where (is_assignment_in id AssignmentStatus.pending)
                        (set_accepted z.now) z.assignments)
                  at_v
                  (last
                    ∙ transition-ok id AssignmentStatus.pending (set_accepted v.now) moved x t'
                        done)
          ]
    ]
  ]

  pub write_reject-ok :
      write_reject id user w ≡ (ok a, w')
      → w'.assignments
        ≡ update_where
            (is_assignment_in id AssignmentStatus.pending)
            (set_rejected w.now)
            w.assignments
  unfolding write_reject
  write_reject-ok returned = elim (Outcome-cases (assert_can_mutate_assignment id user w)) [
    | inr (e, u, refused) ↦ absurd (ground arith)
    | inl (t, u, allowed) ↦ elim (Outcome-cases (find_pending_assignment id u)) [
      | inr (e, v, refused) ↦ absurd (ground arith)
      | inl (pending, v, found) ↦
          let moved = move_assigned pending.order_id StatusOrders.requested v in
          elim (Outcome-cases (transition id AssignmentStatus.pending (set_rejected v.now) moved)) [
            | inr (e, x, late) ↦ absurd (ground arith)
            | inl (t', x, done) ↦
                let at_v : v ≡ w =
                  (sym (ap (λ r. r.1) found) ∙ find_pending_assignment-reads id u)
                  ∙ (sym (ap (λ r. r.1) allowed) ∙ assert_can_mutate_assignment-reads id user w) in
                let last : w'.assignments ≡ x.assignments =
                  elim (Option-cases (assignment_of id x)) [
                    | inl gone ↦ absurd (ground arith)
                    | inr (b, there) ↦ ground arith
                  ] in
                subst
                  (λ (z : World).
                    w'.assignments
                    ≡ update_where (is_assignment_in id AssignmentStatus.pending)
                        (set_rejected z.now) z.assignments)
                  at_v
                  (last
                    ∙ transition-ok id AssignmentStatus.pending (set_rejected v.now) moved x t'
                        done)
          ]
    ]
  ]

pub write_complete-ok :
    (id : ℕ) (w w' : World) (a : OrderAssignment)
    → write_complete id w ≡ (ok a, w')
    → w'.assignments
      ≡ update_where (is_assignment_in id AssignmentStatus.accepted) set_completed w.assignments
unfolding write_complete
write_complete-ok id w w' a returned =
    elim (Outcome-cases (transition id AssignmentStatus.accepted set_completed w)) [
      | inr (e, x, late) ↦ absurd (ground arith)
      | inl (t, x, done) ↦
          let last : w'.assignments ≡ x.assignments = elim (Option-cases (assignment_of id x)) [
            | inl gone ↦ absurd (ground arith)
            | inr (b, there) ↦ ground arith
          ] in
          last ∙ transition-ok id AssignmentStatus.accepted set_completed w x t done
    ]

-- What a request changes is what its transaction changes, if that commits.
pub accept-assignments :
    (id : ℕ) (user : AuthenticatedUser) (w : World)
    → ((accept id user w).1.assignments ≡ w.assignments)
      ⊎ ((a : OrderAssignment) × (u : World) × (write_accept id user w ≡ (ok a, u))
          × ((accept id user w).1.assignments ≡ u.assignments))
unfolding accept
accept-assignments id user w = elim (Outcome-cases (write_accept id user w)) [
  | inr (e, u, failed) ↦ inl (ground arith)
  | inl (a, u, done) ↦ inr (a, u, done, ground arith)
]

pub reject-assignments :
    (id : ℕ) (user : AuthenticatedUser) (w : World)
    → ((reject id user w).1.assignments ≡ w.assignments)
      ⊎ ((a : OrderAssignment) × (u : World) × (write_reject id user w ≡ (ok a, u))
          × ((reject id user w).1.assignments ≡ u.assignments))
unfolding reject
reject-assignments id user w = elim (Outcome-cases (write_reject id user w)) [
  | inr (e, u, failed) ↦ inl (ground arith)
  | inl (a, u, done) ↦ inr (a, u, done, ground arith)
]

pub create-assignments :
    (user : AuthenticatedUser) (order_id driver_id vehicle_id : ℕ) (w : World)
    → ((create user order_id driver_id vehicle_id w).1.assignments ≡ w.assignments)
      ⊎ ((a : OrderAssignment) × (u : World) × (write_assignment user.id order_id driver_id
              vehicle_id w
            ≡ (ok a, u))
          × ((create user order_id driver_id vehicle_id w).1.assignments ≡ u.assignments))
unfolding create
create-assignments user order_id driver_id vehicle_id w =
    elim (Option-cases (order_of order_id w)) [
      | inl missing ↦ inl (ground arith)
      | inr (o, found) ↦ elim (Bool-cases (is_dispatchable o)) [
        | inr closed ↦ inl (ground arith)
        | inl waits ↦
            let check =
              assert_driver_vehicle_can_take_order driver_id vehicle_id o.vehicle_category_id in
            let reads =
              assert_driver_vehicle_can_take_order-reads driver_id vehicle_id o.vehicle_category_id
                w in
            elim (Outcome-cases (check w)) [
              | inr (e, v, refused) ↦
                  let same : v ≡ w = sym (ap (λ r. r.1) refused) ∙ reads in
                  inl ((ground arith) ∙ ap (λ (z : World). z.assignments) same)
              | inl (t, v, allowed) ↦
                  let same : v ≡ w = sym (ap (λ r. r.1) allowed) ∙ reads in
                  elim (Outcome-cases (write_assignment user.id order_id driver_id vehicle_id v)) [
                    | inr (e, u, taken) ↦
                        inl ((ground arith) ∙ ap (λ (z : World). z.assignments) same)
                    | inl (a, u, done) ↦ inr (
                      a,
                      u,
                      subst
                          (λ z.
                            write_assignment user.id order_id driver_id vehicle_id z ≡ (ok a, u))
                          same done,
                      ground arith,
                    )
                  ]
            ]
      ]
    ]
