-- ===== src/Assignments/Histories.antt =====
-- src/modules/operations/assignments/assignments.service.ts: operators and drivers acting on orders,
-- one request after another.
use transport_api.Assignments.{
  assert_driver_ready, check_claim, check_driver, check_vehicle, claim_order, create,
  driver_of_user, no_hooks, write_claim,
}
use transport_api.Assignments.Decisions.{
  accept, complete, is_assignment_in, reject, set_accepted, set_completed, set_rejected,
  write_complete,
}
use transport_api.Assignments.Exclusive.{
  IsExclusive, moved-IsExclusive, write_assignment-IsExclusive, write_claim-IsExclusive,
}
use transport_api.Assignments.Requests.{
  accept-assignments, assert_driver_ready-reads, create-assignments, reject-assignments,
  write_accept-ok, write_complete-ok, write_reject-ok,
}
use transport_api.Common.{
  Bool, List, Option-cases, [], ap, arith, false, find_first, inl, inr, subst, sym, update_where, ℕ,
  ◌&&◌, ◌==◌, ◌∙◌, ◌∷◌, ◌≡◌, ◌⊎◌,
}
use transport_api.Common.Action.{Outcome-cases, ok, transaction}
use transport_api.Domain.{AssignmentStatus, same_assignment-eq}
use transport_api.World.{
  AuthenticatedUser, DriverProfile, OrderAssignment, TransportOrder, Vehicle, World, order_of,
}

check_vehicle-reads :
    (d : DriverProfile) (o : TransportOrder) (vehicle_id : ℕ) (w : World)
    → (check_vehicle d o vehicle_id w).1 ≡ w
unfolding check_vehicle
check_vehicle-reads d o vehicle_id w =
    elim (Option-cases
      (find_first (λ (v : Vehicle). v.id == vehicle_id && v.driver_id == d.id) w.vehicles)) [
        | inl none_such ↦ ground arith
        | inr (v, there) ↦ ground arith
      ]

check_driver-reads :
    (d : DriverProfile) (order_id vehicle_id : ℕ) (w : World)
    → (check_driver d order_id vehicle_id w).1 ≡ w
unfolding check_driver
check_driver-reads d order_id vehicle_id w = elim (Outcome-cases (assert_driver_ready d w)) [
  | inr (e, u, refused) ↦
      let same : u ≡ w = sym (ap (λ r. r.1) refused) ∙ assert_driver_ready-reads d w in
      (ground arith) ∙ same
  | inl (t, u, ready) ↦
      let same : u ≡ w = sym (ap (λ r. r.1) ready) ∙ assert_driver_ready-reads d w in
      elim (Option-cases (order_of order_id u)) [
        | inl missing ↦ (ground arith) ∙ same
        | inr (o, found) ↦ (ground (arith, check_vehicle-reads d o vehicle_id u)) ∙ same
      ]
]

check_claim-reads :
    (enabled via_offer : Bool) (user : AuthenticatedUser) (order_id vehicle_id : ℕ) (w : World)
    → (check_claim enabled via_offer user order_id vehicle_id w).1 ≡ w
unfolding check_claim
check_claim-reads enabled via_offer user order_id vehicle_id w =
    elim (Option-cases (driver_of_user user.id w)) [
      | inl missing ↦ ground arith
      | inr (d, known) ↦ ground (arith, check_driver-reads d order_id vehicle_id w)
    ]

claim_order-assignments :
    (enabled : Bool) (user : AuthenticatedUser) (order_id vehicle_id : ℕ) (w : World)
    → let w' = (claim_order enabled no_hooks user order_id vehicle_id w).1 in
      (w'.assignments ≡ w.assignments)
      ⊎ ((driver_id : ℕ) × (a : OrderAssignment) × (u : World) × (write_claim no_hooks user.id
              order_id driver_id vehicle_id w
            ≡ (ok a, u))
          × (w'.assignments ≡ u.assignments))
unfolding claim_order
claim_order-assignments enabled user order_id vehicle_id w =
    let reads = check_claim-reads enabled false user order_id vehicle_id w in
    elim (Outcome-cases (check_claim enabled false user order_id vehicle_id w)) [
      | inr (e, v, refused) ↦
          let same : v ≡ w = sym (ap (λ r. r.1) refused) ∙ reads in
          inl ((ground arith) ∙ ap (λ (z : World). z.assignments) same)
      | inl (driver_id, v, passed) ↦
          let same : v ≡ w = sym (ap (λ r. r.1) passed) ∙ reads in
          elim (Outcome-cases (write_claim no_hooks user.id order_id driver_id vehicle_id v)) [
            | inr (e, u, taken) ↦ inl ((ground arith) ∙ ap (λ (z : World). z.assignments) same)
            | inl (a, u, done) ↦ inr (
              driver_id,
              a,
              u,
              subst (λ z. write_claim no_hooks user.id order_id driver_id vehicle_id z ≡ (ok a, u))
                  same done,
              ground arith,
            )
          ]
    ]

pub data AssignmentRequest : Type 0 where
  assign : AuthenticatedUser → ℕ → ℕ → ℕ → AssignmentRequest
  claim : AuthenticatedUser → ℕ → ℕ → AssignmentRequest
  accept_it reject_it : ℕ → AuthenticatedUser → AssignmentRequest
  complete_it : ℕ → AssignmentRequest

-- The state after one request, whatever it returned.
unfoldable pub serve : Bool → AssignmentRequest → World → World
serve enabled (assign user order driver vehicle) w = (create user order driver vehicle w).1
serve enabled (claim user order vehicle) w = (claim_order enabled no_hooks user order vehicle w).1
serve enabled (accept_it id user) w = (accept id user w).1
serve enabled (reject_it id user) w = (reject id user w).1
serve enabled (complete_it id) w = (complete id w).1

unfoldable pub serve_all : Bool → List AssignmentRequest → World → World
serve_all enabled [] w = w
serve_all enabled (r ∷ rs) w = serve_all enabled rs (serve enabled r w)

accepted-IsExclusive :
    (id : ℕ) (w : World)
    → IsExclusive w.assignments
    → IsExclusive (
        update_where
          (is_assignment_in id AssignmentStatus.pending)
          (set_accepted w.now)
          w.assignments)
accepted-IsExclusive id w =
    moved-IsExclusive (is_assignment_in id AssignmentStatus.pending) (set_accepted w.now)
      w.assignments
      (λ k a here live.
        ground (arith, same_assignment-eq a.assignment_status AssignmentStatus.pending))

rejected-IsExclusive :
    (id : ℕ) (w : World)
    → IsExclusive w.assignments
    → IsExclusive (
        update_where
          (is_assignment_in id AssignmentStatus.pending)
          (set_rejected w.now)
          w.assignments)
rejected-IsExclusive id w =
    moved-IsExclusive (is_assignment_in id AssignmentStatus.pending) (set_rejected w.now)
      w.assignments (λ k a here live. ground arith)

completed-IsExclusive :
    (id : ℕ) (w : World)
    → IsExclusive w.assignments
    → IsExclusive
        (update_where (is_assignment_in id AssignmentStatus.accepted) set_completed w.assignments)
completed-IsExclusive id w =
    moved-IsExclusive (is_assignment_in id AssignmentStatus.accepted) set_completed w.assignments
      (λ k a here live. ground arith)

serve-IsExclusive :
    (enabled : Bool) (r : AssignmentRequest) (w : World)
    → IsExclusive w.assignments
    → IsExclusive (serve enabled r w).assignments
unfolding serve complete
serve-IsExclusive enabled (assign user order driver vehicle) w exclusive =
    elim (create-assignments user order driver vehicle w) [
      | inl same ↦ subst IsExclusive (sym same) exclusive
      | inr (a, u, done, same) ↦
          subst IsExclusive (sym same)
            (write_assignment-IsExclusive user.id order driver vehicle w u a done exclusive)
    ]
serve-IsExclusive enabled (claim user order vehicle) w exclusive =
    elim (claim_order-assignments enabled user order vehicle w) [
      | inl same ↦ subst IsExclusive (sym same) exclusive
      | inr (driver, a, u, done, same) ↦
          subst IsExclusive (sym same)
            (write_claim-IsExclusive user.id order driver vehicle w u a done exclusive)
    ]
serve-IsExclusive enabled (accept_it id user) w exclusive = elim (accept-assignments id user w) [
  | inl same ↦ subst IsExclusive (sym same) exclusive
  | inr (a, u, done, same) ↦
      subst IsExclusive (sym (same ∙ write_accept-ok id user w u a done))
        (accepted-IsExclusive id w exclusive)
]
serve-IsExclusive enabled (reject_it id user) w exclusive = elim (reject-assignments id user w) [
  | inl same ↦ subst IsExclusive (sym same) exclusive
  | inr (a, u, done, same) ↦
      subst IsExclusive (sym (same ∙ write_reject-ok id user w u a done))
        (rejected-IsExclusive id w exclusive)
]
serve-IsExclusive enabled (complete_it id) w exclusive =
    elim (Outcome-cases (write_complete id w)) [
      | inr (e, u, failed) ↦
          let same : (transaction (write_complete id) w).1.assignments ≡ w.assignments =
            ground arith in
          subst IsExclusive (sym same) exclusive
      | inl (a, u, done) ↦
          let same : (transaction (write_complete id) w).1.assignments ≡ u.assignments =
            ground arith in
          subst IsExclusive (sym (same ∙ write_complete-ok id w u a done))
            (completed-IsExclusive id w exclusive)
    ]

-- An order never has two drivers: if no order has two live assignments, then none has after any
-- sequence of assignments by operators, claims, acceptances, refusals and completions, whether
-- self-dispatch is on or off.
pub serve_all-IsExclusive :
    (enabled : Bool) (rs : List AssignmentRequest) (w : World)
    → IsExclusive w.assignments
    → IsExclusive (serve_all enabled rs w).assignments
unfolding serve_all
serve_all-IsExclusive enabled [] w exclusive = exclusive
serve_all-IsExclusive enabled (r ∷ rs) w exclusive =
    serve_all-IsExclusive enabled rs (serve enabled r w) (serve-IsExclusive enabled r w exclusive)
