-- ===== src/Assignments/Ownership.antt =====
-- src/modules/operations/assignments/assignments.service.ts: who may accept or decline.
use transport_api.Assignments.{assignment_of, driver_of_user}
use transport_api.Assignments.Decisions.{
  accept, assert_can_mutate_assignment, complete, reject, write_accept, write_complete,
  write_reject,
}
use transport_api.Common.{==_iff, Option-cases, arith, false, inl, inr, some, ℕ, ◌≡◌, ◌⊎◌}
use transport_api.Common.Action.{Error, Outcome-cases, err, ok, transaction-IsAtomic}
use transport_api.Orders.Roles.{is_staff}
use transport_api.World.{AuthenticatedUser, DriverProfile, OrderAssignment, World}

abbrev pub IsOwn : ℕ → AuthenticatedUser → World → Type 0
IsOwn id user w =
    (d : DriverProfile) × (a : OrderAssignment) × (driver_of_user user.id w ≡ some d)
    × (assignment_of id w ≡ some a)
    × (a.driver_id ≡ d.id)

assert_can_mutate_assignment-ok :
    (id : ℕ) (user : AuthenticatedUser) (w w' : World) (t : Unit {0})
    → is_staff user ≡ false
    → assert_can_mutate_assignment id user w ≡ (ok t, w')
    → IsOwn id user w
unfolding assert_can_mutate_assignment
assert_can_mutate_assignment-ok id user w w' t driver allowed =
    elim (Option-cases (assignment_of id w)) [
      | inl missing ↦ absurd (ground arith)
      | inr (a, found) ↦ elim (Option-cases (driver_of_user user.id w)) [
        | inl nobody ↦ absurd (ground arith)
        | inr (d, known) ↦ (d, a, known, found, ground (arith, ==_iff a.driver_id d.id))
      ]
    ]

accept-IsOwn :
    (id : ℕ) (user : AuthenticatedUser) (w w' : World) (a : OrderAssignment)
    → is_staff user ≡ false
    → accept id user w ≡ (ok a, w')
    → IsOwn id user w
unfolding accept write_accept
accept-IsOwn id user w w' a driver returned =
    elim (Outcome-cases (assert_can_mutate_assignment id user w)) [
      | inr (e, u, refused) ↦ absurd (ground arith)
      | inl (t, u, allowed) ↦ assert_can_mutate_assignment-ok id user w u t driver allowed
    ]

reject-IsOwn :
    (id : ℕ) (user : AuthenticatedUser) (w w' : World) (a : OrderAssignment)
    → is_staff user ≡ false
    → reject id user w ≡ (ok a, w')
    → IsOwn id user w
unfolding reject write_reject
reject-IsOwn id user w w' a driver returned =
    elim (Outcome-cases (assert_can_mutate_assignment id user w)) [
      | inr (e, u, refused) ↦ absurd (ground arith)
      | inl (t, u, allowed) ↦ assert_can_mutate_assignment-ok id user w u t driver allowed
    ]

-- A driver who is not staff decides on its own assignments only: if an acceptance or a refusal
-- returns, the caller has a driver profile, and the assignment with that id is of this driver.
pub own_decisions :
    (id : ℕ) (user : AuthenticatedUser) (w w' : World) (a : OrderAssignment)
    → is_staff user ≡ false
    → (accept id user w ≡ (ok a, w')) ⊎ (reject id user w ≡ (ok a, w'))
    → (d : DriverProfile) × (b : OrderAssignment) × (driver_of_user user.id w ≡ some d)
      × (assignment_of id w ≡ some b)
      × (b.driver_id ≡ d.id)
own_decisions id user w w' a driver (inl accepted) = accept-IsOwn id user w w' a driver accepted
own_decisions id user w w' a driver (inr rejected) = reject-IsOwn id user w w' a driver rejected

accept-err :
    (id : ℕ) (user : AuthenticatedUser) (w w' : World) (e : Error)
    → accept id user w ≡ (err e, w')
    → w' ≡ w
unfolding accept
accept-err id user w w' e failed = elim (Outcome-cases (write_accept id user w)) [
  | inl (a, u, done) ↦ absurd (ground arith)
  | inr (e', u, refused) ↦ ground arith
]

reject-err :
    (id : ℕ) (user : AuthenticatedUser) (w w' : World) (e : Error)
    → reject id user w ≡ (err e, w')
    → w' ≡ w
unfolding reject
reject-err id user w w' e failed = elim (Outcome-cases (write_reject id user w)) [
  | inl (a, u, done) ↦ absurd (ground arith)
  | inr (e', u, refused) ↦ ground arith
]

complete-err : (id : ℕ) (w w' : World) (e : Error) → complete id w ≡ (err e, w') → w' ≡ w
unfolding complete
complete-err id w w' e = transaction-IsAtomic (write_complete id) w w' e

-- An acceptance, a refusal or a completion that throws has written nothing and told nobody.
failed_decisions_write_nothing :
    (id : ℕ) (user : AuthenticatedUser) (w w' : World) (e : Error)
    → (accept id user w ≡ (err e, w'))
      ⊎ (reject id user w ≡ (err e, w'))
      ⊎ (complete id w ≡ (err e, w'))
    → w' ≡ w
failed_decisions_write_nothing id user w w' e (inl h) = accept-err id user w w' e h
failed_decisions_write_nothing id user w w' e (inr (inl h)) = reject-err id user w w' e h
failed_decisions_write_nothing id user w w' e (inr (inr h)) = complete-err id w w' e h
