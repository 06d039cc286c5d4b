-- ===== src/Orders/Views/Own.antt =====
-- orders.service.ts, `findOne`: what a driver who is not staff is shown.
use transport_api.Common.{
  Bool, Bool-cases, List, Option-cases, [], any, ap, arith, inl, inr, refl, select, some, subst,
  sym, true, ℕ, ◌&&◌, ◌==◌, ◌∙◌, ◌∷◌, ◌≡◌,
}
use transport_api.Common.Action.{Outcome-cases, ok}
use transport_api.Orders.Access.{
  assert_can_read_order, assert_driver_can_access_order, driver_readable_assignment, driver_user_is,
}
use transport_api.Orders.Cancel.Checks.{read_only}
use transport_api.Orders.Roles.{is_driver_only}
use transport_api.Orders.Views.{
  OrderView, find_one, scope_assignments_for_viewer, show_order, view_of,
}
use transport_api.World.{AuthenticatedUser, OrderAssignment, TransportOrder, World, order_of}

-- The rows of the table that are of the order and of the caller's own driver.
abbrev pub own_rows : AuthenticatedUser → World → ℕ → List OrderAssignment
own_rows user w order_id =
    select (λ (a : OrderAssignment). a.order_id == order_id && driver_user_is a.driver_id user.id w)
      w.assignments

select_twice :
    {A : Type 0} (p q : A → Bool) (xs : List A)
    → select q (select p xs) ≡ select (λ x. p x && q x) xs
select_twice p q [] = refl
select_twice p q (x ∷ xs) = ground (arith, select_twice p q xs)

scoped_rows :
    (user : AuthenticatedUser) (w : World) (o : TransportOrder)
    → is_driver_only user ≡ true
    → (scope_assignments_for_viewer user w (view_of w o)).assignments ≡ own_rows user w o.id
scoped_rows user w o driver =
    let twice =
      select_twice (λ (a : OrderAssignment). a.order_id == o.id)
        (λ (a : OrderAssignment). driver_user_is a.driver_id user.id w) w.assignments in
    ground (arith, twice)

scoped_order :
    (user : AuthenticatedUser) (w : World) (o : TransportOrder)
    → (scope_assignments_for_viewer user w (view_of w o)).order ≡ o
scoped_order user w o = ground arith

-- Whoever is a driver and not staff is shown an order only with an assignment on it that lets the
-- driver read it, as the order stands, with exactly those of its assignments that are the driver's
-- own, in the order of the table. Reading writes nothing.
pub find_one-own_rows :
    (user : AuthenticatedUser) (id : ℕ) (w w' : World) (view : OrderView)
    → is_driver_only user ≡ true
    → find_one user id w ≡ (ok (some view), w')
    → (w' ≡ w)
      × (order_of id w ≡ some view.order)
      × (any
            (λ (a : OrderAssignment).
              a.order_id == view.order.id && driver_readable_assignment user.id w a)
            w.assignments
          ≡ true)
      × (view.assignments ≡ own_rows user w view.order.id)
unfolding find_one show_order assert_driver_can_access_order
find_one-own_rows user id w w' view driver shown = elim (Option-cases (order_of id w)) [
  | inl missing ↦ absurd (ground arith)
  | inr (o, found) ↦ elim (Outcome-cases (assert_can_read_order user o.customer_id w)) [
    | inr (e, t, refused) ↦ absurd (ground arith)
    | inl (u, t, passed) ↦
        let still = read_only user o.customer_id w passed in
        let at_w : assert_can_read_order user o.customer_id w ≡ (ok u, w) =
          subst (λ v. assert_can_read_order user o.customer_id w ≡ (ok u, v)) still passed in
        let reads =
          any
            (λ (a : OrderAssignment). a.order_id == o.id && driver_readable_assignment user.id w a)
            w.assignments in
        elim (Bool-cases reads) [
          | inr stranger ↦ absurd (ground arith)
          | inl own ↦
              let it : view ≡ scope_assignments_for_viewer user w (view_of w o) = ground arith in
              let same : view.order ≡ o = ap (λ v. v.order) it ∙ scoped_order user w o in
              (
                ground arith,
                found ∙ ap some (sym same),
                subst
                    (λ (x : TransportOrder).
                      any
                        (λ (a : OrderAssignment).
                          a.order_id == x.id && driver_readable_assignment user.id w a)
                        w.assignments
                      ≡ true)
                    (sym same) own,
                ap (λ v. v.assignments) it
                    ∙ scoped_rows user w o driver
                    ∙ ap (λ (x : TransportOrder). own_rows user w x.id) (sym same),
              )
        ]
  ]
]
