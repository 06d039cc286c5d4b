-- ===== src/Orders/Status/Delivered.antt =====
-- orders.service.ts, `updateStatus` to DELIVERED.
use transport_api.Common.{
  Bool, Bool-cases, Option-cases, any, arith, false, inl, inr, not, some, true, ℕ, ◌&&◌, ◌==◌, ◌≡◌,
  ◌⊎◌,
}
use transport_api.Common.Action.{Result-cases, ok}
use transport_api.Domain.{StatusOrders}
use transport_api.Orders.Access.{
  assert_driver_can_access_order, assert_driver_holds_order, driver_holder_assignment_statuses,
  driver_readable_assignment, driver_user_is,
}
use transport_api.Orders.Roles.{is_driver_only}
use transport_api.Orders.Status.{continue_update, update_status}
use transport_api.Orders.Status.Evidence.{delivery_needs_evidence, evidence_ready}
use transport_api.Orders.Transitions.{assert_status_transition}
use transport_api.World.{AuthenticatedUser, OrderAssignment, TransportOrder, World, order_of}

into_delivered :
    (user : AuthenticatedUser) (s : StatusOrders)
    → assert_status_transition user s StatusOrders.delivered ≡ ok tt
    → (s ≡ StatusOrders.in_progress) ⊎ (s ≡ StatusOrders.delivered)
unfolding assert_status_transition
into_delivered user s passed = ground arith

-- The driver of the user has an assignment of the order that is accepted, completed or cancelled.
abbrev pub holds_as_driver : AuthenticatedUser → ℕ → World → Bool
holds_as_driver user id w =
    any
      (λ (a : OrderAssignment).
        a.order_id == id
        && driver_holder_assignment_statuses a.assignment_status
        && driver_user_is a.driver_id user.id w)
      w.assignments

-- A change to DELIVERED that is not refused is of an order that is IN_PROGRESS, or DELIVERED already,
-- whose evidence is ready; and a caller who is a driver and not staff has an assignment of the order
-- that is accepted, completed or cancelled.
pub delivered_with_evidence :
    (user : AuthenticatedUser) (id : ℕ) (w w' : World) (o' : TransportOrder)
    → update_status user id StatusOrders.delivered w ≡ (ok o', w')
    → (o : TransportOrder) × (order_of id w ≡ some o)
      × ((o.status ≡ StatusOrders.in_progress) ⊎ (o.status ≡ StatusOrders.delivered))
      × (evidence_ready id w ≡ true)
      × ((is_driver_only user ≡ false) ⊎ (holds_as_driver user id w ≡ true))
unfolding update_status continue_update assert_driver_can_access_order assert_driver_holds_order
delivered_with_evidence user id w w' o' delivered =
    let stranger =
      is_driver_only user
      && not (
          any (λ (a : OrderAssignment). a.order_id == id && driver_readable_assignment user.id w a)
            w.assignments) in
    let ready = delivery_needs_evidence id w in
    elim (Option-cases (order_of id w)) [
      | inl missing ↦ absurd (ground arith)
      | inr (o, found) ↦ elim (Bool-cases stranger) [
        | inl refused ↦ absurd (ground arith)
        | inr reads ↦
            elim (Result-cases (assert_status_transition user o.status StatusOrders.delivered)) [
              | inr (e, illegal) ↦ absurd (ground arith)
              | inl (u, legal) ↦
                  elim (Bool-cases (is_driver_only user && not (holds_as_driver user id w))) [
                    | inl other ↦ absurd (ground arith)
                    | inr holds ↦ elim (Bool-cases (evidence_ready id w)) [
                      | inr lacking ↦ absurd (ground (arith, ready))
                      | inl there ↦
                          (o, found, into_delivered user o.status legal, there, holder holds)
                    ]
                  ]
            ]
      ]
    ]
  where
    holder :
        (is_driver_only user && not (holds_as_driver user id w)) ≡ false
        → (is_driver_only user ≡ false) ⊎ (holds_as_driver user id w ≡ true)
    holder holds = ground arith
