-- ===== src/Orders/Status/Over.antt =====
-- orders.service.ts: `updateStatus`, `cancel` and `confirmByCustomer` of an order that is over.
use transport_api.Common.{
  ==_iff, All, All-found, Bool-cases, Option, Option-cases, any, ap, arith, false, find_first,
  find_first_sound, inl, inr, not, some, some-injective, subst, sym, ℕ, ◌&&◌, ◌==◌, ◌∙◌, ◌≡◌, ◌≢◌,
  ◌⊎◌,
}
use transport_api.Common.Action.{
  Error, Outcome-cases, bad_request, domain_rule_violation, err, forbidden, resource_not_found,
}
use transport_api.Domain.{OrderCancellation, StatusOrders}
use transport_api.Orders.Access.{assert_driver_can_access_order, driver_readable_assignment}
use transport_api.Orders.Cancel.{cancel, plan_cancel}
use transport_api.Orders.Cancel.Checks.{plan_cancel-read_only, plan_cancel_lem}
use transport_api.Orders.Roles.{is_driver_only}
use transport_api.Orders.Status.{confirm_by_customer, is_awaiting_confirmation, update_status}
use transport_api.Orders.Status.Confirm.{own_order}
use transport_api.Orders.Transitions.Graph.{IsTerminal, terminal_absorbs}
use transport_api.Payments.Cardnet.{differs}
use transport_api.World.{
  AuthenticatedUser, CustomerProfile, OrderAssignment, TransportOrder, World, order_of,
}

refused_update :
    (user : AuthenticatedUser) (id : ℕ) (next : StatusOrders) (w : World) (o : TransportOrder)
    → order_of id w ≡ some o
    → IsTerminal o.status
    → o.status ≢ next
    → (e : Error) × (update_status user id next w ≡ (err e, w))
unfolding update_status assert_driver_can_access_order
refused_update user id next w o found over differs =
    elim (terminal_absorbs user o.status next over) [
      | inl same ↦ absurd (differs (sym same))
      | inr illegal ↦
          elim (Bool-cases (
            is_driver_only user
            && not (
                any
                  (λ (a : OrderAssignment).
                    a.order_id == id && driver_readable_assignment user.id w a)
                  w.assignments))) [
                    | inl stranger ↦ (forbidden, ground arith)
                    | inr reads ↦ (domain_rule_violation, ground arith)
                  ]
    ]

refused_cancel :
    (user : AuthenticatedUser) (id : ℕ) (requested : Option OrderCancellation) (w : World)
    (o : TransportOrder)
    → order_of id w ≡ some o
    → IsTerminal o.status
    → (e : Error) × (cancel user id requested w ≡ (err e, w))
unfolding cancel
refused_cancel user id requested w o found over =
    elim (Outcome-cases (plan_cancel user id requested w)) [
      | inr (e, t, refused) ↦ (e, ground (arith, plan_cancel-read_only user id requested w refused))
      | inl (plan, t, planned) ↦
          let (_, _, (x, there, at), running, _, _) = plan_cancel_lem user id requested w planned in
          let same : x ≡ o = some-injective x o (sym there ∙ found) in
          absurd (
            running (subst IsTerminal (sym (at ∙ ap (λ (y : TransportOrder). y.status) same)) over))
    ]

not_awaiting : (s : StatusOrders) → IsTerminal s → is_awaiting_confirmation s ≡ false
not_awaiting s over = ground arith

refused_confirmation :
    (user : AuthenticatedUser) (id : ℕ) (w : World)
    → All (λ (x : TransportOrder). (x.id ≢ id) ⊎ IsTerminal x.status) w.orders
    → (e : Error) × (confirm_by_customer user id w ≡ (err e, w))
unfolding confirm_by_customer
refused_confirmation user id w over =
    elim (Option-cases (find_first (λ (c : CustomerProfile). c.user_id == user.id) w.customers)) [
      | inl nobody ↦ (resource_not_found, ground arith)
      | inr (c, known) ↦ elim (Option-cases (own_order id c w)) [
        | inl missing ↦ (resource_not_found, ground arith)
        | inr (x, found) ↦
            let mine =
              find_first_sound (λ (o : TransportOrder). o.id == id && o.customer_id == c.id)
                w.orders x found in
            let same : x.id ≡ id = (==_iff x.id id).0 (ground arith) in
            let all_over =
              All-found (λ (y : TransportOrder). (y.id ≢ id) ⊎ IsTerminal y.status)
                (λ (y : TransportOrder). y.id == id && y.customer_id == c.id) w.orders x over
                found in
            elim all_over [
              | inl other ↦ absurd (other same)
              | inr terminal ↦ (bad_request, ground (arith, not_awaiting x.status terminal))
            ]
      ]
    ]

-- Of an order that is DELIVERED, CANCELLED or FAILED, no caller changes the status by one of these
-- requests: `updateStatus` to another status, `cancel` and `confirmByCustomer` throw and write
-- nothing, given that every row with the order's id is over when the request runs.
pub over_stays_over :
    (user : AuthenticatedUser) (id : ℕ) (next : StatusOrders) (requested : Option OrderCancellation)
    (w : World) (o : TransportOrder)
    → order_of id w ≡ some o
    → o.status ≢ next
    → All (λ (x : TransportOrder). (x.id ≢ id) ⊎ IsTerminal x.status) w.orders
    → ((e : Error) × (update_status user id next w ≡ (err e, w)))
      × ((e : Error) × (cancel user id requested w ≡ (err e, w)))
      × ((e : Error) × (confirm_by_customer user id w ≡ (err e, w)))
over_stays_over user id next requested w o found differs over =
    let at : o.id ≡ id =
      (==_iff o.id id).0 (find_first_sound (λ (x : TransportOrder). x.id == id) w.orders o found) in
    let all_over =
      All-found (λ (x : TransportOrder). (x.id ≢ id) ⊎ IsTerminal x.status)
        (λ (x : TransportOrder). x.id == id) w.orders o over found in
    elim all_over [
      | inl other ↦ absurd (other at)
      | inr terminal ↦ (
        refused_update user id next w o found terminal differs,
        refused_cancel user id requested w o found terminal,
        refused_confirmation user id w over,
      )
    ]
