-- ===== src/Tests/Confirm.antt =====
-- Runs of the confirmation of a quote: orders.service.ts, `confirmByCustomer`.
use transport_api.Common.{[], find_first, refl, some, true, ◌==◌, ◌∷◌, ◌≡◌}
use transport_api.Common.Action.{bad_request, err, ok}
use transport_api.Domain.{PaymentStatus, StatusOrders}
use transport_api.Orders.Status.{confirm_by_customer, has_payable_amount, write_confirmation}
use transport_api.Orders.Status.Confirm.{confirm_by_customer_lem, own_order}
use transport_api.Tests.Data.{accepted_order, busy_world, rider}
use transport_api.World.{CustomerProfile, TransportOrder, World}

abbrev quoted_order : TransportOrder
quoted_order = record accepted_order { status = StatusOrders.pending_customer_confirmation }

abbrev quoted_world : World
quoted_world = record busy_world { orders = quoted_order ∷ [] }

abbrev confirmed_order : TransportOrder
confirmed_order = record accepted_order {
  status = StatusOrders.pending_payment;
  payment_status = PaymentStatus.pending;
}

abbrev after_confirmation : World
after_confirmation = (confirm_by_customer rider 1 quoted_world).1

confirmed : confirm_by_customer rider 1 quoted_world ≡ (ok confirmed_order, after_confirmation)
unfolding confirm_by_customer write_confirmation
confirmed = refl

-- The order has been confirmed already.
confirmed_twice :
    confirm_by_customer rider 1 after_confirmation ≡ (err bad_request, after_confirmation)
unfolding confirm_by_customer write_confirmation
confirmed_twice = refl

confirm_by_customer_lem_example :
    ((c : CustomerProfile) × (x : TransportOrder) × (find_first
          (λ (c : CustomerProfile). c.user_id == 7)
          quoted_world.customers
        ≡ some c)
      × (own_order 1 c quoted_world ≡ some x)
      × (x.status ≡ StatusOrders.pending_customer_confirmation)
      × (has_payable_amount x ≡ true))
    × (confirmed_order.status ≡ StatusOrders.pending_payment)
confirm_by_customer_lem_example =
    confirm_by_customer_lem rider 1 quoted_world after_confirmation confirmed_order confirmed
