-- ===== src/Tests/Over.antt =====
-- Runs of orders that end: orders.service.ts, `updateStatus`.
use transport_api.Common.{false, inr, none, refl, some, true, ◌≡◌, ◌⊎◌}
use transport_api.Common.Action.{Error, err, ok}
use transport_api.Domain.{StatusOrders}
use transport_api.Orders.Access.{
  assert_delivery_evidence_ready, assert_driver_can_access_order, assert_driver_holds_order,
}
use transport_api.Orders.Cancel.{cancel}
use transport_api.Orders.Closing.{cancel_open_offers, release_order_drivers, revoke_order_rooms}
use transport_api.Orders.Roles.{is_driver_only}
use transport_api.Orders.Status.{
  announce_update, complete_assignment, confirm_by_customer, continue_update, update_status,
  write_update,
}
use transport_api.Orders.Status.Delivered.{delivered_with_evidence, holds_as_driver}
use transport_api.Orders.Status.Evidence.{evidence_ready}
use transport_api.Orders.Status.Over.{over_stays_over}
use transport_api.Orders.Transitions.{assert_status_transition}
use transport_api.Tests.Data.{
  accepted_order, clerk, courier, failed_order, failed_world, started_world,
}
use transport_api.World.{TransportOrder, World, order_of}

over_stays_over_example :
    ((e : Error) × (update_status clerk 1 StatusOrders.accepted failed_world
        ≡ (err e, failed_world)))
    × ((e : Error) × (cancel clerk 1 none failed_world ≡ (err e, failed_world)))
    × ((e : Error) × (confirm_by_customer clerk 1 failed_world ≡ (err e, failed_world)))
over_stays_over_example =
    over_stays_over clerk 1 StatusOrders.accepted none failed_world failed_order refl (λ e. cc)
      (inr (inr (inr refl)), tt)

-- The driver who started the trip delivers.
abbrev delivered_order : TransportOrder
delivered_order = record accepted_order { status = StatusOrders.delivered; delivered_at = some 500 }

abbrev delivered_world : World
delivered_world = (update_status courier 1 StatusOrders.delivered started_world).1

delivered :
    update_status courier 1 StatusOrders.delivered started_world
    ≡ (ok delivered_order, delivered_world)
unfolding update_status assert_status_transition continue_update assert_driver_can_access_order
    assert_driver_holds_order assert_delivery_evidence_ready write_update complete_assignment
    release_order_drivers announce_update cancel_open_offers revoke_order_rooms
delivered = refl

delivered_with_evidence_example :
    (o : TransportOrder) × (order_of 1 started_world ≡ some o)
    × ((o.status ≡ StatusOrders.in_progress) ⊎ (o.status ≡ StatusOrders.delivered))
    × (evidence_ready 1 started_world ≡ true)
    × ((is_driver_only courier ≡ false) ⊎ (holds_as_driver courier 1 started_world ≡ true))
delivered_with_evidence_example =
    delivered_with_evidence courier 1 started_world delivered_world delivered_order delivered
