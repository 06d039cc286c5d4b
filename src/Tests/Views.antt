-- ===== src/Tests/Views.antt =====
-- What is shown of an order: orders.service.ts, `findOne`.
use transport_api.Common.{any, refl, some, true, ◌&&◌, ◌==◌, ◌≡◌}
use transport_api.Common.Action.{ok}
use transport_api.Orders.Access.{
  assert_can_read_order, assert_driver_can_access_order, driver_readable_assignment,
}
use transport_api.Orders.Views.{
  OrderView, find_one, scope_assignments_for_viewer, show_order, view_of,
}
use transport_api.Orders.Views.Own.{find_one-own_rows, own_rows}
use transport_api.Tests.Data.{accepted_order, busy_world, courier}
use transport_api.World.{OrderAssignment, order_of}

abbrev courier_view : OrderView
courier_view = scope_assignments_for_viewer courier busy_world (view_of busy_world accepted_order)

shown : find_one courier 1 busy_world ≡ (ok (some courier_view), busy_world)
unfolding find_one show_order assert_can_read_order assert_driver_can_access_order
shown = refl

find_one-own_rows_example :
    (busy_world ≡ busy_world)
    × (order_of 1 busy_world ≡ some courier_view.order)
    × (any
          (λ (a : OrderAssignment).
            a.order_id == courier_view.order.id && driver_readable_assignment 8 busy_world a)
          busy_world.assignments
        ≡ true)
    × (courier_view.assignments ≡ own_rows courier busy_world 1)
find_one-own_rows_example =
    find_one-own_rows courier 1 busy_world busy_world courier_view refl shown
