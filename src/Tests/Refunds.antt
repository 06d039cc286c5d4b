-- ===== src/Tests/Refunds.antt =====
-- Concrete runs of the refunds: refunds.service.ts.
use transport_api.Common.{arith, count_where, none, refl, some, ◌≡◌}
use transport_api.Common.Action.{Error, bad_request, err, ok}
use transport_api.Domain.{PaymentsRefundStatus}
use transport_api.Refunds.{
  apply_refund, create, is_open_row, mark_order, mark_payment, record_status, update_status,
}
use transport_api.Refunds.Final.{recorded_refund_is_final}
use transport_api.Refunds.Solvency.{IsSolvent, create-IsSolvent}
use transport_api.Tests.Data.{pending_refund, refunding_world}
use transport_api.World.{Refund, World}

-- Every payment of these rows fits its refunds.
fits : IsSolvent refunding_world
fits id p here = ground arith

create-IsSolvent_example : IsSolvent (create 11 2000 refunding_world).1
create-IsSolvent_example = create-IsSolvent 11 2000 refunding_world fits

-- The 3000 that are pending leave 2000.
too_much : create 11 2001 refunding_world ≡ (err bad_request, refunding_world)
unfolding create
too_much = refl

abbrev recorded_world : World
recorded_world = (update_status 90 PaymentsRefundStatus.success (some 1) refunding_world).1

abbrev paid_out : Refund
paid_out = record pending_refund {
  status = PaymentsRefundStatus.success;
  provider_reference = some 1;
}

recorded :
    update_status 90 PaymentsRefundStatus.success (some 1) refunding_world
    ≡ (ok paid_out, recorded_world)
unfolding update_status record_status apply_refund mark_payment mark_order
recorded = refl

recorded_refund_is_final_example :
    (count_where (is_open_row 90) refunding_world.refunds ≡ 1)
    × ((e : Error) × (update_status 90 PaymentsRefundStatus.failed none recorded_world
          ≡ (err e, recorded_world)))
recorded_refund_is_final_example =
    recorded_refund_is_final 90 PaymentsRefundStatus.success PaymentsRefundStatus.failed (some 1)
      none refunding_world recorded_world paid_out recorded
