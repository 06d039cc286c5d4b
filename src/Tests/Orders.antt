-- ===== src/Tests/Orders.antt =====
-- Runs of the orders: orders.service.ts and cancellation-fees.service.ts.
use transport_api.Common.{[], if◌then◌else◌, inr, none, refl, some, true, ◌+◌, ◌∷◌, ◌≡◌, ◌≢◌, ◌⊎◌}
use transport_api.Common.Action.{bad_request, err, ok, resource_conflict}
use transport_api.Domain.{OrderCancellation, StatusOrders}
use transport_api.Orders.Access.{assert_can_read_order, assert_delivery_evidence_ready}
use transport_api.Orders.Cancel.{
  announce_cancel, apply_cancel, cancel, cancellation_type_for, check_cancel, commit_cancel,
  plan_cancel,
}
use transport_api.Orders.Cancel.Checks.{commit_cancel_conflict, plan_cancel_lem}
use transport_api.Orders.Cancel.Closed.{IsClosed}
use transport_api.Orders.Cancel.Effects.{cancel_closes}
use transport_api.Orders.Cancel.Money.{apply_cancel_accounts, row_of}
use transport_api.Orders.Closing.{
  cancel_open_offers, cancellation_fee_for, close_order_reservations, release_order_drivers,
  revoke_order_rooms,
}
use transport_api.Orders.FeePreview.{CancellationFeePreview, calculate}
use transport_api.Orders.FeePreview.Agreement.{fee_shown_is_charged, held_in}
use transport_api.Orders.Policy.{
  cancellation_fee, collected_amount, customer_cancellable_statuses, is_past_cancellation_deadline,
}
use transport_api.Orders.Roles.{is_staff}
use transport_api.Orders.Settlement.{
  close_payment_status, keep_fee, release_rest, run_settlement, settle_closed_order_payments,
  settle_collected, settle_collected_payment, settle_held, settle_held_payment, void_unsettled,
}
use transport_api.Orders.Settlement.Conservation.{money_in, settle_conserves}
use transport_api.Orders.Settlement.Frame.{status_of}
use transport_api.Orders.Settlement.Loops.{committed, fees_booked}
use transport_api.Orders.Settlement.OpenRefunds.{NoCreditOn, settle-committed}
use transport_api.Orders.Status.{write_update}
use transport_api.Orders.Status.Evidence.{delivery_needs_evidence, evidence_ready}
use transport_api.Orders.Status.Repeat.{failed_again_refunds_again}
use transport_api.Orders.Status.Writes.{write_update_overwrites}
use transport_api.Orders.Transitions.{assert_status_transition}
use transport_api.Orders.Transitions.Graph.{IsTerminal}
use transport_api.Tests.Data.{
  accepted_order, busy_world, clerk, failed_world, rider, rider_plan, rider_settlement,
  started_world,
}
use transport_api.World.{TransportOrder, World, order_of}
use transport_api.Orders.Status

planned : plan_cancel rider 1 none busy_world ≡ (ok rider_plan, busy_world)
unfolding plan_cancel check_cancel assert_can_read_order assert_status_transition
    cancellation_type_for cancellation_fee_for is_past_cancellation_deadline
planned = refl

fee :
    (settle_closed_order_payments rider_settlement busy_world).0
    ≡ record { fee_amount = 1500; refund_amount = 5500 }
unfolding settle_closed_order_payments run_settlement settle_collected settle_held
    settle_collected_payment settle_held_payment keep_fee release_rest cancellation_fee
    collected_amount void_unsettled
fee = refl

settle_conserves_example :
    let (settlement, w') = settle_closed_order_payments rider_settlement busy_world in
    (settlement.fee_amount + settlement.refund_amount ≡ money_in 1 busy_world)
    × (fees_booked w' ≡ fees_booked busy_world + settlement.fee_amount)
settle_conserves_example = settle_conserves rider_settlement busy_world

plan_cancel_lem_example :
    (busy_world ≡ busy_world)
    × (rider_plan.order_id ≡ 1)
    × ((o : TransportOrder) × (order_of 1 busy_world ≡ some o) × (rider_plan.status ≡ o.status))
    × ¬ IsTerminal rider_plan.status
    × (rider_plan.cancellation_type ≢ OrderCancellation.system_cancelled)
    × ((is_staff rider ≡ true)
        ⊎ ((customer_cancellable_statuses rider_plan.status ≡ true)
            × (rider_plan.cancellation_type ≡ OrderCancellation.customer_cancelled)))
plan_cancel_lem_example = plan_cancel_lem rider 1 none busy_world planned

fee_shown_is_charged_example :
    (p : CancellationFeePreview) × (calculate 1 rider busy_world ≡ (ok p, busy_world))
    × ((row_of 7 rider_plan busy_world).fee_amount ≡ p.fee_amount)
    × ((row_of 7 rider_plan busy_world).refund_amount ≡ p.refund_amount + held_in 1 busy_world)
fee_shown_is_charged_example = fee_shown_is_charged rider 1 none busy_world refl planned

commit_cancel_conflict_example :
    commit_cancel 7 rider_plan started_world ≡ (err resource_conflict, started_world)
commit_cancel_conflict_example =
    commit_cancel_conflict 7 rider_plan started_world (inr (λ e. cc), tt)

apply_cancel_accounts_example :
    let w' = (apply_cancel 7 rider_plan busy_world).1 in
    let c = row_of 7 rider_plan busy_world in
    (w'.cancellations ≡ c ∷ [])
    × (c.fee_amount + c.refund_amount ≡ money_in 1 busy_world)
    × (fees_booked w' ≡ fees_booked busy_world + c.fee_amount)
apply_cancel_accounts_example = apply_cancel_accounts 7 rider_plan busy_world

no_credit : NoCreditOn 1 busy_world
no_credit = ((λ h. refl), ((λ h. refl), ((λ h. refl), tt)))

settle-committed_example :
    let (settlement, w') = settle_closed_order_payments rider_settlement busy_world in
    (committed 1 w' ≡ committed 1 busy_world + settlement.refund_amount)
    × (money_in 1 w' ≡ money_in 1 busy_world)
    × NoCreditOn 1 w'
settle-committed_example = settle-committed rider_settlement busy_world no_credit

failed_again_refunds_again_example :
    committed 1 (Status.update_status clerk 1 StatusOrders.failed failed_world).1
    ≡ committed 1 failed_world + money_in 1 failed_world
failed_again_refunds_again_example =
    failed_again_refunds_again clerk 1 failed_world refl refl refl no_credit

write_update_overwrites_example :
    status_of 1
      (write_update 8 1 StatusOrders.in_progress StatusOrders.delivered failed_world).world
    ≡ some StatusOrders.delivered
write_update_overwrites_example =
    write_update_overwrites 8 1 StatusOrders.in_progress StatusOrders.delivered failed_world refl

delivery_needs_evidence_example :
    assert_delivery_evidence_ready 1 busy_world
    ≡ (if evidence_ready 1 busy_world then ok tt else err bad_request, busy_world)
delivery_needs_evidence_example = delivery_needs_evidence 1 busy_world

abbrev closed_world : World
closed_world = (cancel rider 1 none busy_world).1

abbrev cancelled_order : TransportOrder
cancelled_order = record accepted_order { status = StatusOrders.cancelled }

cancelled : cancel rider 1 none busy_world ≡ (ok cancelled_order, closed_world)
unfolding cancel plan_cancel check_cancel assert_can_read_order assert_status_transition
    cancellation_type_for cancellation_fee_for is_past_cancellation_deadline commit_cancel
    apply_cancel announce_cancel cancel_open_offers revoke_order_rooms release_order_drivers
    close_order_reservations settle_closed_order_payments run_settlement settle_collected
    settle_held settle_collected_payment settle_held_payment keep_fee release_rest cancellation_fee
    collected_amount void_unsettled close_payment_status
cancelled = refl

cancel_closes_example :
    (order_of 1 closed_world ≡ some cancelled_order)
    × (cancelled_order.status ≡ StatusOrders.cancelled)
    × IsClosed 1 closed_world
cancel_closes_example = cancel_closes rider 1 none busy_world cancelled
