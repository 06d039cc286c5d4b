-- ===== src/Orders/Transitions.antt =====
-- orders.service.ts: the table of order statuses and the check of a requested change.
pub mod Graph
use transport_api.Common.{Bool, true, false, ◌&&◌, ◌||◌, not, List, [], ◌∷◌, if◌then◌else◌}
use transport_api.Common.Action.{forbidden, domain_rule_violation, Result, ok, err}
use transport_api.Domain.{StatusOrders, EventType, same_status}
use transport_api.World.{AuthenticatedUser}
use transport_api.Orders.Roles.{is_driver_only}

-- `STATUS_TRANSITIONS`
unfoldable pub status_transitions : StatusOrders → List StatusOrders
status_transitions StatusOrders.draft =
    StatusOrders.pending_quote ∷ StatusOrders.pending_customer_confirmation ∷ StatusOrders.requested
    ∷ StatusOrders.cancelled ∷ []
status_transitions StatusOrders.pending_quote =
    StatusOrders.pending_customer_confirmation ∷ StatusOrders.cancelled ∷ []
status_transitions StatusOrders.pending_customer_confirmation =
    StatusOrders.pending_payment ∷ StatusOrders.confirmed ∷ StatusOrders.cancelled ∷ []
status_transitions StatusOrders.pending_payment =
    StatusOrders.requested ∷ StatusOrders.confirmed ∷ StatusOrders.cancelled ∷ StatusOrders.failed
    ∷ []
status_transitions StatusOrders.confirmed =
    StatusOrders.assigning_driver ∷ StatusOrders.cancelled ∷ []
status_transitions StatusOrders.assigning_driver =
    StatusOrders.assigned ∷ StatusOrders.accepted ∷ StatusOrders.requested ∷ StatusOrders.cancelled
    ∷ []
status_transitions StatusOrders.requested =
    StatusOrders.assigning_driver ∷ StatusOrders.assigned ∷ StatusOrders.pending_payment
    ∷ StatusOrders.cancelled ∷ []
status_transitions StatusOrders.assigned =
    StatusOrders.accepted ∷ StatusOrders.requested ∷ StatusOrders.cancelled ∷ []
status_transitions StatusOrders.accepted =
    StatusOrders.in_progress ∷ StatusOrders.failed ∷ StatusOrders.cancelled ∷ []
status_transitions StatusOrders.in_progress =
    StatusOrders.delivered ∷ StatusOrders.failed ∷ StatusOrders.cancelled ∷ []
status_transitions StatusOrders.delivered = []
status_transitions StatusOrders.cancelled = []
status_transitions StatusOrders.failed = []

abbrev pub includes_status : StatusOrders → List StatusOrders → Bool
includes_status s [] = false
includes_status s (x ∷ xs) = same_status x s || includes_status s xs

-- `DRIVER_TRANSITIONS`
abbrev pub driver_transitions : StatusOrders → Bool
driver_transitions StatusOrders.in_progress = true
driver_transitions StatusOrders.delivered = true
driver_transitions StatusOrders.failed = true
driver_transitions _ = false

-- `assertStatusTransition`
unfoldable pub assert_status_transition :
    AuthenticatedUser → StatusOrders → StatusOrders → Result (Unit {0})
unfolding status_transitions
assert_status_transition user current next =
    if same_status current next
    then ok tt
    else if not (includes_status next (status_transitions current))
    then err domain_rule_violation
    else if is_driver_only user && not (driver_transitions next)
    then err forbidden
    else ok tt

-- `eventForStatus`
abbrev pub event_for_status : StatusOrders → EventType
event_for_status StatusOrders.assigned = EventType.assigned
event_for_status StatusOrders.accepted = EventType.accepted
event_for_status StatusOrders.in_progress = EventType.in_transit
event_for_status StatusOrders.delivered = EventType.delivered
event_for_status StatusOrders.cancelled = EventType.cancelled
event_for_status _ = EventType.created
