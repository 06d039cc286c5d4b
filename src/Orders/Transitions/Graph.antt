-- ===== src/Orders/Transitions/Graph.antt =====
-- The end of the status table of orders.service.ts.
use transport_api.Common.{arith, ◌≡◌, ◌⊎◌}
use transport_api.Common.Action.{domain_rule_violation, err}
use transport_api.Domain.{StatusOrders}
use transport_api.Orders.Transitions.{assert_status_transition}
use transport_api.World.{AuthenticatedUser}

-- The orders that are over.
abbrev pub IsTerminal : StatusOrders → Type 0
IsTerminal s =
    (s ≡ StatusOrders.delivered) ⊎ (s ≡ StatusOrders.cancelled) ⊎ (s ≡ StatusOrders.failed)

-- The check on a change of status refuses every caller who asks for another one.
pub terminal_absorbs :
    (user : AuthenticatedUser) (s next : StatusOrders)
    → IsTerminal s
    → (next ≡ s) ⊎ (assert_status_transition user s next ≡ err domain_rule_violation)
unfolding assert_status_transition
terminal_absorbs user s next t = ground arith
