-- ===== src/Orders/Roles.antt =====
-- orders.service.ts: how a caller's roles decide what it may do.
use transport_api.Common.{Bool, not, ◌&&◌, ◌||◌}
use transport_api.Domain.{Role, includes}
use transport_api.World.{AuthenticatedUser}

abbrev pub is_staff : AuthenticatedUser → Bool
is_staff user = includes Role.admin user.roles || includes Role.operator user.roles

abbrev pub is_customer_only : AuthenticatedUser → Bool
is_customer_only user = includes Role.customer user.roles && not (is_staff user)

abbrev pub is_driver_only : AuthenticatedUser → Bool
is_driver_only user = includes Role.driver user.roles && not (is_staff user)
