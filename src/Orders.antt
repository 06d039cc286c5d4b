-- ===== src/Orders.antt =====
-- src/modules/transport/orders: the life of an order and of its money.
pub mod Roles
pub mod Transitions
pub mod Policy
pub mod Settlement
pub mod Closing
pub mod Access
pub mod Cancel
pub mod Views
pub mod Trip
pub mod Create
pub mod Status
pub mod FeePreview
