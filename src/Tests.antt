-- ===== src/Tests.antt =====
-- Concrete runs of the modelled handlers.
pub mod Data
pub mod Orders
pub mod Confirm
pub mod Over
pub mod Creation
pub mod Views
pub mod Refunds
pub mod Assignments
pub mod Pricing
pub mod Sessions
pub mod Offers
pub mod Payments
pub mod Matching
