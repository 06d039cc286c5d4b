-- ===== src/Pricing.antt =====
-- src/modules/transport/pricing: the prices that follow supply and demand.
pub mod Bands
