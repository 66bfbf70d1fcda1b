-- ===== src/Pricing.antt =====
-- The two implementations of the subscription price: the pricing plugin, and the older calculation
-- that the billing service keeps for callers without an engine.
pub mod Default
pub mod Legacy
pub mod Parity
pub mod Bounds
