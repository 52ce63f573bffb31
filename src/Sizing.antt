-- ===== src/Sizing.antt =====
-- internal/sizing: how much VRAM a model needs, on how many cards, and at which context length.
pub mod Facts
pub mod Shards
pub mod Quant
pub mod Plan
pub mod Variants
pub mod Shortfall
