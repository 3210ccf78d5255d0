-- ===== src/Cache.antt =====
-- Multi_Level_Cache: a two-level cache simulator that is driven by a trace of addresses.
pub mod Types
pub mod Init
pub mod LevelTwo
pub mod LevelOne
pub mod Lru
pub mod Address
pub mod Stats
pub mod FirstLevel
pub mod Invariant
mod Tests
