-- ===== src/Cache/Lru.antt =====
-- One set of the second level (`l2_cachesim_access` of Multi_Level_Cache/cachesim.c behind the
-- choice of the set): its invariant, which way an access uses, and the order of uses.
pub mod Ranking
pub mod Choice
pub mod Invariant
pub mod Order
