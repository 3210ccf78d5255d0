-- ===== src/Vm/SwapSpace.antt =====
-- The swap space (swap.c and swapops.c of Virtual_Memory/simulator-src) as a list of entries.
pub mod Linked
pub mod Search
pub mod Queue
pub mod Append
pub mod RoundTrip
pub mod Unlink
pub mod Without
pub mod Removal
pub mod Free
pub mod Look
pub mod Save
