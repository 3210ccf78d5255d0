-- ===== src/Sched/Irwl.antt =====
-- The "inverted" readers-writers lock of OS_Threaded_Scheduling/src/os-sim.c: any number of writers,
-- or one reader. `none` is a thread that waits; it tries again when the lock has changed.
pub mod Exclusion
mod Tests
use ece.Prelude.{
  ℕ, zero, suc, ◌+◌, Bool, true, false, Option, none, some, ◌&&◌, not, if◌then◌else◌, ℤ, pos,
  negsuc, ltb_ℤ, suc_ℤ, pred_ℤ,
}

-- `mutex` is the thread that has locked it.
pub record Irwl : Type 0 where
  pub mutex : Option ℕ
  pub writers : ℤ

abbrev pub is_free : Option ℕ → Bool
is_free none = true
is_free (some t) = false

abbrev pub irwl_init : Irwl
irwl_init = record { mutex = none; writers = pos 0 }

-- The reader keeps the mutex.
unfoldable pub irwl_reader_lock : ℕ → Irwl → Option Irwl
irwl_reader_lock t l =
    if is_free l.mutex && not (ltb_ℤ (pos 0) l.writers)
    then some (record l { mutex = some t })
    else none

unfoldable pub irwl_reader_unlock : Irwl → Irwl
irwl_reader_unlock l = record l { mutex = none }

-- A writer has the mutex only while it counts.
unfoldable pub irwl_writer_lock : Irwl → Option Irwl
irwl_writer_lock l = if is_free l.mutex then some (record l { writers = suc_ℤ l.writers }) else none

unfoldable pub irwl_writer_unlock : Irwl → Option Irwl
irwl_writer_unlock l =
    if is_free l.mutex then some (record l { writers = pred_ℤ l.writers }) else none
