-- ===== src/Sched/Irwl/Tests.antt =====
-- Two threads at the lock of OS_Threaded_Scheduling/src/os-sim.c.
use ece.Prelude.{ℕ, ◌<◌, ◌≡◌, ◌≢◌, refl, none, some, arith, pos}
use ece.Sched.Irwl.{irwl_writer_lock, irwl_writer_unlock, irwl_reader_lock}
use ece.Sched.Irwl.Exclusion.{
  outside, reading, writing, Threads, enter, all_outside, writer_in, writer_out, reader_in, LockRun,
  unused, stepped, LockRun-excludes,
}

abbrev one_writes : Threads
one_writes = enter 1 writing (record { mutex = none; writers = pos 1 }) all_outside

abbrev one_left : Threads
one_left = enter 1 outside (record { mutex = none; writers = pos 0 }) one_writes

abbrev zero_reads : Threads
zero_reads = enter 0 reading (record { mutex = some 0; writers = pos 0 }) one_left

write_then_read : LockRun 2 zero_reads
unfolding irwl_writer_lock irwl_writer_unlock irwl_reader_lock
write_then_read =
    stepped
      (stepped
        (stepped (unused refl)
          (writer_in 1 (record { mutex = none; writers = pos 1 }) (omega arith) refl refl refl))
        (writer_out 1 (record { mutex = none; writers = pos 0 }) (omega arith) refl refl refl))
      (reader_in 0 (record { mutex = some 0; writers = pos 0 }) (omega arith) refl refl refl)

LockRun-excludes_example :
    ((t u : ℕ)
      → u < 2
      → zero_reads.modes t ≡ reading
      → (zero_reads.modes u ≢ writing) × (zero_reads.modes u ≡ reading → u ≡ t))
    × ((k : ℕ) × (zero_reads.lock.writers ≡ pos k)
        × ((u : ℕ) → u < 2 → zero_reads.modes u ≡ writing → 0 < k))
LockRun-excludes_example = LockRun-excludes 2 zero_reads write_then_read
