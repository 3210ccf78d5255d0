-- ===== src/Vm/Report.antt =====
-- What the simulator prints when the trace is over (the end of `main` in
-- Virtual_Memory/simulator-src/pagesim.c), but for the average access time, which is a double.
use ece.Prelude.{ℕ, ◌*◌, ◌/◌, ◌%◌, ◌^◌, Option, none, some, ltb, if◌then◌else◌, u64_mod}
use ece.Vm.Types.{page_size, Vm}

pub record Report : Type 0 where
  pub accesses : ℕ
  pub reads : ℕ
  pub writes : ℕ
  pub page_faults : ℕ
  pub writebacks : ℕ
  pub max_swap_size : ℕ
  pub swap_not_freed : Option ℕ

-- Pages in kilobytes, `(uint64_t) size * PAGE_SIZE >> 10`.
unfoldable pub kilobytes : ℕ → ℕ
kilobytes size = size * page_size % u64_mod / 2 ^ 10

unfoldable pub final_report : Vm → Report
final_report v = record {
  accesses = v.stats.accesses;
  reads = v.stats.reads;
  writes = v.stats.writes;
  page_faults = v.stats.page_faults;
  writebacks = v.stats.writebacks;
  max_swap_size = kilobytes v.swap_queue.size_max;
  swap_not_freed = if ltb 0 v.swap_queue.size then some (kilobytes v.swap_queue.size) else none;
}
