-- ===== src/Vm/Flat/Counted.antt =====
-- The numbers that the simulator of Virtual_Memory prints for a trace.
use ece.Prelude.{
  ℕ, ◌+◌, ◌<◌, ◌≤◌, ◌≡◌, arith, List, length, some, Option, Bool, Returns, Returns-imply,
}
use ece.Vm.Types.{random, Vm}
use ece.Vm.Paging.{system_init}
use ece.Vm.Simulator.{Command, boot}
use ece.Vm.Options.{run_audited}
use ece.Vm.Report.{Report, final_report}
use ece.Vm.Consistency.{IsConsistent}
use ece.Vm.Counts.{starts_in, reads_in, writes_in, Counted, run_audited-Counted}
use ece.Vm.Flat.Spec.{Flat, nothing_runs, flat_outputs}
use ece.Vm.Flat.Trace.{run_audited-Returns}

-- The report on the trace.
pub record Reports (cs : List Command) (r : Report) : Type 0 where
  pub reads : r.reads ≡ reads_in cs
  pub writes : r.writes ≡ writes_in cs
  pub accesses : r.accesses ≡ r.reads + r.writes
  pub page_faults : r.page_faults ≤ r.accesses
  pub writebacks : r.writebacks ≤ r.page_faults + starts_in cs

boot-Counted : Counted 0 0 0 (boot random).stats
unfolding boot system_init
boot-Counted = record {
  reads_counted = omega arith;
  writes_counted = omega arith;
  all_counted = omega arith;
  faults = omega arith;
  writebacks = omega arith;
}

Counted-Reports :
    (cs : List Command) (t : Vm)
    → Counted (starts_in cs + 0) (reads_in cs + 0) (writes_in cs + 0) t.stats
    → Reports cs (final_report t)
unfolding final_report
Counted-Reports cs t h = record {
  reads = omega (arith, h.reads_counted);
  writes = omega (arith, h.writes_counted);
  accesses = omega (arith, h.all_counted, h.reads_counted, h.writes_counted);
  page_faults = omega (arith, h.faults, h.all_counted);
  writebacks = omega (arith, h.writebacks);
}

-- In the simulator with random replacement, a trace of fewer than 2 ^ 64 - 1 commands that the flat
-- state allows runs to its end. The report then has the reads and the writes of the trace, which are
-- all accesses, at most one page fault for each access, and at most one page written out for each page
-- fault and each start of a process.
pub run_audited-Reports :
    (check_corruption : Bool) (cs : List Command) (s : Flat) (printed : List (Option ℕ))
    → length cs < 0xFFFF_FFFF_FFFF_FFFF
    → flat_outputs cs nothing_runs ≡ some (printed, s)
    → Returns (λ t. Reports cs (final_report t)) (run_audited check_corruption cs (boot random))
run_audited-Reports check_corruption cs s printed few e =
    Returns-imply IsConsistent (λ t. Reports cs (final_report t))
      (run_audited check_corruption cs (boot random))
      (run_audited-Returns check_corruption cs s printed few e)
      λ t ran k.
        Counted-Reports cs t
          (run_audited-Counted check_corruption cs (boot random) t boot-Counted (omega arith) ran)
