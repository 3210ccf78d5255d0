-- ===== src/Vm/Validity.antt =====
-- `check_validity` of Virtual_Memory/simulator-src/pagesim.c: the checks that the option `-c` makes
-- after each command. `none` is a panic.
use ece.Prelude.{
  ℕ, ◌-◌, Bool, true, false, not, ◌||◌, ◌&&◌, Option, none, some, ltb, leb, ◌==◌, if◌then◌else◌,
  ◌>>=◌, update, for_each,
}
use ece.Vm.Types.{num_pages, num_frames, max_pid, Pte, Vm}
use ece.Vm.Swap.{swap_queue_find}
use ece.Vm.Paging.{read_pte}
use ece.Vm.Simulator.{proc_running}

-- `protected_frames_accounted_for` and `mapped_frames_accounted_for`.
abbrev pub Marks : Type 0
Marks = ℕ → Bool

abbrev pub no_marks : Marks
no_marks f = false

-- The page table of a running process. NUM_FRAMES passes the first test, and is then an index out
-- of the frame table.
unfoldable pub check_ptbr : Vm → ℕ → Marks → Option Marks
check_ptbr v pid marks =
    let found_ptbr = (v.procs pid).saved_ptbr in
    if not ((v.procs pid).state == proc_running)
    then some marks
    else if (found_ptbr == 0) || ltb num_frames found_ptbr
    then none
    else if leb num_frames found_ptbr || ((v.frame_table found_ptbr).protected == 0)
    then none
    else some (update marks found_ptbr true)

unfoldable pub check_protected : Vm → Marks → ℕ → Marks → Option Marks
check_protected v protected pfn marks =
    if not ((v.frame_table pfn).protected == 0) && not (protected pfn) then none else some marks

-- The frame table agrees with the entry; a NULL pointer lies below `procs`.
unfoldable pub check_owner : Vm → ℕ → ℕ → ℕ → Option ℕ → Marks → Option Marks
check_owner v pid vpn found_pfn none mapped = none
check_owner v pid vpn found_pfn (some p) mapped =
    let f = v.frame_table found_pfn in
    if leb max_pid p
    then none
    else if (f.mapped == 0) || (not ((v.procs p).pid == pid) || not (f.vpn == vpn))
    then none
    else some (update mapped found_pfn true)

-- The frame of a valid entry.
unfoldable pub check_frame : Vm → Marks → ℕ → ℕ → ℕ → Marks → Option Marks
check_frame v protected pid vpn found_pfn mapped =
    if (found_pfn == 0) || ltb (num_frames - 1) found_pfn
    then none
    else if protected found_pfn || mapped found_pfn
    then none
    else check_owner v pid vpn found_pfn ((v.frame_table found_pfn).process) mapped

-- The swap entry of a page.
unfoldable pub check_swap : Vm → ℕ → Marks → Option Marks
check_swap v swap mapped =
    if swap == 0
    then some mapped
    else do found ← swap_queue_find v.swap_queue swap; p ← found; some mapped

unfoldable pub check_entry : Vm → Marks → ℕ → ℕ → Pte → Marks → Option Marks
check_entry v protected pid vpn e mapped =
    if (not (e.valid == 0) && not (e.valid == 1)) || (not (e.dirty == 0) && not (e.dirty == 1))
    then none
    else do
      mapped' ← (if e.valid == 0 then some mapped else check_frame v protected pid vpn e.pfn mapped)
      check_swap v e.swap mapped'

unfoldable pub check_page : Vm → Marks → ℕ → ℕ → Marks → Option Marks
check_page v protected pid vpn mapped = do
  e ← read_pte v (v.procs pid).saved_ptbr vpn
  check_entry v protected pid vpn e mapped

unfoldable pub check_table : Vm → Marks → ℕ → Marks → Option Marks
check_table v protected pid mapped =
    if (v.procs pid).state == proc_running
    then for_each num_pages 0 (check_page v protected pid) mapped
    else some mapped

unfoldable pub check_mapped : Vm → ℕ → Marks → Option Marks
check_mapped v pfn mapped =
    let f = v.frame_table pfn in
    if (f.protected == 0) && (not (f.mapped == 0) && not (mapped pfn)) then none else some mapped

-- The checks behind the one of frame 0.
unfoldable pub check_tables : Vm → Option Marks
check_tables v = do
  protected ← for_each max_pid 0 (check_ptbr v) (update no_marks 0 true)
  same ← for_each num_frames 0 (check_protected v protected) protected
  mapped ← for_each max_pid 0 (check_table v protected) no_marks
  for_each num_frames 0 (check_mapped v) mapped

-- That the frame table begins at the first frame is so by the model. The marks are local.
unfoldable pub check_validity : ℕ → Vm → Option Vm
check_validity checks v =
    if (v.frame_table 0).protected == 0
    then none
    else if ltb checks 1
    then some v
    else do marks ← check_tables v; some v
