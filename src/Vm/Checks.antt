-- ===== src/Vm/Checks.antt =====
-- `check_validity`, the options and `swap_free` of Virtual_Memory on small inputs.
use Prim.Native.String.{String}
use ece.Prelude.{
  ◌==◌, refl, Returns, ◌≡◌, ◌↔◌, Bool, true, false, if◌then◌else◌, Option, none, some, List, [],
  ◌∷◌, arith,
}
use ece.Vm.Types.{Pte, SwapQueue, random, Vm}
use ece.Vm.Swap.{swap_free}
use ece.Vm.SwapSpace.Linked.{nil, cons}
use ece.Vm.SwapSpace.Queue.{IsQueue}
use ece.Vm.SwapSpace.Free.{Freed, swap_free-Freed}
use ece.Vm.Simulator.{start, boot, start_process, run_trace}
use ece.Vm.Validity.{check_validity}
use ece.Vm.Consistency.{IsConsistent}
use ece.Vm.Verdict.{check_validity-IsConsistent}
use ece.Vm.Options.{Opt, input, corruption, replacing, Options, read_options, run_audited}
use ece.Vm.Choices.{all_fine, chosen_options, read_options_lem}
use ece.Vm.Audited.{Consistently, run_audited-Consistently}

abbrev result : Vm → Option Vm → Vm
result v none = v
result v (some u) = u

-- Process 5 has a page table.
abbrev with_table : Vm
with_table = result (boot random) (start_process 5 (boot random))

check_validity-IsConsistent_example :
    (check_validity 1 with_table ≡ some with_table) ↔ IsConsistent with_table
check_validity-IsConsistent_example = check_validity-IsConsistent with_table 1 (omega arith)

abbrev every_file : String → Bool
every_file name = true

abbrev some_options : List Opt
some_options = input "trace" ∷ (corruption ∷ (replacing "random" ∷ []))

abbrev no_options : Options
no_options = record { fin = false; replacement = 0; check_corruption = false }

read_options_lem_example : read_options every_file some_options no_options ≡ (
    if all_fine every_file some_options
    then some (chosen_options some_options no_options)
    else none)
read_options_lem_example = read_options_lem every_file some_options no_options

run_audited-Consistently_example :
    (run_audited false (start 5 ∷ []) (boot random) ≡ run_trace (start 5 ∷ []) (boot random))
    × ((run_audited true (start 5 ∷ []) (boot random) ≡ some with_table)
        ↔ Consistently (start 5 ∷ []) (boot random) with_table)
    × (run_audited true (start 5 ∷ []) (boot random) ≡ some with_table
        → run_trace (start 5 ∷ []) (boot random) ≡ some with_table)
run_audited-Consistently_example = run_audited-Consistently (start 5 ∷ []) (boot random) with_table

-- Two entries, with the tokens 1 and 2.
abbrev two_entries : SwapQueue
two_entries = record {
  heap = λ a.
      if a == 0
      then some (record { token = 1; page_data = λ i. 7; next = some 1 })
      else if a == 1
      then some (record { token = 2; page_data = λ i. 8; next = none })
      else none;
  fresh = 2;
  next_token = 3;
  head = some 0;
  tail = some 1;
  size = 2;
  size_max = 2;
}

two_entries-IsQueue : IsQueue two_entries (0 ∷ (1 ∷ []))
two_entries-IsQueue = record {
  linked = cons refl refl refl (cons refl refl refl nil);
  at_end = refl;
  counted = refl;
  old = λ a m. ground arith;
  tokens = λ a i m e. ground arith;
  started = omega arith;
  single = λ a b i j m m' e e' same. ground arith;
}

abbrev second_page : Pte
second_page = record { valid = 0; dirty = 0; pfn = 0; swap = 2 }

swap_free-Freed_example :
    Returns (Freed two_entries second_page (0 ∷ (1 ∷ [])) 1) (swap_free two_entries second_page)
swap_free-Freed_example =
    swap_free-Freed two_entries second_page two_entries-IsQueue (omega arith) 1 refl
