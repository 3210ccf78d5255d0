-- ===== src/Vm/Flat/Tests.antt =====
-- A trace of Virtual_Memory that uses more pages than there are frames.
use ece.Prelude.{
  ℕ, zero, suc, ◌+◌, ◌*◌, ◌≡◌, refl, Bool, true, false, Option, none, some, List, [], ◌∷◌, arith,
  Returns, update,
}
use ece.Vm.Types.{page_size, random, Vm}
use ece.Vm.Simulator.{Command, start, stop, access, run_command, boot}
use ece.Vm.Options.{run_audited}
use ece.Vm.Consistency.{IsConsistent}
use ece.Vm.Flat.Contents.{zero_page}
use ece.Vm.Flat.Spec.{Flat, nothing_runs, flat_command, flat_outputs, outputs}
use ece.Vm.Flat.Implements.{Implements, boot-Implements}
use ece.Vm.Flat.Refines.{run_command-Implements}
use ece.Vm.Report.{final_report}
use ece.Vm.Flat.Freed.{NothingLeft, run_audited-NothingLeft}
use ece.Vm.Flat.Counted.{Reports, run_audited-Reports}
use ece.Vm.Flat.Trace.{outputs-flat_outputs, run_audited-Returns}

-- Process 3 writes the byte `n` to the offset 7 of each page `n` below `pages`.
abbrev fill : ℕ → List Command → List Command
fill zero cs = cs
fill (suc n) cs = access 3 b'w' (n * page_size + 7) n ∷ fill n cs

-- Process 5 writes to the same address as process 3, which then reads its first page again.
abbrev trace : List Command
trace =
    start 3
    ∷ fill 70 (
        start 5
        ∷ access 5 b'w' (69 * page_size + 7) 200
        ∷ access 3 b'r' (69 * page_size + 7) 0
        ∷ stop 5
        ∷ access 3 b'r' (68 * page_size + 8) 0
        ∷ [])

abbrev result : Option (List (Option ℕ) × Flat) → List (Option ℕ) × Flat
result none = ([], nothing_runs)
result (some r) = r

abbrev is_some : Option (List (Option ℕ) × Flat) → Bool
is_some none = false
is_some (some r) = true

some-result : (o : Option (List (Option ℕ) × Flat)) → is_some o ≡ true → o ≡ some (result o)
some-result none e = cc e
some-result (some r) e = refl

abbrev at_end : List (Option ℕ) × Flat
at_end = result (flat_outputs trace nothing_runs)

abbrev drop : ℕ → List (Option ℕ) → List (Option ℕ)
drop zero xs = xs
drop (suc n) [] = []
drop (suc n) (x ∷ xs) = drop n xs

allowed : flat_outputs trace nothing_runs ≡ some (at_end.0, at_end.1)
unfolding flat_outputs flat_command
allowed = some-result (flat_outputs trace nothing_runs) refl

-- Each process has its own page, and the other bytes of a page are zero.
last_prints : drop 71 at_end.0 ≡ none ∷ some 200 ∷ some 69 ∷ none ∷ some 0 ∷ []
unfolding flat_outputs flat_command
last_prints = refl

outputs-flat_outputs_example :
    Returns (λ ((o, t) : List (Option ℕ) × Vm). o ≡ at_end.0) (outputs trace (boot random))
outputs-flat_outputs_example = outputs-flat_outputs trace at_end.1 at_end.0 (omega arith) allowed

run_audited-Returns_example : Returns IsConsistent (run_audited true trace (boot random))
run_audited-Returns_example = run_audited-Returns true trace at_end.1 at_end.0 (omega arith) allowed

-- The first command of the trace.
abbrev one_runs : Flat
one_runs = record nothing_runs {
  running = 3 ∷ [];
  bytes = update nothing_runs.bytes 3 (λ n. zero_page);
}

run_command-Implements_example :
    Returns
      (λ ((b, t) : Option ℕ × Vm). (b ≡ none) × Implements 7 one_runs t)
      (run_command (start 3) (boot random))
run_command-Implements_example =
    run_command-Implements (start 3) 7 nothing_runs one_runs (boot random) none
      (boot-Implements 8 (omega arith)) (unfold flat_command in refl)

run_audited-Reports_example :
    Returns (λ t. Reports trace (final_report t)) (run_audited false trace (boot random))
run_audited-Reports_example =
    run_audited-Reports false trace at_end.1 at_end.0 (omega arith) allowed

-- A trace after which no process runs.
abbrev short_trace : List Command
short_trace = start 3 ∷ fill 70 (start 5 ∷ stop 3 ∷ access 5 b'w' 9 1 ∷ stop 5 ∷ [])

abbrev short_end : List (Option ℕ) × Flat
short_end = result (flat_outputs short_trace nothing_runs)

short_allowed : flat_outputs short_trace nothing_runs ≡ some (short_end.0, short_end.1)
unfolding flat_outputs flat_command
short_allowed = some-result (flat_outputs short_trace nothing_runs) refl

nobody_left : short_end.1.running ≡ []
unfolding flat_outputs flat_command
nobody_left = refl

run_audited-NothingLeft_example : Returns NothingLeft (run_audited true short_trace (boot random))
run_audited-NothingLeft_example =
    run_audited-NothingLeft true short_trace short_end.1 short_end.0 (omega arith) short_allowed
      nobody_left
