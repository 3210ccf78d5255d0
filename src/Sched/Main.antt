-- ===== src/Sched/Main.antt =====
-- `main` of OS_Threaded_Scheduling/src/student.c. `strtoul` and `atoi` are the C library's.
use Prim.Native.String.{String}
use text.Mathlib.Text.{◌==◌ as str_eq}
use ece.Prelude.{
  ℕ, Option, none, some, ltb, ◌%◌, ◌^◌, if◌then◌else◌, ◌>>=◌, ℤ, negsuc, List, [], ◌∷◌, length,
}
use ece.Sched.Types.{Student, World}
use ece.Sched.Programs.{processes}
use ece.Sched.Simulator.{start_simulator}

module _ (atoi : String → ℤ) where
  -- One round of the loop over the arguments. After the last one stands NULL, which `atoi` must not
  -- be given.
  unfoldable pub parse_option : String → List String → ℕ × ℤ → Option (ℕ × ℤ)
  parse_option arg rest (alg, time_slice) =
      if str_eq arg "-r"
      then elim rest [ [] ↦ none | value ∷ _ ↦ some (b'r', atoi value) ]
      else if str_eq arg "-l"
      then some (b'l', time_slice)
      else some (b'f', time_slice)

  unfoldable pub parse_options : List String → ℕ × ℤ → Option (ℕ × ℤ)
  unfolding parse_option
  parse_options [] acc = some acc
  parse_options (arg ∷ rest) acc = do acc' ← parse_option arg rest acc; parse_options rest acc'

-- What `main` answers: the usage text, or the simulation's start. `none` is undefined behaviour.
pub data Start : Type 0 where
  usage : Start
  started : Option World → Start

module _ (atoi : String → ℤ) (strtoul : String → ℕ) (garbage : ℕ → Option ℕ) where
  -- The number of CPUs goes into a variable of `main`, an `unsigned int`; the global `cpu_count` stays 0. `garbage` is
  -- what `malloc` returns for `current`.
  unfoldable pub main_student : ℕ × ℤ → Student
  main_student (alg, time_slice) = record {
    processes = processes;
    current = garbage;
    head = none;
    time_slice = time_slice;
    cpu_count = 0;
    scheduling_alg = alg;
  }

  unfoldable pub main_run : String → List String → Option Start
  unfolding main_student
  main_run cpus argv = do
    options ← parse_options atoi argv (0, negsuc 0)
    some (started (start_simulator (strtoul cpus % 2 ^ 32) (main_student options)))

  -- `argv[1]` is read also where there is none.
  unfoldable pub main : List String → Option Start
  unfolding main_run
  main [] = some usage
  main (program ∷ []) = none
  main (program ∷ (cpus ∷ rest)) =
      if ltb 2 (length rest) then some usage else main_run cpus (program ∷ (cpus ∷ rest))
