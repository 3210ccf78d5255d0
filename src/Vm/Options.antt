-- ===== src/Vm/Options.antt =====
-- `main` of Virtual_Memory/simulator-src/pagesim.c with its options. `getopt` and `fopen` are the C
-- library's: an option is what `getopt` answers, and `opens` says which files can be opened. `none`
-- is an exit of the program, or a panic.
use Prim.Native.String.{String}
use text.Mathlib.Text.{◌==◌ as str_eq}
use ece.Prelude.{
  Bool, true, false, ℕ, Option, none, some, ◌==◌, if◌then◌else◌, ◌>>=◌, List, [], ◌∷◌,
}
use ece.Vm.Types.{random, clocksweep, Vm}
use ece.Vm.Simulator.{Command, boot, run_command}
use ece.Vm.Validity.{check_validity}

-- The last of them is `-h`, and every option that `getopt` does not know.
pub data Opt : Type 0 where
  input : String → Opt
  standard_input : Opt
  corruption : Opt
  replacing : String → Opt
  help : Opt

-- `fin`, `replacement` and `check_corruption`; a replacement of 0 is none yet.
pub record Options : Type 0 where
  pub fin : Bool
  pub replacement : ℕ
  pub check_corruption : Bool

module _ (opens : String → Bool) where
  unfoldable pub read_option : Opt → Options → Option Options
  read_option (input optarg) o = if opens optarg then some (record o { fin = true }) else none
  read_option standard_input o = some (record o { fin = true })
  read_option corruption o = some (record o { check_corruption = true })
  read_option (replacing optarg) o =
      if str_eq optarg "random"
      then some (record o { replacement = random })
      else if str_eq optarg "clocksweep"
      then some (record o { replacement = clocksweep })
      else none
  read_option help o = none

  unfoldable pub read_options : List Opt → Options → Option Options
  unfolding read_option
  read_options [] o = some o
  read_options (opt ∷ opts) o = do o' ← read_option opt o; read_options opts o'

-- What the simulation starts with: there must be a trace, and the replacement is random by default.
unfoldable pub settle_options : Options → Option Options
settle_options o =
    if o.fin
    then some (record o { replacement = if o.replacement == 0 then random else o.replacement })
    else none

-- `if (check_corruption) check_validity(checks)`.
unfoldable pub audit : Bool → ℕ → Vm → Option Vm
audit check_corruption checks v = if check_corruption then check_validity checks v else some v

-- The loop over the lines of the trace, with the check after each command.
unfoldable pub run_audited : Bool → List Command → Vm → Option Vm
run_audited check_corruption [] v = some v
run_audited check_corruption (c ∷ cs) v = do
  (printed, v₁) ← run_command c v
  v₂ ← audit check_corruption 1 v₁
  run_audited check_corruption cs v₂

unfoldable pub pagesim : (String → Bool) → List Opt → List Command → Option Vm
unfolding read_options
pagesim opens opts cs = do
  read ← read_options opens opts (record { fin = false; replacement = 0; check_corruption = false })
  o ← settle_options read
  v ← audit o.check_corruption 0 (boot o.replacement)
  run_audited o.check_corruption cs v
