-- ===== src/Vm/Choices.antt =====
-- What the options of Virtual_Memory/simulator-src/pagesim.c choose.
use Prim.Native.String.{String}
use text.Mathlib.Text.{◌==◌ as str_eq}
use ece.Prelude.{
  Bool, true, false, ◌||◌, ◌&&◌, ℕ, ◌≡◌, refl, none, some, if◌then◌else◌, List, [], ◌∷◌, arith,
  Bool-cases, inl, inr,
}
use ece.Vm.Types.{random, clocksweep}
use ece.Vm.Options.{
  Opt, input, standard_input, corruption, replacing, help, Options, read_option, read_options,
}

-- The program goes on after the option.
abbrev pub is_fine : (String → Bool) → Opt → Bool
is_fine opens (input optarg) = opens optarg
is_fine opens standard_input = true
is_fine opens corruption = true
is_fine opens (replacing optarg) = str_eq optarg "random" || str_eq optarg "clocksweep"
is_fine opens help = false

abbrev pub all_fine : (String → Bool) → List Opt → Bool
all_fine opens [] = true
all_fine opens (opt ∷ opts) = is_fine opens opt && all_fine opens opts

-- Some option names a trace, or asks for the checks.
abbrev pub has_trace : List Opt → Bool
has_trace [] = false
has_trace (opt ∷ opts) =
    elim opt [ input optarg ↦ true | standard_input ↦ true | _ ↦ false ] || has_trace opts

abbrev pub has_corruption : List Opt → Bool
has_corruption [] = false
has_corruption (opt ∷ opts) = elim opt [ corruption ↦ true | _ ↦ false ] || has_corruption opts

abbrev pub strategy : String → ℕ
strategy optarg = if str_eq optarg "random" then random else clocksweep

-- The strategy of the last `-r`, or else `before`.
abbrev pub last_strategy : List Opt → ℕ → ℕ
last_strategy [] before = before
last_strategy (opt ∷ opts) before =
    last_strategy opts (elim opt [ replacing optarg ↦ strategy optarg | _ ↦ before ])

abbrev pub chosen_options : List Opt → Options → Options
chosen_options opts o = record {
  fin = o.fin || has_trace opts;
  replacement = last_strategy opts o.replacement;
  check_corruption = o.check_corruption || has_corruption opts;
}

-- The program exits while it reads its options exactly when one of them is a file that cannot be
-- opened, a strategy that is neither `random` nor `clocksweep`, or none that it knows. Otherwise it
-- has a trace if one was named, checks if that was asked for, and the strategy of the last `-r`.
pub read_options_lem :
    (opens : String → Bool) (opts : List Opt) (o : Options)
    → read_options opens opts o
      ≡ (if all_fine opens opts then some (chosen_options opts o) else none)
unfolding read_options read_option
read_options_lem opens [] o = ground arith
read_options_lem opens (input optarg ∷ opts) o =
    ground (arith, read_options_lem opens opts (record o { fin = true }))
read_options_lem opens (standard_input ∷ opts) o =
    ground (arith, read_options_lem opens opts (record o { fin = true }))
read_options_lem opens (corruption ∷ opts) o =
    ground (arith, read_options_lem opens opts (record o { check_corruption = true }))
read_options_lem opens (replacing optarg ∷ opts) o = elim (Bool-cases (str_eq optarg "random")) [
  | inl e ↦ rw e (ground (arith, read_options_lem opens opts (record o { replacement = random })))
  | inr ne ↦ elim (Bool-cases (str_eq optarg "clocksweep")) [
    | inl e ↦
        rw (ne, e)
          (ground (arith, read_options_lem opens opts (record o { replacement = clocksweep })))
    | inr ne' ↦ rw (ne, ne') refl
  ]
]
read_options_lem opens (help ∷ opts) o = refl
