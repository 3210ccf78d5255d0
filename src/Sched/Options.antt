-- ===== src/Sched/Options.antt =====
-- What the arguments of `main` of OS_Threaded_Scheduling/src/student.c bring about.
use Prim.Native.String.{String}
use text.Mathlib.Text.{◌==◌ as str_eq}
use ece.Prelude.{
  ℕ, ◌≡◌, ◌⊎◌, false, Option, none, some, ltb, if◌then◌else◌, ℤ, negsuc, List, [], ◌∷◌, ◌++◌, arith,
  Bool-cases, inl, inr, Option-cases, length, ◌∙◌, ap, refl, true, Bool, Returns, Returns-mono,
}
use ece.Sched.Types.{Student, World}
use ece.Sched.Student.{find_low, choose_preempted}
use ece.Sched.Simulator.{start_simulator}
use ece.Sched.Main.{parse_option, parse_options, started, main_run, main}

abbrev pub asks_for_slice : List String → Bool
asks_for_slice [] = false
asks_for_slice (arg ∷ args) = if str_eq arg "-r" then true else asks_for_slice args

module _ (atoi : String → ℤ) where
  -- The time slice behind the last `-r`, or else the one that was there before.
  pub data IsSlice (before : ℤ) (args : List String) : ℤ → Type 0 where
    unset : asks_for_slice args ≡ false → IsSlice before args before
    given :
        (xs ys : List String) (option value : String)
        → str_eq option "-r" ≡ true
        → asks_for_slice (value ∷ ys) ≡ false
        → args ≡ xs ++ option ∷ (value ∷ ys)
        → IsSlice before args (atoi value)

  IsSlice-skip :
      {before slice : ℤ} (arg : String) {args : List String}
      → str_eq arg "-r" ≡ false
      → IsSlice before args slice
      → IsSlice before (arg ∷ args) slice
  IsSlice-skip arg other (unset quiet) = unset (rw other quiet)
  IsSlice-skip arg other (given xs ys option value is_r quiet e) =
      given (arg ∷ xs) ys option value is_r quiet (ap (λ zs. arg ∷ zs) e)

  IsSlice-take :
      {before : ℤ} (arg value : String) {args : List String} {slice : ℤ}
      → str_eq arg "-r" ≡ true
      → IsSlice (atoi value) (value ∷ args) slice
      → IsSlice before (arg ∷ (value ∷ args)) slice
  IsSlice-take arg value {args} is_r (unset quiet) = given [] args arg value is_r quiet refl
  IsSlice-take arg value is_r (given xs ys option value' is_r' quiet e) =
      given (arg ∷ xs) ys option value' is_r' quiet (ap (λ zs. arg ∷ zs) e)

  -- The settings that the arguments, of which `last` is the last one, make of `acc`.
  pub record AreSettings (args : List String) (last : String) (before : ℤ) (options : ℕ × ℤ)
      : Type 0 where
    pub algorithm : options.0 ≡ (if str_eq last "-l" then b'l' else b'f')
    pub slice : IsSlice before args options.1

  -- An option with a value behind it.
  step :
      (arg value last : String) (rest : List String) (acc : ℕ × ℤ)
      → ((acc' : ℕ × ℤ)
          → Returns
              (AreSettings (value ∷ rest) last acc'.1)
              (parse_options atoi (value ∷ rest) acc'))
      → Returns
          (AreSettings (arg ∷ (value ∷ rest)) last acc.1)
          (parse_options atoi (arg ∷ (value ∷ rest)) acc)
  unfolding parse_options parse_option
  step arg value last rest (alg, slice) settles = elim (Bool-cases (str_eq arg "-r")) [
    | inl is_r ↦ rw is_r (
        Returns-mono (AreSettings (value ∷ rest) last (atoi value)) _ _ (settles (b'r', atoi value))
          λ o s. record { algorithm = s.algorithm; slice = IsSlice-take arg value is_r s.slice })
    | inr other ↦ elim (Bool-cases (str_eq arg "-l")) [
      | inl is_l ↦
          rw (other, is_l)
            (Returns-mono (AreSettings (value ∷ rest) last slice) _ _ (settles (b'l', slice))
              λ o s. record { algorithm = s.algorithm; slice = IsSlice-skip arg other s.slice })
      | inr plain ↦
          rw (other, plain)
            (Returns-mono (AreSettings (value ∷ rest) last slice) _ _ (settles (b'f', slice))
              λ o s. record { algorithm = s.algorithm; slice = IsSlice-skip arg other s.slice })
    ]
  ]

  settles :
      (argv : List String) (last : String) (acc : ℕ × ℤ)
      → str_eq last "-r" ≡ false
      → Returns
          (AreSettings (argv ++ last ∷ []) last acc.1)
          (parse_options atoi (argv ++ last ∷ []) acc)
  unfolding parse_options parse_option
  settles [] last (alg, slice) plain = elim (Bool-cases (str_eq last "-l")) [
    | inl is_l ↦
        rw (plain, is_l) (record { algorithm = rw is_l refl; slice = unset (rw plain refl) })
    | inr other ↦
        rw (plain, other) (record { algorithm = rw other refl; slice = unset (rw plain refl) })
  ]
  settles (arg ∷ []) last acc plain = step arg last last [] acc (λ acc'. settles [] last acc' plain)
  settles (arg ∷ (value ∷ argv)) last acc plain =
      step arg value last (argv ++ last ∷ []) acc (λ acc'. settles (value ∷ argv) last acc' plain)

  -- Whether an option with a value behind it is accepted.
  accepts :
      (arg value : String) (rest : List String) (acc : ℕ × ℤ)
      → (acc' : ℕ × ℤ) × (parse_option atoi arg (value ∷ rest) acc ≡ some acc')
  unfolding parse_option
  accepts arg value rest (alg, slice) = elim (Bool-cases (str_eq arg "-r")) [
    | inl is_r ↦ ((b'r', atoi value), rw is_r refl)
    | inr other ↦ elim (Bool-cases (str_eq arg "-l")) [
      | inl is_l ↦ ((b'l', slice), rw (other, is_l) refl)
      | inr plain ↦ ((b'f', slice), rw (other, plain) refl)
    ]
  ]

  fails :
      (argv : List String) (last : String) (acc : ℕ × ℤ)
      → str_eq last "-r" ≡ true
      → parse_options atoi (argv ++ last ∷ []) acc ≡ none
  unfolding parse_options
  fails [] last (alg, slice) is_r = rw (parse_option, is_r) refl
  fails (arg ∷ []) last acc is_r =
      let (acc', ok) = accepts arg last [] acc in rw ok (fails [] last acc' is_r)
  fails (arg ∷ (value ∷ argv)) last acc is_r =
      let (acc', ok) = accepts arg value (argv ++ last ∷ []) acc in
      rw ok (fails (value ∷ argv) last acc' is_r)

  -- The loop over the arguments reads past their end exactly if the last one is `-r`. Otherwise it
  -- ends; then the algorithm is LRTF if the last argument is `-l` and the order of the queue if not,
  -- and the time slice is the value behind the last `-r`, in any position, or the one before the loop.
  pub parse_options-AreSettings :
      (argv : List String) (last : String) (acc : ℕ × ℤ)
      → ((str_eq last "-r" ≡ true) × (parse_options atoi (argv ++ last ∷ []) acc ≡ none))
        ⊎ ((str_eq last "-r" ≡ false)
            × Returns
                (AreSettings (argv ++ last ∷ []) last acc.1)
                (parse_options atoi (argv ++ last ∷ []) acc))
  parse_options-AreSettings argv last acc = elim (Bool-cases (str_eq last "-r")) [
    | inl is_r ↦ inl (is_r, fails argv last acc is_r)
    | inr other ↦ inr (other, settles argv last acc other)
  ]

module _ (atoi : String → ℤ) (strtoul : String → ℕ) (garbage : ℕ → Option ℕ) where
  main_run-cpu_count :
      (cpus : String) (argv : List String) (w : World)
      → main_run atoi strtoul garbage cpus argv ≡ some (started (some w))
      → w.student.cpu_count ≡ 0
  unfolding main_run start_simulator
  main_run-cpu_count cpus argv w e = elim (Option-cases (parse_options atoi argv (0, negsuc 0))) [
    | inl bad ↦ ground arith
    | inr (options, ok) ↦ ground arith
  ]

  main-cpu_count :
      (argv : List String) (w : World)
      → main atoi strtoul garbage argv ≡ some (started (some w))
      → w.student.cpu_count ≡ 0
  unfolding main
  main-cpu_count [] w e = ground arith
  main-cpu_count (program ∷ []) w e = ground arith
  main-cpu_count (program ∷ (cpus ∷ rest)) w e = elim (Bool-cases (ltb 2 (length rest))) [
    | inl many ↦ ground arith
    | inr few ↦ main_run-cpu_count cpus (program ∷ (cpus ∷ rest)) w (ground arith)
  ]

  -- However `main` starts the simulation, `wake_up` chooses no CPU to preempt in any state whose
  -- `cpu_count` is the one that `main` left.
  pub main_never_preempts :
      (argv : List String) (w : World)
      → main atoi strtoul garbage argv ≡ some (started (some w))
      → (s : Student) (process : ℕ) → s.cpu_count ≡ w.student.cpu_count
      → choose_preempted process s ≡ none
  unfolding choose_preempted find_low
  main_never_preempts argv w e s process same =
      let zero_cpus : s.cpu_count ≡ 0 = same ∙ main-cpu_count argv w e in
      rw (zero_cpus, find_low) (ground arith)
