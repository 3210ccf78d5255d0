-- ===== src/Vm/Flat/Trace.antt =====
-- Traces of Virtual_Memory/simulator-src/pagesim.c, with and without its checks.
use ece.Prelude.{
  ℕ, ◌+◌, ◌>>=◌, ◌<◌, ◌≡◌, refl, ap, ◌∙◌, arith, List, [], ◌∷◌, length, some, Option, Returns,
  Returns-bind, Returns-mono, bind-some, some-eq-some, Bool, true, false, subst,
}
use ece.Vm.Types.{random, Vm}
use ece.Vm.Simulator.{Command, run_command, boot}
use ece.Vm.Options.{audit, run_audited}
use ece.Vm.Consistency.{IsConsistent}
use ece.Vm.Verdict.{check_validity-IsConsistent}
use ece.Vm.Flat.Spec.{Flat, nothing_runs, flat_command, flat_outputs, outputs}
use ece.Vm.Flat.Implements.{Implements, boot-Implements}
use ece.Vm.Flat.Refines.{run_command-Implements}
use ece.Vm.Flat.Sound.{Implements-IsConsistent}

-- What the commands of a trace print on the flat state, and where they end.
pub outputs-Implements :
    (cs : List Command) (room : ℕ) (s s' : Flat) (v : Vm) (printed : List (Option ℕ))
    → Implements (length cs + room) s v
    → flat_outputs cs s ≡ some (printed, s')
    → Returns (λ (o, t). (o ≡ printed) × Implements room s' t) (outputs cs v)
unfolding flat_outputs outputs
outputs-Implements [] room s s' v printed h e =
    let pair = some-eq-some e in
    (
      ap (λ (y : List (Option ℕ) × Flat). y.0) pair,
      subst (λ (x : Flat). Implements room x v) (ap (λ (y : List (Option ℕ) × Flat). y.1) pair)
          (subst (λ (n : ℕ). Implements n s v) (omega arith) h),
    )
outputs-Implements (c ∷ cs) room s s' v printed h e =
    let ((b, s₁), ran, e₁) =
      bind-some (flat_command c s)
        (λ (b, s₁). flat_outputs cs s₁ >>= λ (rest, s₂). some (b ∷ rest, s₂)) (printed, s') e in
    let ((rest, s₂), ran', e₂) =
      bind-some (flat_outputs cs s₁) (λ (rest, s₂). some (b ∷ rest, s₂)) (printed, s') e₁ in
    let pair = some-eq-some e₂ in
    let same = ap (λ (y : List (Option ℕ) × Flat). y.1) pair in
    let is_printed = ap (λ (y : List (Option ℕ) × Flat). y.0) pair in
    Returns-bind (λ (o, t). (o ≡ b) × Implements (length cs + room) s₁ t)
      (λ (o, t). (o ≡ printed) × Implements room s' t) (run_command c v)
      (λ (b', v₁). outputs cs v₁ >>= λ (rest', v₂). some (b' ∷ rest', v₂))
      (run_command-Implements c (length cs + room) s s₁ v b
        (subst (λ (n : ℕ). Implements n s v) (omega arith) h) ran)
      λ (o, t) _ (is_b, k).
        Returns-bind (λ (o', t'). (o' ≡ rest) × Implements room s₂ t')
          (λ (o, t). (o ≡ printed) × Implements room s' t) (outputs cs t)
          (λ (rest', u). some (o ∷ rest', u)) (outputs-Implements cs room s₁ s₂ t rest k ran')
          λ (o', t') _ (is_rest, k').
            (rw (is_b, is_rest) is_printed, subst (λ (x : Flat). Implements room x t') same k')

-- In the simulator with random replacement, a trace of fewer than 2 ^ 64 - 1 commands that the flat
-- state allows runs to its end, and prints for each access the byte that the flat state has.
pub outputs-flat_outputs :
    (cs : List Command) (s : Flat) (printed : List (Option ℕ))
    → length cs < 0xFFFF_FFFF_FFFF_FFFF
    → flat_outputs cs nothing_runs ≡ some (printed, s)
    → Returns (λ (o, t). o ≡ printed) (outputs cs (boot random))
outputs-flat_outputs cs s printed few e =
    Returns-mono (λ (o, t). (o ≡ printed) × Implements 0 s t) (λ (o, t). o ≡ printed)
      (outputs cs (boot random))
      (outputs-Implements cs 0 nothing_runs s (boot random) printed
        (boot-Implements (length cs + 0) (omega arith)) e)
      λ (o, t) (same, k). same

audit-Implements :
    (check_corruption : Bool) {room : ℕ} {s : Flat} (v : Vm)
    → Implements room s v
    → audit check_corruption 1 v ≡ some v
unfolding audit
audit-Implements false v h = refl
audit-Implements true v h =
    (check_validity-IsConsistent v 1 (omega arith)).1 (Implements-IsConsistent h)

pub run_audited-Implements :
    (check_corruption : Bool) (cs : List Command) (room : ℕ) (s s' : Flat) (v : Vm)
    (printed : List (Option ℕ))
    → Implements (length cs + room) s v
    → flat_outputs cs s ≡ some (printed, s')
    → Returns (Implements room s') (run_audited check_corruption cs v)
unfolding flat_outputs run_audited
run_audited-Implements check_corruption [] room s s' v printed h e =
    let pair = some-eq-some e in
    subst (λ (x : Flat). Implements room x v) (ap (λ (y : List (Option ℕ) × Flat). y.1) pair)
      (subst (λ (n : ℕ). Implements n s v) (omega arith) h)
run_audited-Implements check_corruption (c ∷ cs) room s s' v printed h e =
    let ((b, s₁), ran, e₁) =
      bind-some (flat_command c s)
        (λ (b, s₁). flat_outputs cs s₁ >>= λ (rest, s₂). some (b ∷ rest, s₂)) (printed, s') e in
    let ((rest, s₂), ran', e₂) =
      bind-some (flat_outputs cs s₁) (λ (rest, s₂). some (b ∷ rest, s₂)) (printed, s') e₁ in
    let same = ap (λ (y : List (Option ℕ) × Flat). y.1) (some-eq-some e₂) in
    Returns-bind (λ (o, t). (o ≡ b) × Implements (length cs + room) s₁ t) (Implements room s')
      (run_command c v) (λ (o, v₁). audit check_corruption 1 v₁ >>= run_audited check_corruption cs)
      (run_command-Implements c (length cs + room) s s₁ v b
        (subst (λ (n : ℕ). Implements n s v) (omega arith) h) ran)
      λ (o, t) _ (is_b, k). rw (audit-Implements check_corruption t k) (
        run_audited-Implements check_corruption cs room s₁ s' t rest k
          (ran' ∙ ap (λ (x : Flat). some (rest, x)) same))

-- In the simulator with random replacement, a trace of fewer than 2 ^ 64 - 1 commands that the flat
-- state allows runs to its end without a panic, also where the machine is checked after each command,
-- and leaves a consistent machine.
pub run_audited-Returns :
    (check_corruption : Bool) (cs : List Command) (s : Flat) (printed : List (Option ℕ))
    → length cs < 0xFFFF_FFFF_FFFF_FFFF
    → flat_outputs cs nothing_runs ≡ some (printed, s)
    → Returns IsConsistent (run_audited check_corruption cs (boot random))
run_audited-Returns check_corruption cs s printed few e =
    Returns-mono (Implements 0 s) IsConsistent (run_audited check_corruption cs (boot random))
      (run_audited-Implements check_corruption cs 0 nothing_runs s (boot random) printed
        (boot-Implements (length cs + 0) (omega arith)) e)
      λ t k. Implements-IsConsistent k
