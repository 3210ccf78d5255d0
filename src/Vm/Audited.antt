-- ===== src/Vm/Audited.antt =====
-- A run of Virtual_Memory/simulator-src/pagesim.c with its checks, against the same run without.
use ece.Prelude.{
  true, false, ℕ, ◌≡◌, ◌↔◌, refl, sym, ap, ◌∙◌, Option, some, ◌==◌, List, [], ◌∷◌, arith,
  Bool-cases, Option-cases, some-eq-some, subst, bind-some, inl, inr,
}
use ece.Vm.Types.{Vm}
use ece.Vm.Simulator.{Command, run_command, run_trace}
use ece.Vm.Validity.{check_validity, check_tables}
use ece.Vm.Consistency.{IsConsistent}
use ece.Vm.Verdict.{check_validity-IsConsistent}
use ece.Vm.Options.{audit, run_audited}

-- The machine is consistent after each command of the trace, which ends in `v'`.
abbrev pub Consistently : List Command → Vm → Vm → Type 0
Consistently [] v v' = v ≡ v'
Consistently (c ∷ cs) v v' =
    (printed : Option ℕ) × (v₁ : Vm) × (run_command c v ≡ some (printed, v₁))
    × IsConsistent v₁
    × Consistently cs v₁ v'

-- The check hands the machine on as it is.
pub audit-same : (v u : Vm) → audit true 1 v ≡ some u → u ≡ v
unfolding audit check_validity
audit-same v u e = elim (Bool-cases ((v.frame_table 0).protected == 0)) [
  | inl bare ↦ cc (rw bare at e)
  | inr fine ↦ elim (Option-cases (check_tables v)) [
    | inl bad ↦ cc (rw (fine, bad) at e)
    | inr (m, good) ↦ sym (some-eq-some (rw (fine, good) at e))
  ]
]

audit-IsConsistent : (v : Vm) → IsConsistent v → audit true 1 v ≡ some v
unfolding audit
audit-IsConsistent v h = (check_validity-IsConsistent v 1 (omega arith)).1 h

passed_audit : (v u : Vm) → audit true 1 v ≡ some u → IsConsistent v
passed_audit v u e =
    let same = audit-same v u e in
    (check_validity-IsConsistent v 1 (omega arith)).0
      (unfold audit in (e ∙ ap (λ (x : Vm). some x) same))

module _ (c : Command) (cs : List Command) (v v' : Vm) where
  checked_first :
      ((u : Vm) → (run_audited true cs u ≡ some v') → Consistently cs u v')
      → run_audited true (c ∷ cs) v ≡ some v'
      → Consistently (c ∷ cs) v v'
  unfolding run_audited
  checked_first ih e =
      let ((printed, v₁), ran, rest) = bind-some (run_command c v) _ v' e in
      let (v₂, passed, rest') = bind-some (audit true 1 v₁) (run_audited true cs) v' rest in
      let same = audit-same v₁ v₂ passed in
      (
        printed,
        v₁,
        ran,
        passed_audit v₁ v₂ passed,
        subst (λ (u : Vm). Consistently cs u v') same (ih v₂ rest'),
      )

  consistent_first :
      ((u : Vm) → Consistently cs u v' → (run_audited true cs u ≡ some v'))
      → Consistently (c ∷ cs) v v'
      → run_audited true (c ∷ cs) v ≡ some v'
  unfolding run_audited
  consistent_first ih (printed, v₁, ran, consistent, rest) =
      rw (ran, audit-IsConsistent v₁ consistent) (ih v₁ rest)

  traced_first :
      ((u : Vm) → Consistently cs u v' → run_trace cs u ≡ some v')
      → Consistently (c ∷ cs) v v'
      → run_trace (c ∷ cs) v ≡ some v'
  unfolding run_trace
  traced_first ih (printed, v₁, ran, consistent, rest) = rw ran (ih v₁ rest)

to_consistent :
    (cs : List Command) (v v' : Vm) → run_audited true cs v ≡ some v' → Consistently cs v v'
to_consistent [] v v' e = some-eq-some (unfold run_audited in e)
to_consistent (c ∷ cs) v v' e = checked_first c cs v v' (λ u. to_consistent cs u v') e

from_consistent :
    (cs : List Command) (v v' : Vm) → Consistently cs v v' → run_audited true cs v ≡ some v'
from_consistent [] v v' e = unfold run_audited in ap (λ (x : Vm). some x) e
from_consistent (c ∷ cs) v v' e = consistent_first c cs v v' (λ u. from_consistent cs u v') e

traced : (cs : List Command) (v v' : Vm) → Consistently cs v v' → run_trace cs v ≡ some v'
traced [] v v' e = unfold run_trace in ap (λ (x : Vm). some x) e
traced (c ∷ cs) v v' e = traced_first c cs v v' (λ u. traced cs u v') e

unchecked : (cs : List Command) (v : Vm) → run_audited false cs v ≡ run_trace cs v
unfolding run_audited run_trace audit
unchecked [] v = refl
unchecked (c ∷ cs) v = elim (Option-cases (run_command c v)) [
  | inl stuck ↦ rw stuck refl
  | inr ((printed, v₁), ran) ↦ rw ran (unchecked cs v₁)
]

-- Without the option `-c` the simulation is the run of the trace. With it, the simulation ends in
-- `v'` exactly when every command of the trace runs, the machine is consistent after each, and the
-- last leaves `v'`; then the run without the option ends in `v'` too.
pub run_audited-Consistently :
    (cs : List Command) (v v' : Vm)
    → (run_audited false cs v ≡ run_trace cs v)
      × ((run_audited true cs v ≡ some v') ↔ Consistently cs v v')
      × (run_audited true cs v ≡ some v' → run_trace cs v ≡ some v')
run_audited-Consistently cs v v' = (
  unchecked cs v,
  (to_consistent cs v v', from_consistent cs v v'),
  λ e. traced cs v v' (to_consistent cs v v' e),
)
