-- ===== src/Vm/Flat/Freed.antt =====
-- What the processes of Virtual_Memory leave behind when they have all stopped.
use ece.Prelude.{
  ℕ, ◌+◌, ◌<◌, ◌≡◌, ◌≢◌, inl, inr, refl, sym, ◌∙◌, ◌==◌, arith, List, [], ◌∈◌, length, none, some,
  Option, Bool, Bool-cases, Option-cases, Returns, Returns-mono,
}
use ece.Vm.Types.{num_frames, random, Vm}
use ece.Vm.Simulator.{Command, boot}
use ece.Vm.Options.{run_audited}
use ece.Vm.Report.{final_report}
use ece.Vm.Victim.{IsFree}
use ece.Vm.SwapSpace.Look.{page_of, IsQueue-nil}
use ece.Vm.Flat.Spec.{Flat, nothing_runs, flat_outputs}
use ece.Vm.Flat.Implements.{Implements, boot-Implements}
use ece.Vm.Flat.Trace.{run_audited-Implements}

module _ (room : ℕ) (s : Flat) (v : Vm) (h : Implements room s v) (over : s.running ≡ []) where
  nobody : (p : ℕ) → ¬ (p ∈ s.running)
  nobody p m = let m' : p ∈ [] = rw over at m in cc m'

  no_page : (t : ℕ) → page_of v.swap_queue t ≡ none
  no_page t = elim (Option-cases (page_of v.swap_queue t)) [
    | inl gone ↦ gone
    | inr (bytes, there) ↦
        let (p, n, (m, lo), token) = h.paged.covered.owner t (λ z. cc (sym there ∙ z)) in
        absurd (nobody p m)
  ]

  swap_freed : v.swap_queue.size ≡ 0
  swap_freed =
      let e = IsQueue-nil v.swap_queue h.paged.addresses h.paged.queue no_page in
      h.paged.queue.counted ∙ rw e refl

  frames_freed : (f : ℕ) → f < num_frames → f ≢ 0 → IsFree v.frame_table f
  frames_freed f lo ne = (unprotected, unmapped)
    where
      unprotected : (v.frame_table f).protected ≡ 0
      unprotected = elim (Bool-cases ((v.frame_table f).protected == 0)) [
        | inl e ↦ ground arith
        | inr held ↦ elim (h.paged.tables.only f lo (ground arith)) [
          | inl z ↦ absurd (ne z)
          | inr (p, m, at) ↦ absurd (nobody p m)
        ]
      ]

      unmapped : (v.frame_table f).mapped ≡ 0
      unmapped = elim (Bool-cases ((v.frame_table f).mapped == 0)) [
        | inl e ↦ ground arith
        | inr used ↦
            let o = h.paged.pages.owned f lo unprotected (ground arith) in
            absurd (nobody o.process (o.lives).0)
      ]

-- Nothing is left of the pages: the report has no line on swap space that is not freed, and every
-- frame but the one of the frame table is free.
pub record NothingLeft (v : Vm) : Type 0 where
  pub swap : (final_report v).swap_not_freed ≡ none
  pub frames : (f : ℕ) → f < num_frames → f ≢ 0 → IsFree v.frame_table f

Implements-NothingLeft :
    (room : ℕ) (s : Flat) (v : Vm) → Implements room s v → s.running ≡ [] → NothingLeft v
unfolding final_report
Implements-NothingLeft room s v h over = record {
  swap = let e = swap_freed room s v h over in rw e refl;
  frames = frames_freed room s v h over;
}

-- In the simulator with random replacement, a trace of fewer than 2 ^ 64 - 1 commands that the flat
-- state allows, and that has stopped every process at its end, runs to its end and leaks nothing: no
-- entry of the swap space, and no frame.
pub run_audited-NothingLeft :
    (check_corruption : Bool) (cs : List Command) (s : Flat) (printed : List (Option ℕ))
    → length cs < 0xFFFF_FFFF_FFFF_FFFF
    → flat_outputs cs nothing_runs ≡ some (printed, s)
    → s.running ≡ []
    → Returns NothingLeft (run_audited check_corruption cs (boot random))
run_audited-NothingLeft check_corruption cs s printed few e over =
    Returns-mono (Implements 0 s) NothingLeft (run_audited check_corruption cs (boot random))
      (run_audited-Implements check_corruption cs 0 nothing_runs s (boot random) printed
        (boot-Implements (length cs + 0) (omega arith)) e)
      λ t k. Implements-NothingLeft 0 s t k over
