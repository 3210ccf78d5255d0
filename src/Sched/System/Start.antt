-- ===== src/Sched/System/Start.antt =====
-- What `main` of student.c and `start_simulator` of os-sim.c begin with.
use Prim.Native.String.{String}
use ece.Prelude.{
  ℕ, zero, suc, ◌<◌, ◌≡◌, ◌&&◌, ◌||◌, inl, inr, refl, sym, ap, Bool, true, Option, none, some, [],
  ltb, arith, Bool-cases, ℤ, some-eq-some,
}
use native.Mathlib.Decide.{ℕ_discrete}
use ece.Sched.Types.{ProcessState, World, process_count}
use ece.Sched.Programs.{
  processes, compute, request, finish, pid0_ops, pid1_ops, pid2_ops, pid3_ops, pid4_ops, pid5_ops,
  pid6_ops, pid7_ops,
}
use ece.Sched.Queue.Chain.{nil}
use ece.Sched.Simulator.{start_simulator}
use ece.Sched.Main.{main_student}
use ece.Sched.System.Work.{total, work_of, tally}
use ece.Sched.System.Sound.{goes_on, Sound}

abbrev test_below : ℕ → (ℕ → Bool) → Bool
test_below zero test = true
test_below (suc n) test = test n && test_below n test

test_below_lem :
    (n : ℕ) (test : ℕ → Bool) → test_below n test ≡ true → (a : ℕ) → a < n → test a ≡ true
test_below_lem zero test h a q = absurd (omega arith)
test_below_lem (suc n) test h a q = elim (ℕ_discrete a n) [
  | yes same ↦ rw same (ground arith)
  | no other ↦ test_below_lem n test (ground arith) a (omega (arith, other))
]

programs_tested : test_below process_count (λ (a : ℕ). goes_on true ((processes a).pc)) ≡ true
unfolding processes pid0_ops pid1_ops pid2_ops pid3_ops pid4_ops pid5_ops pid6_ops pid7_ops compute
    request finish
programs_tested = refl

-- Every program of the table is a burst of computing, then requests and bursts in turn, and the end.
programs-fit : (a : ℕ) → a < process_count → goes_on true ((processes a).pc) ≡ true
programs-fit =
    test_below_lem process_count (λ (a : ℕ). goes_on true ((processes a).pc)) programs_tested

all_new : (a : ℕ) → (processes a).state ≡ ProcessState.new
unfolding processes
all_new a = ground arith

-- The operations of all programs, with their times.
abbrev pub all_work : ℕ
all_work = 1167

all_work_lem : work_of processes ≡ all_work
unfolding work_of total processes pid0_ops pid1_ops pid2_ops pid3_ops pid4_ops pid5_ops pid6_ops
    pid7_ops compute request finish
all_work_lem = refl

none_terminated : tally processes ≡ 0
unfolding tally total processes
none_terminated = refl

-- The world before the threads start.
module _ (atoi : String → ℤ) (strtoul : String → ℕ) (garbage : ℕ → Option ℕ) where
  pub begun-Sound :
      (cpus : ℕ) (options : ℕ × ℤ) (w : World)
      → start_simulator cpus (main_student atoi strtoul garbage options) ≡ some w
      → Sound all_work none w []
  unfolding start_simulator main_student
  begun-Sound cpus options w started = elim (Bool-cases (ltb cpus 1 || ltb 16 cpus)) [
    | inl bad ↦ cc (rw bad at started)
    | inr good ↦
        let student = ap (λ (v : World). v.student) (some-eq-some (rw good at started)) in
        let simulator = ap (λ (v : World). v.simulator) (some-eq-some (rw good at started)) in
        rw (← some-eq-some (rw good at started)) (record {
          queue = record {
            chain = nil;
            queued = λ a m. cc m;
            complete = λ a q e. cc (all_new a, e);
          };
          cpus = record {
            runs = λ c p known ne at. cc at;
            once = λ c d p known known' ne ne' at. cc at;
            placed = λ a q e. cc (all_new a, e);
          };
          io = record {
            distinct = tt;
            requested = λ a m. cc m;
            complete = λ a q e. cc (all_new a, e);
          };
          programs = λ a q. rw (all_new a) (programs-fit a q);
          few_created = omega arith;
          created = λ a q. absurd (omega arith);
          to_come = λ a q le. all_new a;
          uncounted = refl;
          budget = omega (arith, all_work_lem);
          finished = sym none_terminated;
          some_cpu = ground arith;
          unused = λ c q. refl;
        })
  ]
