-- ===== src/Sched/Queue/Pop.antt =====
-- `pop_from_queue` of student.c takes the head (FIFO, round robin), or the first of the processes
-- with the longest remaining time (LRTF).
use mathlib.Core.List.{head?, tail}
use ece.Prelude.{
  ℕ, ◌≤◌, ◌≡◌, ◌≢◌, refl, inl, inr, Bool, true, false, Option, some, List, [], ◌∷◌, arith, ◌==◌,
  ◌∉◌, length, Returns, Returns-bind, if◌then◌else◌, ◌>>=◌, sym, ◌∙◌, Bool-cases,
}
use ece.Sched.Types.{Pcb, Student, process_count}
use ece.Sched.Queue.{walk, unlink, pop_lrtf, pop_fifo, points_to, pop_from_queue}
use ece.Sched.Queue.Chain.{Chain, nil, cons}
use ece.Sched.Queue.Push.{Relinks, Relinks-head}
use ece.Sched.Queue.Longest.{
  first_that, erase_first, longest, time-le-longest, find_high-longest, Has, longest-Has,
}
use ece.Sched.Queue.Unlink.{Unlinked, unlink-Unlinked}

-- The test for the longest remaining time in the queue `xs`.
abbrev pub is_longest : (ℕ → Pcb) → List ℕ → ℕ → Bool
is_longest procs xs a = (procs a).time_remaining == longest procs 0 xs

-- What LRTF makes of the ready queue `xs`.
pub record IsLrtfPop (s : Student) (xs : List ℕ) (r : Option ℕ × Student) : Type 0 where
  pub node : r.0 ≡ first_that (is_longest s.processes xs) xs
  pub served : xs ≢ [] → (m : ℕ) × (r.0 ≡ some m)
  pub left : Chain r.1.processes r.1.head (erase_first (is_longest s.processes xs) xs)
  pub relinks : Relinks s r.1

pub longest-served :
    (procs : ℕ → Pcb) (p : ℕ) (xs : List ℕ) → Has procs (longest procs 0 (p ∷ xs)) (p ∷ xs)
longest-served procs p xs = elim (longest-Has procs 0 (p ∷ xs)) [
  | inl zero_time ↦
      let all_zero = time-le-longest procs 0 p (p ∷ xs) (ground arith) in
      let here : ((procs p).time_remaining == longest procs 0 (p ∷ xs)) ≡ true = ground arith in
      (p, rw here)
  | inr w ↦ w
]

pop_head :
    (s : Student) (p : ℕ) {q : Option ℕ} {xs : List ℕ}
    → s.head ≡ some p
    → (s.processes p).next ≡ q
    → Chain s.processes q xs
    → is_longest s.processes (p ∷ xs) p ≡ true
    → IsLrtfPop s (p ∷ xs) (some p, record s { head = (s.processes p).next })
pop_head s p at_head e c hit = record {
  node = rw hit;
  served = λ ne. (p, refl);
  left = rw hit (rw e c);
  relinks = Relinks-head s _;
}

pop_behind :
    (s : Student) (p : ℕ) {q : Option ℕ} {xs : List ℕ}
    → s.head ≡ some p
    → (s.processes p).next ≡ q
    → p ∉ xs
    → Chain s.processes q xs
    → length (p ∷ xs) ≤ process_count
    → is_longest s.processes (p ∷ xs) p ≡ false
    → Has s.processes (longest s.processes 0 (p ∷ xs)) xs
    → Returns (IsLrtfPop s (p ∷ xs)) (
        unlink process_count (longest s.processes 0 (p ∷ xs)) p q s >>= λ (node, t).
        some (some node, t))
pop_behind s p {q} {xs} at_head e out c room pass w =
    let high = longest s.processes 0 (p ∷ xs) in
    Returns-bind (Unlinked high p s xs) (IsLrtfPop s (p ∷ xs)) (unlink process_count high p q s)
      (λ (node, t). some (some node, t))
      (unlink-Unlinked high s p at_head process_count p e out out c (omega arith) w)
      λ (node, t) _ u. record {
        node = rw pass (sym u.node);
        served = λ ne. (node, refl);
        left = rw pass (rw (u.head ∙ at_head) u.chain);
        relinks = u.relinks;
      }

pop_lrtf-IsLrtfPop :
    (s : Student) {h : Option ℕ} {xs : List ℕ}
    → s.head ≡ h
    → Chain s.processes h xs
    → length xs ≤ process_count
    → Returns (IsLrtfPop s xs) (pop_lrtf h s)
unfolding pop_lrtf unlink
pop_lrtf-IsLrtfPop s at_head nil room = record {
  node = refl;
  served = λ ne. absurd (ne refl);
  left = rw at_head nil;
  relinks = Relinks-head s _;
}
pop_lrtf-IsLrtfPop s at_head (cons {p} {xs} e out c) room =
    let high = longest s.processes 0 (p ∷ xs) in
    let (m, w) = longest-served s.processes p xs in
    rw (find_high-longest walk 0 (cons e out c) (omega arith))
      (elim (Bool-cases (is_longest s.processes (p ∷ xs) p)) [
        | inl hit ↦
            let same : points_to s.head p ≡ true = ground arith in
            rw (hit, same) (pop_head s p at_head e c hit)
        | inr pass ↦ rw (pass, e) (pop_behind s p at_head e out c room pass (m, rw pass at w))
      ])

-- What FIFO and round robin make of the ready queue `xs`.
pub record IsFifoPop (s : Student) (xs : List ℕ) (r : Option ℕ × Student) : Type 0 where
  pub node : r.0 ≡ head? xs
  pub left : Chain r.1.processes r.1.head (tail xs)
  pub relinks : Relinks s r.1

pop_fifo-IsFifoPop :
    (s : Student) {h : Option ℕ} {xs : List ℕ}
    → s.head ≡ h
    → Chain s.processes h xs
    → IsFifoPop s xs (pop_fifo h s)
unfolding pop_fifo
pop_fifo-IsFifoPop s at_head nil = record {
  node = refl;
  left = rw at_head nil;
  relinks = Relinks-head s s.head;
}
pop_fifo-IsFifoPop s at_head (cons e out c) = record {
  node = refl;
  left = rw e c;
  relinks = Relinks-head s _;
}

-- Popping a ready queue of at most PROCESS_COUNT processes does not fail. Under LRTF it takes the
-- first of the processes with the longest remaining time, under the other algorithms the head; the
-- rest of the queue keeps its order, and nothing else changes.
pub pop_from_queue_lem :
    (s : Student) (xs : List ℕ)
    → Chain s.processes s.head xs
    → length xs ≤ process_count
    → Returns
        (λ r. if s.scheduling_alg == b'l' then IsLrtfPop s xs r else IsFifoPop s xs r)
        (pop_from_queue s)
unfolding pop_from_queue
pop_from_queue_lem s xs c room = elim (Bool-cases (s.scheduling_alg == b'l')) [
  | inl e ↦ rw e (pop_lrtf-IsLrtfPop s refl c room)
  | inr e ↦ rw e (pop_fifo-IsFifoPop s refl c)
]
