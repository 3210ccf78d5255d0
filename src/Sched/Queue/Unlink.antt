-- ===== src/Sched/Queue/Unlink.antt =====
-- The second loop of LRTF in `pop_from_queue` of student.c: a process is taken out of the list.
use ece.Prelude.{
  ℕ, zero, suc, ◌<◌, ◌≡◌, refl, inl, inr, true, false, Option, some, List, ◌∷◌, arith, ◌==◌, ◌∉◌,
  length, Returns, Returns-mono, Bool-cases,
}
use ece.Sched.Types.{Student}
use ece.Sched.Queue.{set_next, unlink, points_to}
use ece.Sched.Queue.Chain.{Chain, nil, cons, frame}
use ece.Sched.Queue.Push.{Relinks}
use ece.Sched.Queue.Longest.{first_that, erase_first, not-mem-erase_first, Has}

-- What taking out the first process with time `high` makes of a chain behind `prev`.
pub record Unlinked (high prev : ℕ) (s : Student) (xs : List ℕ) (r : ℕ × Student) : Type 0 where
  pub node : first_that (λ a. (s.processes a).time_remaining == high) xs ≡ some (r.0)
  pub chain :
      Chain r.1.processes
        (some prev)
        (prev ∷ erase_first (λ a. (s.processes a).time_remaining == high) xs)
  pub head : r.1.head ≡ s.head
  pub far : (a : ℕ) → a ∉ prev ∷ xs → (r.1.processes a).next ≡ (s.processes a).next
  pub relinks : Relinks s r.1

module _ (high : ℕ) (s : Student) (h : ℕ) (at_head : s.head ≡ some h) where
  -- The process behind `prev` goes.
  unlink_here :
      (prev p : ℕ) {q : Option ℕ} {xs : List ℕ}
      → (s.processes prev).next ≡ some p
      → prev ∉ p ∷ xs
      → (s.processes p).next ≡ q
      → p ∉ xs
      → Chain s.processes q xs
      → ((s.processes p).time_remaining == high) ≡ true
      → Unlinked high prev s
          (p ∷ xs)
          (p, record s { processes = set_next s.processes prev ((s.processes p).next) })
  unlink_here prev p {q} {xs} e out e' out' c hit = record {
    node = rw hit;
    chain = rw hit (cons (ground arith) (ground arith) (frame c λ a i. ground arith));
    head = refl;
    far = λ a i. ground arith;
    relinks = record {
      others = λ a. ground arith;
      current = refl;
      time_slice = refl;
      cpu_count = refl;
      scheduling_alg = refl;
    };
  }

  -- A process that is passed over stays.
  Unlinked-cons :
      (prev p : ℕ) {xs : List ℕ} (r : ℕ × Student)
      → (s.processes prev).next ≡ some p
      → prev ∉ p ∷ xs
      → p ∉ xs
      → ((s.processes p).time_remaining == high) ≡ false
      → Unlinked high p s xs r
      → Unlinked high prev s (p ∷ xs) r
  Unlinked-cons prev p {xs} r e out out' pass u = record {
    node = rw pass u.node;
    chain = rw pass (
        cons (ground (arith, u.far prev))
          (ground
            (arith, not-mem-erase_first prev (λ a. (s.processes a).time_remaining == high) xs))
          u.chain);
    head = u.head;
    far = λ a i. u.far a (ground arith);
    relinks = u.relinks;
  }

  pub unlink-Unlinked :
      (fuel prev : ℕ) {q : Option ℕ} {xs : List ℕ}
      → (s.processes prev).next ≡ q
      → prev ∉ xs
      → h ∉ xs
      → Chain s.processes q xs
      → length xs < fuel
      → Has s.processes high xs
      → Returns (Unlinked high prev s xs) (unlink fuel high prev q s)
  unfolding unlink
  unlink-Unlinked zero prev e out not_head c room w = absurd (omega arith)
  unlink-Unlinked (suc fuel) prev e out not_head nil room (m, w) = cc
  unlink-Unlinked (suc fuel) prev e out not_head (cons {p} {xs} e' out' c) room (m, w) =
      elim (Bool-cases ((s.processes p).time_remaining == high)) [
        | inl hit ↦
            let inner : points_to s.head p ≡ false = ground arith in
            rw (hit, inner) (unlink_here prev p e out e' out' c hit)
        | inr pass ↦
            rw (pass, e')
              (Returns-mono (Unlinked high p s xs) (Unlinked high prev s (p ∷ xs)) _
                (unlink-Unlinked fuel p e' out' (ground arith) c (omega arith) (m, rw pass at w))
                λ r u. Unlinked-cons prev p r e out out' pass u)
      ]
