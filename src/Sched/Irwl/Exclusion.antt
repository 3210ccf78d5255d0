-- ===== src/Sched/Irwl/Exclusion.antt =====
-- Threads that use the readers-writers lock of OS_Threaded_Scheduling/src/os-sim.c.
use ece.Prelude.{
  ℕ, zero, suc, ◌+◌, ◌<◌, ◌≡◌, ◌≢◌, inl, inr, refl, sym, ap, ◌∙◌, true, not, ◌&&◌, Option, none,
  some, arith, update, Bool-cases, some-eq-some, pos, ltb_ℤ, suc_ℤ, pred_ℤ,
}
use native.Mathlib.Decide.{ℕ_discrete}
use ece.Sched.Irwl.{
  Irwl, is_free, irwl_init, irwl_reader_lock, irwl_reader_unlock, irwl_writer_lock,
  irwl_writer_unlock,
}
use ece.Sched.System.Work.{total, total-moved}

pub data Mode : Type 0 where
  outside : Mode
  reading : Mode
  writing : Mode

pub record Threads : Type 0 where
  pub lock : Irwl
  pub modes : ℕ → Mode

abbrev pub enter : ℕ → Mode → Irwl → Threads → Threads
enter t mode l s = record { lock = l; modes = update s.modes t mode }

-- One thread of `n` takes or gives back the lock, each only what it has.
pub data LockStep (n : ℕ) (s u : Threads) : Type 0 where
  reader_in :
      (t : ℕ) (l : Irwl)
      → t < n
      → s.modes t ≡ outside
      → irwl_reader_lock t s.lock ≡ some l
      → u ≡ enter t reading l s
      → LockStep n s u
  reader_out :
      (t : ℕ)
      → t < n
      → s.modes t ≡ reading
      → u ≡ enter t outside (irwl_reader_unlock s.lock) s
      → LockStep n s u
  writer_in :
      (t : ℕ) (l : Irwl)
      → t < n
      → s.modes t ≡ outside
      → irwl_writer_lock s.lock ≡ some l
      → u ≡ enter t writing l s
      → LockStep n s u
  writer_out :
      (t : ℕ) (l : Irwl)
      → t < n
      → s.modes t ≡ writing
      → irwl_writer_unlock s.lock ≡ some l
      → u ≡ enter t outside l s
      → LockStep n s u

abbrev pub all_outside : Threads
all_outside = record { lock = irwl_init; modes = λ t. outside }

pub data LockRun (n : ℕ) : Threads → Type 0 where
  unused : {s : Threads} → s ≡ all_outside → LockRun n s
  stepped : {s u : Threads} → LockRun n s → LockStep n s u → LockRun n u

abbrev writes : Mode → ℕ
writes writing = 1
writes reading = 0
writes outside = 0

unfoldable writers_of : ℕ → (ℕ → Mode) → ℕ
writers_of n modes = total n (λ t. writes (modes t))

writers_of-moved :
    (n : ℕ) (modes : ℕ → Mode) (t : ℕ) (mode : Mode)
    → t < n
    → writers_of n (update modes t mode) + writes (modes t) ≡ writers_of n modes + writes mode
unfolding writers_of
writers_of-moved n modes t mode below =
    let at : update modes t mode t ≡ mode = ground arith in
    omega (
      arith,
      ap writes at,
      total-moved n (λ a. writes (modes a)) (λ a. writes (update modes t mode a)) t below
          λ a ne. ground (arith, ne),
    )

record IsGuarded (n : ℕ) (s : Threads) : Type 0 where
  counted : s.lock.writers ≡ pos (writers_of n s.modes)
  holder : (t : ℕ) → s.modes t ≡ reading → s.lock.mutex ≡ some t
  no_writer : (t : ℕ) → s.lock.mutex ≡ some t → writers_of n s.modes ≡ 0

nobody_writes : (n : ℕ) → writers_of n (λ t. outside) ≡ 0
unfolding writers_of total
nobody_writes zero = refl
nobody_writes (suc n) = omega (arith, nobody_writes n)

some_writer :
    (n : ℕ) (modes : ℕ → Mode) (t : ℕ) → t < n → modes t ≡ writing → 0 < writers_of n modes
some_writer n modes t below e = omega (arith, writers_of-moved n modes t outside below, ap writes e)

is_free-none : (m : Option ℕ) → is_free m ≡ true → m ≡ none
is_free-none none e = refl
is_free-none (some t) e = cc e

-- A thread that changes between outside and reading.
module _ (n : ℕ) (s : Threads) (t : ℕ) (below : t < n) (h : IsGuarded n s) where
  same_writers :
      (mode : Mode)
      → writes mode ≡ writes (s.modes t)
      → writers_of n (update s.modes t mode) ≡ writers_of n s.modes
  same_writers mode e = omega (arith, e, writers_of-moved n s.modes t mode below)

  entered :
      (l : Irwl)
      → s.modes t ≡ outside
      → irwl_reader_lock t s.lock ≡ some l
      → IsGuarded n (enter t reading l s)
  unfolding irwl_reader_lock
  entered l out taken =
      elim (Bool-cases (is_free s.lock.mutex && not (ltb_ℤ (pos 0) s.lock.writers))) [
        | inr busy ↦ cc (rw busy at taken)
        | inl free ↦
            let same = same_writers reading (sym (ap writes out)) in
            let lock : l ≡ record (s.lock) { mutex = some t } =
              sym (some-eq-some (rw free at taken)) in
            let none_writes : writers_of n s.modes ≡ 0 = ground (arith, h.counted) in
            record {
              counted = rw (lock, same) h.counted;
              holder = λ a e. elim (ℕ_discrete a t) [
                | yes here ↦ rw (lock, here) refl
                | no other ↦
                    let holds = h.holder a (ground (arith, e, other)) in ground (arith, holds)
              ];
              no_writer = λ a e. same ∙ none_writes;
            }
      ]

  left : s.modes t ≡ reading → IsGuarded n (enter t outside (irwl_reader_unlock s.lock) s)
  unfolding irwl_reader_unlock
  left reads =
      let same = same_writers outside (sym (ap writes reads)) in
      let mine = h.holder t reads in
      record {
        counted = rw same h.counted;
        holder = λ a e. elim (ℕ_discrete a t) [
          | yes here ↦ ground (arith, e, here)
          | no other ↦
              let theirs = h.holder a (ground (arith, e, other)) in
              absurd (other (some-eq-some (sym theirs ∙ mine)))
        ];
        no_writer = λ a e. cc e;
      }

  -- Nobody reads while the mutex is free.
  none_reads : s.lock.mutex ≡ none → (a : ℕ) → s.modes a ≢ reading
  none_reads free a e = let mine = h.holder a e in let bad = sym free ∙ mine in cc

  writer_entered :
      (l : Irwl)
      → s.modes t ≡ outside
      → irwl_writer_lock s.lock ≡ some l
      → IsGuarded n (enter t writing l s)
  unfolding irwl_writer_lock
  writer_entered l out taken = elim (Bool-cases (is_free s.lock.mutex)) [
    | inr busy ↦ cc (rw busy at taken)
    | inl test ↦
        let free = is_free-none s.lock.mutex test in
        let lock : l ≡ record (s.lock) { writers = suc_ℤ s.lock.writers } =
          sym (some-eq-some (rw test at taken)) in
        let more : writers_of n (update s.modes t writing) ≡ suc (writers_of n s.modes) =
          omega (arith, ap writes out, writers_of-moved n s.modes t writing below) in
        record {
          counted = rw (lock, more) (ap suc_ℤ h.counted);
          holder = λ a e. absurd (none_reads free a (ground (arith, e)));
          no_writer = λ a e. cc (rw (lock, free) at e);
        }
  ]

  writer_left :
      (l : Irwl)
      → s.modes t ≡ writing
      → irwl_writer_unlock s.lock ≡ some l
      → IsGuarded n (enter t outside l s)
  unfolding irwl_writer_unlock
  writer_left l inside taken = elim (Bool-cases (is_free s.lock.mutex)) [
    | inr busy ↦ cc (rw busy at taken)
    | inl test ↦
        let free = is_free-none s.lock.mutex test in
        let lock : l ≡ record (s.lock) { writers = pred_ℤ s.lock.writers } =
          sym (some-eq-some (rw test at taken)) in
        let less : writers_of n s.modes ≡ suc (writers_of n (update s.modes t outside)) =
          omega (arith, ap writes inside, writers_of-moved n s.modes t outside below) in
        record {
          counted = rw lock (ap pred_ℤ (h.counted ∙ ap pos less));
          holder = λ a e. absurd (none_reads free a (ground (arith, e)));
          no_writer = λ a e. cc (rw (lock, free) at e);
        }
  ]

guarded : (n : ℕ) (s : Threads) → LockRun n s → IsGuarded n s
guarded n s (unused same) = rw same (record {
  counted = ap pos (sym (nobody_writes n));
  holder = λ t e. cc e;
  no_writer = λ t e. cc e;
})
guarded n u (stepped {s} run step) = elim step [
  | reader_in t l below out taken same ↦ rw same (entered n s t below (guarded n s run) l out taken)
  | reader_out t below reads same ↦ rw same (left n s t below (guarded n s run) reads)
  | writer_in t l below out taken same ↦
      rw same (writer_entered n s t below (guarded n s run) l out taken)
  | writer_out t l below inside taken same ↦
      rw same (writer_left n s t below (guarded n s run) l inside taken)
]

-- Where `n` threads take and give back the lock in any order, each giving back only what it has,
-- then while one of them reads no other reads or writes; `writers` is never negative, and is more
-- than 0 as long as some thread writes.
pub LockRun-excludes :
    (n : ℕ) (s : Threads)
    → LockRun n s
    → ((t u : ℕ)
        → u < n
        → s.modes t ≡ reading
        → (s.modes u ≢ writing) × (s.modes u ≡ reading → u ≡ t))
      × ((k : ℕ) × (s.lock.writers ≡ pos k) × ((u : ℕ) → u < n → s.modes u ≡ writing → 0 < k))
LockRun-excludes n s run =
    let h = guarded n s run in
    (
      λ t u below reads.
          let mine = h.holder t reads in
          (
            λ e. omega (arith, some_writer n s.modes u below e, h.no_writer t mine),
            λ e. some-eq-some (sym (h.holder u e) ∙ mine),
          ),
      (writers_of n s.modes, h.counted, λ u below e. some_writer n s.modes u below e),
    )
