-- ===== src/Vm/Flat/Implements.antt =====
-- When a machine of Virtual_Memory stands for a memory without paging.
use ece.Prelude.{
  ℕ, ◌<◌, ◌≤◌, ◌≡◌, ◌↔◌, inl, inr, refl, ◌==◌, arith, List, [], ◌∈◌, length, Distinct,
  images-length-le, some, Finds, found, missing, find_first-Finds, Option,
}
use ece.Vm.Types.{num_frames, max_pid, random, Pte, Fte, Frame, Vm}
use ece.Vm.Swap.{swap_read, swap_queue_find, find_from}
use ece.Vm.Paging.{system_init, zero_pte}
use ece.Vm.Simulator.{boot, proc_running}
use ece.Vm.Victim.{IsEvictable}
use ece.Vm.SwapSpace.Linked.{nil}
use ece.Vm.Flat.Tables.{Tables}
use ece.Vm.Flat.Paged.{Paged}
use ece.Vm.Flat.Start.{Listed, Lists}
use ece.Vm.Flat.Spec.{Flat, max_running, nothing_runs}

-- The machine runs the processes of `s`, and its frames and its swap space hold their bytes. There is
-- room for `room` more pages in the swap space.
pub record Implements (room : ℕ) (s : Flat) (v : Vm) : Type 0 where
  pub few : length s.running ≤ max_running
  pub distinct : Distinct s.running
  pub known : (p : ℕ) → p ∈ s.running → p < max_pid
  pub states : (p : ℕ) → ((v.procs p).state ≡ proc_running) ↔ (p ∈ s.running)
  pub pids : (p : ℕ) → p ∈ s.running → (v.procs p).pid ≡ p
  pub current : v.current_process ≡ s.current
  pub selected :
      (p : ℕ)
      → s.current ≡ some p
      → ((v.procs p).pid ≡ p) × (p ∈ s.running → v.ptbr ≡ (v.procs p).saved_ptbr)
  pub entries : ℕ → ℕ → Pte
  pub paged :
      Paged
        (Listed s.running)
        (λ p. (v.procs p).saved_ptbr)
        (Lists s.running)
        s.bytes
        room
        entries
        v

module _ (xs : List ℕ) {table_at : ℕ → ℕ} {entries : ℕ → ℕ → Pte} {mem : ℕ → Frame} {ft : ℕ → Fte}
    (h : Tables (Listed xs) table_at entries mem ft) where
  -- Up to 62 processes leave a frame of memory that is not protected.
  pub evictable : length xs ≤ max_running → (f : ℕ) × IsEvictable ft f
  evictable few = go (find_first-Finds (λ i. (ft i).protected == 0) num_frames 0)
    where
      go :
          {r : Option ℕ}
          → Finds (λ i. (ft i).protected == 0) num_frames 0 r
          → (f : ℕ) × IsEvictable ft f
      go (found i lo hi e before) = (i, (hi, ground arith))
      go (missing all_held) =
          let holders : (k : ℕ) → 0 < k → k ≤ 63 → (a : ℕ) × (a ∈ xs) × (table_at a ≡ k) =
            λ k lo hi. elim (h.only k (omega arith) (ground (arith, all_held k))) [
              | inl z ↦ absurd (omega arith)
              | inr hit ↦ hit
            ] in
          absurd (omega (arith, images-length-le table_at 63 xs holders))

pub boot-Implements :
    (room : ℕ) → room < 0xFFFF_FFFF_FFFF_FFFF → Implements room nothing_runs (boot random)
unfolding boot system_init swap_read swap_queue_find find_from
boot-Implements room lo = record {
  few = omega arith;
  distinct = tt;
  known = λ p m. cc m;
  states = λ p. ((λ e. ground arith), λ m. cc m);
  pids = λ p m. cc m;
  current = refl;
  selected = λ p e. cc e;
  entries = λ p n. zero_pte;
  paged = record {
    tables = record {
      frame_zero = λ e. ground arith;
      table = λ p m. cc m;
      distinct = λ p p' m. cc m;
      only = λ f in_memory prot. inl (ground arith);
    };
    pages = record {
      once = λ f. ground arith;
      held = λ p n l. cc (l.0);
      owned = λ f in_memory prot mapped. ground arith;
    };
    contents = record { stored = λ p n l. cc (l.0); unique = λ p n p' n' l. cc (l.0) };
    covered = record { owner = λ t there. absurd (there refl) };
    addresses = [];
    queue = record {
      linked = nil;
      at_end = refl;
      counted = refl;
      old = λ a m. cc m;
      tokens = λ a i m. cc m;
      started = omega arith;
      single = λ a b i j m. cc m;
    };
    lives = λ p n l. l;
    strategy = refl;
    few = omega arith;
    tokens = omega arith;
  };
}
