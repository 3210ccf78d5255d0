-- ===== src/Vm/Consistency.antt =====
-- What the checks of `check_validity` (Virtual_Memory/simulator-src/pagesim.c) amount to: the frame
-- table, the page tables and the swap space tell the same story.
use ece.Prelude.{ℕ, ◌≤◌, ◌<◌, ◌≡◌, ◌≢◌, ◌⊎◌, some}
use ece.Vm.Types.{num_pages, num_frames, max_pid, Pte, Vm}
use ece.Vm.Swap.{swap_queue_find}
use ece.Vm.Paging.{read_pte}
use ece.Vm.Simulator.{proc_running}

abbrev pub IsRunning : Vm → ℕ → Type 0
IsRunning v pid = (pid < max_pid) × ((v.procs pid).state ≡ proc_running)

-- The frame holds the page table of a running process.
abbrev pub IsTable : Vm → ℕ → Type 0
IsTable v f = (pid : ℕ) × IsRunning v pid × ((v.procs pid).saved_ptbr ≡ f)

-- The frame table says that the frame holds this page of this process.
pub record IsHeld (v : Vm) (pid vpn f : ℕ) : Type 0 where
  pub holder : ℕ
  pub in_memory : f < num_frames
  pub unprotected : (f ≢ 0) × ¬ IsTable v f
  pub process : (v.frame_table f).process ≡ some holder
  pub in_procs : holder < max_pid
  pub mapped : (v.frame_table f).mapped ≢ 0
  pub same_pid : (v.procs holder).pid ≡ pid
  pub same_vpn : (v.frame_table f).vpn ≡ vpn

pub record IsEntry (v : Vm) (pid vpn : ℕ) (e : Pte) : Type 0 where
  pub flags : (e.valid ≤ 1) × (e.dirty ≤ 1)
  pub held : e.valid ≢ 0 → IsHeld v pid vpn e.pfn
  pub swapped : e.swap ≢ 0 → (a : ℕ) × (swap_queue_find v.swap_queue e.swap ≡ some (some a))

-- A valid entry of a running process points to the frame.
pub record IsOwned (v : Vm) (f : ℕ) : Type 0 where
  pub pid : ℕ
  pub vpn : ℕ
  pub entry : Pte
  pub runs : IsRunning v pid
  pub in_table : vpn < num_pages
  pub read : read_pte v (v.procs pid).saved_ptbr vpn ≡ some entry
  pub valid : entry.valid ≢ 0
  pub points : entry.pfn ≡ f

abbrev pub IsPage : Vm → ℕ → ℕ → Type 0
IsPage v pid vpn =
    (e : Pte) × (read_pte v (v.procs pid).saved_ptbr vpn ≡ some e) × IsEntry v pid vpn e

pub record IsConsistent (v : Vm) : Type 0 where
  pub frame_zero : (v.frame_table 0).protected ≢ 0
  pub tables :
      (pid : ℕ)
      → IsRunning v pid
      → let t = (v.procs pid).saved_ptbr in
        (t ≢ 0) × (t < num_frames) × ((v.frame_table t).protected ≢ 0)
  pub only_tables :
      (f : ℕ) → f < num_frames → (v.frame_table f).protected ≢ 0 → (f ≡ 0) ⊎ IsTable v f
  pub pages : (pid vpn : ℕ) → IsRunning v pid → vpn < num_pages → IsPage v pid vpn
  pub owned :
      (f : ℕ)
      → f < num_frames
      → (v.frame_table f).protected ≡ 0
      → (v.frame_table f).mapped ≢ 0
      → IsOwned v f
