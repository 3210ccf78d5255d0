-- ===== src/Vm/Types.antt =====
-- The data of Virtual_Memory/simulator-src (types.h, pagesim.h, paging.h, swap.h, stats.h).
-- `none` as the result of an operation stands for a panic, an exit or undefined behaviour.
use ece.Prelude.{ℕ, Option}

abbrev pub offset_len : ℕ
offset_len = 14

abbrev pub page_size : ℕ
page_size = 0x4000

abbrev pub num_pages : ℕ
num_pages = 1024

abbrev pub num_frames : ℕ
num_frames = 64

abbrev pub max_pid : ℕ
max_pid = 800

abbrev pub random : ℕ
random = 1

abbrev pub clocksweep : ℕ
clocksweep = 2

pub record Pcb : Type 0 where
  pub pid : ℕ
  pub state : ℕ
  pub saved_ptbr : ℕ

pub record Pte : Type 0 where
  pub valid : ℕ
  pub dirty : ℕ
  pub pfn : ℕ
  pub swap : ℕ

-- `process` is the index of the process in `procs`.
pub record Fte : Type 0 where
  pub protected : ℕ
  pub mapped : ℕ
  pub referenced : ℕ
  pub process : Option ℕ
  pub vpn : ℕ

-- What a frame of physical memory holds. A frame that is read by another layout than the one it was
-- written by is a fault of the model.
pub data Frame : Type 0 where
  frames : Frame
  page_table : (ℕ → Pte) → Frame
  page : (ℕ → ℕ) → Frame

pub record SwapInfo : Type 0 where
  pub token : ℕ
  pub page_data : ℕ → ℕ
  pub next : Option ℕ

-- The queue with the heap that its entries lie in; `fresh` is the next address that `calloc`
-- returns, `next_token` the static TOKEN of swap.c.
pub record SwapQueue : Type 0 where
  pub heap : ℕ → Option SwapInfo
  pub fresh : ℕ
  pub next_token : ℕ
  pub head : Option ℕ
  pub tail : Option ℕ
  pub size : ℕ
  pub size_max : ℕ

pub record Stats : Type 0 where
  pub writes : ℕ
  pub reads : ℕ
  pub accesses : ℕ
  pub page_faults : ℕ
  pub writebacks : ℕ

pub record Vm : Type 0 where
  pub mem : ℕ → Frame
  pub frame_table : ℕ → Fte
  pub ptbr : ℕ
  pub procs : ℕ → Pcb
  pub current_process : Option ℕ
  pub replacement : ℕ
  pub swap_queue : SwapQueue
  pub rng : ℕ
  pub stats : Stats
