-- ===== src/Vm/Paging.antt =====
-- Address translation, frames and page faults: Virtual_Memory/student-src (page_splitting.h,
-- paging.c, page_fault.c, page_replacement.c).
use Prim.Native.Nat.{bit_or}
use ece.Prelude.{
  ℕ, zero, suc, ◌*◌, ◌/◌, ◌%◌, ◌^◌, ◌&&◌, Option, none, some, ltb, ◌==◌, if◌then◌else◌, ◌>>=◌,
  update, find_first, inc64,
}
use ece.Vm.Types.{
  page_size, offset_len, num_pages, num_frames, random, Pte, Fte, Frame, frames, page_table, page,
  SwapQueue, Vm,
}
use ece.Vm.Swap.{swap_read, swap_write, swap_free}
use ece.Vm.Random.{pcg32_random_r}

-- Both results are 16 bits wide.
unfoldable pub vaddr_vpn : ℕ → ℕ
vaddr_vpn addr = addr / page_size % 0x1_0000

unfoldable pub vaddr_offset : ℕ → ℕ
vaddr_offset addr = addr % page_size % 0x1_0000

unfoldable pub physical_address : ℕ → ℕ → ℕ
physical_address pfn offset = bit_or (pfn * 2 ^ offset_len) offset

abbrev pub zero_pte : Pte
zero_pte = record { valid = 0; dirty = 0; pfn = 0; swap = 0 }

abbrev pub zero_fte : Fte
zero_fte = record { protected = 0; mapped = 0; referenced = 0; process = none; vpn = 0 }

-- `frame_table[i] = e`, for a frame whose number the code has found in memory, or which it reads or
-- writes next.
abbrev pub set_fte : ℕ → Fte → Vm → Vm
set_fte i e v = record v { frame_table = update v.frame_table i e }

-- The frame table fills frame 0.
unfoldable pub system_init : Vm → Vm
system_init v = record v {
  mem = update v.mem 0 frames;
  frame_table = update (λ i. zero_fte) 0 (record zero_fte { protected = 1 });
}

-- A frame of `mem`, which has NUM_FRAMES of them.
unfoldable pub frame_at : ℕ → Vm → Option Frame
frame_at i v = if ltb i num_frames then some (v.mem i) else none

-- A page table entry, by the frame of its table and its number there.
unfoldable pub read_table : Frame → ℕ → Option Pte
read_table frames vpn = none
read_table (page bytes) vpn = none
read_table (page_table entries) vpn = if ltb vpn num_pages then some (entries vpn) else none

unfoldable pub write_table : Frame → ℕ → Pte → Option Frame
write_table frames vpn e = none
write_table (page bytes) vpn e = none
write_table (page_table entries) vpn e =
    if ltb vpn num_pages then some (page_table (update entries vpn e)) else none

unfoldable pub read_pte : Vm → ℕ → ℕ → Option Pte
unfolding read_table frame_at
read_pte v frame vpn = do f ← frame_at frame v; read_table f vpn

unfoldable pub write_pte : ℕ → ℕ → Pte → Vm → Option Vm
unfolding write_table frame_at
write_pte frame vpn e v = do
  f ← frame_at frame v
  f' ← write_table f vpn e
  some (record v { mem = update v.mem frame f' })

unfoldable pub frame_bytes : Frame → Option (ℕ → ℕ)
frame_bytes frames = none
frame_bytes (page_table entries) = none
frame_bytes (page bytes) = some bytes

-- `prng_rand`.
unfoldable pub prng_rand : ℕ → ℕ × ℕ
prng_rand rng = pcg32_random_r rng

-- The second loop of `select_victim_frame`: what it returns, or the last unprotected frame, and the
-- state of the generator.
unfoldable pub roulette : ℕ → ℕ → (ℕ → Fte) → Option ℕ → ℕ → Option ℕ × ℕ
roulette zero i ft last rng = (last, rng)
roulette (suc rounds) i ft last rng =
    let (rng', drawn) = prng_rand rng in
    let skip = roulette rounds (suc i) ft last rng in
    let next = roulette rounds (suc i) ft (some i) rng' in
    if (ft i).protected == 0 then (if drawn % 2 == 0 then next else (some i, rng')) else skip

-- A frame that is free, or else a victim. If there is none the system panics.
unfoldable pub select_victim_frame : Vm → Option (ℕ × Vm)
select_victim_frame v =
    elim (find_first (λ i. ((v.frame_table i).protected == 0) && ((v.frame_table i).mapped == 0))
      num_frames 0) [
        | some i ↦ some (i, v)
        | none ↦
            if v.replacement == random
            then (let (victim, rng) = roulette num_frames 0 v.frame_table none v.rng in
                elim victim [ none ↦ none | some i ↦ some (i, record v { rng = rng }) ])
            else none
      ]

-- A dirty page is written to the swap space; the entry returned is no longer dirty.
unfoldable pub write_back : ℕ → Pte → Vm → Option (Pte × Vm)
write_back victim e v = do
  src ← frame_bytes (v.mem victim)
  (e', q) ← swap_write v.swap_queue e src
  let st = v.stats
  some (
    record e' { dirty = 0 },
    record v { swap_queue = q; stats = record st { writebacks = inc64 st.writebacks } },
  )

-- The eviction of a mapped frame: its page table entry becomes invalid.
unfoldable pub evict : ℕ → Vm → Option Vm
evict victim v = do
  p ← (v.frame_table victim).process
  let vpn = (v.frame_table victim).vpn
  let table = (v.procs p).saved_ptbr
  e ← read_pte v table vpn
  (e', v') ← (if e.dirty == 1 then write_back victim e v else some (e, v))
  v'' ← write_pte table vpn (record e' { valid = 0 }) v'
  let f = v''.frame_table victim
  some (set_fte victim (record f { mapped = 0 }) v'')

unfoldable pub free_frame : Vm → Option (ℕ × Vm)
free_frame v = do
  (victim, v₁) ← select_victim_frame v
  v₂ ← (if (v₁.frame_table victim).mapped == 1 then evict victim v₁ else some v₁)
  let f = v₂.frame_table victim
  some (victim, set_fte victim (record f { referenced = 0 }) v₂)

unfoldable pub proc_init : ℕ → Vm → Option Vm
proc_init p v = do
  (frame, v') ← free_frame v
  let f = v'.frame_table frame
  let pcb = v'.procs p
  some (record v' {
    mem = update v'.mem frame (page_table (λ i. zero_pte));
    procs = update v'.procs p (record pcb { saved_ptbr = frame });
    frame_table = update v'.frame_table frame (record f { protected = 1 });
  })

unfoldable pub context_switch : ℕ → Vm → Vm
context_switch p v = record v { ptbr = (v.procs p).saved_ptbr }

-- The new page: what the swap space holds of it, or zeros.
unfoldable pub load_page : Pte → SwapQueue → Option (ℕ → ℕ)
load_page e q = if e.swap == 0 then some (λ i. 0) else swap_read q e

unfoldable pub page_fault : ℕ → Vm → Option Vm
page_fault address v = do
  let vpn = vaddr_vpn address
  p ← v.current_process
  let table = (v.procs p).saved_ptbr
  (frame, v₁) ← free_frame v
  e ← read_pte v₁ table vpn
  let e' = record e { pfn = frame; valid = 1; dirty = 0 }
  v₂ ← write_pte table vpn e' v₁
  let f = v₂.frame_table frame
  contents ← load_page e' v₂.swap_queue
  let st = v₂.stats
  some (record v₂ {
    frame_table =
        update v₂.frame_table frame
          (record f { mapped = 1; protected = 0; vpn = vpn; process = some p });
    mem = update v₂.mem frame (page contents);
    stats = record st { page_faults = inc64 st.page_faults };
  })

-- `mem[physical_address]`, read and written.
unfoldable pub load : ℕ → Vm → Option ℕ
load pa v = do f ← frame_at (pa / page_size) v; bytes ← frame_bytes f; some (bytes (pa % page_size))

unfoldable pub store : ℕ → ℕ → Vm → Option Vm
store pa byte v = do
  f ← frame_at (pa / page_size) v
  bytes ← frame_bytes f
  some
      (record v { mem = update v.mem (pa / page_size) (page (update bytes (pa % page_size) byte)) })

unfoldable pub read_access : ℕ → Vm → Option (ℕ × Vm)
read_access pa v = do
  byte ← load pa v
  let st = v.stats
  some (
    byte,
    record v { stats = record st { accesses = inc64 st.accesses; reads = inc64 st.reads } },
  )

-- The entry is marked dirty through its pointer, after the byte is written.
unfoldable pub write_access : ℕ → ℕ → ℕ → Vm → Option (ℕ × Vm)
write_access pa vpn byte v = do
  v₁ ← store pa byte v
  e ← read_pte v₁ v₁.ptbr vpn
  v₂ ← write_pte v₁.ptbr vpn (record e { dirty = 1 }) v₁
  let st = v₂.stats
  some (
    byte,
    record v₂ { stats = record st { accesses = inc64 st.accesses; writes = inc64 st.writes } },
  )

unfoldable pub mem_access : ℕ → ℕ → ℕ → Vm → Option (ℕ × Vm)
mem_access address rw byte v = do
  let vpn = vaddr_vpn address
  e ← read_pte v v.ptbr vpn
  v₁ ← (if e.valid == 0 then page_fault address v else some v)
  e₁ ← read_pte v₁ v₁.ptbr vpn
  let f = v₁.frame_table e₁.pfn
  let v₂ = set_fte e₁.pfn (record f { referenced = 1 }) v₁
  let pa = physical_address e₁.pfn (vaddr_offset address)
  (if rw == b'r' then read_access pa v₂ else write_access pa vpn byte v₂)

-- `frame_table[i].mapped = 0`.
unfoldable pub unmap : ℕ → Vm → Option Vm
unmap i v =
    let f = v.frame_table i in
    if ltb i num_frames then some (set_fte i (record f { mapped = 0 }) v) else none

-- One round of the loop of `proc_cleanup`. The entry is written back into the table.
unfoldable pub cleanup_page : ℕ → ℕ → Vm → Option Vm
cleanup_page table i v = do
  e ← read_pte v table i
  v₁ ← (if e.valid == 0 then some v else unmap e.pfn v)
  (if e.swap == 0 then some v₁ else do
    (e', q) ← swap_free v₁.swap_queue e
    write_pte table i e' (record v₁ { swap_queue = q }))

unfoldable pub cleanup_pages : ℕ → ℕ → ℕ → Vm → Option Vm
cleanup_pages table zero i v = some v
cleanup_pages table (suc rounds) i v = do
  v₁ ← cleanup_page table i v
  cleanup_pages table rounds (suc i) v₁

unfoldable pub proc_cleanup : ℕ → Vm → Option Vm
proc_cleanup p v = do
  let table = (v.procs p).saved_ptbr
  v₁ ← cleanup_pages table num_pages 0 v
  let f = v₁.frame_table table
  some (set_fte table (record f { protected = 0; mapped = 0; referenced = 0 }) v₁)
