-- ===== src/Vm/Tests.antt =====
-- Runs of the simulator of Virtual_Memory on small inputs.
use ece.Prelude.{
  [], ◌∷◌, ltb, zero, suc, ◌≤◌, ℕ, ◌+◌, ◌*◌, ◌/◌, ◌%◌, ◌<◌, ◌≡◌, refl, Bool, true, false, Option,
  none, some, ◌==◌, if◌then◌else◌, arith, Returns, find_first, ◌↔◌, ◌≢◌,
}
use ece.Vm.Types.{
  SwapQueue, page_table, frames, page_size, num_pages, num_frames, random, clocksweep, Vm,
}
use ece.Vm.Swap.{
  swap_write, swap_queue_find, find_from, write_entry, swap_queue_enqueue, set_next, create_entry,
  link, count_entry, store_page,
}
use ece.Vm.Random.{pcg32_random_r}
use ece.Vm.Paging.{
  vaddr_vpn, vaddr_offset, physical_address, system_init, frame_at, read_table, write_table,
  read_pte, write_pte, frame_bytes, prng_rand, roulette, select_victim_frame, write_back, evict,
  free_frame, proc_init, zero_pte, zero_fte, set_fte, cleanup_page, cleanup_pages, proc_cleanup,
  context_switch, load_page, page_fault, store, write_access, mem_access,
}
use ece.Vm.Simulator.{set_pcb, boot, is_current, switch_to, start_process, stop_process}
use ece.Vm.SwapSpace.Linked.{nil, cons}
use ece.Vm.SwapSpace.Queue.{IsQueue}
use ece.Vm.SwapSpace.Save.{Saved, swap_write-Saved}
use ece.Vm.Restart.{restart_keeps_ptbr}
use ece.Vm.Address.{physical_address_fields}
use ece.Vm.Victim.{IsFree, IsVictim, select_victim_frame-IsVictim, select_victim_frame-eq-none_iff}
use ece.Vm.Access.{mem_access_write-read}

abbrev result {ℓ} : {A : Type ℓ} → A → Option A → A
result a none = a
result a (some b) = b

abbrev is_some {ℓ} : {A : Type ℓ} → Option A → Bool
is_some none = false
is_some (some b) = true

some-result {ℓ} : {A : Type ℓ} (a : A) (o : Option A) → is_some o ≡ true → o ≡ some (result a o)
some-result a none e = cc
some-result a (some b) e = refl

-- Process 5, started and made the current one.
abbrev machine : Vm
machine = switch_to 5 (result (boot random) (start_process 5 (boot random)))

machine-current : machine.current_process ≡ some 5
unfolding switch_to is_current context_switch start_process boot proc_init free_frame
    select_victim_frame system_init find_first
machine-current = refl

machine-ptbr : machine.ptbr ≡ (machine.procs 5).saved_ptbr
unfolding switch_to is_current context_switch start_process boot proc_init free_frame
    select_victim_frame system_init find_first
machine-ptbr = refl

-- A first write to the address 0x4321, which takes a page fault.
abbrev written : ℕ × Vm
written = result (0, machine) (mem_access 0x4321 b'w' 77 machine)

writes : mem_access 0x4321 b'w' 77 machine ≡ some (written.0, written.1)
unfolding switch_to is_current context_switch start_process boot proc_init free_frame
    select_victim_frame system_init find_first mem_access page_fault load_page frame_at read_pte
    read_table write_pte write_table write_access store frame_bytes vaddr_vpn vaddr_offset
    physical_address
writes = some-result (0, machine) (mem_access 0x4321 b'w' 77 machine) refl

mem_access_write-read_example :
    Returns (λ ((x, u) : ℕ × Vm). x ≡ 77) (mem_access 0x4321 b'r' 0 written.1)
mem_access_write-read_example =
    mem_access_write-read 0x4321 5 77 0 written.0 b'w' machine written.1 machine-current
      machine-ptbr refl writes

-- The page of the address above is the only unprotected frame, so that freeing a frame writes it to
-- the swap space.
abbrev crowded : Vm
crowded = record (written.1) {
  frame_table =
      λ i. let f = (written.1).frame_table i in if i == 2 then f else record f { protected = 1 };
}

abbrev freed : ℕ × Vm
freed = result (0, crowded) (free_frame crowded)

frees : free_frame crowded ≡ some (freed.0, freed.1)
unfolding switch_to is_current context_switch start_process boot proc_init free_frame
    select_victim_frame system_init find_first mem_access page_fault load_page frame_at read_pte
    read_table write_pte write_table write_access store frame_bytes vaddr_vpn vaddr_offset
    physical_address roulette prng_rand pcg32_random_r write_back evict swap_write swap_queue_find
    find_from write_entry swap_queue_enqueue set_next create_entry link count_entry store_page
frees = some-result (0, crowded) (free_frame crowded) refl

physical_address_fields_example :
    (physical_address 3 (vaddr_offset 0x4321) / page_size ≡ 3)
    × (physical_address 3 (vaddr_offset 0x4321) % page_size ≡ 0x4321 % page_size)
    × (physical_address 3 (vaddr_offset 0x4321) < num_frames * page_size)
physical_address_fields_example = physical_address_fields 3 0x4321 (omega arith)

-- Every frame holds a page.
abbrev full : ℕ → Vm
full replacement = record (boot replacement) {
  frame_table =
      λ i. record { protected = 0; mapped = 1; referenced = 0; process = some 5; vpn = i };
}

select_victim_frame-IsVictim_example :
    Returns (λ (i, t). IsVictim (full random) i t) (select_victim_frame (full random))
unfolding boot system_init
select_victim_frame-IsVictim_example =
    select_victim_frame-IsVictim (full random) 7 (omega arith, refl) refl

select_victim_frame-eq-none_iff_example : (select_victim_frame (full clocksweep) ≡ none) ↔ (
    ((j : ℕ) → j < num_frames → ¬ IsFree (full clocksweep).frame_table j)
    × ((full clocksweep).replacement ≡ random
        → (j : ℕ) → j < num_frames
        → ((full clocksweep).frame_table j).protected ≢ 0))
select_victim_frame-eq-none_iff_example = select_victim_frame-eq-none_iff (full clocksweep)

-- Process 6 runs, with an empty page table in frame 2, and frame 1 is free.
abbrev second : Vm
second = record (boot random) {
  mem = λ i. if i == 2 then page_table (λ j. zero_pte) else frames;
  frame_table = λ i.
      if i == 2
      then record zero_fte { protected = 1 }
      else if i == 0
      then record zero_fte { protected = 1 }
      else zero_fte;
  procs = λ i. record { pid = i; state = 1; saved_ptbr = 2 };
  current_process = some 6;
  ptbr = 2;
}

cleanup_empty :
    (table rounds i : ℕ) (v : Vm)
    → table < num_frames
    → v.mem table ≡ page_table (λ j. zero_pte)
    → i + rounds ≤ num_pages
    → cleanup_pages table rounds i v ≡ some v
unfolding cleanup_pages cleanup_page read_pte read_table frame_at
cleanup_empty table zero i v in_memory h fits = refl
cleanup_empty table (suc rounds) i v in_memory h fits =
    let there : ltb table num_frames ≡ true = ground arith in
    let inside : ltb i num_pages ≡ true = ground arith in
    rw (there, h, inside) (cleanup_empty table rounds (suc i) v in_memory h (omega arith))

abbrev stopped : Vm
stopped = set_pcb 6 (record { pid = 6; state = 0; saved_ptbr = 0 }) (set_fte 2 zero_fte second)

stops : stop_process 6 second ≡ some stopped
unfolding stop_process proc_cleanup boot system_init
stops = rw (cleanup_empty 2 num_pages 0 second (omega arith) refl (omega arith)) refl

abbrev restarted : Vm
restarted = result second (start_process 6 stopped)

starts : start_process 6 stopped ≡ some restarted
unfolding start_process proc_init free_frame select_victim_frame find_first boot system_init
starts = some-result second (start_process 6 stopped) refl

-- The new page table lies in frame 1.
moved : (restarted.procs 6).saved_ptbr ≡ 1
unfolding start_process proc_init free_frame select_victim_frame find_first boot system_init
moved = refl

-- The base still points to frame 2.
restart_keeps_ptbr_example :
    (switch_to 6 restarted ≡ restarted) × ((switch_to 6 restarted).ptbr ≡ 2)
restart_keeps_ptbr_example = restart_keeps_ptbr 6 second stopped restarted refl stops starts

-- One entry, with the token 1.
abbrev one_entry : SwapQueue
one_entry = record {
  heap = λ a. if a == 0 then some (record { token = 1; page_data = λ i. 7; next = none }) else none;
  fresh = 1;
  next_token = 2;
  head = some 0;
  tail = some 0;
  size = 1;
  size_max = 1;
}

one_entry-IsQueue : IsQueue one_entry (0 ∷ [])
one_entry-IsQueue = record {
  linked = cons refl refl refl nil;
  at_end = refl;
  counted = refl;
  old = λ a m. ground arith;
  tokens = λ a i m e. ground arith;
  started = omega arith;
  single = λ a b i j m m' e e' same. ground arith;
}

swap_write-Saved_example :
    Returns (Saved (λ i. i) one_entry zero_pte) (swap_write one_entry zero_pte (λ i. i))
swap_write-Saved_example =
    swap_write-Saved (λ i. i) zero_pte one_entry one_entry-IsQueue (omega arith) (omega arith)
