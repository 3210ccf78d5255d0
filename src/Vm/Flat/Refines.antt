-- ===== src/Vm/Flat/Refines.antt =====
-- A trace of Virtual_Memory/simulator-src/pagesim.c prints what a memory without paging would.
use ece.Prelude.{
  ℕ, suc, ◌/◌, ◌%◌, ◌^◌, ltb, ◌<◌, ◌≡◌, ◌≢◌, inl, inr, refl, sym, ap, ◌∙◌, arith, ◌∈◌, length, none,
  some, Bool-cases, Bool, ◌∉◌, false, true, Option, subst, Returns, Returns-bind, Returns-mono,
  if◌then◌else◌, some-eq-some,
}
use ece.Vm.Types.{page_size, max_pid, Pcb, Vm}
use ece.Vm.Paging.{context_switch, mem_access, vaddr_vpn}
use ece.Vm.Simulator.{
  Command, start, stop, access, run_command, start_process, stop_process, switch_to, is_current,
}
use ece.Vm.Victim.{IsEvictable}
use ece.Vm.Flat.Paged.{Paged, Paged-same}
use ece.Vm.Flat.Access.{Serves}
use ece.Vm.Flat.Served.{mem_access-Serves}
use ece.Vm.Flat.Start.{Listed, Lists}
use ece.Vm.Flat.Spec.{Flat, max_running, is_selected, after_access, accessed, flat_command}
use ece.Vm.Flat.Implements.{Implements, evictable}
use ece.Vm.Flat.Commands.{
  started_flat, stopped_flat, start_process-Implements, stop_process-Implements, switch_to_lem,
}

switch_to_same :
    (pid : ℕ) (v : Vm)
    → ((switch_to pid v).mem ≡ v.mem)
      × ((switch_to pid v).frame_table ≡ v.frame_table)
      × ((switch_to pid v).swap_queue ≡ v.swap_queue)
      × ((switch_to pid v).replacement ≡ v.replacement)
unfolding switch_to context_switch
switch_to_same pid v = elim (Bool-cases (is_current v.current_process pid v)) [
  | inl here ↦ rw here (refl, refl, refl, refl)
  | inr other ↦ rw other (refl, refl, refl, refl)
]

vaddr_vpn-lem : {address : ℕ} → address < 2 ^ 24 → vaddr_vpn address ≡ address / page_size
unfolding vaddr_vpn
vaddr_vpn-lem lo = omega arith

module _ (room : ℕ) (s : Flat) (v : Vm) (h : Implements (suc room) s v) where
  module _ (pid kind address byte : ℕ) (runs : pid ∈ s.running) where
    abbrev accessed_flat : ℕ → Flat
    accessed_flat n = record s {
      current = some pid;
      bytes = after_access pid n (address % page_size) kind byte s.bytes;
    }

    served :
        (n b : ℕ) (t : Vm)
        → Serves
            (Listed s.running)
            (λ q. (v.procs q).saved_ptbr)
            (Lists s.running)
            (after_access pid n (address % page_size) kind byte s.bytes)
            room
            (accessed pid n (address % page_size) kind byte s.bytes)
            (switch_to pid v)
            (b, t)
        → (b ≡ accessed pid n (address % page_size) kind byte s.bytes)
          × Implements room (accessed_flat n) t
    served n b t k =
        let (ptbr, current, procs) = switch_to_lem room s v h pid runs in
        let same : t.procs ≡ v.procs = k.same_cpu.procs ∙ procs in
        (
          k.byte,
          record {
            few = h.few;
            distinct = h.distinct;
            known = h.known;
            states = λ p. rw same (h.states p);
            pids = λ p m. rw same (h.pids p m);
            current = k.same_cpu.current_process ∙ current;
            selected = λ p e.
                let is_p : pid ≡ p = some-eq-some e in
                rw same (rw (← is_p) (h.pids pid runs, λ m. k.same_cpu.ptbr ∙ ptbr));
            entries = k.entries;
            paged =
                subst
                  (λ (x : ℕ → Pcb).
                    Paged (Listed s.running) (λ q. (x q).saved_ptbr) (Lists s.running)
                      (accessed_flat n).bytes room k.entries t)
                  (sym same) k.paged;
          },
        )

    access-Implements :
        address < 2 ^ 24
        → Returns
            (λ ((b, t) : ℕ × Vm).
              (b ≡ accessed pid (address / page_size) (address % page_size) kind byte s.bytes)
              × Implements room (accessed_flat (address / page_size)) t)
            (mem_access address kind byte (switch_to pid v))
    access-Implements lo =
        let (ptbr, current, procs) = switch_to_lem room s v h pid runs in
        let (mem, ft, queue, strategy) = switch_to_same pid v in
        let n : vaddr_vpn address ≡ address / page_size = vaddr_vpn-lem lo in
        let (f, open_frame) = evictable s.running h.paged.tables h.few in
        let open_frame' : IsEvictable (switch_to pid v).frame_table f = rw ft open_frame in
        Returns-mono _ _ (mem_access address kind byte (switch_to pid v))
          (mem_access-Serves (Listed s.running) (λ q. (v.procs q).saved_ptbr) (Lists s.running)
            s.bytes room address pid f h.entries (switch_to pid v)
            (Paged-same h.paged (switch_to pid v) mem ft queue strategy)
            (λ q. ap (λ (x : ℕ → Pcb). (x q).saved_ptbr) procs) current ptbr
            (runs, omega (arith, n)) open_frame' kind byte)
          λ (b, t) k. served (address / page_size) b t (rw n at k)

-- The state and the print that an allowed command has.
result_of :
    {b : Bool} {r x : Option ℕ × Flat}
    → (if b then some r else none) ≡ some x
    → (b ≡ true) × (r.0 ≡ x.0) × (r.1 ≡ x.1)
result_of {b = true} e = let pair = some-eq-some e in (refl, ap (λ y. y.0) pair, ap (λ y. y.1) pair)
result_of {b = false} e = cc e

-- On a machine that stands for the flat state, a command that the flat state allows does not fail. It
-- prints what the flat state prints, and leaves a machine that stands for the flat state that is left.
pub run_command-Implements :
    (c : Command) (room : ℕ) (s s' : Flat) (v : Vm) (printed : Option ℕ)
    → Implements (suc room) s v
    → flat_command c s ≡ some (printed, s')
    → Returns (λ (b, t). (b ≡ printed) × Implements room s' t) (run_command c v)
unfolding flat_command run_command
run_command-Implements (start pid) room s s' v printed h e =
    let (allowed, is_printed, same) = result_of e in
    let known : ltb pid max_pid ≡ true = ground arith in
    let out : pid ∉ s.running = ground arith in
    let few : length s.running < max_running = ground arith in
    let other : s.current ≢ some pid =
      λ z. ground (arith, ap (λ (x : Option ℕ). is_selected x pid) z) in
    rw known (
      Returns-bind (Implements room (started_flat room s v h pid))
        (λ (b, t). (b ≡ printed) × Implements room s' t) (start_process pid v) (λ t. some (none, t))
        (start_process-Implements room s v h pid (ground arith) out other few)
        λ t _ k. (is_printed, subst (λ (x : Flat). Implements room x t) same k))
run_command-Implements (stop pid) room s s' v printed h e =
    let (allowed, is_printed, same) = result_of e in
    let known : ltb pid max_pid ≡ true = ground (arith, h.known pid allowed) in
    rw known (
      Returns-bind (Implements room (stopped_flat room s v h pid))
        (λ (b, t). (b ≡ printed) × Implements room s' t) (stop_process pid v) (λ t. some (none, t))
        (stop_process-Implements room s v h pid allowed)
        λ t _ k. (is_printed, subst (λ (x : Flat). Implements room x t) same k))
run_command-Implements (access pid kind address byte) room s s' v printed h e =
    let (allowed, is_printed, same) = result_of e in
    let runs : pid ∈ s.running = ground arith in
    let known : ltb pid max_pid ≡ true = ground (arith, h.known pid runs) in
    rw known (
      Returns-bind
        (λ ((b, t) : ℕ × Vm).
          (b ≡ accessed pid (address / page_size) (address % page_size) kind byte s.bytes)
          × Implements room
              (accessed_flat room s v h pid kind address byte runs (address / page_size)) t)
        (λ (b, t). (b ≡ printed) × Implements room s' t)
        (mem_access address kind byte (switch_to pid v)) (λ (b, t). some (some b, t))
        (access-Implements room s v h pid kind address byte runs (ground arith))
        λ (b, t) _ (is_b, k). (
          ap (λ (x : ℕ). some x) is_b ∙ is_printed,
          subst (λ (x : Flat). Implements room x t) same k,
        ))
