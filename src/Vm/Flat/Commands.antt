-- ===== src/Vm/Flat/Commands.antt =====
-- The commands of a trace (`main` in Virtual_Memory/simulator-src/pagesim.c) on a machine that stands
-- for a memory without paging.
use ece.Prelude.{
  ℕ, suc, erase, ◌<◌, ◌≡◌, ◌≢◌, inl, inr, refl, sym, ap, ◌∙◌, ◌==◌, arith, ◌∷◌, ◌∈◌, ◌∉◌, length,
  none, some, Bool-cases, true, Option, update, update_ne, update_eq, Returns, Returns-bind,
  Returns-mono, mem-erase, erase-mem, erase-Distinct, length-erase-le,
}
use ece.Vm.Types.{max_pid, Pcb, Vm}
use ece.Vm.Paging.{proc_init, proc_cleanup, context_switch}
use ece.Vm.Simulator.{start_process, stop_process, switch_to, is_current, set_pcb, proc_running}
use ece.Vm.Restart.{proc_cleanup-SameCpu}
use ece.Vm.Flat.Contents.{zero_page}
use ece.Vm.Flat.Paged.{Paged-same, Paged-room}
use ece.Vm.Flat.Start.{listed}
use ece.Vm.Flat.Started.{Starts, proc_init-Starts}
use ece.Vm.Flat.Stopped.{Stops, proc_cleanup-Stops}
use ece.Vm.Flat.Spec.{Flat, max_running}
use ece.Vm.Flat.Implements.{Implements, evictable}

module _ (room : ℕ) (s : Flat) (v : Vm) (h : Implements (suc room) s v) (pid : ℕ) where
  abbrev pub started_flat : Flat
  started_flat = record s { running = pid ∷ s.running; bytes = update s.bytes pid (λ n. zero_page) }

  abbrev new_pcb : Pcb
  new_pcb = let pcb = v.procs pid in record pcb { pid = pid; state = proc_running }

  abbrev registered : Vm
  registered = set_pcb pid new_pcb v

  registered_table : (q : ℕ) → (registered.procs q).saved_ptbr ≡ (v.procs q).saved_ptbr
  registered_table q = elim (Bool-cases (q == pid)) [
    | inl same ↦ rw same (ap (λ (x : ℕ). (v.procs x).saved_ptbr) (ground arith))
    | inr other ↦ rw other refl
  ]

  registered_ne : (q : ℕ) → q ≢ pid → registered.procs q ≡ v.procs q
  registered_ne q ne = update_ne v.procs pid _ q ne

  started :
      (t : Vm)
      → pid < max_pid
      → pid ∉ s.running
      → s.current ≢ some pid
      → length s.running < max_running
      → Starts s.running pid s.bytes room registered t
      → Implements room started_flat t
  started t lo out other few k = record {
    few = omega arith;
    distinct = (out, h.distinct);
    known = λ p m. elim (listed pid s.running p m) [
      | inl same ↦ omega (arith, same)
      | inr (ne, m') ↦ h.known p m'
    ];
    states = λ p. elim (Bool-cases (p == pid)) [
      | inl same ↦ ((λ e. ground arith), λ m. k.states p ∙ rw same refl)
      | inr ne ↦
          let old = k.states p ∙ ap (λ (x : Pcb). x.state) (registered_ne p (ground arith)) in
          (
            (λ e. ground (arith, (h.states p).0 (sym old ∙ e))),
            λ m. old ∙ (h.states p).1 (ground arith),
          )
    ];
    pids = λ p m. elim (listed pid s.running p m) [
      | inl same ↦
          k.pids p
          ∙ ap (λ (x : ℕ). (registered.procs x).pid) same
          ∙ ap (λ (x : Pcb). x.pid) (update_eq v.procs pid new_pcb)
          ∙ sym same
      | inr (ne, m') ↦ k.pids p ∙ ap (λ (x : Pcb). x.pid) (registered_ne p ne) ∙ h.pids p m'
    ];
    current = k.current_process ∙ h.current;
    selected = λ p e.
        let ne : p ≢ pid = λ same. other (e ∙ ap (λ (x : ℕ). some x) same) in
        let (is_p, loaded) = h.selected p e in
        (
          k.pids p ∙ ap (λ (x : Pcb). x.pid) (registered_ne p ne) ∙ is_p,
          λ m. elim (listed pid s.running p m) [
            | inl same ↦ absurd (ne same)
            | inr (_, m') ↦ k.ptbr ∙ loaded m' ∙ sym (k.others p ne ∙ registered_table p)
          ],
        );
    entries = k.entries;
    paged = k.paged;
  }

  pub start_process-Implements :
      pid < max_pid
      → pid ∉ s.running
      → s.current ≢ some pid
      → length s.running < max_running
      → Returns (Implements room started_flat) (start_process pid v)
  unfolding start_process
  start_process-Implements lo out other few =
      let (f, open_frame) = evictable s.running h.paged.tables h.few in
      Returns-mono (Starts s.running pid s.bytes room registered) (Implements room started_flat)
        (proc_init pid registered)
        (proc_init-Starts s.running pid out s.bytes room h.entries (λ q. (v.procs q).saved_ptbr)
          registered (Paged-same h.paged registered refl refl refl refl) registered_table f
          open_frame)
        λ t k. started t lo out other few k

  abbrev pub stopped_flat : Flat
  stopped_flat = record s { running = erase pid s.running }

  pub stop_process-Implements :
      pid ∈ s.running → Returns (Implements room stopped_flat) (stop_process pid v)
  unfolding stop_process Stops
  stop_process-Implements runs =
      Returns-bind
        (Stops s.running pid runs h.distinct (λ q. (v.procs q).saved_ptbr) s.bytes (suc room))
        (Implements room stopped_flat) (proc_cleanup pid v) _
        (proc_cleanup-Stops s.running pid runs h.distinct (λ q. (v.procs q).saved_ptbr) s.bytes
          (suc room) h.entries v h.paged refl)
        λ u e (entries, k).
          let same = proc_cleanup-SameCpu pid v u e in
          let procs =
            update u.procs pid
              (let pcb = u.procs pid in record pcb { saved_ptbr = 0; state = 0 }) in
          let procs_ne : (q : ℕ) → q ≢ pid → procs q ≡ v.procs q =
            λ q ne. update_ne u.procs pid _ q ne ∙ ap (λ (x : ℕ → Pcb). x q) same.procs in
          record {
            few = omega (arith, h.few, length-erase-le pid s.running);
            distinct = erase-Distinct pid s.running h.distinct;
            known = λ p m. h.known p (mem-erase pid p s.running h.distinct m).0;
            states = λ p. elim (Bool-cases (p == pid)) [
              | inl is_pid ↦ (
                (λ z. ground arith),
                λ m. absurd ((mem-erase pid p s.running h.distinct m).1 (ground arith)),
              )
              | inr other ↦
                  let old = ap (λ (x : Pcb). x.state) (procs_ne p (ground arith)) in
                  (
                    (λ z. erase-mem pid p s.running ((h.states p).0 (sym old ∙ z)) (ground arith)),
                    λ m. old ∙ (h.states p).1 (mem-erase pid p s.running h.distinct m).0,
                  )
            ];
            pids = λ p m.
                let (m', ne) = mem-erase pid p s.running h.distinct m in
                ap (λ (x : Pcb). x.pid) (procs_ne p ne) ∙ h.pids p m';
            current = same.current_process ∙ h.current;
            selected = λ p e.
                let (is_p, loaded) = h.selected p e in
                let pid_kept : (procs p).pid ≡ (u.procs p).pid = elim (Bool-cases (p == pid)) [
                  | inl is_pid ↦ rw is_pid (ap (λ (x : ℕ). (u.procs x).pid) (ground arith))
                  | inr other ↦ rw other refl
                ] in
                (
                  pid_kept ∙ ap (λ (x : ℕ → Pcb). (x p).pid) same.procs ∙ is_p,
                  λ m.
                      let (m', ne) = mem-erase pid p s.running h.distinct m in
                      same.ptbr ∙ loaded m' ∙ sym (ap (λ (x : Pcb). x.saved_ptbr) (procs_ne p ne)),
                );
            entries = entries;
            paged =
                Paged-room (k procs (λ q ne. ap (λ (x : Pcb). x.saved_ptbr) (procs_ne q ne))) room
                  (omega arith);
          }

  -- The process of an access is the current one, with its page table loaded.
  module _ (runs : pid ∈ s.running) where
    pub switch_to_lem :
        ((switch_to pid v).ptbr ≡ (v.procs pid).saved_ptbr)
        × ((switch_to pid v).current_process ≡ some pid)
        × ((switch_to pid v).procs ≡ v.procs)
    unfolding switch_to is_current context_switch
    switch_to_lem = elim (Bool-cases (is_current v.current_process pid v)) [
      | inr other ↦ rw other (refl, refl, refl)
      | inl here ↦ rw here (loaded v.current_process refl here)
    ]
      where
        loaded :
            (o : Option ℕ)
            → v.current_process ≡ o
            → is_current o pid v ≡ true
            → (v.ptbr ≡ (v.procs pid).saved_ptbr)
              × (v.current_process ≡ some pid)
              × (v.procs ≡ v.procs)
        loaded none at hit = cc hit
        loaded (some p) at hit =
            let (is_p, table) = h.selected p (sym h.current ∙ at) in
            let same : p ≡ pid = sym is_p ∙ ground arith in
            let runs' : p ∈ s.running = rw same runs in
            (rw same at (table runs'), rw same at at, refl)
