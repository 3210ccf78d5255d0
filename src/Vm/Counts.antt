-- ===== src/Vm/Counts.antt =====
-- The statistics of a trace (Virtual_Memory/simulator-src/pagesim.c) against the trace.
use ece.Prelude.{
  ℕ, suc, ◌+◌, ◌/◌, ◌<◌, ◌≤◌, ◌≡◌, inl, inr, sym, ap, ◌∙◌, Bool, true, false, Option, some, ◌==◌,
  if◌then◌else◌, ◌>>=◌, arith, Bool-cases, if_then, if_else, length, subst, List, [], ◌∷◌, inc64,
  u64_mod, bind-some, some-eq-some, ltb,
}
use ece.Vm.Types.{page_size, max_pid, Stats, Vm}
use ece.Vm.Paging.{
  frame_at, read_pte, write_pte, page_fault, load, store, read_access, write_access, mem_access,
  vaddr_vpn, vaddr_offset, physical_address, set_fte, frame_bytes, proc_cleanup, context_switch,
}
use ece.Vm.Simulator.{
  Command, start, stop, access, run_command, start_process, stop_process, switch_to, set_pcb,
  proc_running,
}
use ece.Vm.Options.{audit, run_audited}
use ece.Vm.Audited.{audit-same}
use ece.Vm.Frames.{>>=-eq-some}
use ece.Vm.Tally.{
  Frees, Frees-same, kept, wrote, Loads, present, loaded, proc_init-Frees, proc_cleanup-stats,
  page_fault-Loads, write_pte-stats,
}

-- The commands of each kind in a trace.
abbrev pub starts_in : List Command → ℕ
starts_in [] = 0
starts_in (start pid ∷ cs) = suc (starts_in cs)
starts_in (stop pid ∷ cs) = starts_in cs
starts_in (access pid kind address byte ∷ cs) = starts_in cs

abbrev pub reads_in : List Command → ℕ
reads_in [] = 0
reads_in (start pid ∷ cs) = reads_in cs
reads_in (stop pid ∷ cs) = reads_in cs
reads_in (access pid kind address byte ∷ cs) =
    if kind == b'r' then suc (reads_in cs) else reads_in cs

abbrev pub writes_in : List Command → ℕ
writes_in [] = 0
writes_in (start pid ∷ cs) = writes_in cs
writes_in (stop pid ∷ cs) = writes_in cs
writes_in (access pid kind address byte ∷ cs) =
    if kind == b'r' then writes_in cs else suc (writes_in cs)

-- The counters after so many commands of each kind.
pub record Counted (starts reads writes : ℕ) (s : Stats) : Type 0 where
  pub reads_counted : s.reads ≡ reads
  pub writes_counted : s.writes ≡ writes
  pub all_counted : s.accesses ≡ reads + writes
  pub faults : s.page_faults ≤ reads + writes
  pub writebacks : s.writebacks ≤ starts + s.page_faults

module _ {a b c : ℕ} {s : Stats} (h : Counted a b c s) (few : suc (a + b + c) < u64_mod) where
  Counted-Frees : (t : Stats) → Frees s t → Counted (suc a) b c t
  unfolding inc64
  Counted-Frees t (kept e) = rw e (ground (arith, h))
  Counted-Frees t (wrote e) = rw e (ground (arith, h))

  read-Counted :
      (t u : Stats)
      → Loads s t
      → u ≡ record t { accesses = inc64 t.accesses; reads = inc64 t.reads }
      → Counted a (suc b) c u
  unfolding inc64
  read-Counted t u (present e) same = rw (same, e) (ground (arith, h))
  read-Counted t u (loaded r (kept e) e') same = rw (same, e', e) (ground (arith, h))
  read-Counted t u (loaded r (wrote e) e') same = rw (same, e', e) (ground (arith, h))

  write-Counted :
      (t u : Stats)
      → Loads s t
      → u ≡ record t { accesses = inc64 t.accesses; writes = inc64 t.writes }
      → Counted a b (suc c) u
  unfolding inc64
  write-Counted t u (present e) same = rw (same, e) (ground (arith, h))
  write-Counted t u (loaded r (kept e) e') same = rw (same, e', e) (ground (arith, h))
  write-Counted t u (loaded r (wrote e) e') same = rw (same, e', e) (ground (arith, h))

store-stats : (pa byte : ℕ) (v t : Vm) → store pa byte v ≡ some t → t.stats ≡ v.stats
unfolding store
store-stats pa byte v t h =
    let (f, _, h') = >>=-eq-some (frame_at (pa / page_size) v) _ h in
    let (b, _, h'') = >>=-eq-some (frame_bytes f) _ h' in ground arith

Counted-eq :
    {a b c a' b' c' : ℕ} {s : Stats}
    → Counted a b c s
    → a' ≡ a
    → b' ≡ b
    → c' ≡ c
    → Counted a' b' c' s
Counted-eq h ea eb ec = rw (ea, eb, ec) h

switch_to-stats : (pid : ℕ) (v : Vm) → (switch_to pid v).stats ≡ v.stats
unfolding switch_to context_switch
switch_to-stats pid v = ground arith

module _ {a b c : ℕ} (v : Vm) (h : Counted a b c v.stats) (few : suc (a + b + c) < u64_mod) where
  -- The access behind the fault.
  served-Counted :
      (pa vpn kind byte r : ℕ) (u t : Vm)
      → Loads v.stats u.stats
      → (if kind == b'r' then read_access pa u else write_access pa vpn byte u) ≡ some (r, t)
      → Counted a (if kind == b'r' then suc b else b) (if kind == b'r' then c else suc c) t.stats
  unfolding read_access write_access
  served-Counted pa vpn kind byte r u t loads e = elim (Bool-cases (kind == b'r')) [
    | inl reads ↦
        let (x, _, h₁) = >>=-eq-some (load pa u) _ (if_then _ reads e) in
        rw reads (read-Counted h few u.stats t.stats loads (ground arith))
    | inr writes ↦
        let (v₃, stored, h₁) = >>=-eq-some (store pa byte u) _ (if_else _ writes e) in
        let (e₂, _, h₂) = >>=-eq-some (read_pte v₃ v₃.ptbr vpn) _ h₁ in
        let (v₄, written, h₃) =
          >>=-eq-some (write_pte v₃.ptbr vpn (record e₂ { dirty = 1 }) v₃) _ h₂ in
        let same =
          write_pte-stats v₃.ptbr vpn (record e₂ { dirty = 1 }) v₃ v₄ written
          ∙ store-stats pa byte u v₃ stored in
        rw writes (write-Counted h few u.stats t.stats loads (ground (arith, same)))
  ]

  mem_access-Counted :
      (address kind byte r : ℕ) (t : Vm)
      → mem_access address kind byte v ≡ some (r, t)
      → Counted a (if kind == b'r' then suc b else b) (if kind == b'r' then c else suc c) t.stats
  unfolding mem_access
  mem_access-Counted address kind byte r t e =
      let vpn = vaddr_vpn address in
      let (e₀, read, h₁) = >>=-eq-some (read_pte v v.ptbr vpn) _ e in
      let (v₁, faulted, h₂) =
        >>=-eq-some (if e₀.valid == 0 then page_fault address v else some v) _ h₁ in
      let (e₁, read₁, h₃) = >>=-eq-some (read_pte v₁ v₁.ptbr vpn) _ h₂ in
      let f = v₁.frame_table e₁.pfn in
      let loads : Loads v.stats v₁.stats = elim (Bool-cases (e₀.valid == 0)) [
        | inl fault ↦ page_fault-Loads address v v₁ (if_then _ fault faulted)
        | inr there ↦
            present (ap (λ (x : Vm). x.stats) (sym (some-eq-some (if_else _ there faulted))))
      ] in
      served-Counted (physical_address e₁.pfn (vaddr_offset address)) vpn kind byte r
        (set_fte e₁.pfn (record f { referenced = 1 }) v₁) t loads h₃

module _ {a b c : ℕ} (v : Vm) (h : Counted a b c v.stats) (few : suc (a + b + c) < u64_mod) where
  run_command-Counted :
      (cmd : Command) (o : Option ℕ) (t : Vm)
      → run_command cmd v ≡ some (o, t)
      → Counted
          (starts_in (cmd ∷ []) + a)
          (reads_in (cmd ∷ []) + b)
          (writes_in (cmd ∷ []) + c)
          t.stats
  unfolding run_command start_process stop_process
  run_command-Counted (start pid) o t e = elim (Bool-cases (ltb pid max_pid)) [
    | inr out ↦ cc (if_else _ out e)
    | inl known ↦
        let (u, started, h₁) = >>=-eq-some (start_process pid v) _ (if_then _ known e) in
        let pcb = v.procs pid in
        let frees =
          proc_init-Frees pid (set_pcb pid (record pcb { pid = pid; state = proc_running }) v) u
            started in
        Counted-eq (Counted-Frees h few t.stats (Frees-same frees (ground arith))) (omega arith)
          (omega arith) (omega arith)
  ]
  run_command-Counted (stop pid) o t e = elim (Bool-cases (ltb pid max_pid)) [
    | inr out ↦ cc (if_else _ out e)
    | inl known ↦
        let (u, stopped, h₁) = >>=-eq-some (stop_process pid v) _ (if_then _ known e) in
        let (w, cleaned, h₂) = >>=-eq-some (proc_cleanup pid v) _ stopped in
        let same = proc_cleanup-stats pid v w cleaned in
        let same' : t.stats ≡ v.stats = ground (arith, same) in
        let k : Counted a b c t.stats = rw same' h in
        Counted-eq k (omega arith) (omega arith) (omega arith)
  ]
  run_command-Counted (access pid kind address byte) o t e = elim (Bool-cases (ltb pid max_pid)) [
    | inr out ↦ cc (if_else _ out e)
    | inl known ↦
        let ((r, u), accessed, h₁) =
          >>=-eq-some (mem_access address kind byte (switch_to pid v)) _ (if_then _ known e) in
        let v₀ = switch_to pid v in
        let h₀ : Counted a b c v₀.stats = rw (switch_to-stats pid v) h in
        let k = mem_access-Counted v₀ h₀ few address kind byte r u accessed in
        let k' : Counted a (if kind == b'r' then suc b else b) (if kind == b'r' then c else suc c)
            t.stats =
          rw (sym (ap (λ ((x, y) : Option ℕ × Vm). y.stats) (some-eq-some h₁))) k in
        Counted-eq k' (omega arith) (ground arith) (ground arith)
  ]

one_command :
    (cmd : Command) → starts_in (cmd ∷ []) + reads_in (cmd ∷ []) + writes_in (cmd ∷ []) ≤ 1
one_command (start pid) = omega arith
one_command (stop pid) = omega arith
one_command (access pid kind address byte) = ground arith

commands_cons :
    (cmd : Command) (cs : List Command)
    → (starts_in (cmd ∷ cs) ≡ starts_in cs + starts_in (cmd ∷ []))
      × (reads_in (cmd ∷ cs) ≡ reads_in cs + reads_in (cmd ∷ []))
      × (writes_in (cmd ∷ cs) ≡ writes_in cs + writes_in (cmd ∷ []))
commands_cons (start pid) cs = (omega arith, omega arith, omega arith)
commands_cons (stop pid) cs = (omega arith, omega arith, omega arith)
commands_cons (access pid kind address byte) cs = (omega arith, ground arith, ground arith)

audit_same : (check_corruption : Bool) (v u : Vm) → audit check_corruption 1 v ≡ some u → u ≡ v
audit_same true v u e = audit-same v u e
audit_same false v u e = sym (some-eq-some (unfold audit in e))

pub run_audited-Counted :
    (check_corruption : Bool) (cs : List Command) {a b c : ℕ} (v t : Vm)
    → Counted a b c v.stats
    → a + b + c + length cs < u64_mod
    → run_audited check_corruption cs v ≡ some t
    → Counted (starts_in cs + a) (reads_in cs + b) (writes_in cs + c) t.stats
unfolding run_audited
run_audited-Counted check_corruption [] {a} {b} {c} v t h few e =
    Counted-eq (subst (λ (x : Vm). Counted a b c x.stats) (some-eq-some e) h) (omega arith)
      (omega arith) (omega arith)
run_audited-Counted check_corruption (cmd ∷ cs) {a} {b} {c} v t h few e =
    let ((o, v₁), ran, rest) =
      bind-some (run_command cmd v)
        (λ (o, v₁). audit check_corruption 1 v₁ >>= run_audited check_corruption cs) t e in
    let (v₂, passed, rest') =
      bind-some (audit check_corruption 1 v₁) (run_audited check_corruption cs) t rest in
    let k = run_command-Counted v h (omega (arith, few)) cmd o v₁ ran in
    let same = audit_same check_corruption v₁ v₂ passed in
    let k' =
      subst
        (λ (x : Vm).
          Counted (starts_in (cmd ∷ []) + a) (reads_in (cmd ∷ []) + b) (writes_in (cmd ∷ []) + c)
            x.stats)
        (sym same) k in
    let (es, er, ew) = commands_cons cmd cs in
    Counted-eq
      (run_audited-Counted check_corruption cs v₂ t k' (omega (arith, few, one_command cmd)) rest')
      (omega (arith, es)) (omega (arith, er)) (omega (arith, ew))
