-- ===== src/Vm/Flat/Spec.antt =====
-- The machine that the paging of Virtual_Memory stands for: each running process has a memory of its
-- own, all zeros at the start, and nothing is ever moved.
use ece.Prelude.{
  ℕ, ◌/◌, ◌%◌, ◌^◌, Bool, false, ◌&&◌, not, Option, none, some, ltb, ◌==◌, if◌then◌else◌, ◌>>=◌,
  update, List, [], ◌∷◌, has, erase, length,
}
use ece.Vm.Types.{page_size, max_pid, Vm}
use ece.Vm.Simulator.{Command, start, stop, access, run_command}
use ece.Vm.Flat.Tables.{put_entry}
use ece.Vm.Flat.Contents.{Memory, zero_page}

pub record Flat : Type 0 where
  pub running : List ℕ
  pub current : Option ℕ
  pub bytes : Memory

-- One frame holds the frame table, and one is left for pages.
abbrev pub max_running : ℕ
max_running = 62

abbrev pub nothing_runs : Flat
nothing_runs = record { running = []; current = none; bytes = λ p n i. 0 }

-- The process made the last access.
abbrev pub is_selected : Option ℕ → ℕ → Bool
is_selected none pid = false
is_selected (some p) pid = p == pid

-- The memory after an access, and the byte that it gives.
abbrev pub after_access : (p n offset kind byte : ℕ) → Memory → Memory
after_access p n offset kind byte m =
    if kind == b'r' then m else put_entry m p n (update (m p n) offset byte)

abbrev pub accessed : (p n offset kind byte : ℕ) → Memory → ℕ
accessed p n offset kind byte m = if kind == b'r' then m p n offset else byte

-- A command that a trace may give in the state: a process starts that does not run and did not make
-- the last access, while fewer than 62 run; a running one stops; a running one accesses an address of
-- 24 bits. No other command has a result.
unfoldable pub flat_command : Command → Flat → Option (Option ℕ × Flat)
flat_command (start pid) s =
    if ltb pid max_pid
      && not (has pid s.running)
      && not (is_selected s.current pid)
      && ltb (length s.running) max_running
    then some
        (none, record s { running = pid ∷ s.running; bytes = update s.bytes pid (λ n. zero_page) })
    else none
flat_command (stop pid) s =
    if has pid s.running then some (none, record s { running = erase pid s.running }) else none
flat_command (access pid kind address byte) s =
    if has pid s.running && ltb address (2 ^ 24)
    then (let n = address / page_size in
        let offset = address % page_size in
        some (
          some (accessed pid n offset kind byte s.bytes),
          record s { current = some pid; bytes = after_access pid n offset kind byte s.bytes },
        ))
    else none

-- What the commands print, one after the other, and the state at the end.
unfoldable pub flat_outputs : List Command → Flat → Option (List (Option ℕ) × Flat)
flat_outputs [] s = some ([], s)
flat_outputs (c ∷ cs) s = do
  (printed, s₁) ← flat_command c s
  (rest, s₂) ← flat_outputs cs s₁
  some (printed ∷ rest, s₂)

-- The same of the simulator.
unfoldable pub outputs : List Command → Vm → Option (List (Option ℕ) × Vm)
outputs [] v = some ([], v)
outputs (c ∷ cs) v = do
  (printed, v₁) ← run_command c v
  (rest, v₂) ← outputs cs v₁
  some (printed ∷ rest, v₂)
