-- ===== src/Vm/Frames.antt =====
-- What freeing a frame and a page fault leave alone (page_replacement.c and page_fault.c in
-- Virtual_Memory/student-src).
use ece.Prelude.{
  ℕ, ◌<◌, ◌≡◌, inl, inr, refl, sym, true, ◌∙◌, Option, none, some, ltb, ◌==◌, if◌then◌else◌, ◌>>=◌,
  arith, Bool-cases, some-eq-some,
}
use ece.Vm.Types.{num_frames, Pte, Frame, Vm}
use ece.Vm.Swap.{swap_write}
use ece.Vm.Paging.{
  select_victim_frame, frame_at, read_pte, write_pte, write_table, write_back, frame_bytes, evict,
  free_frame,
}

-- The registers and the process table.
pub record SameCpu (v t : Vm) : Type 0 where
  pub ptbr : t.ptbr ≡ v.ptbr
  pub procs : t.procs ≡ v.procs
  pub current_process : t.current_process ≡ v.current_process
  pub replacement : t.replacement ≡ v.replacement

pub SameCpu-trans : {u v t : Vm} → SameCpu u v → SameCpu v t → SameCpu u t
SameCpu-trans h k = record {
  ptbr = k.ptbr ∙ h.ptbr;
  procs = k.procs ∙ h.procs;
  current_process = k.current_process ∙ h.current_process;
  replacement = k.replacement ∙ h.replacement;
}

-- Of a chain that came to a result, each step did.
pub >>=-eq-some {ℓ κ} :
    {A : Type ℓ} {B : Type κ} (m : Option A) (f : A → Option B) {b : B}
    → (m >>= f) ≡ some b
    → (a : A) × (m ≡ some a) × (f a ≡ some b)
>>=-eq-some none f h = cc
>>=-eq-some (some a) f h = (a, refl, h)

pub frame_at-some : (i : ℕ) (v : Vm) → i < num_frames → frame_at i v ≡ some (v.mem i)
unfolding frame_at
frame_at-some i v lo = let below : ltb i num_frames ≡ true = ground arith in rw below refl

pub frame_at-eq-some :
    (i : ℕ) (v : Vm) (f : Frame) → frame_at i v ≡ some f → (i < num_frames) × (v.mem i ≡ f)
unfolding frame_at
frame_at-eq-some i v f h = elim (Bool-cases (ltb i num_frames)) [
  | inl below ↦ (ground arith, some-eq-some (sym (rw below refl) ∙ h))
  | inr out ↦ let clash : ◌≡◌ {A = Option Frame} none (some f) = sym (rw out refl) ∙ h in cc
]

select_victim_frame-SameCpu : (v t : Vm) (i : ℕ) → select_victim_frame v ≡ some (i, t) → SameCpu v t
unfolding select_victim_frame
select_victim_frame-SameCpu v t i e = ground arith

pub write_pte-SameCpu :
    (frame vpn : ℕ) (e : Pte) (v t : Vm) → write_pte frame vpn e v ≡ some t → SameCpu v t
unfolding write_pte
write_pte-SameCpu frame vpn e v t h =
    let (f, _, h') = >>=-eq-some (frame_at frame v) _ h in
    let (g, _, h'') = >>=-eq-some (write_table f vpn e) _ h' in ground arith

write_back-SameCpu :
    (victim : ℕ) (e e' : Pte) (v t : Vm) → write_back victim e v ≡ some (e', t) → SameCpu v t
unfolding write_back
write_back-SameCpu victim e e' v t h =
    let (src, _, h') = >>=-eq-some (frame_bytes (v.mem victim)) _ h in
    let (r, _, h'') = >>=-eq-some (swap_write v.swap_queue e src) _ h' in ground arith

-- The step between the two accesses to the entry.
clean-SameCpu :
    (victim : ℕ) (e e' : Pte) (v t : Vm)
    → (if e.dirty == 1 then write_back victim e v else some (e, v)) ≡ some (e', t)
    → SameCpu v t
clean-SameCpu victim e e' v t h = elim (Bool-cases (e.dirty == 1)) [
  | inl dirty ↦ write_back-SameCpu victim e e' v t (rw dirty at h)
  | inr clean ↦ ground arith
]

evict-SameCpu : (victim : ℕ) (v t : Vm) → evict victim v ≡ some t → SameCpu v t
unfolding evict
evict-SameCpu victim v t h =
    let (p, _, h₁) = >>=-eq-some (v.frame_table victim).process _ h in
    let (e, _, h₂) =
      >>=-eq-some (read_pte v (v.procs p).saved_ptbr (v.frame_table victim).vpn) _ h₁ in
    let (r, cleaned, h₃) =
      >>=-eq-some (if e.dirty == 1 then write_back victim e v else some (e, v)) _ h₂ in
    let (u, written, h₄) =
      >>=-eq-some
        (write_pte (v.procs p).saved_ptbr (v.frame_table victim).vpn (record (r.0) { valid = 0 })
          r.1)
        _ h₃ in
    let before = clean-SameCpu victim e r.0 v r.1 cleaned in
    let after = write_pte-SameCpu _ _ _ r.1 u written in
    SameCpu-trans before (SameCpu-trans after (ground arith))

-- Where freeing a frame has come to an end, with or without an eviction, the page table base, the
-- processes, the current one and the strategy are as before.
pub free_frame-SameCpu : (v t : Vm) (i : ℕ) → free_frame v ≡ some (i, t) → SameCpu v t
unfolding free_frame
free_frame-SameCpu v t i h =
    let (r, selected, h₁) = >>=-eq-some (select_victim_frame v) _ h in
    let (u, evicted, h₂) =
      >>=-eq-some (if (r.1.frame_table r.0).mapped == 1 then evict r.0 r.1 else some r.1) _ h₁ in
    let before = select_victim_frame-SameCpu v r.1 r.0 selected in
    elim (Bool-cases ((r.1.frame_table r.0).mapped == 1)) [
      | inl used ↦
          SameCpu-trans before
            (SameCpu-trans (evict-SameCpu r.0 r.1 u (rw used at evicted)) (ground arith))
      | inr unused ↦ SameCpu-trans before (ground arith)
    ]
