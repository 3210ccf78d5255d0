-- ===== src/Vm/Flat/Mapping.antt =====
-- A page that leaves its frame and a page that enters one (`free_frame`, `page_fault` and
-- `proc_cleanup` in Virtual_Memory/student-src).
use ece.Prelude.{
  ℕ, ◌<◌, ◌≡◌, ◌≢◌, ◌⊎◌, inl, inr, refl, sym, ap, ◌∙◌, ◌==◌, arith, update, some, Bool-cases, true,
  subst,
}
use ece.Vm.Types.{num_frames, Pte, Fte}
use ece.Vm.Flat.Tables.{put_entry, put_entry_ne, put_entry_eq, same_page}
use ece.Vm.Flat.Pages.{Holds, Holds-remark, Holds-apart, SameMarks-update, Owner, Pages}

abbrev pub unmap_fte : Fte → Fte
unmap_fte e = record e { mapped = 0 }

abbrev pub map_fte : ℕ → ℕ → Fte → Fte
map_fte p n e = record e { mapped = 1; protected = 0; vpn = n; process = some p }

pub Holds-entry :
    {ft : ℕ → Fte} {p n : ℕ} {e e' : Pte} → e ≡ e' → Holds ft p n e'.pfn → Holds ft p n e.pfn
Holds-entry {ft} {p} {n} same h = subst (λ (e : Pte). Holds ft p n e.pfn) (sym same) h

valid_of : {e e' : Pte} → e ≡ e' → e.valid ≢ 0 → e'.valid ≢ 0
valid_of same v z = v (ap (λ (e : Pte). e.valid) same ∙ z)

Owner-kept :
    {live live' : ℕ → ℕ → Type 0} {entries entries' : ℕ → ℕ → Pte} {f : ℕ}
    (o : Owner live entries f)
    → live' o.process o.vpn
    → entries' o.process o.vpn ≡ entries o.process o.vpn
    → Owner live' entries' f
Owner-kept o lives same = record {
  process = o.process;
  vpn = o.vpn;
  lives = lives;
  valid = valid_of (sym same) o.valid;
  points = ap (λ (x : Pte). x.pfn) same ∙ o.points;
}

module _ {live : ℕ → ℕ → Type 0} {entries : ℕ → ℕ → Pte} {ft : ℕ → Fte}
    (h : Pages live entries ft) where
  -- Pages may be added and left out, and their entries changed, as long as they are not valid.
  pub Pages-relive :
      (live' : ℕ → ℕ → Type 0) (entries' : ℕ → ℕ → Pte)
      → ((p n : ℕ) → live' p n → (entries' p n).valid ≢ 0 → live p n × (entries' p n ≡ entries p n))
      → ((p n : ℕ) → live p n → (entries p n).valid ≢ 0 → live' p n × (entries' p n ≡ entries p n))
      → Pages live' entries' ft
  Pages-relive live' entries' back forth = record {
    once = h.once;
    held = λ p n l v.
        let (l', same) = back p n l v in Holds-entry same (h.held p n l' (valid_of same v));
    owned = λ f lo prot used.
        let o = h.owned f lo prot used in
        let (l', same) = forth o.process o.vpn o.lives o.valid in Owner-kept o l' same;
  }

  -- Page `n` of `p` leaves its frame `f`.
  pub Pages-leave :
      (live' : ℕ → ℕ → Type 0) (p n f : ℕ) (e : Pte)
      → live p n
      → (entries p n).valid ≢ 0
      → (entries p n).pfn ≡ f
      → ((q k : ℕ)
          → live' q k
          → (put_entry entries p n e q k).valid ≢ 0
          → live q k × ((q ≢ p) ⊎ (k ≢ n)))
      → ((q k : ℕ) → live q k → (q ≢ p) ⊎ (k ≢ n) → live' q k)
      → Pages live' (put_entry entries p n e) (update ft f (unmap_fte (ft f)))
  Pages-leave live' p n f e lives valid points back forth =
      let here = subst (λ (x : ℕ). Holds ft p n x) points (h.held p n lives valid) in
      record {
        once = λ g. ground (arith, h.once g);
        held = λ q k l v.
            let (l', apart) = back q k l v in
            let same = put_entry_ne entries p n e q k apart in
            let there = h.held q k l' (valid_of same v) in
            Holds-entry same (
              Holds-remark
                (SameMarks-update ft f (unmap_fte (ft f)) (entries q k).pfn
                  (Holds-apart here there apart))
                there);
        owned = λ g lo prot used. elim (Bool-cases (g == f)) [
          | inl same ↦ absurd (rw same at used refl)
          | inr other ↦
              let o = h.owned g lo (rw other at prot) (rw other at used) in
              elim (same_page p n o.process o.vpn) [
                | inl (is_p, is_n) ↦
                    let at_f : (entries o.process o.vpn).pfn ≡ f = rw (is_p, is_n) points in
                    absurd (ground (arith, o.points))
                | inr apart ↦
                    Owner-kept o (forth o.process o.vpn o.lives apart)
                      (put_entry_ne entries p n e o.process o.vpn apart)
              ]
        ];
      }

  -- Page `n` of `p` enters the free frame `f`.
  pub Pages-enter :
      (p n f : ℕ) (e : Pte)
      → live p n
      → (entries p n).valid ≡ 0
      → f < num_frames
      → (ft f).mapped ≡ 0
      → e.valid ≡ 1
      → e.pfn ≡ f
      → Pages live (put_entry entries p n e) (update ft f (map_fte p n (ft f)))
  Pages-enter p n f e lives invalid lo free valid points =
      let here : (f == f) ≡ true = ground arith in
      let new : Holds (update ft f (map_fte p n (ft f))) p n f = record {
        in_memory = lo;
        unprotected = rw here refl;
        mapped = λ z. ground arith;
        process = rw here refl;
        vpn = rw here refl;
      } in
      record {
        once = λ g. ground (arith, h.once g);
        held = λ q k l v. elim (same_page p n q k) [
          | inl (is_p, is_n) ↦
              let same : put_entry entries p n e q k ≡ e =
                rw (is_p, is_n) (put_entry_eq entries p n e) in
              let at_f = ap (λ (x : Pte). x.pfn) same ∙ points in
              subst (λ (x : ℕ). Holds (update ft f (map_fte p n (ft f))) q k x) (sym at_f)
                (rw (is_p, is_n) new)
          | inr apart ↦
              let same = put_entry_ne entries p n e q k apart in
              let there = h.held q k l (valid_of same v) in
              let ne : (entries q k).pfn ≢ f =
                λ z. there.mapped (ap (λ (x : ℕ). (ft x).mapped) z ∙ free) in
              Holds-entry same (
                Holds-remark (SameMarks-update ft f (map_fte p n (ft f)) (entries q k).pfn ne)
                  there)
        ];
        owned = λ g lo' prot used. elim (Bool-cases (g == f)) [
          | inl same ↦
              let is_e = put_entry_eq entries p n e in
              record {
                process = p;
                vpn = n;
                lives = lives;
                valid = valid_of (sym is_e) (λ z. ground arith);
                points = ap (λ (x : Pte). x.pfn) is_e ∙ ground arith;
              }
          | inr other ↦
              let o = h.owned g lo' (rw other at prot) (rw other at used) in
              elim (same_page p n o.process o.vpn) [
                | inl (is_p, is_n) ↦
                    let bad : (entries o.process o.vpn).valid ≡ 0 = rw (is_p, is_n) invalid in
                    absurd (o.valid bad)
                | inr apart ↦
                    Owner-kept o o.lives (put_entry_ne entries p n e o.process o.vpn apart)
              ]
        ];
      }
