-- ===== src/Vm/Flat/Paged.antt =====
-- A machine of Virtual_Memory whose page tables, frames and swap space hold a memory of pages.
use ece.Prelude.{
  ℕ, suc, Option, ◌>>=◌, inc64, ◌+◌, ◌<◌, ◌≤◌, ◌≡◌, ◌≢◌, ◌⊎◌, inl, inr, refl, sym, ◌∙◌, ◌==◌, ltb,
  arith, update, some, none, List, Bool-cases, false, true, if◌then◌else◌, u64_mod, Returns,
}
use ece.Vm.Types.{num_pages, num_frames, random, Pte, Fte, page, page_table, SwapQueue, Stats, Vm}
use ece.Vm.Swap.{swap_write}
use ece.Vm.Paging.{
  frame_at, read_pte, read_table, write_pte, write_table, frame_bytes, write_back, load_page,
}
use ece.Vm.SwapSpace.Queue.{IsQueue}
use ece.Vm.SwapSpace.Look.{page_of}
use ece.Vm.SwapSpace.Save.{Saved, swap_write-Saved}
use ece.Vm.Flat.Tables.{Tables, Tables-remark}
use ece.Vm.Flat.Pages.{Pages, SameMarks, Pages-remark}
use ece.Vm.Flat.Covered.{Covers}
use ece.Vm.Flat.Contents.{Memory, Contents, IsStored, load_page-page_of}

-- The machine has a page table for each process of `runs`, and holds the pages of `live` as `m` has
-- them. The swap space has room for `room` more pages.
pub record Paged (runs : ℕ → Type 0) (table_at : ℕ → ℕ) (live : ℕ → ℕ → Type 0) (m : Memory)
    (room : ℕ) (entries : ℕ → ℕ → Pte) (v : Vm) : Type 0 where
  pub tables : Tables runs table_at entries v.mem v.frame_table
  pub pages : Pages live entries v.frame_table
  pub contents : Contents live entries v.mem v.swap_queue m
  pub covered : Covers live entries v.swap_queue
  pub addresses : List ℕ
  pub queue : IsQueue v.swap_queue addresses
  pub lives : (p n : ℕ) → live p n → runs p × (n < num_pages)
  pub strategy : v.replacement ≡ random
  pub few : v.swap_queue.size + room < u64_mod
  pub tokens : v.swap_queue.next_token + room < u64_mod

module _ {runs : ℕ → Type 0} {table_at : ℕ → ℕ} {live : ℕ → ℕ → Type 0} {m : Memory} {room : ℕ}
    {entries : ℕ → ℕ → Pte} {v : Vm} (h : Paged runs table_at live m room entries v) where
  -- Nothing else of the machine matters.
  pub Paged-same :
      (t : Vm)
      → t.mem ≡ v.mem
      → t.frame_table ≡ v.frame_table
      → t.swap_queue ≡ v.swap_queue
      → t.replacement ≡ v.replacement
      → Paged runs table_at live m room entries t
  Paged-same t mem ft queue strategy = record {
    tables = rw (mem, ft) h.tables;
    pages = rw ft h.pages;
    contents = rw (mem, queue) h.contents;
    covered = rw queue h.covered;
    addresses = h.addresses;
    queue = rw queue h.queue;
    lives = h.lives;
    strategy = strategy ∙ h.strategy;
    few = rw queue h.few;
    tokens = rw queue h.tokens;
  }

  pub Paged-remark :
      (ft : ℕ → Fte)
      → ((f : ℕ) → SameMarks (v.frame_table f) (ft f))
      → Paged runs table_at live m room entries (record v { frame_table = ft })
  Paged-remark ft same = record {
    tables = Tables-remark runs table_at h.tables ft (λ f. (same f).protected);
    pages = Pages-remark h.pages ft same;
    contents = h.contents;
    covered = h.covered;
    addresses = h.addresses;
    queue = h.queue;
    lives = h.lives;
    strategy = h.strategy;
    few = h.few;
    tokens = h.tokens;
  }

  pub Paged-room : (less : ℕ) → less ≤ room → Paged runs table_at live m less entries v
  Paged-room less le = record {
    tables = h.tables;
    pages = h.pages;
    contents = h.contents;
    covered = h.covered;
    addresses = h.addresses;
    queue = h.queue;
    lives = h.lives;
    strategy = h.strategy;
    few = omega (arith, h.few);
    tokens = omega (arith, h.tokens);
  }

-- Setting the reference bit of a frame changes no mark.
pub referenced-SameMarks :
    (ft : ℕ → Fte) (f bit g : ℕ)
    → SameMarks (ft g) (update ft f (let e = ft f in record e { referenced = bit }) g)
referenced-SameMarks ft f bit g = elim (Bool-cases (g == f)) [
  | inl same ↦
      let eq : g ≡ f = ground arith in
      rw (same, eq) (record { protected = refl; mapped = refl; process = refl; vpn = refl })
  | inr other ↦ rw other (record { protected = refl; mapped = refl; process = refl; vpn = refl })
]

pub read_pte-some :
    (v : Vm) (t n : ℕ) (es : ℕ → Pte)
    → t < num_frames
    → v.mem t ≡ page_table es
    → n < num_pages
    → read_pte v t n ≡ some (es n)
unfolding read_pte read_table frame_at
read_pte-some v t n es in_memory holds lo =
    let below : ltb n num_pages ≡ true = ground arith in
    let below' : ltb t num_frames ≡ true = ground arith in rw (below', holds, below) refl

pub write_pte-some :
    (v : Vm) (t n : ℕ) (e : Pte) (es : ℕ → Pte)
    → t < num_frames
    → v.mem t ≡ page_table es
    → n < num_pages
    → write_pte t n e v ≡ some (record v { mem = update v.mem t (page_table (update es n e)) })
unfolding write_pte write_table frame_at
write_pte-some v t n e es in_memory holds lo =
    let below : ltb n num_pages ≡ true = ground arith in
    let below' : ltb t num_frames ≡ true = ground arith in rw (below', holds, below) refl

-- The entry and the machine before an eviction clears the valid bit: the page is in the swap space,
-- under a token of its own.
pub record Cleaned (bytes : ℕ → ℕ) (e : Pte) (v : Vm) (r : Pte × Vm) : Type 0 where
  pub same : r.1 ≡ record v { swap_queue = r.1.swap_queue; stats = r.1.stats }
  pub clean : (r.0).dirty ≡ 0
  pub addresses : List ℕ
  pub queue : IsQueue (r.1.swap_queue) addresses
  pub backed : load_page (r.0) (r.1.swap_queue) ≡ some bytes
  pub findable : (r.0).swap ≢ 0 → page_of (r.1.swap_queue) (r.0).swap ≢ none
  pub others : (s : ℕ) → s ≢ (r.0).swap → page_of (r.1.swap_queue) s ≡ page_of v.swap_queue s
  pub token :
      ((r.0).swap ≡ e.swap)
      ⊎ ((page_of v.swap_queue (r.0).swap ≡ none) × (page_of v.swap_queue e.swap ≡ none))
  pub size : r.1.swap_queue.size ≤ suc v.swap_queue.size
  pub next_token : r.1.swap_queue.next_token ≤ suc v.swap_queue.next_token

module _ (victim : ℕ) (bytes : ℕ → ℕ) (e : Pte) (v : Vm) {xs : List ℕ}
    (queue : IsQueue v.swap_queue xs) (stored : IsStored v.mem v.swap_queue bytes e) where
  saved :
      (r : Pte × SwapQueue)
      → Saved bytes v.swap_queue e r
      → (st : Stats)
      → Cleaned bytes e v (record (r.0) { dirty = 0 }, record v { swap_queue = r.1; stats = st })
  saved (e', q) h st = record {
    same = refl;
    clean = refl;
    addresses = h.addresses;
    queue = h.queue;
    backed =
        let marked : (e'.swap == 0) ≡ false = ground (arith, h.marked) in
        rw (load_page-page_of (record e' { dirty = 0 }) q, marked) h.saved;
    findable = λ s lost. cc (sym h.saved ∙ lost);
    others = h.others;
    token = h.token;
    size = h.entries;
    next_token = h.tokens;
  }

  pub clean-Cleaned :
      suc v.swap_queue.size < u64_mod
      → suc v.swap_queue.next_token < u64_mod
      → v.mem victim ≡ page bytes
      → Returns (Cleaned bytes e v) (if e.dirty == 1 then write_back victim e v else some (e, v))
  unfolding write_back frame_bytes
  clean-Cleaned few left here = elim (Bool-cases (e.dirty == 1)) [
    | inl dirty ↦
        rw (dirty, here)
          (go (swap_write v.swap_queue e bytes)
            (swap_write-Saved bytes e v.swap_queue queue few left))
    | inr clean ↦
        let zero_flag : e.dirty ≡ 0 = ground (arith, stored.dirty_flag) in
        rw clean (record {
          same = refl;
          clean = zero_flag;
          addresses = xs;
          queue = queue;
          backed = stored.backed (inr zero_flag);
          findable = stored.findable;
          others = λ s ne. refl;
          token = inl refl;
          size = omega arith;
          next_token = omega arith;
        })
  ]
    where
      go :
          (o : Option (Pte × SwapQueue))
          → Returns (Saved bytes v.swap_queue e) o
          → Returns (Cleaned bytes e v) (
              o >>= λ (e', q). some (
                record e' { dirty = 0 },
                record v {
                  swap_queue = q;
                  stats = (let st = v.stats in record st { writebacks = inc64 st.writebacks });
                },
              ))
      go none r = r
      go (some r) h = saved r h _
