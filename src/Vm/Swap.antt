-- ===== src/Vm/Swap.antt =====
-- The swap space: Virtual_Memory/simulator-src/swap.c (a linked list with a tail pointer) and
-- swapops.c. Walks run on fuel; the list has `size` entries.
use ece.Prelude.{
  ℕ, zero, suc, ◌+◌, ◌-◌, ◌%◌, Bool, true, false, Option, none, some, ltb, ◌==◌, if◌then◌else◌,
  ◌>>=◌, update, u64_mod, inc64,
}
use ece.Vm.Types.{Pte, SwapQueue}

-- `calloc` gives a zeroed entry; running out of memory is not modelled.
unfoldable pub create_entry : SwapQueue → ℕ × SwapQueue
create_entry q = (
  q.fresh,
  record q {
    heap =
        update q.heap q.fresh
          (some (record { token = q.next_token; page_data = λ i. 0; next = none }));
    fresh = suc q.fresh;
    next_token = inc64 q.next_token;
  },
)

-- `p->next = target`.
unfoldable pub set_next : ℕ → Option ℕ → SwapQueue → Option SwapQueue
set_next p target q = do
  info ← q.heap p
  some (record q { heap = update q.heap p (some (record info { next = target })) })

unfoldable pub count_entry : SwapQueue → SwapQueue
count_entry q =
    let size = inc64 q.size in
    record q { size = size; size_max = if ltb q.size_max size then size else q.size_max }

-- `swap_queue_enqueue` behind the read of `head`.
unfoldable pub link : Option ℕ → ℕ → SwapQueue → Option SwapQueue
link none info q = some (record q { head = some info; tail = some info })
link (some h) info q = do
  tail ← q.tail
  q' ← set_next tail (some info) q
  some (record q' { tail = some info })

unfoldable pub swap_queue_enqueue : SwapQueue → ℕ → Option SwapQueue
swap_queue_enqueue q info = do
  q' ← set_next info none q
  q'' ← link q'.head info q'
  some (count_entry q'')

-- The walk of `swap_queue_find`: the entry, or NULL.
unfoldable pub find_from : ℕ → SwapQueue → ℕ → Option ℕ → Option (Option ℕ)
find_from zero q token curr = none
find_from (suc fuel) q token none = some none
find_from (suc fuel) q token (some curr) = do
  info ← q.heap curr
  let rest = find_from fuel q token info.next
  (if info.token == token then some (some curr) else rest)

unfoldable pub swap_queue_find : SwapQueue → ℕ → Option (Option ℕ)
swap_queue_find q token = find_from (suc q.size) q token q.head

-- `if (prev) prev->next = next; else queue->head = next;`
unfoldable pub bypass : Option ℕ → Option ℕ → SwapQueue → Option SwapQueue
bypass none next q = some (record q { head = next })
bypass (some prev) next q = set_next prev next q

abbrev pub points_to : Option ℕ → ℕ → Bool
points_to none curr = false
points_to (some t) curr = curr == t

-- The walk of `swap_queue_dequeue`. Where no entry has the token, a NULL pointer is dereferenced.
unfoldable pub dequeue_from : ℕ → ℕ → Option ℕ → Option ℕ → SwapQueue → Option SwapQueue
dequeue_from zero token prev curr q = none
dequeue_from (suc fuel) token prev none q = none
dequeue_from (suc fuel) token prev (some curr) q = do
  info ← q.heap curr
  elim (info.token == token) [
    | true ↦ do
      q' ← bypass prev info.next q
      some (record q' {
        tail = if points_to q'.tail curr then prev else q'.tail;
        size = (q'.size + (u64_mod - 1)) % u64_mod;
        heap = update q'.heap curr none;
      })
    | false ↦ dequeue_from fuel token (some curr) info.next q
  ]

unfoldable pub swap_queue_dequeue : SwapQueue → ℕ → Option SwapQueue
swap_queue_dequeue q token = dequeue_from (suc q.size) token none q.head q

-- `swap_read`: the page that was written out. An entry that is not there is a panic.
unfoldable pub swap_read : SwapQueue → Pte → Option (ℕ → ℕ)
swap_read q pte = do
  found ← swap_queue_find q pte.swap
  p ← found
  info ← q.heap p
  some info.page_data

-- `memcpy(info->page_data, src, PAGE_SIZE)`.
unfoldable pub store_page : ℕ → (ℕ → ℕ) → SwapQueue → Option SwapQueue
store_page p src q = do
  info ← q.heap p
  some (record q { heap = update q.heap p (some (record info { page_data = src })) })

-- `swap_write` behind the search.
unfoldable pub write_entry : Option ℕ → Pte → (ℕ → ℕ) → SwapQueue → Option (Pte × SwapQueue)
write_entry (some p) pte src q = do q' ← store_page p src q; some (pte, q')
write_entry none pte src q = do
  let (p, q₁) = create_entry q
  q₂ ← swap_queue_enqueue q₁ p
  info ← q₂.heap p
  q₃ ← store_page p src q₂
  some (record pte { swap = info.token }, q₃)

unfoldable pub swap_write : SwapQueue → Pte → (ℕ → ℕ) → Option (Pte × SwapQueue)
swap_write q pte src = do found ← swap_queue_find q pte.swap; write_entry found pte src q

unfoldable pub swap_free : SwapQueue → Pte → Option (Pte × SwapQueue)
swap_free q pte = do
  found ← swap_queue_find q pte.swap
  p ← found
  q' ← swap_queue_dequeue q pte.swap
  some (record pte { swap = 0 }, q')
