-- ===== src/Vm/Address.antt =====
-- The split of a virtual address and the physical address that is put together
-- (page_splitting.h, and `mem_access` of paging.c, in Virtual_Memory/student-src).
use ece.Prelude.{ℕ, ◌+◌, ◌*◌, ◌/◌, ◌%◌, ◌^◌, ◌<◌, ◌≡◌, bit_or-eq-add}
use native.Mathlib.Omega.{arith}
use ece.Vm.Types.{page_size, num_frames, num_pages}
use ece.Vm.Paging.{vaddr_vpn, vaddr_offset, physical_address}

physical_address-add :
    (pfn offset : ℕ) → offset < page_size → physical_address pfn offset ≡ pfn * page_size + offset
unfolding physical_address
physical_address-add pfn offset h = bit_or-eq-add 14 pfn offset h

-- For a frame of memory, the physical address lies in this frame, at the offset of the virtual
-- address, and within memory.
pub physical_address_fields :
    (pfn address : ℕ)
    → pfn < num_frames
    → (physical_address pfn (vaddr_offset address) / page_size ≡ pfn)
      × (physical_address pfn (vaddr_offset address) % page_size ≡ address % page_size)
      × (physical_address pfn (vaddr_offset address) < num_frames * page_size)
unfolding vaddr_offset
physical_address_fields pfn address h =
    let offset = address % page_size % 0x1_0000 in
    let e = physical_address-add pfn offset (omega arith) in
    (omega (arith, e), omega (arith, e), omega (arith, e))

-- A virtual address of 24 bits is its page number and its offset, and the page number lies in the
-- page table.
pub vaddr_vpn-vaddr_offset :
    (address : ℕ)
    → address < 2 ^ 24
    → (vaddr_vpn address * page_size + vaddr_offset address ≡ address)
      × (vaddr_vpn address < num_pages)
unfolding vaddr_vpn vaddr_offset
vaddr_vpn-vaddr_offset address h = omega arith
