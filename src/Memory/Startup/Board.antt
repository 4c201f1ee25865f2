-- ===== src/Memory/Startup/Board.antt =====
-- `BlMemoryInitialize` of arcfw/ported/blmemory.c on the memory map that `BlArmFixupMemoryMap` of
-- arcfw/arm/memory.c leaves.
use arcpi.Base.{ℕ, ◌+◌, ◌-◌, ◌*◌, ◌≤◌, ◌≡◌, refl, sym, subst, some, arith}
use arcpi.Firmware.{ImageEnd, md_array, end_page, fixup_memory_map, memory_descriptor, free}
use arcpi.Firmware.Walk.{image_end, end_page_lem, map_to, fixup_memory_map-map_to}
use arcpi.Memory.{Loader}
use arcpi.Memory.Startup.{
  initialize_memory, find_program, find_below, find_large, below_or_large, find_heap_memory,
}
use arcpi.Memory.Startup.Built.{Built, initialize_memory-Built}

find_heap_memory-map_to :
    (n : ℕ)
    → 0x40 ≤ n
    → n + 24 ≤ 0x38000
    → find_heap_memory 0x10 (map_to n) ≡ some (2, memory_descriptor free n (0x38000 - n))
unfolding find_heap_memory below_or_large find_below find_large
find_heap_memory-map_to n lo hi = ground (arith, lo, hi)

map_to-Built :
    (block_size n : ℕ) (m : Loader)
    → block_size ≤ 4096
    → 0x40 ≤ n
    → n + 24 ≤ 0x38000
    → let (s, m') = initialize_memory block_size (map_to n) m in Built 0x38000 (map_to n) s m'
unfolding find_program
map_to-Built block_size n m small lo hi =
    let built =
      initialize_memory-Built block_size (map_to n) m small (omega arith) refl
        (find_heap_memory-map_to n lo hi) (omega (arith, hi)) (omega (arith, hi)) in
    let top : n + (0x38000 - n) ≡ 0x38000 = omega (arith, hi) in
    subst
      (λ end. let (s, m') = initialize_memory block_size (map_to n) m in Built end (map_to n) s m')
      top built.1

-- On the map that `BlArmFixupMemoryMap` leaves for an image that ends at least 256 KiB and 24 pages
-- below the RAM top of 896 MiB, and with a loader block of at most 4096 bytes, `BlMemoryInitialize`
-- succeeds, with heap and stack in the last 24 pages of RAM.
pub initialize_memory-fixup_memory_map :
    (e : ImageEnd) (block_size : ℕ) (m : Loader)
    → image_end e + 256 * 1024 + 24 * 4096 ≤ 0x38000000
    → block_size ≤ 4096
    → let ds = fixup_memory_map e md_array in
      let (s, m') = initialize_memory block_size ds m in Built 0x38000 ds s m'
initialize_memory-fixup_memory_map e block_size m room small =
    let (low, high) = end_page_lem e (omega (arith, room)) in
    subst (λ ds. let (s, m') = initialize_memory block_size ds m in Built 0x38000 ds s m')
      (sym (fixup_memory_map-map_to e (omega (arith, room))))
      (map_to-Built block_size (end_page e) m small (omega (arith, high))
        (omega (arith, low, room)))
