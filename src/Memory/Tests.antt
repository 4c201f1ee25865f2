-- ===== src/Memory/Tests.antt =====
-- Runs of the allocator of arcfw/ported/blmemory.c, and its theorems at concrete maps.
use arcpi.Base.{
  ◌+◌, ◌≤◌, ◌<◌, ◌≡◌, ◌↔◌, refl, some, List, [], ◌∷◌, arith, get_elem?, esuccess, word,
}
use arcpi.Memory.{
  firmware_permanent, loaded_program, free, registry_data, Descriptor, descriptor, Loader, null,
  first_free, allocate_heap, allocate_heap_aligned, generate_descriptor, allocate_descriptor,
  descriptor_at, find_memory_descriptor, choose, exact, nothing, trim_descriptor, split_descriptor,
  refill_heap,
}
use arcpi.Memory.Cover.{AllBounded}
use arcpi.Memory.Heap.{Allotted, Aligned, allocate_heap-Allotted, allocate_heap_aligned-Aligned}
use arcpi.Memory.Refill.{NoneRoomy}
use arcpi.Memory.Grow.{Grown, allocate_heap-Grown, allocate_heap-null_iff}
use arcpi.Memory.Generate.{Carved, generate_descriptor-Carved}
use arcpi.Memory.Allocate.{Outcome, allocate_descriptor-Outcome}
use arcpi.Memory.Shrunk.{generate_descriptor_wraps}
use arcpi.Memory.Find.{Located, find_memory_descriptor-Located}

abbrev ram : Descriptor
ram = descriptor free 0x100 0x1000

abbrev board : List Descriptor
board = descriptor firmware_permanent 0 0x10 ∷ descriptor loaded_program 0x10 0xF0 ∷ ram ∷ []

-- 64 KiB of heap, of which 56 KiB are free.
abbrev roomy : Loader
roomy = record { heap_free = 0x2002000; heap_limit = 0x200FFEC; descriptors = board }

-- The same heap with 16 bytes left.
abbrev tight : Loader
tight = record { heap_free = 0x200FFD8; heap_limit = 0x200FFEC; descriptors = board }

board-AllBounded : AllBounded board
board-AllBounded = (
  record { fits = omega arith; above = λ h. cc },
  (
    record { fits = omega arith; above = λ h. cc },
    (record { fits = omega arith; above = λ h. omega arith }, tt),
  ),
)

best_fit : (allocate_descriptor registry_data 0x1800 4 roomy).1 ≡ some 0x100
unfolding allocate_descriptor choose generate_descriptor trim_descriptor allocate_heap
best_fit = refl

asked_for : (allocate_descriptor registry_data 0x200 4 roomy).1 ≡ some 0x200
unfolding allocate_descriptor choose generate_descriptor trim_descriptor split_descriptor
    allocate_heap
asked_for = refl

-- The pages from 0x101 on, as many as there are numbers of pages, less one: their end wraps to 0x100,
-- and the RAM is taken to hold them.
wrapped_region : choose 0x101 0xFFFFFFFF 0 nothing board ≡ exact 2
unfolding choose
wrapped_region = refl

refill_takes_the_end : (allocate_heap 100 tight).0 ≡ 0x10F0000
unfolding allocate_heap refill_heap first_free
refill_takes_the_end = refl

allocate_heap-Allotted_example :
    let (block, m') = allocate_heap 100 roomy in Allotted 100 roomy block m'
allocate_heap-Allotted_example =
    allocate_heap-Allotted {m = roomy} 100 (omega arith) (omega arith) (omega arith)

allocate_heap_aligned-Aligned_example :
    let (buffer, m') = allocate_heap_aligned 32 100 roomy in Aligned 32 100 roomy buffer m'
allocate_heap_aligned-Aligned_example =
    allocate_heap_aligned-Aligned {m = roomy} 32 100 (omega arith) (omega arith) (omega arith)
      (omega arith)

allocate_heap-Grown_example :
    (d : Descriptor) × (get_elem? board 2 ≡ some d)
    × (let (block, m') = allocate_heap 100 tight in Grown 100 d tight block m')
unfolding first_free
allocate_heap-Grown_example =
    allocate_heap-Grown {m = tight} 100 {i = 2} (omega arith) board-AllBounded refl

allocate_heap-null_iff_example :
    ((allocate_heap 0x2000000 tight).0 ≡ null)
    ↔ ((0x200FFEC < 0x200FFD8 + 0x2000000) × NoneRoomy 0x2001 board)
allocate_heap-null_iff_example =
    allocate_heap-null_iff {m = tight} 0x2000000 (omega arith) board-AllBounded (omega arith)

generate_descriptor-Carved_example :
    let (s, m') = generate_descriptor 2 registry_data 0x200 4 roomy in
    (s ≡ esuccess) × Carved registry_data 0x200 4 roomy m'
generate_descriptor-Carved_example =
    generate_descriptor-Carved {m = roomy} 2 registry_data 0x200 4 {d = ram} board-AllBounded
      (omega arith) refl
      (record {
        is_free = refl;
        above = omega arith;
        from = omega arith;
        to = omega arith;
        fits = omega arith;
      })
      (omega arith)

allocate_descriptor-Outcome_example :
    Outcome registry_data 0x1800 4 roomy (allocate_descriptor registry_data 0x1800 4 roomy)
allocate_descriptor-Outcome_example =
    allocate_descriptor-Outcome {m = roomy} registry_data 0x1800 4 board-AllBounded (omega arith)
      (omega arith) (omega arith) (omega arith)

generate_descriptor_wraps_example :
    let (s, m') = generate_descriptor 2 registry_data 0x100 0xFF8 tight in
    (s ≡ esuccess) × (word ≤ (descriptor_at 2 m').count + 16)
unfolding first_free
generate_descriptor_wraps_example =
    generate_descriptor_wraps {m = tight} 2 registry_data 0xFF8 {d = ram} (omega arith)
      board-AllBounded refl refl (omega arith) (omega arith) (omega arith)

find_memory_descriptor-Located_example :
    Located 0x234 0 board (find_memory_descriptor 0x234 0 board)
find_memory_descriptor-Located_example = find_memory_descriptor-Located 0x234 board board-AllBounded
