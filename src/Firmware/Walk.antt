-- ===== src/Firmware/Walk.antt =====
-- The memory map of arcfw/arm/memory.c after the fix-up, and the walk over it.
use arcpi.Base.{
  ℕ, zero, suc, ◌+◌, ◌-◌, ◌*◌, ◌/◌, refl, ◌≤◌, ◌<◌, ◌≡◌, none, some, List, [], ◌∷◌, arith, word,
}
use arcpi.Firmware.{
  MemoryType, MemoryDescriptor, memory_descriptor, stack_top, staged, firmware_permanent,
  loaded_program, free, md_array, ImageEnd, end_page, fixup_memory_map, get_memory_descriptor,
  visited,
}

-- `n` consecutive indices from `i` on.
unfoldable pub upto : (i n : ℕ) → List ℕ
upto i zero = []
upto i (suc n) = i ∷ upto (suc i) n

visited_from :
    (fuel number i n : ℕ)
    → suc i + n ≡ number
    → number < word
    → n < fuel
    → visited fuel number (some i) ≡ upto (suc i) n
unfolding visited get_memory_descriptor upto
visited_from zero number i n e w h = elim h [ ]
visited_from (suc fuel) number i zero e w h = ground arith
visited_from (suc fuel) number i (suc n) e w h = ground (arith, visited_from fuel number (suc i) n)

-- The loops of the loader over `ArcGetMemoryDescriptor` visit every entry of a non-empty array,
-- each once and in order, and end; fuel above the number of entries is enough.
pub visited-upto :
    (fuel number : ℕ)
    → 0 < number
    → number < word
    → number < fuel
    → visited fuel number none ≡ upto 0 number
unfolding visited get_memory_descriptor upto
visited-upto zero number pos w h = elim h [ ]
visited-upto (suc fuel) zero pos w h = elim pos [ ]
visited-upto (suc fuel) (suc n) pos w h =
    rw (visited_from fuel (suc n) 0 n (omega arith) w (omega arith))

-- The address behind the loaded image.
abbrev pub image_end : ImageEnd → ℕ
image_end (stack_top a) = a
image_end (staged base bytes) = base + bytes

-- The descriptors lie side by side from page `from` to page `to`, in the order of the list.
abbrev pub Tiles : (from to : ℕ) → List MemoryDescriptor → Type 0
Tiles from to [] = from ≡ to
Tiles from to (d ∷ ds) = (d.base_page ≡ from) × Tiles (from + d.page_count) to ds

abbrev pub types : List MemoryDescriptor → List MemoryType
types [] = []
types (d ∷ ds) = d.memory_type ∷ types ds

-- `P` holds for every descriptor of type `t`.
abbrev pub EveryOf : (MemoryDescriptor → Type 0) → MemoryType → List MemoryDescriptor → Type 0
EveryOf P t [] = Unit {0}
EveryOf P t (d ∷ ds) = (d.memory_type ≡ t → P d) × EveryOf P t ds

-- The memory map for a loaded image that ends at address `a`. The program's descriptor ends on the
-- last page boundary that is at most 256 KiB past the image.
pub record IsFixedUp (a : ℕ) (ds : List MemoryDescriptor) : Type 0 where
  pub tiles : Tiles 0 (0x38000000 / 4096) ds
  pub order : types ds ≡ firmware_permanent ∷ loaded_program ∷ free ∷ []
  pub program :
      EveryOf
        (λ d.
          (d.base_page * 4096 ≡ 0x10000)
          × ((d.base_page + d.page_count) * 4096 ≤ a + 256 * 1024)
          × (a + 256 * 1024 < (d.base_page + d.page_count + 1) * 4096))
        loaded_program
        ds

pub end_page_lem :
    (e : ImageEnd)
    → image_end e + 256 * 1024 ≤ 0x38000000
    → (end_page e * 4096 ≤ image_end e + 256 * 1024)
      × (image_end e + 256 * 1024 < (end_page e + 1) * 4096)
unfolding end_page
end_page_lem (stack_top a) hi = (omega (arith, hi), omega (arith, hi))
end_page_lem (staged base bytes) hi = (omega (arith, hi), omega (arith, hi))

-- The map with the program's last page at `end`.
abbrev pub map_to : (end : ℕ) → List MemoryDescriptor
map_to end =
    memory_descriptor firmware_permanent 0 0x10
    ∷ memory_descriptor loaded_program 0x10 (end - 0x10)
    ∷ memory_descriptor free end (0x38000 - end)
    ∷ []

pub fixup_memory_map-map_to :
    (e : ImageEnd)
    → image_end e + 256 * 1024 ≤ 0x38000000
    → fixup_memory_map e md_array ≡ map_to (end_page e)
unfolding fixup_memory_map md_array
fixup_memory_map-map_to e hi = ground (arith, (end_page_lem e hi).0, (end_page_lem e hi).1)

-- After `BlArmFixupMemoryMap` with an image that ends at least 256 KiB below the RAM top of 896 MiB,
-- the memory map is one reserved, one program and one free descriptor, in this order. They tile the
-- pages from 0 to the RAM top without gap or overlap, and the program's starts at 64 KiB and ends on
-- the last page boundary that is at most 256 KiB past the image.
pub fixup_memory_map-IsFixedUp :
    (e : ImageEnd)
    → image_end e + 256 * 1024 ≤ 0x38000000
    → IsFixedUp (image_end e) (fixup_memory_map e md_array)
unfolding fixup_memory_map md_array
fixup_memory_map-IsFixedUp e hi =
    let (low, high) = end_page_lem e hi in
    record {
      tiles = (refl, (refl, (omega (arith, high), omega (arith, low, high, hi))));
      order = refl;
      program = (
        (λ t. absurd cc),
        ((λ t. (refl, omega (arith, low, high), omega (arith, high))), ((λ t. absurd cc), tt)),
      );
    }
