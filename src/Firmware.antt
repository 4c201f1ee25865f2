-- ===== src/Firmware.antt =====
-- arcfw/arm/memory.c and `AEGetMemoryDescriptor` of arcfw/arm/arcemul.c: the memory map that the
-- emulated firmware hands to the loader.
pub mod Walk
mod Tests
use arcpi.Base.{
  ℕ, zero, suc, ◌+◌, ◌-◌, Bool, true, false, Option, none, some, List, [], ◌∷◌, leb, if◌then◌else◌,
  add32, sub32, addr_to_page,
}

-- `MEMORY_TYPE` of arcfw/inc/arc.h.
pub data MemoryType : Type 0 where
  exception_block system_block free bad loaded_program : MemoryType
  firmware_temporary firmware_permanent free_contiguous special_memory maximum : MemoryType

-- `MEMORY_DESCRIPTOR`.
pub record MemoryDescriptor : Type 0 where
  pub memory_type : MemoryType
  pub base_page : ℕ
  pub page_count : ℕ

abbrev pub memory_descriptor : MemoryType → ℕ → ℕ → MemoryDescriptor
memory_descriptor t b c = record { memory_type = t; base_page = b; page_count = c }

-- `RAM_TOP >> PAGE_SHIFT`.
abbrev pub ram_top_page : ℕ
ram_top_page = addr_to_page 0x38000000

-- `MDArray` as it is compiled in.
pub md_array : List MemoryDescriptor
md_array =
    memory_descriptor firmware_permanent 0x000 0x010
    ∷ memory_descriptor loaded_program 0x010 0x0F0
    ∷ memory_descriptor free 0x100 (ram_top_page - 0x100)
    ∷ []

-- Where the loaded image ends: at the linker's `_stack_top`, or at the end of the ramdisk that the
-- Pi firmware staged at `base` (RAMDISK_INITRAMFS).
pub data ImageEnd : Type 0 where
  stack_top : ℕ → ImageEnd
  staged : (base bytes : ℕ) → ImageEnd

-- `endPage`, with 0x40 pages of headroom.
pub end_page : ImageEnd → ℕ
end_page (stack_top a) = add32 (addr_to_page a) 0x40
end_page (staged base bytes) = add32 (addr_to_page (add32 base bytes)) 0x40

-- `BlArmFixupMemoryMap`: entry 1 grows to `endPage`, and entry 2 starts there.
pub fixup_memory_map : ImageEnd → List MemoryDescriptor → List MemoryDescriptor
unfolding end_page
fixup_memory_map e (reserved ∷ loaded ∷ ram ∷ rest) =
    let last = end_page e in
    reserved
    ∷ record loaded { page_count = sub32 last loaded.base_page }
    ∷ record ram { base_page = last; page_count = sub32 ram_top_page last }
    ∷ rest
fixup_memory_map e short = short

-- `AEGetMemoryDescriptor` over an array of `number` entries: a descriptor is its index, and
-- `none` is NULL.
pub get_memory_descriptor : (number : ℕ) → Option ℕ → Option ℕ
get_memory_descriptor number none = some 0
get_memory_descriptor number (some i) = if leb (sub32 number 1) i then none else some (suc i)

-- The loop `while ((d = ArcGetMemoryDescriptor(d)) != NULL)`: the indices that it visits.
pub visited : (fuel number : ℕ) → Option ℕ → List ℕ
visited zero number d = []
visited (suc fuel) number d = elim (get_memory_descriptor number d) [
  | none ↦ []
  | some i ↦ i ∷ visited fuel number (some i)
]
