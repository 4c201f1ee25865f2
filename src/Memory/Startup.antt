-- ===== src/Memory/Startup.antt =====
-- `BlMemoryInitialize` of arcfw/ported/blmemory.c.
--
-- `block_size` is `sizeof(LOADER_PARAMETER_BLOCK)`, a parameter. The calls of `BlAllocateHeap`
-- before `InitializeListHead` are made in a fresh heap: the model gives them an empty list.
pub mod Copy
pub mod Map
pub mod Built
pub mod Board
mod Tests
use arcpi.Base.{
  ℕ, zero, suc, ◌+◌, ◌*◌, ◌<◌, Bool, true, false, ◌&&◌, ◌||◌, Option, none, some, List, [], ◌∷◌,
  ltb, leb, ◌==◌, if◌then◌else◌, add32, sub32, page_to_addr, Status, esuccess, enomem,
}
use arcpi.Firmware.{MemoryType, MemoryDescriptor}
use arcpi.Memory.{
  TypeOfMemory, exception_block, system_block, free, bad, loaded_program, firmware_temporary,
  firmware_permanent, osloader_heap, osloader_stack, system_code, special_memory, Descriptor,
  descriptor, Loader, descriptor_size, heap_pages, stack_pages, null, insert_tail, allocate_heap,
}

-- `(TYPE_OF_MEMORY)MemoryType`, by value: the last three constants of the two enumerations differ.
pub cast_type : MemoryType → TypeOfMemory
cast_type MemoryType.exception_block = exception_block
cast_type MemoryType.system_block = system_block
cast_type MemoryType.free = free
cast_type MemoryType.bad = bad
cast_type MemoryType.loaded_program = loaded_program
cast_type MemoryType.firmware_temporary = firmware_temporary
cast_type MemoryType.firmware_permanent = firmware_permanent
cast_type MemoryType.free_contiguous = osloader_heap
cast_type MemoryType.special_memory = osloader_stack
cast_type MemoryType.maximum = system_code

-- The cast and the two cases that the loop puts right.
pub loader_type : MemoryType → TypeOfMemory
unfolding cast_type
loader_type MemoryType.free_contiguous = free
loader_type MemoryType.special_memory = special_memory
loader_type t = cast_type t

-- `(MemoryType == MemoryFree) || (MemoryType == MemoryFreeContiguous)`.
abbrev pub is_free_type : MemoryType → Bool
is_free_type MemoryType.free = true
is_free_type MemoryType.free_contiguous = true
is_free_type _ = false

abbrev pub is_program : MemoryType → Bool
is_program MemoryType.loaded_program = true
is_program _ = false

abbrev pub reserved_pages : ℕ
reserved_pages = stack_pages + heap_pages

-- The three walks: to the loaded program, to the free memory just below it, and to free memory
-- that can hold heap and stack. A descriptor that is found comes with its index.
pub find_program : List MemoryDescriptor → Option MemoryDescriptor
find_program [] = none
find_program (d ∷ ds) =
    let rest = find_program ds in if is_program d.memory_type then some d else rest

pub find_below : (program_base i : ℕ) → List MemoryDescriptor → Option (ℕ × MemoryDescriptor)
find_below program_base i [] = none
find_below program_base i (d ∷ ds) =
    let rest = find_below program_base (suc i) ds in
    if is_free_type d.memory_type && add32 d.base_page d.page_count == program_base
    then some (i, d)
    else rest

pub find_large : (i : ℕ) → List MemoryDescriptor → Option (ℕ × MemoryDescriptor)
find_large i [] = none
find_large i (d ∷ ds) =
    let rest = find_large (suc i) ds in
    if is_free_type d.memory_type && leb reserved_pages d.page_count then some (i, d) else rest

-- The descriptor below the program, unless there is none or it is too small.
pub below_or_large :
    Option (ℕ × MemoryDescriptor) → List MemoryDescriptor → Option (ℕ × MemoryDescriptor)
below_or_large none ds = find_large 0 ds
below_or_large (some (i, d)) ds =
    if ltb d.page_count reserved_pages then find_large 0 ds else some (i, d)

-- The free descriptor that heap and stack are taken from.
pub find_heap_memory : (program_base : ℕ) → List MemoryDescriptor → Option (ℕ × MemoryDescriptor)
unfolding below_or_large
find_heap_memory program_base ds = below_or_large (find_below program_base 0 ds) ds

-- The loop that copies the firmware's list; `chosen` is the index of the descriptor that heap and
-- stack are taken from.
pub copy_descriptors : (chosen i : ℕ) → List MemoryDescriptor → Loader → Status × Loader
copy_descriptors chosen i [] m = (esuccess, m)
copy_descriptors chosen i (d ∷ ds) m =
    let (block, m') = allocate_heap descriptor_size m in
    let count = if i == chosen then sub32 d.page_count reserved_pages else d.page_count in
    let rest =
      copy_descriptors chosen (suc i) ds
        (insert_tail (descriptor (loader_type d.memory_type) d.base_page count) m') in
    if block == null then (enomem, m') else rest

-- A block for a descriptor, which is then linked in.
pub add_descriptor : Descriptor → Loader → Status × Loader
add_descriptor d m =
    let (block, m') = allocate_heap descriptor_size m in
    if block == null then (enomem, m') else (esuccess, insert_tail d m')

-- `s; rest`, where an unsuccessful status returns at once.
abbrev pub and_then : Status × Loader → (Loader → Status × Loader) → Status × Loader
and_then (esuccess, m) rest = rest m
and_then (s, m) rest = (s, m)

-- The heap in the last pages before `end_page`, and below it the stack's descriptor.
abbrev pub fresh_heap : (end_page : ℕ) → Loader
fresh_heap end_page =
    let start = page_to_addr (sub32 end_page reserved_pages) in
    record {
      heap_free = start;
      heap_limit = sub32 (add32 start (page_to_addr heap_pages)) descriptor_size;
      descriptors = [];
    }

pub build_map : (block_size chosen end_page : ℕ) → List MemoryDescriptor → Loader → Status × Loader
unfolding add_descriptor copy_descriptors
build_map block_size chosen end_page ds m =
    let (block, m') = allocate_heap block_size m in
    if block == null
    then (enomem, m')
    else and_then (copy_descriptors chosen 0 ds m') λ m₁.
      and_then
        (add_descriptor (descriptor osloader_stack (sub32 end_page stack_pages) stack_pages) m₁)
        λ m₂.
          add_descriptor (descriptor osloader_heap (sub32 end_page reserved_pages) heap_pages) m₂

-- `BlMemoryInitialize`, from the firmware's list and the state before the call.
pub initialize_memory : (block_size : ℕ) → List MemoryDescriptor → Loader → Status × Loader
unfolding build_map
initialize_memory block_size ds m = elim (find_program ds) [
  | none ↦ (enomem, m)
  | some program ↦ elim (find_heap_memory program.base_page ds) [
    | none ↦ (enomem, m)
    | some (chosen, d) ↦
        let end_page = add32 d.base_page d.page_count in
        build_map block_size chosen end_page ds (fresh_heap end_page)
  ]
]
