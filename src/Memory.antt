-- ===== src/Memory.antt =====
-- arcfw/ported/blmemory.c: the loader's heap and its memory descriptor list.
--
-- `BlHeapFree`, `BlHeapLimit` and the list that `BlLoaderBlock->MemoryDescriptorListHead` heads
-- are one record. Descriptors are only ever appended (`InsertTailList`) and never taken out, so
-- a `PMEMORY_ALLOCATION_DESCRIPTOR` is the index of its list entry. The bytes of the heap are not
-- modelled: `RtlZeroMemory` has no counterpart.
pub mod Cover
pub mod Heap
pub mod Generate
pub mod Refill
pub mod Grow
pub mod Choose
pub mod Allocate
pub mod Shrunk
pub mod Find
pub mod Startup
mod Tests
use arcpi.Base.{
  ℕ, zero, suc, ◌+◌, ◌-◌, ◌*◌, ◌/◌, ◌<◌, Bool, true, false, ◌&&◌, ◌||◌, Option, none, some, List,
  [], ◌∷◌, ◌++◌, ltb, leb, ◌==◌, if◌then◌else◌, get_or, set, add32, sub32, is_nonneg32,
  page_to_addr, Status, esuccess, enomem,
}

-- `TYPE_OF_MEMORY`.
pub data TypeOfMemory : Type 0 where
  exception_block system_block free bad loaded_program : TypeOfMemory
  firmware_temporary firmware_permanent osloader_heap osloader_stack : TypeOfMemory
  system_code hal_code boot_driver console_in_driver console_out_driver : TypeOfMemory
  startup_dpc_stack startup_kernel_stack startup_panic_stack : TypeOfMemory
  startup_pcr_page startup_pdr_page registry_data memory_data nls_data : TypeOfMemory
  special_memory maximum : TypeOfMemory

-- `MemoryType == MemoryFree`.
abbrev pub is_free : TypeOfMemory → Bool
is_free free = true
is_free _ = false

-- `MEMORY_ALLOCATION_DESCRIPTOR`, less its list links.
pub record Descriptor : Type 0 where
  pub kind : TypeOfMemory
  pub base : ℕ
  pub count : ℕ

abbrev pub descriptor : TypeOfMemory → ℕ → ℕ → Descriptor
descriptor k b c = record { kind = k; base = b; count = c }

pub record Loader : Type 0 where
  pub heap_free : ℕ
  pub heap_limit : ℕ
  pub descriptors : List Descriptor

-- `sizeof(MEMORY_ALLOCATION_DESCRIPTOR)`: two pointers, an enum and two words.
abbrev pub descriptor_size : ℕ
descriptor_size = 20

abbrev pub heap_pages : ℕ
heap_pages = 16

abbrev pub stack_pages : ℕ
stack_pages = 8

abbrev pub null : ℕ
null = 0

-- The descriptor that a pointer leads to, and `InsertTailList`.
abbrev pub descriptor_at : ℕ → Loader → Descriptor
descriptor_at i m = get_or m.descriptors i (descriptor exception_block 0 0)

abbrev pub put_descriptor : ℕ → Descriptor → Loader → Loader
put_descriptor i d m = record m { descriptors = set m.descriptors i d }

abbrev pub insert_tail : Descriptor → Loader → Loader
insert_tail d m = record m { descriptors = m.descriptors ++ (d ∷ []) }

-- `(Size + (BL_GRANULARITY - 1)) & (~(BL_GRANULARITY - 1))`: the mask clears the low three bits.
abbrev pub round_up : ℕ → ℕ
round_up size = add32 size 7 / 8 * 8

-- The pages of a new heap that is to hold `size` bytes and a descriptor, `BL_HEAP_PAGES` at least.
abbrev pub new_heap_pages : ℕ → ℕ
new_heap_pages size =
    let pages = add32 size descriptor_size / 4096 + 1 in
    if ltb pages heap_pages then heap_pages else pages

-- The walk of `BlAllocateHeap` to the first free descriptor with `pages` pages.
pub first_free : (pages i : ℕ) → List Descriptor → Option ℕ
first_free pages i [] = none
first_free pages i (d ∷ ds) =
    let rest = first_free pages (suc i) ds in
    if is_free d.kind && leb pages d.count then some i else rest

-- The new heap, cut off the end of descriptor `i`.
pub extend_heap : (size i : ℕ) → Loader → Loader
extend_heap size i m =
    let pages = new_heap_pages size in
    let d = descriptor_at i m in
    let left = sub32 d.count pages in
    let base = add32 d.base left in
    record {
      heap_free = page_to_addr base;
      heap_limit = sub32 (add32 (page_to_addr base) (page_to_addr pages)) descriptor_size;
      descriptors =
          set m.descriptors i (record d { count = left })
          ++ (descriptor osloader_heap base pages ∷ []);
    }

-- The branch of `BlAllocateHeap` where the heap is full.
pub refill_heap : ℕ → Loader → ℕ × Loader
unfolding extend_heap
refill_heap size m = elim (first_free (new_heap_pages size) 0 m.descriptors) [
  | none ↦ (null, m)
  | some i ↦
      let m' = extend_heap size i m in
      if ltb (add32 m'.heap_free size) m'.heap_limit
      then (m'.heap_free, record m' { heap_free = add32 m'.heap_free size })
      else (null, m')
]

-- `BlAllocateHeap`: the address of the block, or `NULL`.
pub allocate_heap : ℕ → Loader → ℕ × Loader
allocate_heap size m =
    let rounded = round_up size in
    if leb (add32 m.heap_free rounded) m.heap_limit
    then (m.heap_free, record m { heap_free = add32 m.heap_free rounded })
    else refill_heap rounded m

-- `BlAllocateHeapAligned`. `fill` is `BlDcacheFillSize`, a power of two, so that the mask of
-- `ALIGN_BUFFER` rounds down to a multiple of it.
pub allocate_heap_aligned : (fill : ℕ) → ℕ → Loader → ℕ × Loader
allocate_heap_aligned fill size m =
    let (buffer, m') = allocate_heap (sub32 (add32 size fill) 1) m in
    (if buffer == null then null else sub32 (add32 buffer fill) 1 / fill * fill, m')

-- The last part of `BlGenerateDescriptor`: the region lies in the middle of descriptor `i`, and
-- what lies behind it gets a descriptor of its own.
pub split_descriptor : (i base count offset : ℕ) → Loader → Status × Loader
split_descriptor i base count offset m =
    let (block, m') = allocate_heap descriptor_size m in
    if block == null
    then (enomem, m')
    else let d = descriptor_at i m' in
      let tail = descriptor free (add32 base count) (sub32 d.count (add32 count offset)) in
      (esuccess, put_descriptor i (record d { count = offset }) (insert_tail tail m'))

-- The region's own descriptor is in the list. What is left of descriptor `i` is read anew, since
-- `BlAllocateHeap` may have cut it.
pub trim_descriptor : (i base count offset : ℕ) → Loader → Status × Loader
trim_descriptor i base count offset m =
    let d = descriptor_at i m in
    if base == d.base
    then (
      esuccess,
      put_descriptor i (record d { base = add32 d.base count; count = sub32 d.count count }) m,
    )
    else if add32 offset count == d.count
    then (esuccess, put_descriptor i (record d { count = sub32 d.count count }) m)
    else split_descriptor i base count offset m

-- `BlGenerateDescriptor` on the descriptor with index `i`.
pub generate_descriptor : (i : ℕ) → TypeOfMemory → (base count : ℕ) → Loader → Status × Loader
generate_descriptor i kind base count m =
    let d = descriptor_at i m in
    let offset = sub32 base d.base in
    if offset == 0 && count == d.count
    then (esuccess, put_descriptor i (record d { kind = kind }) m)
    else let (block, m') = allocate_heap descriptor_size m in
      if block == null
      then (enomem, m')
      else trim_descriptor i base count offset (insert_tail (descriptor kind base count) m')

-- What the walk of `BlAllocateDescriptor` ends with: a descriptor that holds the region asked
-- for, or else the smallest that is large enough.
pub data Choice : Type 0 where
  exact : ℕ → Choice
  best : ℕ → Descriptor → Choice
  nothing : Choice

-- `(Offset >= 0) && (PageCount >= (ULONG)(Offset + PageCount))`.
abbrev pub encompasses : Descriptor → (base count : ℕ) → Bool
encompasses d base count =
    is_nonneg32 (sub32 base d.base) && leb (add32 (sub32 base d.base) count) d.count

-- The better of what was found so far and a free descriptor `d` with index `i`.
abbrev pub better : (count i : ℕ) → Descriptor → Choice → Choice
better count i d (best j e) =
    if leb count d.count && ltb d.count e.count then best i d else best j e
better count i d c = if leb count d.count then best i d else c

pub choose : (base count i : ℕ) → Choice → List Descriptor → Choice
choose base count i found [] = found
choose base count i found (d ∷ ds) =
    let hit = is_free d.kind && encompasses d base count in
    let rest =
      choose base count (suc i) (if is_free d.kind then better count i d found else found) ds in
    if hit then exact i else rest

-- `BlAllocateDescriptor`; the option is what it stores through `ActualBase`.
pub allocate_descriptor : TypeOfMemory → (base count : ℕ) → Loader → Status × Option ℕ × Loader
allocate_descriptor kind base count m = elim (choose base count 0 nothing m.descriptors) [
  | exact i ↦ let (s, m') = generate_descriptor i kind base count m in (s, some base, m')
  | best i d ↦ let (s, m') = generate_descriptor i kind d.base count m in (s, some d.base, m')
  | nothing ↦ (enomem, none, m)
]

-- `(BasePage <= page) && (BasePage + PageCount > page)`.
abbrev pub holds_page : Descriptor → ℕ → Bool
holds_page d page = leb d.base page && ltb page (add32 d.base d.count)

-- `BlFindMemoryDescriptor`, from index `i` on.
pub find_memory_descriptor : (page i : ℕ) → List Descriptor → Option ℕ
find_memory_descriptor page i [] = none
find_memory_descriptor page i (d ∷ ds) =
    let rest = find_memory_descriptor page (suc i) ds in if holds_page d page then some i else rest
