-- ===== src/Memory/Startup/Built.antt =====
-- `BlMemoryInitialize` of arcfw/ported/blmemory.c as a whole.
use arcpi.Base.{
  ℕ, ◌+◌, ◌-◌, ◌*◌, ◌≤◌, ◌<◌, ◌≡◌, refl, Bool, false, ◌&&◌, none, some, List, [], ◌∷◌, ◌++◌, arith,
  ◌==◌, length, get_elem?, sub32, add32, Status, esuccess, enomem, ◌⊎◌, inl, inr,
}
use arcpi.Firmware.{MemoryDescriptor}
use arcpi.Memory.{
  TypeOfMemory, free, osloader_heap, osloader_stack, Descriptor, descriptor, Loader,
  descriptor_size, null, stack_pages, heap_pages, allocate_heap,
}
use arcpi.Memory.Cover.{covered, within, one_if, page_limit, covered-append}
use arcpi.Memory.Heap.{IsHeap, Allotted, allocate_heap-Allotted}
use arcpi.Memory.Startup.{
  reserved_pages, find_program, find_heap_memory, fresh_heap, build_map, initialize_memory,
  and_then, add_descriptor,
}
use arcpi.Memory.Startup.Copy.{
  copied, as_descriptors, Appended, add_descriptor-Appended, copy_descriptors-Appended,
  and_then-Appended,
}
use arcpi.Memory.Startup.Map.{Source, find_heap_memory-Source, covered-copied}

-- The pages of the two descriptors that `BlMemoryInitialize` adds, below page `end`.
abbrev pub own_descriptors : ℕ → List Descriptor
own_descriptors end =
    descriptor osloader_stack (end - 8) 8 ∷ descriptor osloader_heap (end - 24) 16 ∷ []

-- What `BlMemoryInitialize` has built when it took heap and stack from the pages below `end`.
pub record Built (end : ℕ) (ds : List MemoryDescriptor) (s : Status) (m : Loader) : Type 0 where
  pub status : s ≡ esuccess
  pub heap : IsHeap m
  pub heap_start : (end - 24) * 4096 ≤ m.heap_free
  pub heap_end : m.heap_limit + descriptor_size ≡ (end - 8) * 4096
  pub room : m.heap_free + 30000 ≤ m.heap_limit
  pub map :
      (P : TypeOfMemory → Bool) (page : ℕ)
      → covered P page m.descriptors + one_if (P free && within page (end - 24) 24)
        ≡ covered P page (as_descriptors ds)
          + one_if (P osloader_stack && within page (end - 8) 8)
          + one_if (P osloader_heap && within page (end - 24) 16)

fresh_heap-IsHeap : (end : ℕ) → 24 < end → end ≤ page_limit → IsHeap (fresh_heap end)
fresh_heap-IsHeap end enough fits = record {
  aligned = omega arith;
  positive = omega arith;
  ordered = omega arith;
  reserve = omega arith;
}

module _ (block_size chosen : ℕ) (ds : List MemoryDescriptor) (end : ℕ) (small : block_size ≤ 4096)
    (short : length ds ≤ 1000) (enough : 24 < end) (fits : end ≤ page_limit) where
  -- The heap after the loader block.
  start : Loader
  start = (allocate_heap block_size (fresh_heap end)).1

  start-Allotted :
      let (block, m) = allocate_heap block_size (fresh_heap end) in
      Allotted block_size (fresh_heap end) block m
  start-Allotted =
      allocate_heap-Allotted block_size (fresh_heap-IsHeap end enough fits) (omega arith)
        (omega arith)

  add_own-Appended :
      {m : Loader}
      → IsHeap m
      → m.heap_free + 48 ≤ m.heap_limit
      → let (s, m') =
          and_then
            (add_descriptor (descriptor osloader_stack (sub32 end stack_pages) stack_pages) m)
            (λ m₂.
              add_descriptor (descriptor osloader_heap (sub32 end reserved_pages) heap_pages) m₂) in
        Appended (own_descriptors end) 48 m s m'
  add_own-Appended {m} v room =
      let e : sub32 end stack_pages ≡ end - 8 = omega arith in
      let e' : sub32 end reserved_pages ≡ end - 24 = omega arith in
      rw (e, e')
        (let a = add_descriptor-Appended (descriptor osloader_stack (end - 8) 8) v (omega arith) in
          let b =
            add_descriptor-Appended (descriptor osloader_heap (end - 24) 16) a.heap
              (omega (arith, a.used, a.limit)) in
          and_then-Appended _ _ _ a b)

  build_map-Appended :
      let (s, m) = build_map block_size chosen end ds (fresh_heap end) in
      Appended (copied chosen 0 ds ++ own_descriptors end) (24 * length ds + 48) start s m
  unfolding build_map start
  build_map-Appended =
      let a = start-Allotted in
      let got : ((allocate_heap block_size (fresh_heap end)).0 == null) ≡ false =
        ground (arith, a.some_block) in
      let c =
        copy_descriptors-Appended chosen 0 ds {m = start} a.heap
          (omega (arith, a.moved, a.limit)) in
      rw got (
        and_then-Appended _ _ _ c
          (add_own-Appended c.heap (omega (arith, c.used, c.limit, a.moved, a.limit))))

  -- The laws of the built list, for the source that was chosen.
  build_map-Built :
      {d : MemoryDescriptor}
      → Source ds chosen d
      → d.base_page + d.page_count ≡ end
      → let (s, m) = build_map block_size chosen end ds (fresh_heap end) in Built end ds s m
  unfolding covered start
  build_map-Built {d} (at, source) e =
      let a = start-Allotted in
      let r = build_map-Appended in
      let z : chosen - 0 ≡ chosen = omega arith in
      let at' : get_elem? ds (chosen - 0) ≡ some d = rw z at in
      record {
        status = r.status;
        heap = r.heap;
        heap_start = omega (arith, r.used, a.moved);
        heap_end = omega (arith, r.limit, a.limit);
        room = omega (arith, r.limit, a.limit, r.used, a.moved);
        map = λ P page.
            rw (r.list, a.same)
              (ground (
                arith,
                covered-append P page (copied chosen 0 ds) (own_descriptors end),
                covered-copied P page chosen 0 ds (omega arith) at' source (omega arith),
              ));
      }

-- `BlMemoryInitialize` succeeds if the firmware's list has a loaded program and at most 1000
-- entries, if its search ends at a free descriptor `d` whose end lies above page 24 and within the
-- 2^20 pages of the address space, and if the loader block has at most 4096 bytes. (At page 24 the
-- heap would start at address 0, which the code takes for NULL.) Heap and stack are the last 24
-- pages of `d`: exactly these pages change their kind, every other page is described as often and as
-- the same kind as the firmware describes it, and the heap has 30,000 bytes left.
pub initialize_memory-Built :
    (block_size : ℕ) (ds : List MemoryDescriptor) (m : Loader) {program d : MemoryDescriptor}
    {j : ℕ}
    → block_size ≤ 4096
    → length ds ≤ 1000
    → find_program ds ≡ some program
    → find_heap_memory program.base_page ds ≡ some (j, d)
    → reserved_pages < d.base_page + d.page_count
    → d.base_page + d.page_count ≤ page_limit
    → let (s, m') = initialize_memory block_size ds m in
      Source ds j d × Built (d.base_page + d.page_count) ds s m'
unfolding initialize_memory
initialize_memory-Built block_size ds m {program} {d} {j} small short found chosen above fits =
    let source = find_heap_memory-Source program.base_page ds j d chosen in
    let e : add32 d.base_page d.page_count ≡ d.base_page + d.page_count = omega arith in
    (
      source,
      rw (found, initialize_memory)
          (rw (chosen, initialize_memory)
            (rw e (
              build_map-Built block_size j ds (d.base_page + d.page_count) small short
                (omega (arith, above)) fits source refl))),
    )

-- Without a loaded program, or without free memory for heap and stack, the answer is ENOMEM and
-- nothing has changed.
pub initialize_memory_refuses :
    (block_size : ℕ) (ds : List MemoryDescriptor) (m : Loader)
    → (find_program ds ≡ none)
      ⊎ ((program : MemoryDescriptor) × (find_program ds ≡ some program)
          × (find_heap_memory program.base_page ds ≡ none))
    → initialize_memory block_size ds m ≡ (enomem, m)
unfolding initialize_memory
initialize_memory_refuses block_size ds m (inl absent) = rw (absent, initialize_memory)
initialize_memory_refuses block_size ds m (inr (program, found, absent)) =
    rw (found, initialize_memory) (rw (absent, initialize_memory))
