-- ===== src/Memory/Startup/Copy.antt =====
-- The loop of `BlMemoryInitialize` (arcfw/ported/blmemory.c) that copies the firmware's list.
use arcpi.Base.{
  ℕ, suc, ◌+◌, ◌*◌, ◌≤◌, ◌≡◌, refl, sym, ◌∙◌, false, List, [], ◌∷◌, ◌++◌, arith, ◌==◌,
  if◌then◌else◌, length, sub32, Status, esuccess,
}
use mathlib.Core.List.{append_assoc, append-nil}
use arcpi.Firmware.{MemoryDescriptor}
use arcpi.Memory.{Descriptor, descriptor, Loader, descriptor_size, null, insert_tail, allocate_heap}
use arcpi.Memory.Heap.{IsHeap, Allotted, allocate_heap-Allotted}
use arcpi.Memory.Startup.{loader_type, reserved_pages, copy_descriptors, add_descriptor, and_then}

-- The list that the loop builds.
unfoldable pub copied : (chosen i : ℕ) → List MemoryDescriptor → List Descriptor
copied chosen i [] = []
copied chosen i (d ∷ ds) =
    descriptor (loader_type d.memory_type) d.base_page
      (if i == chosen then sub32 d.page_count reserved_pages else d.page_count)
    ∷ copied chosen (suc i) ds

-- The firmware's entries as loader descriptors.
abbrev pub as_descriptor : MemoryDescriptor → Descriptor
as_descriptor d = descriptor (loader_type d.memory_type) d.base_page d.page_count

abbrev pub as_descriptors : List MemoryDescriptor → List Descriptor
as_descriptors [] = []
as_descriptors (d ∷ ds) = as_descriptor d ∷ as_descriptors ds

-- What a piece of initialisation that only appends `ds` leaves behind.
pub record Appended (ds : List Descriptor) (bytes : ℕ) (m : Loader) (s : Status) (m' : Loader)
    : Type 0 where
  pub status : s ≡ esuccess
  pub heap : IsHeap m'
  pub used : m'.heap_free ≡ m.heap_free + bytes
  pub limit : m'.heap_limit ≡ m.heap_limit
  pub list : m'.descriptors ≡ m.descriptors ++ ds

link-Appended :
    {block : ℕ} {m m₁ : Loader} (d : Descriptor)
    → Allotted descriptor_size m block m₁
    → Appended (d ∷ []) 24 m esuccess (insert_tail d m₁)
link-Appended d a = record {
  status = refl;
  heap = record {
    aligned = a.heap.aligned;
    positive = a.heap.positive;
    ordered = a.heap.ordered;
    reserve = a.heap.reserve;
  };
  used = a.moved;
  limit = a.limit;
  list = rw a.same;
}

pub add_descriptor-Appended :
    {m : Loader} (d : Descriptor)
    → IsHeap m
    → m.heap_free + 24 ≤ m.heap_limit
    → let (s, m') = add_descriptor d m in Appended (d ∷ []) 24 m s m'
unfolding add_descriptor
add_descriptor-Appended {m} d v room =
    let a = allocate_heap-Allotted {m = m} descriptor_size v (omega arith) (omega arith) in
    let got : ((allocate_heap descriptor_size m).0 == null) ≡ false =
      ground (arith, a.some_block) in
    rw got (link-Appended d a)

-- With room for the whole list, the loop succeeds and appends exactly the copies.
pub copy_descriptors-Appended :
    (chosen i : ℕ) (ds : List MemoryDescriptor) {m : Loader}
    → IsHeap m
    → m.heap_free + 24 * length ds ≤ m.heap_limit
    → let (s, m') = copy_descriptors chosen i ds m in
      Appended (copied chosen i ds) (24 * length ds) m s m'
unfolding copy_descriptors copied
copy_descriptors-Appended chosen i [] {m} v room = record {
  status = refl;
  heap = v;
  used = omega arith;
  limit = refl;
  list = sym (append-nil m.descriptors);
}
copy_descriptors-Appended chosen i (d ∷ ds) {m} v room =
    let new =
      descriptor (loader_type d.memory_type) d.base_page
        (if i == chosen then sub32 d.page_count reserved_pages else d.page_count) in
    let a = allocate_heap-Allotted {m = m} descriptor_size v (omega arith) (omega arith) in
    let got : ((allocate_heap descriptor_size m).0 == null) ≡ false =
      ground (arith, a.some_block) in
    let l = link-Appended new a in
    let r =
      copy_descriptors-Appended chosen (suc i) ds
        {m = insert_tail new (allocate_heap descriptor_size m).1} l.heap
        (omega (arith, a.moved, a.limit)) in
    rw got (record {
      status = r.status;
      heap = r.heap;
      used = omega (arith, r.used, a.moved);
      limit = r.limit ∙ a.limit;
      list = r.list ∙ rw (a.same, append_assoc);
    })

-- One piece of initialisation after another.
pub and_then-Appended :
    {ds es : List Descriptor} {k l : ℕ} {m : Loader} (s : Status) (m' : Loader)
    (rest : Loader → Status × Loader)
    → Appended ds k m s m'
    → (let (s', m'') = rest m' in Appended es l m' s' m'')
    → let (s', m'') = and_then (s, m') rest in Appended (ds ++ es) (k + l) m s' m''
and_then-Appended {ds} {es} {m} s m' rest a b = rw a.status (record {
  status = b.status;
  heap = b.heap;
  used = omega (arith, a.used, b.used);
  limit = b.limit ∙ a.limit;
  list = b.list ∙ rw a.list (append_assoc m.descriptors ds es);
})
