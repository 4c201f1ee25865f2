-- ===== src/Memory/Grow.antt =====
-- `BlAllocateHeap` of arcfw/ported/blmemory.c as a whole: when it answers NULL, and what becomes
-- of the memory map when it makes a new heap.
use arcpi.Base.{
  ℕ, ◌+◌, ◌-◌, ◌*◌, ◌≤◌, ◌<◌, ◌≡◌, ◌≢◌, ◌↔◌, ◌⊎◌, inl, inr, some, arith, word, Option-cases,
  get_elem?, ap, sym,
}
use mathlib.Core.Path.{subst}
use native.Mathlib.Decide.{dec_le}
use arcpi.Memory.{
  free, osloader_heap, Descriptor, Loader, null, round_up, new_heap_pages, first_free,
  allocate_heap,
}
use arcpi.Memory.Cover.{Moves, Bounded, AllBounded, AllBounded-get, AllBounded-set, AllBounded-snoc}
use arcpi.Memory.Heap.{IsHeap, allocate_heap-Allotted}
use arcpi.Memory.Refill.{
  IsRoomy, NoneRoomy, NoneRoomy-not, first_free-some, first_free-none, extended, covered-extended,
  IsFull, allocate_heap-none, allocate_heap-refill,
}

pub record Grown (size : ℕ) (d : Descriptor) (m : Loader) (block : ℕ) (m' : Loader) : Type 0 where
  pub roomy : IsRoomy (new_heap_pages (round_up size)) d
  pub at_end : block ≡ (d.base + d.count - new_heap_pages (round_up size)) * 4096
  pub some_block : block ≢ null
  pub holds : block + size ≤ m'.heap_free
  pub heap : IsHeap m'
  pub bounded : AllBounded m'.descriptors
  pub moves :
      Moves free osloader_heap
        (d.base + d.count - new_heap_pages (round_up size))
        (new_heap_pages (round_up size))
        m.descriptors
        m'.descriptors

extended-AllBounded :
    (size i : ℕ) {d : Descriptor} (m : Loader)
    → AllBounded m.descriptors
    → get_elem? m.descriptors i ≡ some d
    → IsRoomy (new_heap_pages size) d
    → AllBounded (extended size i d m)
extended-AllBounded size i {d} m b at roomy =
    let bd : Bounded d = AllBounded-get m.descriptors i b at in
    AllBounded-snoc _ _
      (AllBounded-set m.descriptors i _ b (record { fits = ground arith; above = bd.above }))
      (record { fits = ground arith; above = λ h. cc })

module _ {m : Loader} (size : ℕ) where
  Grown-from :
      (i : ℕ) {d : Descriptor}
      → IsFull size m
      → AllBounded m.descriptors
      → get_elem? m.descriptors i ≡ some d
      → IsRoomy (new_heap_pages (round_up size)) d
      → first_free (new_heap_pages (round_up size)) 0 m.descriptors ≡ some i
      → let (block, m') = allocate_heap size m in Grown size d m block m'
  Grown-from i {d} f b at roomy found =
      let r = allocate_heap-refill size f b at found in
      record {
        roomy = roomy;
        at_end = r.block_at;
        some_block = r.some_block;
        holds = omega arith;
        heap = r.heap;
        bounded =
            subst AllBounded (sym r.descriptors)
              (extended-AllBounded (round_up size) i m b at roomy);
        moves = λ P page. rw r.descriptors (covered-extended m (round_up size) i P page at roomy);
      }

  -- When the heap is full and some free descriptor has the pages of a new heap, `BlAllocateHeap`
  -- cuts that heap off the end of the first such descriptor: the block lies at its start and is not
  -- NULL (the "should never get here" branch is not reached), the invariants of heap and list hold
  -- again, and exactly the pages of the new heap change their kind, from free to loader heap.
  pub allocate_heap-Grown :
      {i : ℕ}
      → IsFull size m
      → AllBounded m.descriptors
      → first_free (new_heap_pages (round_up size)) 0 m.descriptors ≡ some i
      → (d : Descriptor) × (get_elem? m.descriptors i ≡ some d)
        × (let (block, m') = allocate_heap size m in Grown size d m block m')
  allocate_heap-Grown {i} f b found =
      let (d, le, at, roomy) =
        first_free-some (new_heap_pages (round_up size)) 0 m.descriptors found in
      let at' : get_elem? m.descriptors i ≡ some d = rw (sub_zero i) at at in
      (d, at', Grown-from i f b at' roomy found)
    where
      sub_zero : (k : ℕ) → k - 0 ≡ k
      sub_zero k = omega arith

  NoneRoomy-of_null :
      IsFull size m
      → AllBounded m.descriptors
      → (allocate_heap size m).0 ≡ null
      → NoneRoomy (new_heap_pages (round_up size)) m.descriptors
  NoneRoomy-of_null f b e =
      elim (Option-cases (first_free (new_heap_pages (round_up size)) 0 m.descriptors)) [
        | inl absent ↦ first_free-none (new_heap_pages (round_up size)) 0 m.descriptors absent
        | inr (i, found) ↦ absurd ((allocate_heap-Grown f b found).2.some_block e)
      ]

  null_of_NoneRoomy :
      IsFull size m
      → NoneRoomy (new_heap_pages (round_up size)) m.descriptors
      → (allocate_heap size m).0 ≡ null
  null_of_NoneRoomy f small =
      elim (Option-cases (first_free (new_heap_pages (round_up size)) 0 m.descriptors)) [
        | inl absent ↦ ap (λ r. r.0) (allocate_heap-none size f absent)
        | inr (i, found) ↦
            let (d, le, at, roomy) =
              first_free-some (new_heap_pages (round_up size)) 0 m.descriptors found in
            absurd
              (NoneRoomy-not (new_heap_pages (round_up size)) (i - 0) m.descriptors small at roomy)
      ]

  room_or_IsFull :
      m.heap_free + size + 64 ≤ word → (m.heap_free + round_up size ≤ m.heap_limit) ⊎ IsFull size m
  room_or_IsFull small = elim (dec_le (m.heap_free + round_up size) m.heap_limit) [
    | yes room ↦ inl room
    | no full ↦ inr (record { full = omega arith; no_wrap = small })
  ]

  -- `BlAllocateHeap` answers NULL exactly when the heap cannot hold the rounded size and no free
  -- descriptor has the pages of a new heap, provided that the address sum does not wrap.
  pub allocate_heap-null_iff :
      IsHeap m
      → AllBounded m.descriptors
      → m.heap_free + size + 64 ≤ word
      → ((allocate_heap size m).0 ≡ null) ↔ (
          (m.heap_limit < m.heap_free + round_up size)
          × NoneRoomy (new_heap_pages (round_up size)) m.descriptors)
  allocate_heap-null_iff v b small = (
    λ e. elim (room_or_IsFull small) [
      | inl room ↦ absurd ((allocate_heap-Allotted size v (omega arith) room).some_block e)
      | inr f ↦ (f.full, NoneRoomy-of_null f b e)
    ],
    λ h. null_of_NoneRoomy (record { full = h.0; no_wrap = small }) h.1,
  )
