-- ===== src/Memory/Heap.antt =====
-- `BlAllocateHeap` and `BlAllocateHeapAligned` of arcfw/ported/blmemory.c: what a block is while
-- the current heap has room.
use arcpi.Base.{
  ℕ, ◌+◌, ◌-◌, ◌*◌, ◌/◌, ◌%◌, ◌≤◌, ◌<◌, ◌≡◌, ◌≢◌, arith, ◌==◌, word, false, add32, sub32,
}
use arcpi.Memory.{Loader, null, round_up, descriptor_size, allocate_heap, allocate_heap_aligned}

-- The bump pointer is aligned and lies in a heap that keeps room for one more descriptor.
pub record IsHeap (m : Loader) : Type 0 where
  pub aligned : m.heap_free % 8 ≡ 0
  pub positive : 0 < m.heap_free
  pub ordered : m.heap_free ≤ m.heap_limit
  pub reserve : m.heap_limit + descriptor_size ≤ word

-- There is room for `size` more bytes.
abbrev pub HasRoom : ℕ → Loader → Type 0
HasRoom size m = m.heap_free + round_up size ≤ m.heap_limit

pub round_up_bounds :
    (size : ℕ)
    → size + 64 ≤ word
    → (size ≤ round_up size) × (round_up size < size + 8) × (round_up size % 8 ≡ 0)
round_up_bounds size h = omega arith

-- What a call that had room leaves behind.
pub record Allotted (size : ℕ) (m : Loader) (block : ℕ) (m' : Loader) : Type 0 where
  pub block_at : block ≡ m.heap_free
  pub some_block : block ≢ null
  pub block_aligned : block % 8 ≡ 0
  pub moved : m'.heap_free ≡ m.heap_free + round_up size
  pub holds : block + size ≤ m'.heap_free
  pub limit : m'.heap_limit ≡ m.heap_limit
  pub same : m'.descriptors ≡ m.descriptors
  pub heap : IsHeap m'

-- While the heap has room for the rounded size, `BlAllocateHeap` returns an aligned, non-NULL
-- block of `size` bytes below the new bump pointer, keeps the limit, the descriptor list and the
-- heap's invariant.
pub allocate_heap-Allotted :
    {m : Loader} (size : ℕ)
    → IsHeap m
    → size + 64 ≤ word
    → HasRoom size m
    → let (block, m') = allocate_heap size m in Allotted size m block m'
unfolding allocate_heap
allocate_heap-Allotted {m} size v small room = ground arith

-- A block of `size` bytes on a boundary of `fill` bytes, out of the block that `BlAllocateHeap`
-- gave.
pub record Aligned (fill size : ℕ) (m : Loader) (buffer : ℕ) (m' : Loader) : Type 0 where
  pub on_boundary : buffer % fill ≡ 0
  pub from : m.heap_free ≤ buffer
  pub holds : buffer + size ≤ m'.heap_free
  pub heap : IsHeap m'
  pub same : m'.descriptors ≡ m.descriptors

round_bounds :
    (a fill : ℕ)
    → 0 < fill
    → (a ≤ (a + fill - 1) / fill * fill)
      × ((a + fill - 1) / fill * fill ≤ a + fill - 1)
      × ((a + fill - 1) / fill * fill % fill ≡ 0)
round_bounds a fill h = (grind arith, grind arith, grind arith)

-- While the heap has room for `size` bytes and a cache line, `BlAllocateHeapAligned` returns a
-- block of `size` bytes on a cache line boundary inside the heap.
pub allocate_heap_aligned-Aligned :
    {m : Loader} (fill size : ℕ)
    → IsHeap m
    → 0 < fill
    → size + fill + 64 ≤ word
    → m.heap_free + size + fill + 8 ≤ m.heap_limit
    → let (buffer, m') = allocate_heap_aligned fill size m in Aligned fill size m buffer m'
unfolding allocate_heap_aligned
allocate_heap_aligned-Aligned {m} fill size v pos small room =
    let e : sub32 (add32 size fill) 1 ≡ size + fill - 1 = omega arith in
    let a = allocate_heap-Allotted (size + fill - 1) v (omega arith) (omega arith) in
    let got : ((allocate_heap (size + fill - 1) m).0 == null) ≡ false =
      ground (arith, a.some_block) in
    let e' : sub32 (add32 m.heap_free fill) 1 ≡ m.heap_free + fill - 1 = omega arith in
    let (lo, hi, on) = round_bounds m.heap_free fill pos in
    rw (e, got, a.block_at, e')
      (record {
        on_boundary = on;
        from = lo;
        holds = omega (arith, a.moved);
        heap = a.heap;
        same = a.same;
      })
