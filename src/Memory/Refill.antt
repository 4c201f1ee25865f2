-- ===== src/Memory/Refill.antt =====
-- `BlAllocateHeap` of arcfw/ported/blmemory.c when the heap is full: a new heap is cut off the
-- end of the first free descriptor that is large enough.
use arcpi.Base.{
  ℕ, zero, suc, ◌+◌, ◌-◌, ◌*◌, ◌%◌, ◌≤◌, ◌<◌, ◌≡◌, ◌≢◌, inl, inr, refl, ◌∙◌, Bool, true, ◌&&◌, none,
  some, List, [], ◌∷◌, ◌++◌, arith, leb, word, Bool-cases, get_elem?, set,
}
use mathlib.Core.Path.{subst}
use arcpi.Memory.{
  TypeOfMemory, free, is_free, exception_block, osloader_heap, Descriptor, descriptor, Loader, null,
  round_up, descriptor_size, new_heap_pages, first_free, extend_heap, refill_heap, allocate_heap,
}
use arcpi.Memory.Cover.{
  covered, within, one_if, Bounded, AllBounded, covered-snoc, covered-set, AllBounded-get,
  descriptor_at-eq,
}
use arcpi.Memory.Heap.{IsHeap}

-- A free descriptor with `pages` pages.
pub record IsRoomy (pages : ℕ) (d : Descriptor) : Type 0 where
  pub is_free : is_free d.kind ≡ true
  pub enough : pages ≤ d.count

-- No free descriptor has `pages` pages.
abbrev pub NoneRoomy : ℕ → List Descriptor → Type 0
NoneRoomy pages [] = Unit {0}
NoneRoomy pages (d ∷ ds) = (is_free d.kind ≡ true → d.count < pages) × NoneRoomy pages ds

pub get_elem?-past {ℓ} :
    {A : Type ℓ} (x : A) (xs : List A) (i j : ℕ)
    → i < j
    → get_elem? (x ∷ xs) (j - i) ≡ get_elem? xs (j - suc i)
get_elem?-past x xs i j h = let e : j - i ≡ suc (j - suc i) = omega arith in rw e

abbrev pub FoundRoomy : (pages i j : ℕ) → List Descriptor → Type 0
FoundRoomy pages i j ds =
    (d : Descriptor) × (i ≤ j) × (get_elem? ds (j - i) ≡ some d) × IsRoomy pages d

FoundRoomy-cons :
    (pages i j : ℕ) (x : Descriptor) (ds : List Descriptor)
    → FoundRoomy pages (suc i) j ds
    → FoundRoomy pages i j (x ∷ ds)
FoundRoomy-cons pages i j x ds (d, le, at, roomy) =
    (d, omega arith, get_elem?-past x ds i j le ∙ at, roomy)

first_free_here :
    (pages i j : ℕ) (d : Descriptor) (ds : List Descriptor)
    → (is_free d.kind && leb pages d.count) ≡ true
    → i ≡ j
    → FoundRoomy pages i j (d ∷ ds)
first_free_here pages i j d ds hit e =
    let at : j - i ≡ 0 = omega arith in (d, omega arith, rw at, ground arith)

-- What the walk finds is a member of the list that is large enough.
pub first_free-some :
    (pages i : ℕ) (ds : List Descriptor) {j : ℕ}
    → first_free pages i ds ≡ some j
    → FoundRoomy pages i j ds
unfolding first_free
first_free-some pages i [] e = cc
first_free-some pages i (d ∷ ds) {j} e = elim (Bool-cases (is_free d.kind && leb pages d.count)) [
  | inl hit ↦ first_free_here pages i j d ds hit (ground arith)
  | inr miss ↦ FoundRoomy-cons pages i j d ds (first_free-some pages (suc i) ds (ground arith))
]

pub first_free-none :
    (pages i : ℕ) (ds : List Descriptor) → first_free pages i ds ≡ none → NoneRoomy pages ds
unfolding first_free
first_free-none pages i [] e = tt
first_free-none pages i (d ∷ ds) e =
    (λ h. ground arith, first_free-none pages (suc i) ds (ground arith))

abbrev pub extended : (size i : ℕ) → Descriptor → Loader → List Descriptor
extended size i d m =
    set m.descriptors i (descriptor d.kind d.base (d.count - new_heap_pages size))
    ++ (descriptor osloader_heap (d.base + d.count - new_heap_pages size) (new_heap_pages size)
        ∷ [])

-- What a refill for `size` bytes does with the free descriptor `d` it found.
pub record Refilled (size i : ℕ) (d : Descriptor) (m : Loader) (block : ℕ) (m' : Loader)
    : Type 0 where
  pub block_at : block ≡ (d.base + d.count - new_heap_pages size) * 4096
  pub some_block : block ≢ null
  pub holds : block + size ≡ m'.heap_free
  pub limit : m'.heap_limit + descriptor_size ≡ (d.base + d.count) * 4096
  pub heap : IsHeap m'
  pub descriptors : m'.descriptors ≡ extended size i d m

pub eq_of_is_free : (k : TypeOfMemory) → is_free k ≡ true → k ≡ free
eq_of_is_free free h = refl
eq_of_is_free exception_block h = ground arith
eq_of_is_free _ h = ground arith

module _ (m : Loader) (size i : ℕ) {d : Descriptor} where
  extend_heap_free :
      Bounded d
      → get_elem? m.descriptors i ≡ some d
      → IsRoomy (new_heap_pages size) d
      → (extend_heap size i m).heap_free ≡ (d.base + d.count - new_heap_pages size) * 4096
  unfolding extend_heap
  extend_heap_free b at roomy = rw (descriptor_at-eq m i at) (ground arith)

  extend_heap_limit :
      Bounded d
      → get_elem? m.descriptors i ≡ some d
      → IsRoomy (new_heap_pages size) d
      → (extend_heap size i m).heap_limit + descriptor_size ≡ (d.base + d.count) * 4096
  unfolding extend_heap
  extend_heap_limit b at roomy = rw (descriptor_at-eq m i at) (ground arith)

  extend_heap_descriptors :
      Bounded d
      → get_elem? m.descriptors i ≡ some d
      → IsRoomy (new_heap_pages size) d
      → (extend_heap size i m).descriptors ≡ extended size i d m
  unfolding extend_heap
  extend_heap_descriptors b at roomy = rw (descriptor_at-eq m i at) (ground arith)

  refill-Refilled :
      size + 64 ≤ word
      → size % 8 ≡ 0
      → Bounded d
      → get_elem? m.descriptors i ≡ some d
      → IsRoomy (new_heap_pages size) d
      → first_free (new_heap_pages size) 0 m.descriptors ≡ some i
      → let (block, m') = refill_heap size m in Refilled size i d m block m'
  unfolding refill_heap
  refill-Refilled small round b at roomy found =
      rw (found, refill_heap)
        (ground (
          arith,
          extend_heap_free b at roomy,
          extend_heap_limit b at roomy,
          extend_heap_descriptors b at roomy,
        ))

  -- The pages of the new heap change their kind, and no other page changes.
  pub covered-extended :
      (P : TypeOfMemory → Bool) (page : ℕ)
      → get_elem? m.descriptors i ≡ some d
      → IsRoomy (new_heap_pages size) d
      → let start = d.base + d.count - new_heap_pages size in
        covered P page (extended size i d m)
          + one_if (P free && within page start (new_heap_pages size))
        ≡ covered P page m.descriptors
          + one_if (P osloader_heap && within page start (new_heap_pages size))
  covered-extended P page at roomy = ground (
    arith,
    eq_of_is_free d.kind,
    covered-set P page m.descriptors i (descriptor d.kind d.base (d.count - new_heap_pages size))
        at,
    covered-snoc P page
        (set m.descriptors i (descriptor d.kind d.base (d.count - new_heap_pages size)))
        (descriptor osloader_heap (d.base + d.count - new_heap_pages size) (new_heap_pages size)),
  )

pub NoneRoomy-not :
    (pages i : ℕ) (ds : List Descriptor) {d : Descriptor}
    → NoneRoomy pages ds
    → get_elem? ds i ≡ some d
    → IsRoomy pages d
    → ⊥
NoneRoomy-not pages i [] none_roomy at roomy = cc
NoneRoomy-not pages zero (x ∷ ds) none_roomy at roomy = ground (arith, none_roomy.0)
NoneRoomy-not pages (suc i) (x ∷ ds) none_roomy at roomy =
    NoneRoomy-not pages i ds none_roomy.1 at roomy

-- The heap cannot hold the rounded size, and the address sum does not wrap.
pub record IsFull (size : ℕ) (m : Loader) : Type 0 where
  pub full : m.heap_limit < m.heap_free + round_up size
  pub no_wrap : m.heap_free + size + 64 ≤ word

module _ {m : Loader} (size : ℕ) where
  allocate_heap-full : IsFull size m → allocate_heap size m ≡ refill_heap (round_up size) m
  unfolding allocate_heap
  allocate_heap-full f = ground arith

  -- The heap is full and no free descriptor is large enough: the answer is NULL, and nothing
  -- changes.
  pub allocate_heap-none :
      IsFull size m
      → first_free (new_heap_pages (round_up size)) 0 m.descriptors ≡ none
      → allocate_heap size m ≡ (null, m)
  unfolding refill_heap
  allocate_heap-none f e = allocate_heap-full f ∙ rw (e, refill_heap)

  pub allocate_heap-refill :
      {i : ℕ} {d : Descriptor}
      → IsFull size m
      → AllBounded m.descriptors
      → get_elem? m.descriptors i ≡ some d
      → first_free (new_heap_pages (round_up size)) 0 m.descriptors ≡ some i
      → let (block, m') = allocate_heap size m in Refilled (round_up size) i d m block m'
  allocate_heap-refill {i} {d} f b at found =
      let (x, le, at', roomy) =
        first_free-some (new_heap_pages (round_up size)) 0 m.descriptors found in
      let e : x ≡ d = ground (arith, at, at') in
      let r : IsRoomy (new_heap_pages (round_up size)) d = subst (IsRoomy _) e roomy in
      rw (allocate_heap-full f) (
        refill-Refilled m (round_up size) i (omega arith) (omega arith)
          (AllBounded-get m.descriptors i b at) at r found)
