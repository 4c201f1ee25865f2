-- ===== src/Memory/Startup/Map.antt =====
-- The memory map that `BlMemoryInitialize` (arcfw/ported/blmemory.c) builds.
use arcpi.Base.{
  ℕ, suc, ◌+◌, ◌-◌, ◌≤◌, ◌<◌, ◌≡◌, refl, sym, ◌∙◌, Bool, true, ◌&&◌, Option, none, some, List, [],
  ◌∷◌, arith, ltb, leb, ◌==◌, get_elem?, add32, Bool-cases, inl, inr,
}
use arcpi.Firmware.{MemoryType, MemoryDescriptor}
use arcpi.Memory.{TypeOfMemory, free}
use arcpi.Memory.Cover.{covered, within, one_if, page_limit}
use arcpi.Memory.Refill.{get_elem?-past}
use arcpi.Memory.Startup.{
  loader_type, is_free_type, reserved_pages, find_below, find_large, below_or_large,
  find_heap_memory,
}
use arcpi.Memory.Startup.Copy.{copied, as_descriptors}

-- A free descriptor of the firmware's list that can hold heap and stack.
pub record IsSource (d : MemoryDescriptor) : Type 0 where
  pub free_type : is_free_type d.memory_type ≡ true
  pub enough : reserved_pages ≤ d.page_count

-- Index `j` of a list that starts with index `i`.
abbrev pub FoundSource : (i : ℕ) → List MemoryDescriptor → ℕ × MemoryDescriptor → Type 0
FoundSource i ds (j, d) =
    (i ≤ j) × (get_elem? ds (j - i) ≡ some d) × (is_free_type d.memory_type ≡ true)

FoundSource-here :
    (i j : ℕ) (x d : MemoryDescriptor) (ds : List MemoryDescriptor)
    → is_free_type x.memory_type ≡ true
    → i ≡ j
    → x ≡ d
    → FoundSource i (x ∷ ds) (j, d)
FoundSource-here i j x d ds f e e' =
    let z : j - i ≡ 0 = omega arith in (omega arith, rw z (ground arith), ground arith)

FoundSource-cons :
    (i j : ℕ) (x d : MemoryDescriptor) (ds : List MemoryDescriptor)
    → FoundSource (suc i) ds (j, d)
    → FoundSource i (x ∷ ds) (j, d)
FoundSource-cons i j x d ds (le, at, f) = (omega arith, get_elem?-past x ds i j le ∙ at, f)

find_below-FoundSource :
    (base i : ℕ) (ds : List MemoryDescriptor) (j : ℕ) (d : MemoryDescriptor)
    → find_below base i ds ≡ some (j, d)
    → FoundSource i ds (j, d)
unfolding find_below
find_below-FoundSource base i [] j d e = absurd (cc)
find_below-FoundSource base i (x ∷ ds) j d e =
    elim (Bool-cases (is_free_type x.memory_type && add32 x.base_page x.page_count == base)) [
      | inl hit ↦ FoundSource-here i j x d ds (ground arith) (ground arith) (ground arith)
      | inr miss ↦
          FoundSource-cons i j x d ds (find_below-FoundSource base (suc i) ds j d (ground arith))
    ]

find_large-FoundSource :
    (i : ℕ) (ds : List MemoryDescriptor) (j : ℕ) (d : MemoryDescriptor)
    → find_large i ds ≡ some (j, d)
    → FoundSource i ds (j, d) × (reserved_pages ≤ d.page_count)
unfolding find_large
find_large-FoundSource i [] j d e = absurd (cc)
find_large-FoundSource i (x ∷ ds) j d e =
    elim (Bool-cases (is_free_type x.memory_type && leb reserved_pages x.page_count)) [
      | inl hit ↦
          (FoundSource-here i j x d ds (ground arith) (ground arith) (ground arith), ground arith)
      | inr miss ↦
          let (f, le) = find_large-FoundSource (suc i) ds j d (ground arith) in
          (FoundSource-cons i j x d ds f, le)
    ]

-- What both walks promise of the descriptor with index `j`.
abbrev pub Source : List MemoryDescriptor → (j : ℕ) → MemoryDescriptor → Type 0
Source ds j d = (get_elem? ds j ≡ some d) × IsSource d

Source-of :
    (ds : List MemoryDescriptor) (j : ℕ) (d : MemoryDescriptor)
    → FoundSource 0 ds (j, d)
    → reserved_pages ≤ d.page_count
    → Source ds j d
Source-of ds j d (le, at, f) enough =
    let z : j - 0 ≡ j = omega arith in (rw z at at, record { free_type = f; enough = enough })

large-Source :
    (ds : List MemoryDescriptor) (j : ℕ) (d : MemoryDescriptor)
    → find_large 0 ds ≡ some (j, d)
    → Source ds j d
large-Source ds j d e =
    let (f, enough) = find_large-FoundSource 0 ds j d e in Source-of ds j d f enough

below_or_large-Source :
    (ds : List MemoryDescriptor) (o : Option (ℕ × MemoryDescriptor)) (j : ℕ) (d : MemoryDescriptor)
    → ((k : ℕ) (x : MemoryDescriptor) → o ≡ some (k, x) → FoundSource 0 ds (k, x))
    → below_or_large o ds ≡ some (j, d)
    → Source ds j d
unfolding below_or_large
below_or_large-Source ds none j d below e = large-Source ds j d e
below_or_large-Source ds (some (k, x)) j d below e =
    elim (Bool-cases (ltb x.page_count reserved_pages)) [
      | inl small ↦ large-Source ds j d (ground arith)
      | inr fits ↦ Source-of ds j d (below j d (ground arith)) (ground arith)
    ]

pub find_heap_memory-Source :
    (base : ℕ) (ds : List MemoryDescriptor) (j : ℕ) (d : MemoryDescriptor)
    → find_heap_memory base ds ≡ some (j, d)
    → Source ds j d
unfolding find_heap_memory
find_heap_memory-Source base ds j d e =
    below_or_large-Source ds (find_below base 0 ds) j d (find_below-FoundSource base 0 ds) e

pub free-of-type : (t : MemoryType) → is_free_type t ≡ true → loader_type t ≡ free
unfolding loader_type
free-of-type MemoryType.free h = refl
free-of-type MemoryType.free_contiguous h = refl
free-of-type _ h = ground arith

module _ (P : TypeOfMemory → Bool) (page : ℕ) where
  covered-copied_past :
      (chosen i : ℕ) (ds : List MemoryDescriptor)
      → chosen < i
      → covered P page (copied chosen i ds) ≡ covered P page (as_descriptors ds)
  unfolding covered copied
  covered-copied_past chosen i [] h = refl
  covered-copied_past chosen i (x ∷ ds) h = ground (arith, covered-copied_past chosen (suc i) ds)

  -- The copies lack the last pages of the chosen descriptor.
  pub covered-copied :
      (chosen i : ℕ) (ds : List MemoryDescriptor) {d : MemoryDescriptor}
      → i ≤ chosen
      → get_elem? ds (chosen - i) ≡ some d
      → IsSource d
      → d.base_page + d.page_count ≤ page_limit
      → covered P page (copied chosen i ds)
          + one_if
              (P free && within page (d.base_page + d.page_count - reserved_pages) reserved_pages)
        ≡ covered P page (as_descriptors ds)
  unfolding covered copied
  covered-copied chosen i [] le at source fits = absurd (cc)
  covered-copied chosen i (x ∷ ds) {d} le at source fits = elim (Bool-cases (i == chosen)) [
    | inl here ↦
        let z : chosen - i ≡ 0 = ground arith in
        let first : some x ≡ some d = rw z at at in
        let e : x ≡ d = ground arith in
        rw (here, covered-copied_past chosen (suc i) ds (ground arith), e)
          (ground (arith, free-of-type d.memory_type source.free_type, source.enough))
    | inr past ↦
        let lt : i < chosen = ground arith in
        rw past (
          omega (
            arith,
            covered-copied chosen (suc i) ds lt (sym (get_elem?-past x ds i chosen lt) ∙ at) source
                fits,
          ))
  ]
