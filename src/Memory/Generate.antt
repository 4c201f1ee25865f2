-- ===== src/Memory/Generate.antt =====
-- `BlGenerateDescriptor` of arcfw/ported/blmemory.c while the heap has room for the descriptors
-- that it makes.
use arcpi.Base.{
  ℕ, ◌+◌, ◌-◌, ◌≤◌, ◌<◌, ◌≡◌, inl, inr, refl, ◌∙◌, Bool, false, ◌&&◌, some, [], ◌∷◌, ◌++◌, arith,
  ◌==◌, get_elem?, add32, sub32, get_elem?-append_left, get_elem?-lt, Bool-cases, esuccess,
}
use arcpi.Memory.{
  TypeOfMemory, free, Descriptor, descriptor, Loader, null, descriptor_size, descriptor_at,
  put_descriptor, insert_tail, allocate_heap, split_descriptor, trim_descriptor,
  generate_descriptor,
}
use arcpi.Memory.Cover.{
  covered, weight, within, one_if, Moves, Bounded, AllBounded, page_limit, covered-snoc,
  covered-set, AllBounded-set, AllBounded-snoc, descriptor_at-eq,
}
use arcpi.Memory.Heap.{IsHeap, HasRoom, Allotted, allocate_heap-Allotted}

-- The region lies in the free descriptor `d`.
pub record IsInside (base count : ℕ) (d : Descriptor) : Type 0 where
  pub is_free : d.kind ≡ free
  pub above : 0 < d.base
  pub from : d.base ≤ base
  pub to : base + count ≤ d.base + d.count
  pub fits : d.base + d.count ≤ page_limit

-- The list and the heap after a region has been taken out of the free pages.
pub record Removed (base count : ℕ) (m m' : Loader) : Type 0 where
  pub bounded : AllBounded m'.descriptors
  pub heap : IsHeap m'
  pub used : m'.heap_free ≤ m.heap_free + 24
  pub kept : m.heap_free ≤ m'.heap_free
  pub limit : m'.heap_limit ≡ m.heap_limit
  pub removes :
      (P : TypeOfMemory → Bool) (page : ℕ)
      → covered P page m'.descriptors + one_if (P free && within page base count)
        ≡ covered P page m.descriptors

module _ {m : Loader} (i base count : ℕ) {d : Descriptor} (b : AllBounded m.descriptors)
    (v : IsHeap m) (at : get_elem? m.descriptors i ≡ some d) (inside : IsInside base count d) where
  put-Removed :
      (e : Descriptor)
      → Bounded e
      → ((P : TypeOfMemory → Bool) (page : ℕ)
          → weight P page e + one_if (P free && within page base count) ≡ weight P page d)
      → Removed base count m (put_descriptor i e m)
  put-Removed e be w = record {
    bounded = AllBounded-set m.descriptors i e b be;
    heap = record {
      aligned = v.aligned;
      positive = v.positive;
      ordered = v.ordered;
      reserve = v.reserve;
    };
    used = omega arith;
    kept = omega arith;
    limit = refl;
    removes = λ P page. omega (arith, covered-set P page m.descriptors i e at, w P page);
  }

  trim_start-Removed :
      base ≡ d.base
      → Removed base count m
          (put_descriptor i (record d { base = add32 d.base count; count = sub32 d.count count }) m)
  trim_start-Removed e =
      put-Removed _ (record { fits = ground arith; above = λ h. ground arith })
        (λ P page. ground arith)

  trim_end-Removed :
      base + count ≡ d.base + d.count
      → Removed base count m (put_descriptor i (record d { count = sub32 d.count count }) m)
  trim_end-Removed e =
      put-Removed _ (record { fits = ground arith; above = λ h. ground arith })
        (λ P page. ground arith)

  -- What `split_descriptor` does once it has its block, in a heap `m₁` with the same list.
  tail-Removed :
      {block : ℕ} {m₁ : Loader}
      → Allotted descriptor_size m block m₁
      → d.base < base
      → base + count < d.base + d.count
      → Removed base count m (
          put_descriptor i
            (record d { count = base - d.base })
            (insert_tail
              (descriptor free (add32 base count) (sub32 d.count (add32 count (base - d.base))))
              m₁))
  tail-Removed {m₁} a before behind =
      let tail = descriptor free (add32 base count) (sub32 d.count (add32 count (base - d.base))) in
      let front = descriptor d.kind d.base (base - d.base) in
      let at₁ : get_elem? (m₁.descriptors ++ (tail ∷ [])) i ≡ some d = rw a.same (
        get_elem?-append_left m.descriptors (tail ∷ []) i (get_elem?-lt m.descriptors i at) ∙ at) in
      record {
        bounded =
            AllBounded-set _ i front
              (AllBounded-snoc _ tail (rw a.same b)
                (record { fits = ground arith; above = λ h. ground arith }))
              (record { fits = ground arith; above = λ h. ground arith });
        heap = record {
          aligned = a.heap.aligned;
          positive = a.heap.positive;
          ordered = a.heap.ordered;
          reserve = a.heap.reserve;
        };
        used = ground (arith, a.moved);
        kept = ground (arith, a.moved);
        limit = a.limit;
        removes = λ P page. ground (
          arith,
          covered-set P page (m₁.descriptors ++ (tail ∷ [])) i front at₁,
          covered-snoc P page m₁.descriptors tail,
          a.same,
        );
      }

  split-Removed :
      HasRoom descriptor_size m
      → d.base < base
      → base + count < d.base + d.count
      → let (s, m') = split_descriptor i base count (base - d.base) m in
        (s ≡ esuccess) × Removed base count m m'
  unfolding split_descriptor
  split-Removed room before behind =
      let a = allocate_heap-Allotted descriptor_size v (omega arith) room in
      let same : descriptor_at i (allocate_heap descriptor_size m).1 ≡ d =
        descriptor_at-eq (allocate_heap descriptor_size m).1 i (rw a.same at) in
      let got : ((allocate_heap descriptor_size m).0 == null) ≡ false =
        ground (arith, a.some_block) in
      rw (got, same) (refl, tail-Removed a before behind)

  trim-Removed :
      HasRoom descriptor_size m
      → let (s, m') = trim_descriptor i base count (base - d.base) m in
        (s ≡ esuccess) × Removed base count m m'
  unfolding trim_descriptor
  trim-Removed room = rw (descriptor_at-eq m i at) (elim (Bool-cases (base == d.base)) [
    | inl e ↦ rw e (refl, trim_start-Removed (ground arith))
    | inr ne ↦ rw ne (elim (Bool-cases (add32 (base - d.base) count == d.count)) [
      | inl e ↦ rw e (refl, trim_end-Removed (ground arith))
      | inr ne' ↦ rw ne' (split-Removed room (ground arith) (ground arith))
    ])
  ])

-- What `BlGenerateDescriptor` leaves behind: the region has its new kind.
pub record Carved (kind : TypeOfMemory) (base count : ℕ) (m m' : Loader) : Type 0 where
  pub bounded : AllBounded m'.descriptors
  pub heap : IsHeap m'
  pub used : m'.heap_free ≤ m.heap_free + 48
  pub moves : Moves free kind base count m.descriptors m'.descriptors

module _ {m : Loader} (i : ℕ) (kind : TypeOfMemory) (base count : ℕ) {d : Descriptor}
    (b : AllBounded m.descriptors) (v : IsHeap m) (at : get_elem? m.descriptors i ≡ some d)
    (inside : IsInside base count d) where
  whole-Carved :
      base ≡ d.base
      → count ≡ d.count
      → Carved kind base count m (put_descriptor i (record d { kind = kind }) m)
  whole-Carved e e' =
      let new = descriptor kind d.base d.count in
      record {
        bounded =
            AllBounded-set m.descriptors i new b
              (record { fits = inside.fits; above = λ h. inside.above });
        heap = record {
          aligned = v.aligned;
          positive = v.positive;
          ordered = v.ordered;
          reserve = v.reserve;
        };
        used = omega arith;
        moves = λ P page. ground (arith, covered-set P page m.descriptors i new at);
      }

  part-Carved :
      {block : ℕ} {m₁ m' : Loader}
      → Allotted descriptor_size m block m₁
      → Removed base count (insert_tail (descriptor kind base count) m₁) m'
      → Carved kind base count m m'
  part-Carved {m₁} a r = record {
    bounded = r.bounded;
    heap = r.heap;
    used = ground (arith, a.moved, r.used);
    moves = λ P page. ground (
      arith,
      r.removes P page,
      covered-snoc P page m₁.descriptors (descriptor kind base count),
      a.same,
    );
  }

  rest-Carved :
      m.heap_free + 48 ≤ m.heap_limit
      → let (block, m₁) = allocate_heap descriptor_size m in
        let (s, m') =
          trim_descriptor i base count
            (base - d.base)
            (insert_tail (descriptor kind base count) m₁) in
        (s ≡ esuccess) × Carved kind base count m m'
  rest-Carved room =
      let a = allocate_heap-Allotted descriptor_size v (omega arith) (omega arith) in
      let new = descriptor kind base count in
      let m₁ = (allocate_heap descriptor_size m).1 in
      let at₁ : get_elem? (m₁.descriptors ++ (new ∷ [])) i ≡ some d =
        rw a.same (
          get_elem?-append_left m.descriptors (new ∷ []) i (get_elem?-lt m.descriptors i at)
          ∙ at) in
      let b₁ : AllBounded (m₁.descriptors ++ (new ∷ [])) =
        AllBounded-snoc m₁.descriptors new (rw a.same b)
          (record { fits = omega arith; above = λ h. omega arith }) in
      let v₁ : IsHeap (insert_tail new m₁) = record {
        aligned = a.heap.aligned;
        positive = a.heap.positive;
        ordered = a.heap.ordered;
        reserve = a.heap.reserve;
      } in
      let r =
        trim-Removed {m = insert_tail new m₁} i base count b₁ v₁ at₁ inside
          (ground (arith, a.moved, a.limit)) in
      (r.0, part-Carved a r.1)

  -- While the heap has room for two descriptors, `BlGenerateDescriptor` on a region inside a free
  -- descriptor succeeds, keeps the invariants of list and heap, and changes the kind of exactly
  -- the region's pages.
  pub generate_descriptor-Carved :
      m.heap_free + 48 ≤ m.heap_limit
      → let (s, m') = generate_descriptor i kind base count m in
        (s ≡ esuccess) × Carved kind base count m m'
  unfolding generate_descriptor
  generate_descriptor-Carved room =
      let a = allocate_heap-Allotted descriptor_size v (omega arith) (omega arith) in
      let got : ((allocate_heap descriptor_size m).0 == null) ≡ false =
        ground (arith, a.some_block) in
      let off : sub32 base d.base ≡ base - d.base = omega arith in
      rw (descriptor_at-eq m i at, off)
        (elim (Bool-cases ((base - d.base) == 0 && count == d.count)) [
          | inl e ↦ rw e (refl, whole-Carved (ground arith) (ground arith))
          | inr ne ↦ rw (ne, got) (rest-Carved room)
        ])
