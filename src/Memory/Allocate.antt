-- ===== src/Memory/Allocate.antt =====
-- `BlAllocateDescriptor` of arcfw/ported/blmemory.c while the heap has room for two descriptors.
use arcpi.Base.{
  ℕ, ◌+◌, ◌-◌, ◌^◌, ◌≤◌, ◌<◌, ◌≡◌, ◌⊎◌, inl, inr, refl, true, Option, none, some, List, arith,
  get_elem?, Status, esuccess, enomem, word,
}
use arcpi.Memory.{
  TypeOfMemory, free, Descriptor, Loader, Choice, exact, best, nothing, encompasses, choose,
  allocate_descriptor,
}
use arcpi.Memory.Cover.{Bounded, AllBounded, page_limit, AllBounded-get}
use arcpi.Memory.Heap.{IsHeap}
use arcpi.Memory.Refill.{NoneRoomy, eq_of_is_free}
use arcpi.Memory.Generate.{IsInside, Carved, generate_descriptor-Carved}
use arcpi.Memory.Choose.{
  IsMember, NoneHolds, NoneSmaller, IsExact, IsBest, choose_exact, choose_best, choose_nothing,
  choose_smallest,
}

-- No free descriptor is large enough, and nothing has changed.
pub record IsRefused (count : ℕ) (m : Loader) (s : Status) (actual : Option ℕ) (m' : Loader)
    : Type 0 where
  pub status : s ≡ enomem
  pub no_base : actual ≡ none
  pub same : m' ≡ m
  pub none_roomy : NoneRoomy count m.descriptors

-- The region from `start` on was granted out of the free descriptor `d`.
pub record IsGranted (kind : TypeOfMemory) (start count : ℕ) (d : Descriptor) (m : Loader)
    (s : Status) (actual : Option ℕ) (m' : Loader) : Type 0 where
  pub status : s ≡ esuccess
  pub actual_base : actual ≡ some start
  pub inside : IsInside start count d
  pub carved : Carved kind start count m m'

-- `d` is a smallest free descriptor with `count` pages, and none holds the region asked for.
pub record IsBestFit (base count start : ℕ) (d : Descriptor) (ds : List Descriptor) : Type 0 where
  pub from_start : start ≡ d.base
  pub smallest : NoneSmaller count d.count ds
  pub none_holds : NoneHolds base count ds

abbrev pub Outcome :
    (kind : TypeOfMemory) (base count : ℕ) → Loader → Status × Option ℕ × Loader → Type 0
Outcome kind base count m (s, actual, m') =
    IsRefused count m s actual m'
    ⊎ ((start : ℕ) × (d : Descriptor) × IsGranted kind start count d m s actual m'
        × ((start ≡ base) ⊎ IsBestFit base count start d m.descriptors))

module _ {m : Loader} (kind : TypeOfMemory) (base count : ℕ) (b : AllBounded m.descriptors)
    (v : IsHeap m) (room : m.heap_free + 48 ≤ m.heap_limit) (base_word : base < word)
    (small : count ≤ 2 ^ 31) where
  member_at :
      {i : ℕ} {d : Descriptor} → IsMember 0 i m.descriptors d → get_elem? m.descriptors i ≡ some d
  member_at {i} x = let e : i - 0 ≡ i = omega arith in rw e at x.at

  exact-IsInside :
      (i : ℕ) {d : Descriptor} → IsExact base count 0 i m.descriptors d → IsInside base count d
  exact-IsInside i {d} x =
      let bd : Bounded d = AllBounded-get m.descriptors i b (member_at x.member) in
      let f : d.kind ≡ free = eq_of_is_free d.kind x.free in
      let above : 0 < d.base = bd.above x.free in
      let fits : d.base + d.count ≤ page_limit = bd.fits in
      let holds : encompasses d base count ≡ true = x.holds in
      record { is_free = f; above = above; from = ground arith; to = ground arith; fits = fits }

  best-IsInside :
      (i : ℕ) {d : Descriptor} → IsBest base count 0 i m.descriptors d → IsInside d.base count d
  best-IsInside i {d} x =
      let bd : Bounded d = AllBounded-get m.descriptors i b (member_at x.member) in
      record {
        is_free = eq_of_is_free d.kind x.free;
        above = bd.above x.free;
        from = omega arith;
        to = omega (arith, x.enough);
        fits = bd.fits;
      }

  exact-Outcome :
      (i : ℕ)
      → choose base count 0 nothing m.descriptors ≡ exact i
      → Outcome kind base count m (allocate_descriptor kind base count m)
  unfolding allocate_descriptor
  exact-Outcome i e =
      rw (e, allocate_descriptor)
        (let (d, x) = choose_exact base count 0 nothing m.descriptors tt e in
          let inside = exact-IsInside i x in
          let (s, c) =
            generate_descriptor-Carved i kind base count b v (member_at x.member) inside room in
          inr (
            base,
            d,
            record { status = s; actual_base = refl; inside = inside; carved = c },
            inl refl,
          ))

  best-Outcome :
      (i : ℕ) (d : Descriptor)
      → choose base count 0 nothing m.descriptors ≡ best i d
      → Outcome kind base count m (allocate_descriptor kind base count m)
  unfolding allocate_descriptor
  best-Outcome i d e =
      rw (e, allocate_descriptor)
        (let x : IsBest base count 0 i m.descriptors d =
            elim (choose_best base count 0 nothing m.descriptors e) [
              | inl old ↦ absurd (cc)
              | inr y ↦ y
            ] in
          let (f, smallest, none_holds) = choose_smallest base count 0 nothing m.descriptors tt e in
          let inside = best-IsInside i x in
          let (s, c) =
            generate_descriptor-Carved i kind d.base count b v (member_at x.member) inside room in
          inr (
            d.base,
            d,
            record { status = s; actual_base = refl; inside = inside; carved = c },
            inr (record { from_start = refl; smallest = smallest; none_holds = none_holds }),
          ))

  nothing-Outcome :
      choose base count 0 nothing m.descriptors ≡ nothing
      → Outcome kind base count m (allocate_descriptor kind base count m)
  unfolding allocate_descriptor
  nothing-Outcome e =
      rw (e, allocate_descriptor)
        (inl (record {
          status = refl;
          no_base = refl;
          same = refl;
          none_roomy = (choose_nothing base count 0 nothing m.descriptors e).1;
        }))

  -- Of an invariant memory map with an invariant heap that has room for two descriptors, and for a
  -- base below 2^32 and a count of at most 2^31 pages (with more, base and count can wrap in the test
  -- of a descriptor), `BlAllocateDescriptor` either answers ENOMEM, and then no free descriptor has
  -- `count` pages and nothing has changed; or it succeeds with a region of `count` free pages, of
  -- which exactly the kind changes, and that region is the one asked for, or it starts a smallest
  -- free descriptor that is large enough and no free descriptor holds the one asked for.
  pub allocate_descriptor-Outcome :
      Outcome kind base count m (allocate_descriptor kind base count m)
  allocate_descriptor-Outcome = by_choice (choose base count 0 nothing m.descriptors) refl
    where
      by_choice :
          (c : Choice)
          → choose base count 0 nothing m.descriptors ≡ c
          → Outcome kind base count m (allocate_descriptor kind base count m)
      by_choice (exact i) e = exact-Outcome i e
      by_choice (best i d) e = best-Outcome i d e
      by_choice nothing e = nothing-Outcome e
