-- ===== src/Memory/Cover.antt =====
-- Which pages a descriptor list describes, and how often: the measure by which the operations of
-- arcfw/ported/blmemory.c are judged. Pages are counted for the kinds that a test `P` accepts, so
-- that one law speaks of the free pages, of the pages of any other kind, and of all pages.
use arcpi.Base.{
  ℕ, zero, suc, ◌+◌, ◌≤◌, ◌<◌, ◌≡◌, Bool, true, ◌&&◌, some, List, [], ◌∷◌, ◌++◌, arith, ltb, leb,
  if◌then◌else◌, get_elem?, get_or, set, ◌^◌,
}
use arcpi.Memory.{
  TypeOfMemory, Descriptor, is_free, Loader, descriptor_at, descriptor, exception_block,
}

-- `page` is one of the `count` pages from `base` on.
abbrev pub within : (page base count : ℕ) → Bool
within page base count = leb base page && ltb page (base + count)

abbrev pub one_if : Bool → ℕ
one_if b = if b then 1 else 0

-- 1 if the descriptor has an accepted kind and holds the page.
abbrev pub weight : (TypeOfMemory → Bool) → ℕ → Descriptor → ℕ
weight P page d = one_if (P d.kind && within page d.base d.count)

-- How many descriptors of an accepted kind hold the page.
unfoldable pub covered : (TypeOfMemory → Bool) → ℕ → List Descriptor → ℕ
covered P page [] = 0
covered P page (d ∷ ds) = weight P page d + covered P page ds

-- From list `ds` to list `es`, the `count` pages from `start` on turn from kind `from` into kind
-- `to`, and no page changes otherwise.
abbrev pub Moves :
    (from to : TypeOfMemory) (start count : ℕ) → List Descriptor → List Descriptor → Type 0
Moves from to start count ds es =
    (P : TypeOfMemory → Bool) (page : ℕ)
    → covered P page es + one_if (P from && within page start count)
      ≡ covered P page ds + one_if (P to && within page start count)

-- The pages of the 32-bit address space.
abbrev pub page_limit : ℕ
page_limit = 2 ^ 20

-- The region ends within the address space, and page 0 is not free memory.
pub record Bounded (d : Descriptor) : Type 0 where
  pub fits : d.base + d.count ≤ page_limit
  pub above : is_free d.kind ≡ true → 0 < d.base

abbrev pub AllBounded : List Descriptor → Type 0
AllBounded [] = Unit {0}
AllBounded (d ∷ ds) = Bounded d × AllBounded ds

module _ (P : TypeOfMemory → Bool) (page : ℕ) where
  pub covered-append :
      (ds es : List Descriptor) → covered P page (ds ++ es) ≡ covered P page ds + covered P page es
  unfolding covered
  covered-append [] es = omega arith
  covered-append (d ∷ ds) es = omega (arith, covered-append ds es)

  pub covered-snoc :
      (ds : List Descriptor) (e : Descriptor)
      → covered P page (ds ++ (e ∷ [])) ≡ covered P page ds + weight P page e
  unfolding covered
  covered-snoc [] e = omega arith
  covered-snoc (d ∷ ds) e = omega (arith, covered-snoc ds e)

  pub covered-set :
      (ds : List Descriptor) (i : ℕ) {d : Descriptor} (e : Descriptor)
      → get_elem? ds i ≡ some d
      → covered P page (set ds i e) + weight P page d ≡ covered P page ds + weight P page e
  unfolding covered
  covered-set [] i e h = ground arith
  covered-set (x ∷ ds) zero e h = ground arith
  covered-set (x ∷ ds) (suc i) e h = omega (arith, covered-set ds i e h)

pub AllBounded-get :
    (ds : List Descriptor) (i : ℕ) {d : Descriptor}
    → AllBounded ds
    → get_elem? ds i ≡ some d
    → Bounded d
AllBounded-get [] i b h = ground arith
AllBounded-get (x ∷ ds) zero b h = ground arith
AllBounded-get (x ∷ ds) (suc i) b h = AllBounded-get ds i b.1 h

pub AllBounded-set :
    (ds : List Descriptor) (i : ℕ) (e : Descriptor)
    → AllBounded ds
    → Bounded e
    → AllBounded (set ds i e)
AllBounded-set [] i e b h = tt
AllBounded-set (x ∷ ds) zero e b h = (h, b.1)
AllBounded-set (x ∷ ds) (suc i) e b h = (b.0, AllBounded-set ds i e b.1 h)

pub AllBounded-snoc :
    (ds : List Descriptor) (e : Descriptor)
    → AllBounded ds
    → Bounded e
    → AllBounded (ds ++ (e ∷ []))
AllBounded-snoc [] e b h = (h, tt)
AllBounded-snoc (x ∷ ds) e b h = (b.0, AllBounded-snoc ds e b.1 h)

get_or-eq :
    (ds : List Descriptor) (i : ℕ) (c : Descriptor) {d : Descriptor}
    → get_elem? ds i ≡ some d
    → get_or ds i c ≡ d
get_or-eq [] i c h = ground arith
get_or-eq (x ∷ ds) zero c h = ground arith
get_or-eq (x ∷ ds) (suc i) c h = get_or-eq ds i c h

pub descriptor_at-eq :
    (m : Loader) (i : ℕ) {d : Descriptor}
    → get_elem? m.descriptors i ≡ some d
    → descriptor_at i m ≡ d
descriptor_at-eq m i h = get_or-eq m.descriptors i (descriptor exception_block 0 0) h
