-- ===== src/Memory/Find.antt =====
-- `BlFindMemoryDescriptor` of arcfw/ported/blmemory.c.
use arcpi.Base.{
  ℕ, suc, ◌-◌, ◌≤◌, ◌≡◌, refl, ◌∙◌, Bool, true, false, Option, none, some, List, [], ◌∷◌, arith,
  get_elem?, Bool-cases, inl, inr,
}
use arcpi.Memory.{Descriptor, holds_page, find_memory_descriptor, TypeOfMemory}
use arcpi.Memory.Cover.{within, covered, AllBounded}
use arcpi.Memory.Refill.{get_elem?-past}

abbrev any_kind : TypeOfMemory → Bool
any_kind k = true

-- What the walk from index `i` on answers for a page.
abbrev pub Located : (page i : ℕ) → List Descriptor → Option ℕ → Type 0
Located page i ds none = covered (λ _. true) page ds ≡ 0
Located page i ds (some j) =
    (d : Descriptor) × (i ≤ j)
    × (get_elem? ds (j - i) ≡ some d)
    × (within page d.base d.count ≡ true)

Located-cons :
    (page i : ℕ) (d : Descriptor) (ds : List Descriptor) (r : Option ℕ)
    → within page d.base d.count ≡ false
    → Located page (suc i) ds r
    → Located page i (d ∷ ds) r
unfolding covered
Located-cons page i d ds none out h = ground arith
Located-cons page i d ds (some j) out (x, le, at, w) =
    (x, omega arith, get_elem?-past d ds i j le ∙ at, w)

find_from :
    (page i : ℕ) (ds : List Descriptor)
    → AllBounded ds
    → Located page i ds (find_memory_descriptor page i ds)
unfolding find_memory_descriptor covered
find_from page i [] b = refl
find_from page i (d ∷ ds) b = elim (Bool-cases (holds_page d page)) [
  | inl hit ↦
      let e : i - i ≡ 0 = omega arith in rw hit (d, omega arith, rw e, ground (arith, b.0.fits))
  | inr miss ↦ rw miss (
      Located-cons page i d ds (find_memory_descriptor page (suc i) ds) (ground (arith, b.0.fits))
        (find_from page (suc i) ds b.1))
]

-- `BlFindMemoryDescriptor` finds a descriptor of the list that holds the page, and answers NULL
-- only if no descriptor of the list holds it.
pub find_memory_descriptor-Located :
    (page : ℕ) (ds : List Descriptor)
    → AllBounded ds
    → Located page 0 ds (find_memory_descriptor page 0 ds)
find_memory_descriptor-Located page ds b = find_from page 0 ds b
