-- ===== src/Memory/Choose.antt =====
-- The walk of `BlAllocateDescriptor` in arcfw/ported/blmemory.c: what each of its three ends says
-- of the descriptor list.
use arcpi.Base.{
  ℕ, suc, ◌-◌, ◌≤◌, ◌<◌, ◌≡◌, ◌⊎◌, inl, inr, sym, ◌∙◌, true, false, ◌&&◌, some, List, [], ◌∷◌,
  arith, ltb, leb, if◌then◌else◌, get_elem?, Bool-cases,
}
use mathlib.Core.Path.{subst, subst₂}
use arcpi.Memory.{is_free, Descriptor, Choice, exact, best, nothing, encompasses, better, choose}
use arcpi.Memory.Refill.{NoneRoomy, get_elem?-past}

-- The descriptor with index `j`, where the list starts with index `i`.
pub record IsMember (i j : ℕ) (ds : List Descriptor) (d : Descriptor) : Type 0 where
  pub after : i ≤ j
  pub at : get_elem? ds (j - i) ≡ some d

IsMember-here : (i : ℕ) (d : Descriptor) (ds : List Descriptor) → IsMember i i (d ∷ ds) d
IsMember-here i d ds = let e : i - i ≡ 0 = omega arith in record { after = omega arith; at = rw e }

IsMember-cons :
    {i j : ℕ} {x d : Descriptor} {ds : List Descriptor}
    → IsMember (suc i) j ds d
    → IsMember i j (x ∷ ds) d
IsMember-cons {i} {j} {x} {ds} m = record {
  after = omega arith;
  at = get_elem?-past x ds i j m.after ∙ m.at;
}

-- No free descriptor holds the whole region.
abbrev pub NoneHolds : (base count : ℕ) → List Descriptor → Type 0
NoneHolds base count [] = Unit {0}
NoneHolds base count (d ∷ ds) =
    ((is_free d.kind && encompasses d base count) ≡ false) × NoneHolds base count ds

-- No free descriptor with `count` pages is smaller than `size`.
abbrev pub NoneSmaller : (count size : ℕ) → List Descriptor → Type 0
NoneSmaller count size [] = Unit {0}
NoneSmaller count size (d ∷ ds) =
    (is_free d.kind ≡ true → count ≤ d.count → size ≤ d.count) × NoneSmaller count size ds

-- What the walk has found is at least as large as `size`.
abbrev FoundFrom : ℕ → Choice → Type 0
FoundFrom size (best i d) = size ≤ d.count
FoundFrom size _ = Unit {0}

-- The choice after descriptor `d`.
abbrev step : (count i : ℕ) → Descriptor → Choice → Choice
step count i d found = if is_free d.kind then better count i d found else found

step-best :
    (count i : ℕ) (d : Descriptor) (found : Choice) {j : ℕ} {e : Descriptor}
    → step count i d found ≡ best j e
    → (found ≡ best j e) ⊎ ((j ≡ i) × (e ≡ d) × (is_free d.kind ≡ true) × (count ≤ d.count))
step-best count i d (best k c) h = ground arith
step-best count i d (exact k) h = ground arith
step-best count i d nothing h = ground arith

step-exact :
    (count i : ℕ) (d : Descriptor) (found : Choice) {j : ℕ}
    → step count i d found ≡ exact j
    → found ≡ exact j
step-exact count i d (best k c) h = ground arith
step-exact count i d (exact k) h = ground arith
step-exact count i d nothing h = ground arith

step-nothing :
    (count i : ℕ) (d : Descriptor) (found : Choice)
    → step count i d found ≡ nothing
    → (found ≡ nothing) × (is_free d.kind ≡ true → d.count < count)
step-nothing count i d (best k c) h = ground arith
step-nothing count i d (exact k) h = ground arith
step-nothing count i d nothing h = ground arith

-- The walk never carries an exact hit on.
abbrev pub IsOpen : Choice → Type 0
IsOpen (exact k) = ⊥
IsOpen _ = Unit {0}

step-IsOpen :
    (count i : ℕ) (d : Descriptor) (found : Choice) → IsOpen found → IsOpen (step count i d found)
step-IsOpen count i d found o = elim (Bool-cases (is_free d.kind)) [
  | inl e ↦ rw e (better-IsOpen found o)
  | inr e ↦ rw e o
]
  where
    better-IsOpen : (c : Choice) → IsOpen c → IsOpen (better count i d c)
    better-IsOpen (best k c) o' = elim (Bool-cases (leb count d.count && ltb d.count c.count)) [
      | inl e ↦ rw e tt
      | inr e ↦ rw e tt
    ]
    better-IsOpen (exact k) o' = elim o' [ ]
    better-IsOpen nothing o' = elim (Bool-cases (leb count d.count)) [
      | inl e ↦ rw e tt
      | inr e ↦ rw e tt
    ]

step-from :
    (count i size : ℕ) (d : Descriptor) (found : Choice)
    → IsOpen found
    → FoundFrom size (step count i d found)
    → FoundFrom size found × (is_free d.kind ≡ true → count ≤ d.count → size ≤ d.count)
step-from count i size d (best k c) o h = ground arith
step-from count i size d (exact k) o h = elim o [ ]
step-from count i size d nothing o h = (tt, λ f le. ground arith)

-- What an exact hit is.
pub record IsExact (base count i j : ℕ) (ds : List Descriptor) (d : Descriptor) : Type 0 where
  pub member : IsMember i j ds d
  pub free : is_free d.kind ≡ true
  pub holds : encompasses d base count ≡ true

pub choose_exact :
    (base count i : ℕ) (found : Choice) (ds : List Descriptor) {j : ℕ}
    → IsOpen found
    → choose base count i found ds ≡ exact j
    → (d : Descriptor) × IsExact base count i j ds d
unfolding choose
choose_exact base count i (exact k) [] o h = elim o [ ]
choose_exact base count i (best k c) [] o h = cc
choose_exact base count i nothing [] o h = cc
choose_exact base count i found (d ∷ ds) {j} o h =
    elim (Bool-cases (is_free d.kind && encompasses d base count)) [
      | inl hit ↦ here hit (ground arith)
      | inr miss ↦ there (
          choose_exact base count (suc i) (step count i d found) ds (step-IsOpen count i d found o)
            (ground arith))
    ]
  where
    here :
        (is_free d.kind && encompasses d base count) ≡ true
        → i ≡ j
        → (x : Descriptor) × IsExact base count i j (d ∷ ds) x
    here hit e = (
      d,
      record {
        member = subst (λ k. IsMember i k (d ∷ ds) d) e (IsMember-here i d ds);
        free = ground arith;
        holds = ground arith;
      },
    )

    there :
        (x : Descriptor) × IsExact base count (suc i) j ds x
        → (x : Descriptor) × IsExact base count i j (d ∷ ds) x
    there (x, e) = (x, record { member = IsMember-cons e.member; free = e.free; holds = e.holds })

-- The walk ends with nothing only if no free descriptor has the pages.
pub choose_nothing :
    (base count i : ℕ) (found : Choice) (ds : List Descriptor)
    → choose base count i found ds ≡ nothing
    → (found ≡ nothing) × NoneRoomy count ds
unfolding choose
choose_nothing base count i found [] h = (h, tt)
choose_nothing base count i found (d ∷ ds) h =
    let (e, rest) = choose_nothing base count (suc i) (step count i d found) ds (ground arith) in
    let (e', small) = step-nothing count i d found e in (e', (small, rest))

-- What a best fit is: large enough, no smaller one is, and no descriptor holds the region asked
-- for.
pub record IsBest (base count i j : ℕ) (ds : List Descriptor) (d : Descriptor) : Type 0 where
  pub member : IsMember i j ds d
  pub free : is_free d.kind ≡ true
  pub enough : count ≤ d.count

IsBest-at :
    {base count i j : ℕ} {ds : List Descriptor} {d e : Descriptor}
    → j ≡ i
    → e ≡ d
    → IsBest base count i i ds d
    → IsBest base count i j ds e
IsBest-at {base} {count} {i} {ds = ds} ej ed b =
    subst₂ (λ k x. IsBest base count i k ds x) (sym ej) (sym ed) b

pub choose_best :
    (base count i : ℕ) (found : Choice) (ds : List Descriptor) {j : ℕ} {e : Descriptor}
    → choose base count i found ds ≡ best j e
    → (found ≡ best j e) ⊎ IsBest base count i j ds e
unfolding choose
choose_best base count i found [] h = inl h
choose_best base count i found (d ∷ ds) {j} {e} h =
    later (choose_best base count (suc i) (step count i d found) ds (ground arith))
  where
    later :
        (step count i d found ≡ best j e) ⊎ IsBest base count (suc i) j ds e
        → (found ≡ best j e) ⊎ IsBest base count i j (d ∷ ds) e
    later (inl eq) = elim (step-best count i d found eq) [
      | inl old ↦ inl old
      | inr (ej, ed, f, le) ↦
          inr (IsBest-at ej ed (record { member = IsMember-here i d ds; free = f; enough = le }))
    ]
    later (inr b) =
        inr (record { member = IsMember-cons b.member; free = b.free; enough = b.enough })

pub choose_smallest :
    (base count i : ℕ) (found : Choice) (ds : List Descriptor) {j : ℕ} {e : Descriptor}
    → IsOpen found
    → choose base count i found ds ≡ best j e
    → FoundFrom e.count found × NoneSmaller count e.count ds × NoneHolds base count ds
unfolding choose
choose_smallest base count i found [] o h = (rw h (omega arith), tt, tt)
choose_smallest base count i found (d ∷ ds) {j} {e} o h =
    let (f, small, none_holds) =
      choose_smallest base count (suc i) (step count i d found) ds {j = j} {e = e}
        (step-IsOpen count i d found o) (ground arith) in
    let (f', this) = step-from count i e.count d found o f in
    let miss : (is_free d.kind && encompasses d base count) ≡ false = miss_of h in
    (f', (this, small), (miss, none_holds))
  where
    miss_of :
        choose base count i found (d ∷ ds) ≡ best j e
        → (is_free d.kind && encompasses d base count) ≡ false
    miss_of eq = ground arith
