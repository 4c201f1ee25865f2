-- ===== src/Fat/Directory/Reference.antt =====
-- The entries of a directory in their order, for `FatSearchForDirent` of arcfw/ported/fatboot.c: the
-- search as one pass over the disk addresses of the entries.
use arcpi.Base.{
  ℕ, zero, suc, ◌+◌, ◌*◌, ◌≤◌, ◌<◌, ◌≡◌, ◌⊎◌, refl, sym, ap, ◌∙◌, Bool, true, false, Bool-cases,
  inl, inr, ◌==◌, if◌then◌else◌, arith, List, [], ◌∷◌, ◌++◌,
}
use arcpi.Runtime.{Memory}
use arcpi.Fat.Directory.{names_equal, is_match, Scan, found, ended, more, at, scan}

-- The addresses of `n` entries from `p` on, and of `n` blocks of 16 entries.
abbrev pub entries_from : (n p : ℕ) → List ℕ
entries_from zero p = []
entries_from (suc n) p = p ∷ entries_from n (p + 32)

abbrev pub blocks_from : (n p : ℕ) → List ℕ
blocks_from zero p = []
blocks_from (suc n) p = entries_from 16 p ++ blocks_from n (p + 512)

-- The first entry that matches, if none before it was never used.
unfoldable pub first_match : (root : Bool) → (name m : Memory) → List ℕ → Scan
first_match root name m [] = more
first_match root name m (p ∷ ps) =
    let rest = first_match root name m ps in
    if is_match root name (at p m) then found p else if m p == 0 then ended else rest

abbrev pub placed : (lbo : ℕ) → Scan → Scan
placed lbo (found i) = found (lbo + i * 32)
placed lbo ended = ended
placed lbo more = more

abbrev pub after : Scan → Scan → Scan
after (found i) s = found i
after ended s = ended
after more s = s

pub Scan-cases : (r : Scan) → ((i : ℕ) × (r ≡ found i)) ⊎ (r ≡ ended) ⊎ (r ≡ more)
Scan-cases (found i) = inl (i, refl)
Scan-cases ended = inr (inl refl)
Scan-cases more = inr (inr refl)

-- Where a look at a block stops is in the block.
abbrev pub Inside : Scan → Type 0
Inside (found i) = i < 16
Inside ended = Unit {0}
Inside more = Unit {0}

after-if :
    (c d : Bool) (p : ℕ) (r s : Scan)
    → (if c then found p else if d then ended else after r s)
      ≡ after (if c then found p else if d then ended else r) s
after-if true d p r s = refl
after-if false true p r s = refl
after-if false false p r s = refl

placed-if :
    (c d : Bool) (lbo i : ℕ) (r : Scan)
    → (if c then found (lbo + i * 32) else if d then ended else placed lbo r)
      ≡ placed lbo (if c then found i else if d then ended else r)
placed-if true d lbo i r = refl
placed-if false true lbo i r = refl
placed-if false false lbo i r = refl

pub first_match-nothing : (root : Bool) (name m : Memory) → first_match root name m [] ≡ more
unfolding first_match
first_match-nothing root name m = refl

pub first_match-append :
    (root : Bool) (name m : Memory) (xs ys : List ℕ)
    → first_match root name m (xs ++ ys)
      ≡ after (first_match root name m xs) (first_match root name m ys)
unfolding first_match
first_match-append root name m [] ys = refl
first_match-append root name m (x ∷ xs) ys =
    ap (λ r. if is_match root name (at x m) then found x else if m x == 0 then ended else r)
      (first_match-append root name m xs ys)
    ∙ after-if (is_match root name (at x m)) (m x == 0) x (first_match root name m xs)
        (first_match root name m ys)

names_equal-cong :
    (n : ℕ) (x y name : Memory)
    → ((q : ℕ) → q < n → x q ≡ y q)
    → names_equal n x name ≡ names_equal n y name
unfolding names_equal
names_equal-cong zero x y name h = refl
names_equal-cong (suc n) x y name h =
    rw (h n (omega arith), names_equal-cong n x y name (λ q lt. h q (omega (arith, lt)))) refl

is_match-cong :
    (root : Bool) (name x y : Memory)
    → ((q : ℕ) → q < 32 → x q ≡ y q)
    → is_match root name x ≡ is_match root name y
unfolding is_match
is_match-cong root name x y h =
    rw (h 11 (omega arith), names_equal-cong 11 x y name (λ q lt. h q (omega (arith, lt)))) refl

module _ (root : Bool) (name m buffer : Memory) (lbo : ℕ)
    (same : (q : ℕ) → q < 512 → buffer q ≡ m (lbo + q)) where
  pub entry_same :
      (i : ℕ) → i < 16 → (q : ℕ) → q < 32 → at (i * 32) buffer q ≡ at (lbo + i * 32) m q
  entry_same i lt q q_lt = same (i * 32 + q) (omega (arith, lt, q_lt)) ∙ ap m (omega arith)

  -- The look at a block finds what the pass over its entries finds.
  pub first_match-scan :
      (n i : ℕ)
      → i + n ≤ 16
      → first_match root name m (entries_from n (lbo + i * 32))
        ≡ placed lbo (scan root name n i buffer)
  unfolding first_match scan
  first_match-scan zero i le = refl
  first_match-scan (suc n) i le =
      let here = entry_same i (omega (arith, le)) in
      let first : m (lbo + i * 32) ≡ buffer (i * 32) = sym (same (i * 32) (omega (arith, le))) in
      let next : lbo + i * 32 + 32 ≡ lbo + suc i * 32 = omega arith in
      rw
        (
          sym (is_match-cong root name (at (i * 32) buffer) (at (lbo + i * 32) m) here),
          first,
          next,
          first_match-scan n (suc i) (omega (arith, le)),
        )
        (placed-if (is_match root name (at (i * 32) buffer)) (buffer (i * 32) == 0) lbo i
          (scan root name n (suc i) buffer))

  pub scan-Inside : (n i : ℕ) → i + n ≤ 16 → Inside (scan root name n i buffer)
  unfolding scan
  scan-Inside zero i le = tt
  scan-Inside (suc n) i le =
      let rest = scan-Inside n (suc i) (omega (arith, le)) in
      elim (Bool-cases (is_match root name (at (i * 32) buffer))) [
        | inl e ↦ rw e (omega (arith, le))
        | inr e ↦ elim (Bool-cases (buffer (i * 32) == 0)) [
          | inl z ↦ rw (e, z) tt
          | inr z ↦ rw (e, z) rest
        ]
      ]
