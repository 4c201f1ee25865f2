-- ===== src/Runtime/Search.antt =====
-- `strstr` of arcfw/arm/clib.c, on the strings of Runtime/Strings.
use arcpi.Base.{
  ℕ, zero, suc, ◌-◌, ◌≤◌, ◌<◌, ◌≡◌, ◌↔◌, refl, sym, ap, ◌∙◌, true, false, ◌&&◌, List, [], ◌∷◌,
  arith, ◌==◌, if◌then◌else◌, Bool-cases, inl, inr, ℤ, pos, negsuc, ==_iff, Option, none, some,
  length, take, drop, get_or,
}
use arcpi.Runtime.Strings.{IsString, is_zero, strncmp, strncmp-zero_iff}

-- `strstr`: the positions of the haystack, from `i` on.
pub strstr_from : (i : ℕ) → List ℕ → (needle : List ℕ) → Option ℕ
strstr_from i [] needle = none
strstr_from i (c ∷ cs) needle =
    let rest = strstr_from (suc i) cs needle in
    if c == get_or needle 0 0 && is_zero (strncmp (c ∷ cs) needle (length needle))
    then some i
    else rest

pub strstr : List ℕ → List ℕ → Option ℕ
unfolding strstr_from
strstr cs needle = if length needle == 0 then some 0 else strstr_from 0 cs needle

-- The needle stands at position `i`.
abbrev pub Occurs : (needle cs : List ℕ) (i : ℕ) → Type 0
Occurs needle cs i = take (length needle) (drop i cs) ≡ needle

-- What a search of `cs`, whose first byte is at position `from`, should answer.
abbrev pub Found : (from : ℕ) (needle cs : List ℕ) → Option ℕ → Type 0
Found from needle cs none = (j : ℕ) → j < length cs → ¬ (Occurs needle cs j)
Found from needle cs (some p) =
    (from ≤ p)
    × (p - from < length cs)
    × Occurs needle cs (p - from)
    × ((j : ℕ) → j < p - from → ¬ (Occurs needle cs j))

is_zero_iff : (z : ℤ) → (is_zero z ≡ true) ↔ (z ≡ pos 0)
is_zero_iff (pos zero) = (λ e. refl, λ e. refl)
is_zero_iff (pos (suc n)) = (λ e. absurd cc, λ e. absurd (ground (arith, e)))
is_zero_iff (negsuc n) = (λ e. absurd cc, λ e. absurd cc)

take-length : (cs : List ℕ) → take (length cs) cs ≡ cs
take-length [] = refl
take-length (c ∷ cs) = ap (λ k. c ∷ k) (take-length cs)

hit_iff :
    (c : ℕ) (cs needle : List ℕ)
    → IsString (c ∷ cs)
    → IsString needle
    → 0 < length needle
    → ((c == get_or needle 0 0 && is_zero (strncmp (c ∷ cs) needle (length needle))) ≡ true)
      ↔ Occurs needle (c ∷ cs) 0
hit_iff c cs [] s t h = elim h [ ]
hit_iff c cs (d ∷ ds) s t h =
    let whole = strncmp-zero_iff (c ∷ cs) (d ∷ ds) (suc (length ds)) s t in
    let zero_at = is_zero_iff (strncmp (c ∷ cs) (d ∷ ds) (suc (length ds))) in
    let all = take-length (d ∷ ds) in
    (
      λ e. whole.0 (zero_at.0 (ground arith)) ∙ all,
      λ o.
          let first : c ≡ d = cc in
          let both : is_zero (strncmp (c ∷ cs) (d ∷ ds) (suc (length ds))) ≡ true =
            zero_at.1 (whole.1 (o ∙ sym all)) in
          rw ((==_iff c d).1 first, both) refl,
    )

-- One position more in front, where the needle does not stand.
Found-later :
    (from c : ℕ) (cs needle : List ℕ) (r : Option ℕ)
    → ¬ (Occurs needle (c ∷ cs) 0)
    → Found (suc from) needle cs r
    → Found from needle (c ∷ cs) r
Found-later from c cs needle none miss f = later
  where
    later : (j : ℕ) → j < length (c ∷ cs) → ¬ (Occurs needle (c ∷ cs) j)
    later zero lt = miss
    later (suc j) lt = f j (omega arith)
Found-later from c cs needle (some p) miss (le, lt, here, before) =
    let e : p - from ≡ suc (p - suc from) = omega arith in
    (omega arith, omega arith, rw e here, rw e earlier)
  where
    earlier : (j : ℕ) → j < suc (p - suc from) → ¬ (Occurs needle (c ∷ cs) j)
    earlier zero h = miss
    earlier (suc j) h = before j (omega arith)

strstr_from-Found :
    (from : ℕ) (cs needle : List ℕ)
    → IsString cs
    → IsString needle
    → 0 < length needle
    → Found from needle cs (strstr_from from cs needle)
unfolding strstr_from
strstr_from-Found from [] needle s t h = λ j lt. elim lt [ ]
strstr_from-Found from (c ∷ cs) needle s t h =
    let hit = c == get_or needle 0 0 && is_zero (strncmp (c ∷ cs) needle (length needle)) in
    let is_hit = hit_iff c cs needle s t h in
    let none_before : from - from ≡ 0 = omega arith in
    elim (Bool-cases hit) [
      | inl e ↦ rw (e, none_before) (omega arith, omega arith, is_hit.0 e, λ j lt. elim lt [ ])
      | inr ne ↦ rw ne (
          Found-later from c cs needle (strstr_from (suc from) cs needle)
            (λ o. let b = is_hit.1 o in absurd cc) (strstr_from-Found (suc from) cs needle s.1 t h))
    ]

-- `strstr` answers the first position at which the needle stands, and NULL only if there is none, for a
-- needle that is not empty.
pub strstr-Found :
    (cs needle : List ℕ)
    → IsString cs
    → IsString needle
    → 0 < length needle
    → Found 0 needle cs (strstr cs needle)
unfolding strstr
strstr-Found cs needle s t h =
    let some_byte : (length needle == 0) ≡ false = ground arith in
    rw some_byte (strstr_from-Found 0 cs needle s t h)
