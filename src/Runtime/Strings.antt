-- ===== src/Runtime/Strings.antt =====
-- The string comparisons of arcfw/arm/clib.c.
--
-- A string is its bytes before the NUL, which the routines read as 0 behind the last byte. A
-- pointer into a string is the number of bytes before it.
use arcpi.Base.{
  ℕ, zero, suc, ◌+◌, ◌-◌, ◌<◌, ◌≡◌, ◌↔◌, refl, Bool, true, false, ◌&&◌, List, [], ◌∷◌, arith, leb,
  ◌==◌, if◌then◌else◌, Bool-cases, inl, inr, ℤ, pos, negsuc, sub_ℕ, sub_ℕ-zero, ==_iff, take,
}

-- A byte that can stand in a string.
abbrev pub IsString : List ℕ → Type 0
IsString [] = Unit {0}
IsString (c ∷ cs) = (0 < c) × IsString cs

pub strcmp : List ℕ → List ℕ → ℤ
strcmp [] [] = pos 0
strcmp [] (d ∷ ds) = sub_ℕ 0 d
strcmp (c ∷ cs) [] = sub_ℕ c 0
strcmp (c ∷ cs) (d ∷ ds) = let rest = strcmp cs ds in if c == d then rest else sub_ℕ c d

pub strncmp : List ℕ → List ℕ → (n : ℕ) → ℤ
strncmp cs ds zero = pos 0
strncmp [] [] (suc n) = pos 0
strncmp [] (d ∷ ds) (suc n) = sub_ℕ 0 d
strncmp (c ∷ cs) [] (suc n) = sub_ℕ c 0
strncmp (c ∷ cs) (d ∷ ds) (suc n) = let rest = strncmp cs ds n in if c == d then rest else sub_ℕ c d

pub lower : ℕ → ℕ
lower c = if leb 0x41 c && leb c 0x5a then c - 0x41 + 0x61 else c

unfoldable pub stricmp : List ℕ → List ℕ → ℤ
unfolding lower
stricmp [] [] = pos 0
stricmp [] (d ∷ ds) = sub_ℕ 0 (lower d)
stricmp (c ∷ cs) [] = sub_ℕ (lower c) 0
stricmp (c ∷ cs) (d ∷ ds) =
    let rest = stricmp cs ds in if lower c == lower d then rest else sub_ℕ (lower c) (lower d)

abbrev pub is_zero : ℤ → Bool
is_zero (pos zero) = true
is_zero (pos (suc n)) = false
is_zero (negsuc n) = false

tail_eq : {c d : ℕ} {cs ds : List ℕ} → c ∷ cs ≡ d ∷ ds → cs ≡ ds
tail_eq e = cc

-- `strcmp` is 0 exactly for equal strings.
pub strcmp-zero_iff :
    (cs ds : List ℕ) → IsString cs → IsString ds → (strcmp cs ds ≡ pos 0) ↔ (cs ≡ ds)
unfolding strcmp
strcmp-zero_iff [] [] s t = (λ e. refl, λ e. refl)
strcmp-zero_iff [] (d ∷ ds) s t =
    (λ e. absurd (omega (arith, (sub_ℕ-zero 0 d).0 e, t.0)), λ e. absurd cc)
strcmp-zero_iff (c ∷ cs) [] s t =
    (λ e. absurd (omega (arith, (sub_ℕ-zero c 0).0 e, s.0)), λ e. absurd cc)
strcmp-zero_iff (c ∷ cs) (d ∷ ds) s t =
    let ih = strcmp-zero_iff cs ds s.1 t.1 in
    elim (Bool-cases (c == d)) [
      | inl e ↦
          let same : c ≡ d = (==_iff c d).0 e in rw e (λ z. let tails = ih.0 z in cc, λ z. ih.1 cc)
      | inr ne ↦ rw ne (
        λ z. absurd (ground (arith, (sub_ℕ-zero c d).0 z)),
        λ z. let h : c ≡ d = cc in absurd (ground arith),
      )
    ]

-- `strncmp` is 0 exactly if the strings agree in their first `n` bytes.
pub strncmp-zero_iff :
    (cs ds : List ℕ) (n : ℕ)
    → IsString cs
    → IsString ds
    → (strncmp cs ds n ≡ pos 0) ↔ (take n cs ≡ take n ds)
unfolding strncmp
strncmp-zero_iff cs ds zero s t = (λ e. refl, λ e. refl)
strncmp-zero_iff [] [] (suc n) s t = (λ e. refl, λ e. refl)
strncmp-zero_iff [] (d ∷ ds) (suc n) s t =
    (λ e. absurd (omega (arith, (sub_ℕ-zero 0 d).0 e, t.0)), λ e. absurd cc)
strncmp-zero_iff (c ∷ cs) [] (suc n) s t =
    (λ e. absurd (omega (arith, (sub_ℕ-zero c 0).0 e, s.0)), λ e. absurd cc)
strncmp-zero_iff (c ∷ cs) (d ∷ ds) (suc n) s t =
    let ih = strncmp-zero_iff cs ds n s.1 t.1 in
    elim (Bool-cases (c == d)) [
      | inl e ↦
          let same : c ≡ d = (==_iff c d).0 e in rw e (λ z. let tails = ih.0 z in cc, λ z. ih.1 cc)
      | inr ne ↦ rw ne (
        λ z. absurd (ground (arith, (sub_ℕ-zero c d).0 z)),
        λ z. let h : c ≡ d = cc in absurd (ground arith),
      )
    ]

-- A string in lower case.
abbrev pub lowered : List ℕ → List ℕ
lowered [] = []
lowered (c ∷ cs) = lower c ∷ lowered cs

lower-pos : (c : ℕ) → 0 < c → 0 < lower c
unfolding lower
lower-pos c h = ground arith

-- `stricmp` is 0 exactly for strings that are equal in lower case.
pub stricmp-zero_iff :
    (cs ds : List ℕ)
    → IsString cs
    → IsString ds
    → (stricmp cs ds ≡ pos 0) ↔ (lowered cs ≡ lowered ds)
unfolding stricmp
stricmp-zero_iff [] [] s t = (λ e. refl, λ e. refl)
stricmp-zero_iff [] (d ∷ ds) s t =
    (λ e. absurd (omega (arith, (sub_ℕ-zero 0 (lower d)).0 e, lower-pos d t.0)), λ e. absurd cc)
stricmp-zero_iff (c ∷ cs) [] s t =
    (λ e. absurd (omega (arith, (sub_ℕ-zero (lower c) 0).0 e, lower-pos c s.0)), λ e. absurd cc)
stricmp-zero_iff (c ∷ cs) (d ∷ ds) s t =
    let ih = stricmp-zero_iff cs ds s.1 t.1 in
    elim (Bool-cases (lower c == lower d)) [
      | inl e ↦
          let same : lower c ≡ lower d = (==_iff (lower c) (lower d)).0 e in
          rw e (λ z. let tails = ih.0 z in cc, λ z. ih.1 cc)
      | inr ne ↦ rw ne (
        λ z. absurd (ground (arith, (sub_ℕ-zero (lower c) (lower d)).0 z)),
        λ z. let h : lower c ≡ lower d = cc in absurd (ground arith),
      )
    ]
