-- ===== src/Fat/Names/RoundTrip.antt =====
-- `FatDirToArcDir` of arcfw/ported/fatboot.c prints the names that `FatFirstComponent` reads.
use arcpi.Base.{
  ℕ, zero, suc, ◌+◌, ◌≤◌, ◌<◌, ◌≡◌, ◌≢◌, ◌⊎◌, inl, inr, refl, sym, ap, ◌∙◌, true, false, ◌||◌, ltb,
  ◌==◌, if◌then◌else◌, arith, List, [], ◌∷◌, ◌++◌, map, All, append-nil, length,
}
use arcpi.Runtime.{Memory, store}
use arcpi.Fat.Names.{
  space, dot, backslash, to_upper, base_part, extension_part, after_base, transmogrified,
  first_component, unpadded, arc_name,
}

-- A byte that a part of a name may hold.
abbrev pub IsNameByte : ℕ → Type 0
IsNameByte c = (c ≢ backslash) × (c ≢ dot) × (c ≢ space)

abbrev written : (i : ℕ) → List ℕ → Memory → Memory
written i [] m = m
written i (x ∷ xs) m = written (suc i) xs (store m i x)

written_before : (i : ℕ) (xs : List ℕ) (m : Memory) (p : ℕ) → p < i → written i xs m p ≡ m p
written_before i [] m p lt = refl
written_before i (x ∷ xs) m p lt =
    written_before (suc i) xs (store m i x) p (omega (arith, lt)) ∙ ground (arith, lt)

written_behind :
    (i : ℕ) (xs : List ℕ) (m : Memory) (p : ℕ) → i + length xs ≤ p → written i xs m p ≡ m p
written_behind i [] m p le = refl
written_behind i (x ∷ xs) m p le =
    written_behind (suc i) xs (store m i x) p (omega (arith, le)) ∙ ground (arith, le)

stored : (i x : ℕ) (m : Memory) → store m i x i ≡ x
stored i x m = ground arith

next_padding :
    (n i x : ℕ) (xs : List ℕ) (m : Memory)
    → (suc (length xs) ≡ suc n) ⊎ (m (i + suc (length xs)) ≡ space)
    → (length xs ≡ n) ⊎ (store m i x (suc i + length xs) ≡ space)
next_padding n i x xs m (inl e) = inl (omega (arith, e))
next_padding n i x xs m (inr e) =
    let at : m (suc i + length xs) ≡ space = ap m (omega arith) ∙ e in inr (ground (arith, at))

-- Bytes read back up to the padding.
unpadded-written :
    (n i : ℕ) (xs : List ℕ) (m : Memory)
    → All (λ x. x ≢ space) xs
    → length xs ≤ n
    → (length xs ≡ n) ⊎ (m (i + length xs) ≡ space)
    → unpadded n i (written i xs m) ≡ xs
unfolding unpadded
unpadded-written zero i [] m a le e = refl
unpadded-written zero i (x ∷ xs) m a le e = absurd (omega (arith, le))
unpadded-written (suc n) i [] m a le (inl e) = absurd (omega (arith, e))
unpadded-written (suc n) i [] m a le (inr e) =
    let here : m i ≡ space = ap m (omega arith) ∙ e in
    let blank : (m i == space) ≡ true = ground (arith, here) in rw blank refl
unpadded-written (suc n) i (x ∷ xs) m (ne, a) le e =
    let here : written (suc i) xs (store m i x) i ≡ x =
      written_before (suc i) xs (store m i x) i (omega arith) ∙ stored i x m in
    let full : (written (suc i) xs (store m i x) i == space) ≡ false = ground (arith, here, ne) in
    let rest =
      unpadded-written n (suc i) xs (store m i x) a (omega (arith, le))
        (next_padding n i x xs m e) in
    rw full (λ t. here t ∷ rest t)

base_part_lem :
    (i : ℕ) (xs rest : List ℕ) (m : Memory)
    → All IsNameByte xs
    → i + length xs ≤ 8
    → base_part i (xs ++ rest) m ≡ base_part (i + length xs) rest (written i (map to_upper xs) m)
unfolding base_part
base_part_lem i [] rest m a le = let at : i ≡ i + 0 = omega arith in λ t. base_part (at t) rest m
base_part_lem i (x ∷ xs) rest m (h, a) le =
    let more : (x == backslash || x == dot) ≡ false = ground (arith, h.0, h.1) in
    let room : ltb i 8 ≡ true = ground (arith, le) in
    let at : suc i + length xs ≡ i + suc (length xs) = omega arith in
    let m' = written (suc i) (map to_upper xs) (store m i (to_upper x)) in
    rw (more, room)
      (base_part_lem (suc i) xs rest (store m i (to_upper x)) a (omega (arith, le))
        ∙ ap (λ j. base_part j rest m') at)

extension_part_lem :
    (e : ℕ) (xs rest : List ℕ) (m : Memory)
    → All IsNameByte xs
    → e + length xs ≤ 11
    → extension_part e (xs ++ rest) m
      ≡ extension_part (e + length xs) rest (written e (map to_upper xs) m)
unfolding extension_part
extension_part_lem e [] rest m a le =
    let at : e ≡ e + 0 = omega arith in λ t. extension_part (at t) rest m
extension_part_lem e (x ∷ xs) rest m (h, a) le =
    let more : (x == backslash) ≡ false = ground (arith, h.0) in
    let room : ltb e 11 ≡ true = ground (arith, le) in
    let at : suc e + length xs ≡ e + suc (length xs) = omega arith in
    let m' = written (suc e) (map to_upper xs) (store m e (to_upper x)) in
    rw (more, room)
      (extension_part_lem (suc e) xs rest (store m e (to_upper x)) a (omega (arith, le))
        ∙ ap (λ j. extension_part j rest m') at)

-- The string goes on with another component, or ends.
abbrev pub IsBehind : List ℕ → Type 0
IsBehind [] = Unit {0}
IsBehind (c ∷ cs) = c ≡ backslash

-- An extension with its dot.
abbrev pub dotted : List ℕ → List ℕ
dotted [] = []
dotted (c ∷ cs) = dot ∷ c ∷ cs

base_end : (i : ℕ) (rest : List ℕ) (m : Memory) → IsBehind rest → base_part i rest m ≡ (m, rest)
unfolding base_part
base_end i [] m h = refl
base_end i (c ∷ cs) m h =
    let stop : (c == backslash || c == dot) ≡ true = ground (arith, h) in rw stop refl

extension_end :
    (e : ℕ) (rest : List ℕ) (m : Memory) → IsBehind rest → extension_part e rest m ≡ (m, rest)
unfolding extension_part
extension_end e [] m h = refl
extension_end e (c ∷ cs) m h =
    let stop : (c == backslash) ≡ true = ground (arith, h) in rw stop refl

after_base_end : (rest : List ℕ) (m : Memory) → IsBehind rest → after_base (m, rest) ≡ (m, rest)
unfolding after_base
after_base_end [] m h = refl
after_base_end (c ∷ cs) m h = let no_dot : (c == dot) ≡ false = ground (arith, h) in rw no_dot refl

at_dot : (i : ℕ) (cs : List ℕ) (m : Memory) → base_part i (dot ∷ cs) m ≡ (m, dot ∷ cs)
unfolding base_part
at_dot i cs m = refl

-- The name before its first byte is looked at.
parsed :
    (base ext rest : List ℕ)
    → All IsNameByte base
    → All IsNameByte ext
    → length base ≤ 8
    → length ext ≤ 3
    → IsBehind rest
    → after_base (base_part 0 (base ++ (dotted ext ++ rest)) (λ p. space))
      ≡ (written 8 (map to_upper ext) (written 0 (map to_upper base) (λ p. space)), rest)
unfolding after_base
parsed base [] rest a b le le3 end =
    let m = written 0 (map to_upper base) (λ p. space) in
    ap after_base (
      base_part_lem 0 base rest (λ p. space) a (omega (arith, le))
      ∙ base_end (0 + length base) rest m end)
    ∙ after_base_end rest m end
parsed base (c ∷ cs) rest a b le le3 end =
    let m = written 0 (map to_upper base) (λ p. space) in
    let stopped : base_part (0 + length base) (dot ∷ c ∷ (cs ++ rest)) m
        ≡ (m, dot ∷ c ∷ (cs ++ rest)) =
      at_dot (0 + length base) (c ∷ (cs ++ rest)) m in
    ap after_base
      (base_part_lem 0 base (dot ∷ c ∷ (cs ++ rest)) (λ p. space) a (omega (arith, le)) ∙ stopped)
    ∙ extension_part_lem 8 (c ∷ cs) rest m b (omega (arith, le3))
    ∙ extension_end (8 + length (c ∷ cs)) rest (written 8 (map to_upper (c ∷ cs)) m) end

length-upper : (xs : List ℕ) → length (map to_upper xs) ≡ length xs
length-upper [] = refl
length-upper (x ∷ xs) = ap suc (length-upper xs)

no_space : (xs : List ℕ) → All IsNameByte xs → All (λ x. x ≢ space) (map to_upper xs)
no_space [] a = tt
no_space (x ∷ xs) (h, a) = let ne : to_upper x ≢ space = ground (arith, h.2) in (ne, no_space xs a)

unpadded-cong :
    (n i : ℕ) (m m' : Memory)
    → ((p : ℕ) → p < i + n → m p ≡ m' p)
    → unpadded n i m ≡ unpadded n i m'
unfolding unpadded
unpadded-cong zero i m m' h = refl
unpadded-cong (suc n) i m m' h =
    let here = h i (omega arith) in
    let rest = unpadded-cong n (suc i) m m' (λ p lt. h p (omega (arith, lt))) in
    λ t. if here t == space then [] else here t ∷ rest t

abbrev whole_name : (base ext : List ℕ) → Memory
whole_name base ext = written 8 (map to_upper ext) (written 0 (map to_upper base) (λ p. space))

base_back :
    (base ext : List ℕ)
    → All IsNameByte base
    → length base ≤ 8
    → unpadded 8 0 (whole_name base ext) ≡ map to_upper base
base_back base ext a le =
    unpadded-cong 8 0 (whole_name base ext) (written 0 (map to_upper base) (λ p. space))
      (λ p lt. written_before 8 (map to_upper ext) _ p (omega (arith, lt)))
    ∙ unpadded-written 8 0 (map to_upper base) (λ p. space) (no_space base a)
        (omega (arith, le, length-upper base)) (inr refl)

extension_back :
    (base ext : List ℕ)
    → All IsNameByte ext
    → length base ≤ 8
    → length ext ≤ 3
    → unpadded 3 8 (whole_name base ext) ≡ map to_upper ext
extension_back base ext b le le3 =
    let padding =
      written_behind 0 (map to_upper base) (λ p. space) (8 + length (map to_upper ext))
        (omega (arith, le, length-upper base)) in
    unpadded-written 3 8 (map to_upper ext) (written 0 (map to_upper base) (λ p. space))
      (no_space ext b) (omega (arith, le3, length-upper ext)) (inr padding)

arc_name_lem :
    (base ext : List ℕ)
    → All IsNameByte base
    → All IsNameByte ext
    → length base ≤ 8
    → length ext ≤ 3
    → arc_name (whole_name base ext) ≡ map to_upper base ++ dotted (map to_upper ext)
unfolding arc_name
arc_name_lem base [] a b le le3 =
    let none : whole_name base [] 8 ≡ space =
      written_behind 0 (map to_upper base) (λ p. space) 8 (omega (arith, le, length-upper base)) in
    let test : (whole_name base [] 8 == space) ≡ true = ground (arith, none) in
    rw test (base_back base [] a le ∙ sym (append-nil (map to_upper base)))
arc_name_lem base (c ∷ cs) a b le le3 =
    let front_name = written 0 (map to_upper base) (λ p. space) in
    let some : whole_name base (c ∷ cs) 8 ≡ to_upper c =
      written_before 9 (map to_upper cs) (store front_name 8 (to_upper c)) 8 (omega arith)
      ∙ stored 8 (to_upper c) front_name in
    let ne = (no_space (c ∷ cs) b).0 in
    let test : (whole_name base (c ∷ cs) 8 == space) ≡ false = ground (arith, some, ne) in
    let front = base_back base (c ∷ cs) a le in
    let back = extension_back base (c ∷ cs) b le le3 in
    let name = whole_name base (c ∷ cs) in
    ap (λ x. if x then unpadded 8 0 name else (unpadded 8 0 name ++ dot ∷ unpadded 3 8 name)) test
    ∙ (λ t. front t ++ dot ∷ back t)

-- A component of a path in 8.3 form, read by `FatFirstComponent` and printed by `FatDirToArcDir`, comes
-- back in upper case, and the string is left at the next component, unless the name starts with 0xe5.
pub arc_name-first_component :
    (c : ℕ) (cs ext rest : List ℕ)
    → All IsNameByte (c ∷ cs)
    → All IsNameByte ext
    → length (c ∷ cs) ≤ 8
    → length ext ≤ 3
    → IsBehind rest
    → c ≢ 0xe5
    → let r = first_component ((c ∷ cs) ++ (dotted ext ++ rest)) in
      (arc_name r.0 ≡ map to_upper (c ∷ cs) ++ dotted (map to_upper ext)) × (r.1 ≡ rest)
unfolding first_component
arc_name-first_component c cs ext rest a b le le3 end ne =
    let p = parsed (c ∷ cs) ext rest a b le le3 end in
    let name = whole_name (c ∷ cs) ext in
    let first : name 0 ≡ to_upper c =
      written_before 8 (map to_upper ext) _ 0 (omega arith)
      ∙ written_before 1 (map to_upper cs) (store (λ p. space) 0 (to_upper c)) 0 (omega arith)
      ∙ stored 0 (to_upper c) (λ p. space) in
    let kept : (name 0 == 0xe5) ≡ false = ground (arith, first, ne) in
    (
      ap (λ r. arc_name (transmogrified r.0)) p ∙ rw kept (arc_name_lem (c ∷ cs) ext a b le le3),
      ap (λ r. r.1) p,
    )
