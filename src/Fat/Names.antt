-- ===== src/Fat/Names.antt =====
-- File names in arcfw/ported/fatboot.c: `FatFirstComponent` and `FatDirToArcDir`.
--
-- An 8.3 name is its 11 bytes, padded with spaces; a string is its bytes.
pub mod RoundTrip
use arcpi.Base.{
  ℕ, zero, suc, ◌+◌, ◌-◌, ◌/◌, ◌%◌, ◌^◌, Bool, true, false, not, ◌&&◌, ◌||◌, leb, ltb, ◌==◌,
  if◌then◌else◌, List, [], ◌∷◌, ◌++◌,
}
use arcpi.Runtime.{Memory, store}

abbrev pub space : ℕ
space = 0x20

abbrev pub dot : ℕ
dot = 0x2e

abbrev pub backslash : ℕ
backslash = 0x5c

-- `ToUpper`
abbrev pub to_upper : ℕ → ℕ
to_upper c = if leb 0x61 c && leb c 0x7a then c - 0x20 else c

-- The first loop of `FatFirstComponent`, from index `i` on: the name, and the string behind it.
unfoldable pub base_part : (i : ℕ) → List ℕ → Memory → Memory × List ℕ
base_part i [] name = (name, [])
base_part i (c ∷ cs) name =
    let stop : Memory × List ℕ = (name, c ∷ cs) in
    let more = base_part (suc i) cs (if ltb i 8 then store name i (to_upper c) else name) in
    if c == backslash || c == dot then stop else more

-- The loop over the extension.
unfoldable pub extension_part : (e : ℕ) → List ℕ → Memory → Memory × List ℕ
extension_part e [] name = (name, [])
extension_part e (c ∷ cs) name =
    let stop : Memory × List ℕ = (name, c ∷ cs) in
    let kept = extension_part (suc e) cs (store name e (to_upper c)) in
    let cut = extension_part e cs name in
    if c == backslash then stop else if ltb e 11 then kept else cut

unfoldable pub after_base : Memory × List ℕ → Memory × List ℕ
unfolding extension_part
after_base (name, []) = (name, [])
after_base (name, c ∷ cs) = if c == dot then extension_part 8 cs name else (name, c ∷ cs)

-- A deleted entry starts with 0xe5, so a name that does is stored with 5.
abbrev pub transmogrified : Memory → Memory
transmogrified name = if name 0 == 0xe5 then store name 0 5 else name

-- `FatFirstComponent`: the name, and the string that is left.
unfoldable pub first_component : List ℕ → Memory × List ℕ
unfolding base_part after_base
first_component cs = let r = after_base (base_part 0 cs (λ p. space)) in (transmogrified r.0, r.1)

-- The bytes from `i` on, `n` at most, before the first space.
unfoldable pub unpadded : (n i : ℕ) → Memory → List ℕ
unpadded zero i name = []
unpadded (suc n) i name =
    let rest = unpadded n (suc i) name in if name i == space then [] else name i ∷ rest

-- The file name that `FatDirToArcDir` makes of a directory entry.
unfoldable pub arc_name : Memory → List ℕ
unfolding unpadded
arc_name name =
    if name 8 == space then unpadded 8 0 name else unpadded 8 0 name ++ dot ∷ unpadded 3 8 name

-- The attributes: `ArcReadOnlyFile` is 1 and `ArcDirectoryFile` is 16 in both.
abbrev pub arc_attributes : (attributes : ℕ) → Bool × Bool
arc_attributes a = (a / 2 ^ 4 % 2 == 1, a % 2 == 1)
