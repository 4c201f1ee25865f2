-- ===== src/Fat/Entry.antt =====
-- How arcfw/ported/fatboot.c packs 12 and 16 bit entries into the bytes of a FAT
-- (`FatLookupFatEntry`, `FatSetFatEntry`).
use arcpi.Base.{
  refl, subst, sym, Bool-cases, ap, ◌∙◌, ◌⊎◌, inl, inr, ℕ, ◌+◌, ◌*◌, ◌/◌, ◌%◌, ◌^◌, ◌<◌, ◌≡◌, ◌≢◌,
  Bool, true, false, ◌==◌, if◌then◌else◌, arith,
}
use arcpi.Runtime.{Memory, store}

-- The first byte of entry `i`.
abbrev pub entry_vbo : (twelve : Bool) (i : ℕ) → ℕ
entry_vbo true i = i * 3 / 2
entry_vbo false i = i * 2

abbrev pub little_word : (low high : ℕ) → ℕ
little_word low high = low + high * 2 ^ 8

-- The entry in the two bytes from there, as a USHORT.
unfoldable pub decode : (twelve : Bool) (i word : ℕ) → ℕ
decode true i word = (if i % 2 == 1 then word / 2 ^ 4 else word) % 2 ^ 12
decode false i word = word

-- The two bytes with the entry put in: the masks are disjoint, so that `|` is `+`.
unfoldable pub encode : (twelve : Bool) (i old entry : ℕ) → ℕ
encode true i old entry =
    if i % 2 == 0
    then old / 2 ^ 12 * 2 ^ 12 + entry % 2 ^ 12
    else old % 2 ^ 4 + entry % 2 ^ 12 * 2 ^ 4
encode false i old entry = entry

-- The values that an entry can have.
abbrev pub entry_limit : Bool → ℕ
entry_limit true = 2 ^ 12
entry_limit false = 2 ^ 16

-- Entry `i` of a FAT given by its bytes.
unfoldable pub fat_entry : (twelve : Bool) (i : ℕ) → Memory → ℕ
unfolding decode
fat_entry twelve i m = let v = entry_vbo twelve i in decode twelve i (little_word (m v) (m (v + 1)))

-- The bytes with entry `i` replaced.
unfoldable pub put_fat_entry : (twelve : Bool) (i entry : ℕ) → Memory → Memory
unfolding encode
put_fat_entry twelve i entry m =
    let v = entry_vbo twelve i in
    let word = encode twelve i (little_word (m v) (m (v + 1))) entry in
    store (store m v (word % 2 ^ 8)) (v + 1) (word / 2 ^ 8)

abbrev pub IsBytes : Memory → Type 0
IsBytes m = (p : ℕ) → m p < 2 ^ 8

pub put_fat_entry-IsBytes :
    (twelve : Bool) (i entry : ℕ) (m : Memory)
    → IsBytes m
    → entry < 2 ^ 16
    → IsBytes (put_fat_entry twelve i entry m)
unfolding put_fat_entry
put_fat_entry-IsBytes true i entry m b h p =
    ground (arith, b p, b (entry_vbo true i), b (entry_vbo true i + 1))
put_fat_entry-IsBytes false i entry m b h p = ground (arith, b p)

-- The two bytes of an entry after a write.
abbrev pub two_bytes : (v word : ℕ) → Memory → Memory
two_bytes v word m = store (store m v (word % 2 ^ 8)) (v + 1) (word / 2 ^ 8)

decode-encode :
    (twelve : Bool) (i old entry : ℕ)
    → old < 2 ^ 16
    → entry < 2 ^ 16
    → decode twelve i (encode twelve i old entry) ≡ entry % entry_limit twelve
unfolding decode encode
decode-encode true i old entry o h = ground arith
decode-encode false i old entry o h = ground arith

read_back :
    (v word : ℕ) (m : Memory)
    → little_word (two_bytes v word m v) (two_bytes v word m (v + 1)) ≡ word
read_back v word m = ground arith

fat_entry-put_same :
    (twelve : Bool) (i entry : ℕ) (m : Memory)
    → IsBytes m
    → entry < 2 ^ 16
    → fat_entry twelve i (put_fat_entry twelve i entry m) ≡ entry % entry_limit twelve
unfolding fat_entry put_fat_entry
fat_entry-put_same twelve i entry m b h =
    let v = entry_vbo twelve i in
    let old = little_word (m v) (m (v + 1)) in
    ap (decode twelve i) (read_back v (encode twelve i old entry) m)
    ∙ decode-encode twelve i old entry (omega (arith, b v, b (v + 1))) h

-- The next entry starts in the second byte of an even one, and an odd one in its neighbour's.
after_even :
    (k entry : ℕ) (m : Memory)
    → IsBytes m
    → fat_entry true (2 * k + 1) (put_fat_entry true (2 * k) entry m) ≡ fat_entry true (2 * k + 1) m
unfolding fat_entry put_fat_entry decode encode
after_even k entry m b = ground (arith, b (3 * k), b (3 * k + 1))

shared_nibble :
    (a b c entry : ℕ)
    → (a + (encode true 1 (little_word b c) entry % 2 ^ 8) * 2 ^ 8) % 2 ^ 12
      ≡ (a + b * 2 ^ 8) % 2 ^ 12
unfolding encode
shared_nibble a b c entry = omega arith

even_vbo : (k : ℕ) → entry_vbo true (2 * k) ≡ 3 * k
even_vbo k = omega arith

odd_vbo : (k : ℕ) → entry_vbo true (2 * k + 1) ≡ 3 * k + 1
odd_vbo k = omega arith

decode_even : (k word : ℕ) → decode true (2 * k) word ≡ word % 2 ^ 12
unfolding decode
decode_even k word = ground arith

encode_odd : (k old entry : ℕ) → encode true (2 * k + 1) old entry ≡ encode true 1 old entry
unfolding encode
encode_odd k old entry = ground arith

other_byte : (v word p : ℕ) (m : Memory) → (p < v) ⊎ (v + 1 < p) → two_bytes v word m p ≡ m p
other_byte v word p m h = ground arith

first_byte : (v word : ℕ) (m : Memory) → two_bytes v word m v ≡ word % 2 ^ 8
first_byte v word m = ground arith

before_odd :
    (k entry : ℕ) (m : Memory)
    → fat_entry true (2 * k) (put_fat_entry true (2 * k + 1) entry m) ≡ fat_entry true (2 * k) m
unfolding fat_entry put_fat_entry
before_odd k entry m =
    let v = 3 * k in
    let word = encode true 1 (little_word (m (v + 1)) (m (v + 1 + 1))) entry in
    let low = other_byte (v + 1) word v m (inl (omega arith)) in
    let high = first_byte (v + 1) word m in
    rw (even_vbo, odd_vbo, encode_odd)
      (decode_even k _
        ∙ (λ i. little_word (low i) (high i) % 2 ^ 12)
        ∙ shared_nibble (m v) (m (v + 1)) (m (v + 1 + 1)) entry
        ∙ sym (decode_even k (little_word (m v) (m (v + 1)))))

apart :
    (twelve : Bool) (i j entry : ℕ) (m : Memory)
    → (entry_vbo twelve j + 1 < entry_vbo twelve i) ⊎ (entry_vbo twelve i + 1 < entry_vbo twelve j)
    → fat_entry twelve j (put_fat_entry twelve i entry m) ≡ fat_entry twelve j m
unfolding fat_entry put_fat_entry
apart twelve i j entry m h =
    let v = entry_vbo twelve i in
    let u = entry_vbo twelve j in
    let word = encode twelve i (little_word (m v) (m (v + 1))) entry in
    let low = other_byte v word u m (omega (arith, h)) in
    let high = other_byte v word (u + 1) m (omega (arith, h)) in
    λ t. decode twelve j (little_word (low t) (high t))

neighbour_cases :
    (i j : ℕ)
    → i ≢ j
    → ((i ≡ 2 * (i / 2)) × (j ≡ 2 * (i / 2) + 1))
      ⊎ (((i ≡ 2 * (j / 2) + 1) × (j ≡ 2 * (j / 2)))
          ⊎ ((entry_vbo true j + 1 < entry_vbo true i) ⊎ (entry_vbo true i + 1 < entry_vbo true j)))
neighbour_cases i j ne = omega arith

-- Two 12 bit entries that are no neighbours in three shared bytes share none.
abbrev Neighbours : (i j : ℕ) → Type 0
Neighbours i j =
    ((k : ℕ) × (i ≡ 2 * k) × (j ≡ 2 * k + 1))
    ⊎ (((k : ℕ) × (i ≡ 2 * k + 1) × (j ≡ 2 * k))
        ⊎ ((entry_vbo true j + 1 < entry_vbo true i) ⊎ (entry_vbo true i + 1 < entry_vbo true j)))

neighbours : (i j : ℕ) → i ≢ j → Neighbours i j
neighbours i j ne = elim (neighbour_cases i j ne) [
  | inl (a, b) ↦ inl (i / 2, a, b)
  | inr (inl (a, b)) ↦ inr (inl (j / 2, a, b))
  | inr (inr far) ↦ inr (inr far)
]

fat_entry-put_other :
    (twelve : Bool) (i j entry : ℕ) (m : Memory)
    → IsBytes m
    → i ≢ j
    → fat_entry twelve j (put_fat_entry twelve i entry m) ≡ fat_entry twelve j m
fat_entry-put_other false i j entry m b ne = apart false i j entry m (omega arith)
fat_entry-put_other true i j entry m b ne = elim (neighbours i j ne) [
  | inl (k, ei, ej) ↦ rw (ei, ej) (after_even k entry m b)
  | inr (inl (k, ei, ej)) ↦ rw (ei, ej) (before_odd k entry m)
  | inr (inr far) ↦ apart true i j entry m far
]

-- Writing one entry changes that entry and no other, although two 12 bit entries share a byte.
pub fat_entry-put :
    (twelve : Bool) (i j entry : ℕ) (m : Memory)
    → IsBytes m
    → entry < 2 ^ 16
    → fat_entry twelve j (put_fat_entry twelve i entry m)
      ≡ (if i == j then entry % entry_limit twelve else fat_entry twelve j m)
fat_entry-put twelve i j entry m b h = elim (Bool-cases (i == j)) [
  | inl e ↦ rw e (
      subst (λ k. fat_entry twelve k (put_fat_entry twelve i entry m) ≡ entry % entry_limit twelve)
        (ground (arith, e)) (fat_entry-put_same twelve i entry m b h))
  | inr e ↦ rw e (fat_entry-put_other twelve i j entry m b (ground (arith, e)))
]

pub fat_entry-cong :
    (twelve : Bool) (i : ℕ) (m m' : Memory)
    → m (entry_vbo twelve i) ≡ m' (entry_vbo twelve i)
    → m (entry_vbo twelve i + 1) ≡ m' (entry_vbo twelve i + 1)
    → fat_entry twelve i m ≡ fat_entry twelve i m'
unfolding fat_entry
fat_entry-cong twelve i m m' e e' t = decode twelve i (little_word (e t) (e' t))

pub fat_entry_bytes :
    (twelve : Bool) (i : ℕ) (m : Memory)
    → let v = entry_vbo twelve i in
      fat_entry twelve i m ≡ decode twelve i (little_word (m v) (m (v + 1)))
unfolding fat_entry
fat_entry_bytes twelve i m = refl

pub put_fat_entry_bytes :
    (twelve : Bool) (i entry : ℕ) (m : Memory) (p : ℕ)
    → let v = entry_vbo twelve i in
      put_fat_entry twelve i entry m p
      ≡ two_bytes v (encode twelve i (little_word (m v) (m (v + 1))) entry) m p
unfolding put_fat_entry
put_fat_entry_bytes twelve i entry m p = refl

pub encode-lt :
    (twelve : Bool) (i old entry : ℕ)
    → old < 2 ^ 16
    → entry < 2 ^ 16
    → encode twelve i old entry < 2 ^ 16
unfolding encode
encode-lt true i old entry o h = ground arith
encode-lt false i old entry o h = h
