-- ===== src/Emulator/Names.antt =====
-- How arcfw/arm/arcemul.c takes an ARC path name apart.
use arcpi.Base.{
  ℕ, suc, ◌+◌, ◌-◌, ◌*◌, ◌≤◌, ◌<◌, ◌≡◌, ◌≢◌, refl, ap, ◌∙◌, Bool, true, false, ◌&&◌, List, [], ◌∷◌,
  ◌++◌, Option, none, some, leb, ◌==◌, if◌then◌else◌, length, take, drop, add32, mul32, word, arith,
  Status, enametoolong,
}
use arcpi.Runtime.Strings.{stricmp, is_zero}
use arcpi.Disk.{Machine}
use arcpi.Emulator.{tag, after_tag, read_digits, number_here, parse_partition_number, device_open}
use arcpi.Emulator.Vector.{OpenMode, last_paren, serial_console_name, open_file, ae_open}

-- Decimal digits, most significant first, as characters and as a number.
abbrev pub rendered : List ℕ → List ℕ
rendered [] = []
rendered (d ∷ ds) = (d + 0x30) ∷ rendered ds

unfoldable pub number_of : (n : ℕ) → List ℕ → ℕ
number_of n [] = n
number_of n (d ∷ ds) = number_of (n * 10 + d) ds

abbrev pub AllDigits : List ℕ → Type 0
AllDigits [] = Unit {0}
AllDigits (d ∷ ds) = (d < 10) × AllDigits ds

abbrev pub Without : ℕ → List ℕ → Type 0
Without x [] = Unit {0}
Without x (c ∷ cs) = (c ≢ x) × Without x cs

number_of-grows : (n : ℕ) (ds : List ℕ) → n ≤ number_of n ds
unfolding number_of
number_of-grows n [] = omega arith
number_of-grows n (d ∷ ds) = omega (arith, number_of-grows (n * 10 + d) ds)

is_some_digit : Bool → List ℕ → Bool
is_some_digit got [] = got
is_some_digit got (d ∷ ds) = true

some_digit : (ds : List ℕ) → is_some_digit true ds ≡ true
unfolding is_some_digit
some_digit [] = refl
some_digit (d ∷ ds) = refl

read_digits_lem :
    (n : ℕ) (got : Bool) (ds rest : List ℕ)
    → AllDigits ds
    → number_of n ds < word
    → read_digits n got (rendered ds ++ 0x29 ∷ rest)
      ≡ (number_of n ds, is_some_digit got ds, 0x29 ∷ rest)
unfolding read_digits number_of is_some_digit
read_digits_lem n got [] rest all small = refl
read_digits_lem n got (d ∷ ds) rest (digit, digits) small =
    let hit : (leb 0x30 (d + 0x30) && leb (d + 0x30) 0x39) ≡ true = ground arith in
    let grows = number_of-grows (n * 10 + d) ds in
    let next : add32 (mul32 n 10) (d + 0x30 - 0x30) ≡ n * 10 + d = omega arith in
    rw (hit, next)
      (read_digits_lem (n * 10 + d) true ds rest digits small ∙ rw (some_digit ds) refl)

number_here_lem :
    (d : ℕ) (ds rest : List ℕ)
    → AllDigits (d ∷ ds)
    → number_of 0 (d ∷ ds) < word
    → number_here (tag ++ rendered (d ∷ ds) ++ 0x29 ∷ rest) ≡ some (number_of 0 (d ∷ ds))
unfolding number_here after_tag is_some_digit
number_here_lem d ds rest all small = rw (read_digits_lem 0 false (d ∷ ds) rest all small) refl

number_here-none : (c : ℕ) (cs : List ℕ) → c ≢ b'p' → number_here (c ∷ cs) ≡ none
unfolding number_here after_tag
number_here-none c cs ne =
    let other : (c == b'p') ≡ false = ground arith in rw (number_here, other) refl

-- `ParsePartitionNumber` reads the number of the first "partition(N)", if no `p` stands before it
-- and the number fits 32 bits.
pub parse_partition_number_lem :
    (before : List ℕ) (d : ℕ) (ds rest : List ℕ)
    → Without b'p' before
    → AllDigits (d ∷ ds)
    → number_of 0 (d ∷ ds) < word
    → parse_partition_number (before ++ tag ++ rendered (d ∷ ds) ++ 0x29 ∷ rest)
      ≡ some (number_of 0 (d ∷ ds))
unfolding parse_partition_number
parse_partition_number_lem [] d ds rest no_p all small =
    rw (parse_partition_number, number_here_lem d ds rest all small) refl
parse_partition_number_lem (c ∷ cs) d ds rest (ne, no_p) all small =
    rw
      (
        parse_partition_number,
        number_here-none c (cs ++ tag ++ rendered (d ∷ ds) ++ 0x29 ∷ rest) ne,
      )
      (parse_partition_number_lem cs d ds rest no_p all small)

-- Without another ')', the file part is what follows the first one.
last_paren-none : (i : ℕ) (cs : List ℕ) → Without 0x29 cs → last_paren i cs ≡ none
unfolding last_paren
last_paren-none i [] free = refl
last_paren-none i (c ∷ cs) (ne, free) =
    let other : (c == 0x29) ≡ false = ground arith in
    rw (last_paren-none (suc i) cs free, other) refl

last_paren_lem :
    (i : ℕ) (device file : List ℕ)
    → Without 0x29 file
    → last_paren i (device ++ 0x29 ∷ file) ≡ some (i + length device)
unfolding last_paren
last_paren_lem i [] file free = rw (last_paren-none (suc i) file free) (ap some (omega arith))
last_paren_lem i (c ∷ cs) file free =
    rw (last_paren_lem (suc i) cs file free) (ap some (omega arith))

take_prefix :
    (xs : List ℕ) (c : ℕ) (ys : List ℕ) → take (suc (length xs)) (xs ++ c ∷ ys) ≡ xs ++ c ∷ []
take_prefix [] c ys = refl
take_prefix (x ∷ xs) c ys = ap (λ k. x ∷ k) (take_prefix xs c ys)

drop_prefix : (xs : List ℕ) (c : ℕ) (ys : List ℕ) → drop (suc (length xs)) (xs ++ c ∷ ys) ≡ ys
drop_prefix [] c ys = refl
drop_prefix (x ∷ xs) c ys = drop_prefix xs c ys

-- `AEOpen` splits a name that is not the console's at its last ')': the device is opened by
-- `AEDeviceOpen`, and what follows is opened on it; a device name of 128 bytes is too long.
pub ae_open-splits :
    (bl_open : (device : ℕ) → List ℕ → OpenMode → Machine → Status × Option ℕ × Machine) (mbr : ℕ)
    (device file : List ℕ) (mode : OpenMode) (m : Machine)
    → Without 0x29 file
    → is_zero (stricmp (device ++ 0x29 ∷ file) serial_console_name) ≡ false
    → ae_open bl_open mbr (device ++ 0x29 ∷ file) mode m ≡ (
        if leb 127 (length device)
        then (enametoolong, none, m)
        else open_file bl_open file mode (device_open mbr (device ++ 0x29 ∷ []) m))
unfolding ae_open
ae_open-splits bl_open mbr device file mode m free other =
    let at = last_paren_lem 0 device file free in
    let next : 0 + length device + 1 ≡ suc (length device) = omega arith in
    let limit : leb 128 (suc (length device)) ≡ leb 127 (length device) = ground arith in
    rw (other, at, next, limit, drop_prefix device 0x29 file, take_prefix device 0x29 file) refl
