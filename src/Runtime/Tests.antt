-- ===== src/Runtime/Tests.antt =====
-- Runs of the block and string routines of arcfw/arm/clib.c, and their theorems at concrete arguments.
use arcpi.Base.{ℕ, List, [], ◌∷◌, ◌*◌, ◌≡◌, refl, arith, ◌%◌, pos}
use arcpi.Runtime.Search.{strstr, Found, strstr-Found}
use arcpi.Runtime.Strings.{IsString, stricmp}
use arcpi.Runtime.{Memory, memmove, memcmp, copy_forward, copy_backward}
use arcpi.Runtime.Copy.{moved, memmove-moved}

abbrev ramp : Memory
ramp p = 3 * p

-- Cells repeat every four addresses.
abbrev wave : Memory
wave p = p % 4

overlap_upwards : memmove 10 8 4 ramp 12 ≡ 30
unfolding memmove copy_backward
overlap_upwards = refl

overlap_downwards : memmove 8 10 4 ramp 10 ≡ 36
unfolding memmove copy_forward
overlap_downwards = refl

equal_blocks : memcmp 0 4 4 wave ≡ pos 0
unfolding memcmp
equal_blocks = refl

memmove-moved_example : memmove 10 8 4 ramp 12 ≡ moved 10 8 4 ramp 12
memmove-moved_example = memmove-moved 10 8 4 ramp 12

-- "Ab", "aB" and "b".
abbrev one_case : List ℕ
one_case = b'A' ∷ b'b' ∷ []

abbrev other_case : List ℕ
other_case = b'a' ∷ b'B' ∷ []

abbrev needle : List ℕ
needle = b'b' ∷ []

one_case-IsString : IsString one_case
one_case-IsString = (omega arith, (omega arith, tt))

other_case-IsString : IsString other_case
other_case-IsString = (omega arith, (omega arith, tt))

needle-IsString : IsString needle
needle-IsString = (omega arith, tt)

without_case : stricmp one_case other_case ≡ pos 0
unfolding stricmp
without_case = refl

strstr-Found_example : Found 0 needle one_case (strstr one_case needle)
strstr-Found_example = strstr-Found one_case needle one_case-IsString needle-IsString (omega arith)
