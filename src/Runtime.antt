-- ===== src/Runtime.antt =====
-- arcfw/arm/clib.c: the memory routines of the freestanding C runtime.
--
-- Memory is a function from an address to what the cell there holds. The routines step through
-- bytes; the framebuffer code calls `memmove` on whole words only, so a cell may be a word too.
-- Addresses do not wrap.
pub mod Copy
pub mod Strings
pub mod Search
mod Tests
use arcpi.Base.{
  ℕ, zero, suc, ◌+◌, ◌-◌, ◌%◌, ◌^◌, Bool, true, false, ◌||◌, ltb, ◌==◌, if◌then◌else◌, ℤ, pos,
  sub_ℕ,
}

abbrev pub Memory : Type 0
Memory = ℕ → ℕ

-- `*p = v`.
abbrev pub store : Memory → ℕ → ℕ → Memory
store m p v q = if q == p then v else m q

-- `while (n--) *d++ = *s++;`
pub copy_forward : (n d s : ℕ) → Memory → Memory
copy_forward zero d s m = m
copy_forward (suc n) d s m = copy_forward n (suc d) (suc s) (store m d (m s))

-- `while (n--) *--d = *--s;`, with `d` and `s` the starts of the blocks.
pub copy_backward : (n d s : ℕ) → Memory → Memory
copy_backward zero d s m = m
copy_backward (suc n) d s m = copy_backward n d s (store m (d + n) (m (s + n)))

pub memcpy : (dst src n : ℕ) → Memory → Memory
unfolding copy_forward
memcpy dst src n m = copy_forward n dst src m

unfoldable pub memmove : (dst src n : ℕ) → Memory → Memory
unfolding copy_forward copy_backward
memmove dst src n m =
    if dst == src || n == 0
    then m
    else if ltb dst src
    then copy_forward n dst src m
    else copy_backward n dst src m

-- `while (n--) *d++ = (unsigned char)c;`
pub memset : (dst c n : ℕ) → Memory → Memory
memset dst c zero m = m
memset dst c (suc n) m = memset (suc dst) c n (store m dst (c % 2 ^ 8))

-- The difference of the first two bytes that differ, or 0.
pub memcmp : (a b n : ℕ) → Memory → ℤ
memcmp a b zero m = pos 0
memcmp a b (suc n) m =
    let rest = memcmp (suc a) (suc b) n m in if m a == m b then rest else sub_ℕ (m a) (m b)
