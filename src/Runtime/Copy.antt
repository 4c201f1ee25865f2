-- ===== src/Runtime/Copy.antt =====
-- What the block routines of arcfw/arm/clib.c do to memory.
use arcpi.Base.{
  ℕ, zero, suc, ◌+◌, ◌-◌, ◌%◌, ◌^◌, ◌≤◌, ◌<◌, ◌≡◌, ◌⊎◌, refl, Bool, ◌&&◌, arith, ltb, leb, ◌==◌,
  if◌then◌else◌, Bool-cases, inl, inr, ◌↔◌, pos, sub_ℕ-zero, ==_iff,
}
use arcpi.Runtime.{Memory, store, copy_forward, copy_backward, memcpy, memmove, memset, memcmp}

-- Address `p` lies in the block of `n` cells at `d`.
abbrev pub in_block : (p d n : ℕ) → Bool
in_block p d n = leb d p && ltb p (d + n)

-- Memory `m` with the block at `d` replaced by what stood at `s`.
abbrev pub moved : (d s n : ℕ) → Memory → Memory
moved d s n m p = if in_block p d n then m (s + (p - d)) else m p

forward-moved : (n d s : ℕ) (m : Memory) (p : ℕ) → d < s → copy_forward n d s m p ≡ moved d s n m p
unfolding copy_forward
forward-moved zero d s m p h = ground arith
forward-moved (suc n) d s m p h =
    ground (arith, forward-moved n (suc d) (suc s) (store m d (m s)) p)

backward-moved :
    (n d s : ℕ) (m : Memory) (p : ℕ) → s < d → copy_backward n d s m p ≡ moved d s n m p
unfolding copy_backward
backward-moved zero d s m p h = ground arith
backward-moved (suc n) d s m p h =
    ground (arith, backward-moved n d s (store m (d + n) (m (s + n))) p)

-- `memmove` leaves at the destination what stood at the source before the call, however the two
-- blocks overlap, and changes no other cell.
pub memmove-moved :
    (dst src n : ℕ) (m : Memory) (p : ℕ) → memmove dst src n m p ≡ moved dst src n m p
unfolding memmove
memmove-moved dst src n m p =
    ground (arith, forward-moved n dst src m p, backward-moved n dst src m p)

disjoint-moved :
    (n d s : ℕ) (m : Memory) (p : ℕ) → s + n ≤ d → copy_forward n d s m p ≡ moved d s n m p
unfolding copy_forward
disjoint-moved zero d s m p h = ground arith
disjoint-moved (suc n) d s m p h =
    ground (arith, disjoint-moved n (suc d) (suc s) (store m d (m s)) p)

-- `memcpy` leaves at the destination what stood at the source, and changes no other cell, if the two
-- blocks do not overlap.
pub memcpy-moved :
    (dst src n : ℕ) (m : Memory) (p : ℕ)
    → (dst + n ≤ src) ⊎ (src + n ≤ dst)
    → memcpy dst src n m p ≡ moved dst src n m p
unfolding memcpy
memcpy-moved dst src n m p h =
    ground (arith, forward-moved n dst src m p, disjoint-moved n dst src m p)

-- `memset` fills exactly its block, with the low byte of its argument.
pub memset_lem :
    (dst c n : ℕ) (m : Memory) (p : ℕ)
    → memset dst c n m p ≡ (if in_block p dst n then c % 2 ^ 8 else m p)
unfolding memset
memset_lem dst c zero m p = ground arith
memset_lem dst c (suc n) m p = ground (arith, memset_lem (suc dst) c n (store m dst (c % 2 ^ 8)) p)

-- The two blocks hold the same bytes.
abbrev pub SameBlock : (a b n : ℕ) → Memory → Type 0
SameBlock a b n m = (k : ℕ) → k < n → m (a + k) ≡ m (b + k)

same_head : (a b n : ℕ) (m : Memory) → SameBlock a b (suc n) m → m a ≡ m b
same_head a b n m h =
    let e : a + 0 ≡ a = omega arith in
    let e' : b + 0 ≡ b = omega arith in rw (e, e') at (h 0 (omega arith))

same_tail : (a b n : ℕ) (m : Memory) → SameBlock a b (suc n) m → SameBlock (suc a) (suc b) n m
same_tail a b n m h k lt =
    let e : a + suc k ≡ suc a + k = omega arith in
    let e' : b + suc k ≡ suc b + k = omega arith in rw (e, e') at (h (suc k) (omega arith))

same_cons :
    (a b n : ℕ) (m : Memory) → m a ≡ m b → SameBlock (suc a) (suc b) n m → SameBlock a b (suc n) m
same_cons a b n m e h zero lt =
    let z : a + 0 ≡ a = omega arith in let z' : b + 0 ≡ b = omega arith in rw (z, z') e
same_cons a b n m e h (suc k) lt =
    let z : a + suc k ≡ suc a + k = omega arith in
    let z' : b + suc k ≡ suc b + k = omega arith in rw (z, z') (h k (omega arith))

-- `memcmp` is 0 exactly when the two blocks hold the same bytes.
pub memcmp-zero_iff : (a b n : ℕ) (m : Memory) → (memcmp a b n m ≡ pos 0) ↔ SameBlock a b n m
unfolding memcmp
memcmp-zero_iff a b zero m = (λ e k h. elim h [ ], λ h. refl)
memcmp-zero_iff a b (suc n) m = elim (Bool-cases (m a == m b)) [
  | inl e ↦
      let (there, back) = memcmp-zero_iff (suc a) (suc b) n m in
      rw e (
        λ z. same_cons a b n m ((==_iff (m a) (m b)).0 e) (there z),
        λ h. back (same_tail a b n m h),
      )
  | inr ne ↦ rw ne (
    λ z. absurd (ground (arith, (sub_ℕ-zero (m a) (m b)).0 z)),
    λ h. absurd (ground (arith, same_head a b n m h)),
  )
]
