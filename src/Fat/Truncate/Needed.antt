-- ===== src/Fat/Truncate/Needed.antt =====
-- `NumberOfClustersNeeded` in `FatTruncateFileAllocation` and `FatIncreaseFileAllocation` of
-- arcfw/ported/fatboot.c.
use native.Mathlib.Nat.{mod-add-div', mod-lt, lt_of_mul-lt-mul_right}
use arcpi.Base.{ℕ, ◌+◌, ◌-◌, ◌*◌, ◌/◌, ◌^◌, ◌≤◌, ◌<◌, ◌≡◌, ap, arith, add32, sub32}
use arcpi.Fat.{Bpb, bytes_per_cluster}
use arcpi.Fat.Truncate.{clusters_needed}

-- `n` is the least number of clusters that hold `bytes` bytes.
pub record Needs (b : Bpb) (bytes n : ℕ) : Type 0 where
  pub enough : bytes ≤ n * bytes_per_cluster b
  pub least : (k : ℕ) → bytes ≤ k * bytes_per_cluster b → n ≤ k

-- A size that can be rounded up to whole clusters in 32 bits.
pub record IsSize (b : Bpb) (bytes : ℕ) : Type 0 where
  pub some_byte : 0 < bytes_per_cluster b
  pub fits : bytes + bytes_per_cluster b ≤ 2 ^ 32

round_up-Needs :
    (b : Bpb) (bytes n : ℕ)
    → 0 < bytes_per_cluster b
    → n ≡ (bytes + bytes_per_cluster b - 1) / bytes_per_cluster b
    → Needs b bytes n
round_up-Needs b bytes n pos e =
    let c = bytes_per_cluster b in
    let v = bytes + c - 1 in
    let d = mod-add-div' v c in
    let r = mod-lt v pos in
    let at : n * c ≡ v / c * c = ap (λ q. q * c) e in
    record {
      enough = omega (arith, at, d, r);
      least = λ k le.
          let lt : v / c < k + 1 = lt_of_mul-lt-mul_right c (omega (arith, d, le, pos)) in
          omega (arith, e, lt);
    }

pub clusters_needed-Needs :
    (b : Bpb) (bytes : ℕ) → IsSize b bytes → Needs b bytes (clusters_needed b bytes)
clusters_needed-Needs b bytes s =
    let c = bytes_per_cluster b in
    let e : sub32 (add32 bytes c) 1 ≡ bytes + c - 1 = omega (arith, s.some_byte, s.fits) in
    round_up-Needs b bytes (clusters_needed b bytes) s.some_byte (ap (λ x. x / c) e)
