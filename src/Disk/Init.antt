-- ===== src/Disk/Init.antt =====
-- `RamdiskInit` of arcfw/arm/ramdisk.c: the size of a staged image.
use arcpi.Base.{
  ap, Bool-cases, ==_iff, ℕ, zero, suc, ◌+◌, ◌-◌, ◌*◌, ◌^◌, ◌≤◌, ◌<◌, ◌≡◌, inl, inr, true, not,
  ◌&&◌, arith, ltb, ◌==◌, if◌then◌else◌, add32, word, sector_size,
}
use arcpi.Runtime.{Memory}
use arcpi.Disk.{
  Machine, staged, load_address, partition_start, partition_count, has_signature, largest_end,
  ramdisk_init,
}

-- No partition of the boot record at `p` ends past the 4 GiB that a ULONG can count in bytes.
abbrev pub IsSmall : Memory → ℕ → Type 0
IsSmall m p = (i : ℕ) → i < 4 → (partition_start m p i + partition_count m p i) * sector_size < word

largest_end-grows : (n i : ℕ) (m : Memory) (p largest : ℕ) → largest ≤ largest_end n i m p largest
unfolding largest_end
largest_end-grows zero i m p largest = ground arith
largest_end-grows (suc n) i m p largest =
    let end = add32 (partition_start m p i) (partition_count m p i) in
    let next = if not (partition_count m p i == 0) && ltb largest end then end else largest in
    ground (arith, largest_end-grows n (suc i) m p next)

largest_end-covers :
    (n i : ℕ) (m : Memory) (p largest k : ℕ)
    → i ≤ k
    → k < i + n
    → 0 < partition_count m p k
    → add32 (partition_start m p k) (partition_count m p k) ≤ largest_end n i m p largest
unfolding largest_end
largest_end-covers zero i m p largest k lo hi used = ground arith
largest_end-covers (suc n) i m p largest k lo hi used =
    let end = add32 (partition_start m p i) (partition_count m p i) in
    let next = if not (partition_count m p i == 0) && ltb largest end then end else largest in
    elim (Bool-cases (k == i)) [
      | inl same ↦
          let e : add32 (partition_start m p k) (partition_count m p k) ≡ end =
            ap (λ j. add32 (partition_start m p j) (partition_count m p j)) ((==_iff k i).0 same) in
          let c : partition_count m p k ≡ partition_count m p i =
            ap (partition_count m p) ((==_iff k i).0 same) in
          ground (arith, e, c, largest_end-grows n (suc i) m p next)
      | inr other ↦ largest_end-covers n (suc i) m p next k (ground arith) (omega arith) used
    ]

largest_end-bounded :
    (n i : ℕ) (m : Memory) (p largest bound : ℕ)
    → largest ≤ bound
    → ((k : ℕ) → k < i + n → add32 (partition_start m p k) (partition_count m p k) ≤ bound)
    → largest_end n i m p largest ≤ bound
unfolding largest_end
largest_end-bounded zero i m p largest bound h below = h
largest_end-bounded (suc n) i m p largest bound h below =
    let end = add32 (partition_start m p i) (partition_count m p i) in
    let next = if not (partition_count m p i == 0) && ltb largest end then end else largest in
    largest_end-bounded n (suc i) m p next bound (ground (arith, below i (omega arith)))
      λ k lt. below k (omega arith)

-- `RamdiskInit` on a staged image with a boot record whose partitions end below 4 GiB: every partition in use ends inside the image
-- that it sizes.
pub ramdisk_init-covers :
    (m : Machine) (k : ℕ)
    → has_signature m.memory load_address ≡ true
    → IsSmall m.memory load_address
    → k < 4
    → 0 < partition_count m.memory load_address k
    → (partition_start m.memory load_address k + partition_count m.memory load_address k)
        * sector_size
      ≤ (ramdisk_init staged m).rd_bytes
unfolding ramdisk_init
ramdisk_init-covers m k signed small lt used =
    let p = load_address in
    let top = largest_end 4 0 m.memory p 0 in
    let bound : top ≤ 2 ^ 23 - 1 =
      largest_end-bounded 4 0 m.memory p 0 (2 ^ 23 - 1) (omega arith)
        λ j h. omega (arith, small j h) in
    let covers = largest_end-covers 4 0 m.memory p 0 k (omega arith) lt used in
    rw signed (omega (arith, bound, covers, small k lt))
