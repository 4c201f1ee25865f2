-- ===== src/Fat/Directory/Reader.antt =====
-- What the search of arcfw/ported/fatboot.c asks of `DiskRead`, and what it answers.
use arcpi.Base.{ℕ, suc, ◌+◌, ◌*◌, ◌/◌, ◌^◌, ◌<◌, ◌≡◌, subst, arith, Option, none, some, enoent}
use arcpi.Runtime.{Memory}
use arcpi.Fat.Action.{Action, Result, ok, fail}
use arcpi.Fat.Interface.{FatOps, IsFat}
use arcpi.Fat.Directory.{Scan, found, ended, more}

-- Reads of a part of the disk that no operation on the FAT changes.
pub record IsReader {S : Type 0} {ops : FatOps S} {limit : ℕ} (fat : IsFat ops limit)
    (read : (lbo length : ℕ) → Memory → Action S Memory) : Type 1 where
  pub Stored : ℕ → Type 0
  pub contents : S → Memory
  pub read_lem :
      (lbo n : ℕ) (buffer : Memory) (s : S)
      → fat.Good s
      → 0 < n
      → ((q : ℕ) → q < n → Stored (lbo + q))
      → (b : Memory) × (s' : S) × (read lbo n buffer s ≡ (ok b, s'))
        × fat.Good s'
        × ((j : ℕ) → fat.InRange j → fat.entries s' j ≡ fat.entries s j)
        × ((q : ℕ) → q < n → b q ≡ contents s (lbo + q))
        × ((p : ℕ) → Stored p → contents s' p ≡ contents s p)
  pub lookup_keeps :
      (i : ℕ) (s : S)
      → fat.Good s
      → fat.InRange i
      → (p : ℕ) → Stored p
      → contents (ops.lookup i s).1 p ≡ contents s p

-- The number of blocks that a loop over `size` bytes reads.
abbrev pub rounds : (size : ℕ) → ℕ
rounds size = (size + 511) / 512

module _ {S : Type 0} {ops : FatOps S} {limit : ℕ} (fat : IsFat ops limit)
    (read : (lbo length : ℕ) → Memory → Action S Memory) (reader : IsReader fat read) where
  -- The volume holds the table `t` and the bytes `m`.
  pub record Has (t : ℕ → ℕ) (m : Memory) (s : S) : Type 0 where
    pub good : fat.Good s
    pub table : (j : ℕ) → fat.InRange j → fat.entries s j ≡ t j
    pub bytes : (p : ℕ) → reader.Stored p → reader.contents s p ≡ m p

  -- `n` blocks from `p` on can be read.
  pub record IsRegion (n p : ℕ) : Type 0 where
    pub fits : p + n * 512 < 2 ^ 32
    pub stored : (q : ℕ) → q < n * 512 → reader.Stored (p + q)

  -- The entry at `p` has been read.
  abbrev pub Entry : (m : Memory) → (p : ℕ) → Memory × ℕ → Type 0
  Entry m p x = (x.1 ≡ p) × ((q : ℕ) → q < 32 → x.0 q ≡ m (p + q))

  abbrev pub BlocksAnswer : (m : Memory) → Scan → Result (Option (Memory × ℕ) × Memory) → Type 0
  BlocksAnswer m (found p) r =
      (x : Memory × ℕ) × (buffer : Memory) × (r ≡ ok (some x, buffer)) × Entry m p x
  BlocksAnswer m ended r = r ≡ fail enoent
  BlocksAnswer m more r = (buffer : Memory) × (r ≡ ok (none, buffer))

  abbrev pub Answer : (m : Memory) → Scan → Result (Memory × ℕ) → Type 0
  Answer m (found p) r = (x : Memory × ℕ) × (r ≡ ok x) × Entry m p x
  Answer m ended r = r ≡ fail enoent
  Answer m more r = r ≡ fail enoent

  pub next-IsRegion : (n p : ℕ) → IsRegion (suc n) p → IsRegion n (p + 512)
  next-IsRegion n p r = record {
    fits = omega (arith, r.fits);
    stored = λ q lt. subst reader.Stored (omega arith) (r.stored (512 + q) (omega (arith, lt)));
  }
