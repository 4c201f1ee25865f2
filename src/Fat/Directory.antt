-- ===== src/Fat/Directory.antt =====
-- `FatSearchForDirent` of arcfw/ported/fatboot.c, over the operations of Fat/Interface and `DiskRead`.
-- The loop along a directory's clusters runs on fuel, as in Fat/Mcb.
pub mod Reference
pub mod Reader
pub mod Blocks
pub mod Search
pub mod OnVolume
use arcpi.Base.{
  ℕ, zero, suc, ◌+◌, ◌-◌, ◌*◌, ◌/◌, ◌%◌, ◌^◌, Bool, true, false, not, ◌&&◌, ◌==◌, if◌then◌else◌,
  add32, Option, none, some, enoent, emaximum,
}
use arcpi.Runtime.{Memory}
use arcpi.Fat.{
  Bpb, bytes_per_cluster, index_to_lbo, root_directory_lbo, root_directory_size, cluster_available,
}
use arcpi.Fat.Action.{Action, pure, raise, ◌>>=◌}
use arcpi.Fat.Interface.{FatOps}
use arcpi.Fat.Cluster.{is_next}

-- `AreNamesEqual` on the first `n` bytes; a name has 11.
unfoldable pub names_equal : (n : ℕ) → Memory → Memory → Bool
names_equal zero x y = true
names_equal (suc n) x y = let rest = names_equal n x y in (x n == y n) && rest

-- `FlagOn(Attributes, FAT_DIRENT_ATTR_VOLUME_ID)`
abbrev pub is_label : (attributes : ℕ) → Bool
is_label a = a / 2 ^ 3 % 2 == 1

-- The test of an entry; the search of the root directory passes over the volume's label.
unfoldable pub is_match : (root : Bool) → (name dirent : Memory) → Bool
unfolding names_equal
is_match root name d = not (root && is_label (d 11)) && names_equal 11 d name

-- What the look at some entries finds.
pub data Scan : Type 0 where
  found : ℕ → Scan
  ended : Scan
  more : Scan

-- The bytes from `p` on.
abbrev pub at : (p : ℕ) → Memory → Memory
at p m q = m (p + q)

-- The inner loop, with `n` entries left from entry `i` on.
unfoldable pub scan : (root : Bool) → (name : Memory) → (n i : ℕ) → (buffer : Memory) → Scan
unfolding is_match
scan root name zero i buffer = more
scan root name (suc n) i buffer =
    let rest = scan root name n (suc i) buffer in
    if is_match root name (at (i * 32) buffer)
    then found i
    else if buffer (i * 32) == 0
    then ended
    else rest

-- What follows the look at the block at `lbo`; `rest` are the rounds behind it.
abbrev pub looked_at :
    {S : Type 0}
    → Scan
    → (lbo : ℕ) → (buffer : Memory) → (rest : Action S (Option (Memory × ℕ) × Memory))
    → Action S (Option (Memory × ℕ) × Memory)
looked_at (found i) lbo buffer rest = pure (some (at (i * 32) buffer, add32 lbo (i * 32)), buffer)
looked_at ended lbo buffer rest = raise enoent
looked_at more lbo buffer rest = rest

module _ {S : Type 0} (ops : FatOps S) (read : (lbo length : ℕ) → Memory → Action S Memory)
    (b : Bpb) where
  -- The loop over blocks of 512 bytes, with `n` rounds left from `offset` on: the entry and `*Lbo` if
  -- one matches, with the buffer.
  unfoldable pub search_blocks :
      (root : Bool)
      → (name : Memory) → (n offset start : ℕ) → (buffer : Memory)
      → Action S (Option (Memory × ℕ) × Memory)
  unfolding scan
  search_blocks root name zero offset start buffer = pure (none, buffer)
  search_blocks root name (suc n) offset start buffer = do
    let lbo = add32 offset start
    buffer ← read lbo 512 buffer
    looked_at (scan root name 16 0 buffer) lbo buffer
        (search_blocks root name n (add32 offset 512) start buffer)

  -- The loop over the clusters of a directory.
  unfoldable pub search_clusters :
      (fuel : ℕ) → (name : Memory) → (entry : ℕ) → (buffer : Memory) → Action S (Memory × ℕ)
  unfolding search_blocks
  search_clusters zero name entry buffer = raise emaximum
  search_clusters (suc n) name entry buffer = if not (is_next b entry) then raise enoent else (do
    (r, buffer) ←
        search_blocks false name ((bytes_per_cluster b + 511) / 512) 0 (index_to_lbo b entry) buffer
    elim r [
      | some x ↦ pure x
      | none ↦ (do entry ← ops.lookup entry; search_clusters n name entry buffer)
    ])

  -- The branch for the root directory.
  unfoldable pub search_root : (name buffer : Memory) → Action S (Memory × ℕ)
  unfolding search_blocks
  search_root name buffer = do
    (r, buffer) ←
        search_blocks true name ((root_directory_size b + 511) / 512) 0 (root_directory_lbo b)
          buffer
    elim r [ some x ↦ pure x | none ↦ raise enoent ]

  -- `FatSearchForDirent`; `buffer` is what the stack held.
  unfoldable pub search_for_dirent :
      (fuel index : ℕ) → (name buffer : Memory) → Action S (Memory × ℕ)
  unfolding search_root search_clusters
  search_for_dirent fuel index name buffer =
      if index == cluster_available
      then search_root name buffer
      else search_clusters fuel name index buffer
