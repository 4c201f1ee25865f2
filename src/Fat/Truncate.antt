-- ===== src/Fat/Truncate.antt =====
-- `FatTruncateFileAllocation` and `FatIncreaseFileAllocation` of arcfw/ported/fatboot.c, over the
-- operations of Fat/Interface. The loop along a cluster chain runs on fuel, as in Fat/Mcb.
pub mod Follows
pub mod Needed
pub mod Walk
pub mod Freed
pub mod Append
pub mod Attach
pub mod Grown
use arcpi.Base.{
  ℕ, zero, suc, ◌+◌, ◌-◌, ◌/◌, Bool, true, false, not, leb, ◌==◌, if◌then◌else◌, add32, sub32,
  Option, none, some, emaximum, enospc,
}
use arcpi.Fat.{
  Bpb, last, interpret_cluster_type, is_twelve_bit, bytes_per_cluster, cluster_available,
  cluster_last, root_directory_size,
}
use arcpi.Fat.Action.{Action, pure, raise, gets, modify, within, ◌>>=◌, ◌>>◌}
use arcpi.Fat.Interface.{FatOps}
use arcpi.Fat.Cluster.{is_next, allocate_clusters}
use arcpi.Fat.Dirent.{
  FatFile, TimeFields, first_cluster, put_first_cluster, put_file_size, set_dirent,
}

-- The volume with the file's entry of the file table.
pub record OpenFile (S : Type 0) : Type 0 where
  pub file : FatFile
  pub fat : S

abbrev pub on_volume : {S A : Type 0} → Action S A → Action (OpenFile S) A
on_volume = within (λ x. x.fat) (λ s x. record x { fat = s })

-- `FatInterpretClusterType(..) == FatClusterLast`
abbrev pub is_last : Bpb → ℕ → Bool
is_last b entry = elim (interpret_cluster_type (is_twelve_bit b) entry) [ last ↦ true | _ ↦ false ]

-- `NumberOfClustersNeeded`
abbrev pub clusters_needed : Bpb → (bytes : ℕ) → ℕ
clusters_needed b bytes = sub32 (add32 bytes (bytes_per_cluster b)) 1 / bytes_per_cluster b

module _ {S : Type 0} (ops : FatOps S) (b : Bpb) where
  -- The first loop of both routines: `n` clusters left to walk, `current` the last one walked and
  -- `entry` the next. It gives these, and how many were left where the chain ended.
  unfoldable pub walk_clusters : (n current entry : ℕ) → Action S (ℕ × ℕ × ℕ)
  walk_clusters zero current entry = pure (0, current, entry)
  walk_clusters (suc n) current entry =
      if not (is_next b entry)
      then pure (suc n, current, entry)
      else (do entry' ← ops.lookup entry; walk_clusters n entry entry')

  -- The last loop of `FatTruncateFileAllocation`.
  unfoldable pub free_clusters : (fuel entry : ℕ) → Action S (Unit {0})
  free_clusters zero entry = raise emaximum
  free_clusters (suc n) entry =
      if not (is_next b entry)
      then pure tt
      else (do entry' ← ops.lookup entry; ops.set entry cluster_available; free_clusters n entry')

  -- The file's entry of its directory without a cluster, written to the disk.
  unfoldable pub clear_dirent : TimeFields → Action (OpenFile S) (Unit {0})
  unfolding set_dirent
  clear_dirent now = do
    f ← gets (λ x. x.file)
    let d =
        put_file_size 0 (put_first_cluster cluster_available (set_dirent now f.dirent f.dirent 0))
    modify (λ x. record x { file = record f { dirent = d } })
    on_volume (ops.write f.dirent_lbo 32 d)

  -- The end of the part of the chain that is kept; `current` is 0 if none is.
  unfoldable pub end_chain : TimeFields → (current entry : ℕ) → Action (OpenFile S) (Unit {0})
  unfolding clear_dirent
  end_chain now current entry = do
    f ← gets (λ x. x.file)
    if not (current == 0)
        then (if is_last b entry then pure tt else on_volume (ops.set current cluster_last))
        else if first_cluster f == cluster_available
        then pure tt
        else clear_dirent now

  -- `FatTruncateFileAllocation`
  unfoldable pub truncate_file : TimeFields → (fuel bytes : ℕ) → Action (OpenFile S) (Unit {0})
  unfolding walk_clusters free_clusters end_chain
  truncate_file now fuel bytes = do
    f ← gets (λ x. x.file)
    if f.dirent_lbo == 0 then pure tt else (do
      (missing, current, entry) ←
          on_volume (walk_clusters (clusters_needed b bytes) 0 (first_cluster f))
      if not (missing == 0)
          then pure tt
          else (do end_chain now current entry; on_volume (free_clusters fuel entry)))

  -- What `FatIncreaseFileAllocation` does with the chain that it has allocated.
  unfoldable pub attach_chain : (previous chain : ℕ) → Action (OpenFile S) (Unit {0})
  attach_chain previous chain = do
    f ← gets (λ x. x.file)
    let d = put_first_cluster chain f.dirent
    if first_cluster f == cluster_available
        then (do
          modify (λ x. record x { file = record f { dirent = d } })
          on_volume (ops.write f.dirent_lbo 32 d))
        else on_volume (ops.set previous chain)

  -- `FatIncreaseFileAllocation`; `PreviousEntry` starts as 2, which is also the hint for an empty file.
  unfoldable pub increase_file : (bytes : ℕ) → Action (OpenFile S) (Unit {0})
  unfolding walk_clusters attach_chain allocate_clusters root_directory_size
  increase_file bytes = do
    f ← gets (λ x. x.file)
    if f.dirent_lbo == 0
        then (if leb bytes (root_directory_size b) then pure tt else raise enospc)
        else (do
          (missing, previous, entry) ←
              on_volume (walk_clusters (clusters_needed b bytes) 2 (first_cluster f))
          if missing == 0 then pure tt else (do
            chain ← on_volume (allocate_clusters ops b missing previous entry)
            attach_chain previous chain))
