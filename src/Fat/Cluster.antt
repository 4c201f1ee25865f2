-- ===== src/Fat/Cluster.antt =====
-- `FatAllocateClusters` of arcfw/ported/fatboot.c, over the operations of Fat/Interface.
pub mod Allocate
pub mod Loop
pub mod Allocated
pub mod Probes
pub mod LastRound
use arcpi.Base.{
  ℕ, zero, suc, ◌+◌, ◌-◌, ◌*◌, ◌/◌, ◌%◌, Bool, true, false, leb, ◌==◌, if◌then◌else◌, add32, sub32,
  ushort, List, [], ◌∷◌, enospc,
}
use arcpi.Runtime.{Memory}
use arcpi.Fat.{
  Bpb, ClusterType, available, next, interpret_cluster_type, is_twelve_bit, number_of_clusters,
  bytes_per_cluster, index_to_lbo, cluster_last,
}
use arcpi.Fat.Action.{Action, pure, raise, ◌>>=◌, ◌>>◌}
use arcpi.Fat.Interface.{FatOps}

-- `FatInterpretClusterType(..) == FatClusterAvailable`
abbrev pub is_available : Bpb → ℕ → Bool
is_available b entry = elim (interpret_cluster_type (is_twelve_bit b) entry) [
  | available ↦ true
  | _ ↦ false
]

-- `FatInterpretClusterType(..) == FatClusterNext`
abbrev pub is_next : Bpb → ℕ → Bool
is_next b entry = elim (interpret_cluster_type (is_twelve_bit b) entry) [ next ↦ true | _ ↦ false ]

-- `EntryToExamine` of round `j`
abbrev pub examined : Bpb → (hint j : ℕ) → ℕ
examined b hint j = ushort (sub32 (add32 j hint) 2 % number_of_clusters b + 2)

module _ {S : Type 0} (ops : FatOps S) (b : Bpb) where
  -- `for (i = 0; i < BytesPerCluster; i += 512) DiskWrite(..., ClusterLbo + i, 512, BlankBuffer)`, with
  -- `n` rounds left.
  unfoldable pub clear_sectors : (n lbo : ℕ) → Action S (Unit {0})
  clear_sectors zero lbo = pure tt
  clear_sectors (suc n) lbo = do ops.write lbo 512 (λ _. 0); clear_sectors n (add32 lbo 512)

  -- The body of the loop for a cluster that is available.
  unfoldable pub take_cluster : (previous entry : ℕ) → Action S (Unit {0})
  unfolding clear_sectors
  take_cluster previous entry = do
    if previous == 0 then pure tt else ops.set previous entry
    ops.set entry cluster_last
    clear_sectors ((bytes_per_cluster b + 511) / 512) (index_to_lbo b entry)

  -- The loop of `FatAllocateClusters` with `n` rounds left from round `j` on, and with `needed`
  -- clusters still to be found. `first` is `*AllocatedEntry`.
  unfoldable pub allocate_loop : (n j hint needed previous first : ℕ) → Action S ℕ
  unfolding take_cluster
  allocate_loop zero j hint needed previous first = raise enospc
  allocate_loop (suc n) j hint zero previous first = pure first
  allocate_loop (suc n) j hint (suc needed) previous first = do
    let entry = examined b hint j
    found ← ops.lookup entry
    let first' = if previous == 0 then entry else first
    if is_available b found
        then (do take_cluster previous entry; allocate_loop n (suc j) hint needed entry first')
        else allocate_loop n (suc j) hint (suc needed) previous first

  -- `FatAllocateClusters`; `uninitialized` is what the caller's variable held.
  unfoldable pub allocate_clusters : (count hint uninitialized : ℕ) → Action S ℕ
  unfolding allocate_loop
  allocate_clusters count hint uninitialized =
      allocate_loop (number_of_clusters b) 0 hint count 0 uninitialized
