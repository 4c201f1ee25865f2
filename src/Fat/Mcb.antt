-- ===== src/Fat/Mcb.antt =====
-- From file offsets to disk offsets (arcfw/ported/fatboot.c, arcfw/inc/fatboot.h): `FatLoadMcb` and
-- `FatVboToLbo`, over the operations of Fat/Interface.
--
-- The loops along a cluster chain run on fuel; a run out of fuel is EMAXIMUM, which the code never
-- returns.
pub mod Position
pub mod Load
pub mod Chain
pub mod Lookup
use arcpi.Base.{
  ℕ, zero, suc, ◌+◌, ◌-◌, Bool, true, false, not, ◌||◌, ltb, leb, ◌==◌, if◌then◌else◌, add32, sub32,
  einval, emaximum,
}
use arcpi.Fat.{
  Bpb, next, interpret_cluster_type, is_twelve_bit, bytes_per_cluster, index_to_lbo,
  root_directory_lbo, root_directory_size,
}
use arcpi.Fat.Action.{Action, pure, raise, gets, modify, within, ◌>>=◌, ◌>>◌}
use arcpi.Fat.Cluster.{is_next}
use arcpi.Fat.Dirent.{FatFile, first_cluster}
use arcpi.Fat.Interface.{FatOps}

-- `FAT_MAXIMUM_MCB`
abbrev pub maximum_mcb : ℕ
maximum_mcb = 41

-- `FAT_MCB`: run `i` takes the offsets from `vbo i` to `vbo (i + 1)` to the disk from `lbo i` on.
pub record FatMcb : Type 0 where
  pub in_use : ℕ
  pub vbo : ℕ → ℕ
  pub lbo : ℕ → ℕ

-- `a[i] = x`
abbrev pub update : (ℕ → ℕ) → (i x : ℕ) → ℕ → ℕ
update a i x k = if k == i then x else a k

-- The volume's FAT with the runs of the file that was used last.
pub record FileMap (S : Type 0) : Type 0 where
  pub file_id : ℕ
  pub mcb : FatMcb
  pub fat : S

abbrev pub put_mcb : {S : Type 0} → (FatMcb → FatMcb) → Action (FileMap S) (Unit {0})
put_mcb f = modify (λ x. record x { mcb = f x.mcb })

abbrev pub on_fat : {S A : Type 0} → Action S A → Action (FileMap S) A
on_fat = within (λ x. x.fat) (λ s x. record x { fat = s })

-- The runs with one more cluster at `lbo`: the last run gets longer, or a new one starts if there is
-- room for it.
abbrev pub is_contiguous : FatMcb → (lbo : ℕ) → Bool
is_contiguous m lbo =
    add32 (m.lbo (m.in_use - 1)) (sub32 (m.vbo m.in_use) (m.vbo (m.in_use - 1))) == lbo

abbrev pub extend_run : Bpb → FatMcb → FatMcb
extend_run b m = record m {
  vbo = update m.vbo m.in_use (add32 (m.vbo m.in_use) (bytes_per_cluster b));
}

abbrev pub add_run : Bpb → (lbo : ℕ) → FatMcb → FatMcb
add_run b lbo m = record {
  in_use = m.in_use + 1;
  lbo = update m.lbo m.in_use lbo;
  vbo = update m.vbo (m.in_use + 1) (add32 (m.vbo m.in_use) (bytes_per_cluster b));
}

-- The first run, which starts with the cluster that ends at `vbo`.
abbrev pub first_run : Bpb → (vbo entry : ℕ) → FatMcb → FatMcb
first_run b vbo entry m = record {
  in_use = 1;
  vbo = update (update m.vbo 0 (sub32 vbo (bytes_per_cluster b))) 1 vbo;
  lbo = update m.lbo 0 (index_to_lbo b entry);
}

-- The root directory is one run.
abbrev pub root_run : Bpb → FatMcb → FatMcb
root_run b m = record {
  in_use = 1;
  lbo = update m.lbo 0 (root_directory_lbo b);
  vbo = update m.vbo 1 (root_directory_size b);
}

module _ {S : Type 0} (ops : FatOps S) (b : Bpb) where
  -- The first loop of `FatLoadMcb`: where it stops, or nothing if the chain ends before.
  unfoldable pub skip_clusters : (fuel starting vbo entry : ℕ) → Action (FileMap S) (Bool × ℕ × ℕ)
  skip_clusters zero starting vbo entry = raise emaximum
  skip_clusters (suc n) starting vbo entry =
      if not (ltb vbo starting)
      then pure (is_next b entry, vbo, entry)
      else if not (is_next b entry)
      then pure (false, vbo, entry)
      else (do
        entry' ← on_fat (ops.lookup entry)
        skip_clusters n starting (add32 vbo (bytes_per_cluster b)) entry')

  -- The second loop: the runs of the clusters behind `entry`.
  unfoldable pub collect_runs : (fuel entry : ℕ) → Action (FileMap S) (Unit {0})
  collect_runs zero entry = raise emaximum
  collect_runs (suc n) entry = do
    entry' ← on_fat (ops.lookup entry)
    m ← gets (λ x. x.mcb)
    let lbo = index_to_lbo b entry'
    if not (is_next b entry')
        then pure tt
        else if is_contiguous m lbo
        then (do put_mcb (extend_run b); collect_runs n entry')
        else if leb maximum_mcb (m.in_use + 1)
        then pure tt
        else (do put_mcb (add_run b lbo); collect_runs n entry')

  -- The part of `FatLoadMcb` for a chain of clusters.
  unfoldable pub load_runs : (fuel first starting : ℕ) → Action (FileMap S) (Unit {0})
  unfolding skip_clusters collect_runs
  load_runs fuel first starting = do
    (more, vbo, entry) ← skip_clusters fuel starting (bytes_per_cluster b) first
    if more then (do put_mcb (first_run b vbo entry); collect_runs fuel entry) else pure tt

  -- `FatLoadMcb`
  unfoldable pub load_mcb :
      (fuel file_id : ℕ) → FatFile → (starting : ℕ) → Action (FileMap S) (Unit {0})
  unfolding load_runs
  load_mcb fuel file_id f starting = do
    modify (λ x. record x {
      file_id = file_id;
      mcb = record x.mcb { in_use = 0; vbo = update x.mcb.vbo 0 0 };
    })
    if f.dirent_lbo == 0 then put_mcb (root_run b) else load_runs fuel (first_cluster f) starting

  -- The loop of `FatVboToLbo`, with `n` runs left from run `i` on: `*Lbo` and `*ByteCount`.
  unfoldable pub find_run : (n i vbo : ℕ) → Action (FileMap S) (ℕ × ℕ)
  find_run zero i vbo = raise einval
  find_run (suc n) i vbo = do
    m ← gets (λ x. x.mcb)
    if ltb vbo (m.vbo (i + 1))
        then pure (add32 (m.lbo i) (sub32 vbo (m.vbo i)), sub32 (m.vbo (i + 1)) vbo)
        else find_run n (suc i) vbo

  -- The test that the runs do not serve the offset.
  abbrev pub is_elsewhere : (file_id vbo : ℕ) → FileMap S → Bool
  is_elsewhere file_id vbo x =
      not (file_id == x.file_id) || (ltb vbo (x.mcb.vbo 0) || leb (x.mcb.vbo x.mcb.in_use) vbo)

  -- `FatVboToLbo`
  unfoldable pub vbo_to_lbo : (fuel file_id : ℕ) → FatFile → (vbo : ℕ) → Action (FileMap S) (ℕ × ℕ)
  unfolding load_mcb find_run
  vbo_to_lbo fuel file_id f vbo = do
    x ← gets (λ x. x)
    if is_elsewhere file_id vbo x then load_mcb fuel file_id f vbo else pure tt
    m ← gets (λ x. x.mcb)
    find_run m.in_use 0 vbo
