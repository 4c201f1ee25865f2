-- ===== src/Fat/Truncate/Grown.antt =====
-- What `FatIncreaseFileAllocation` of arcfw/ported/fatboot.c makes of a file.
use arcpi.Base.{
  ℕ, ◌-◌, ◌^◌, ◌<◌, ◌≤◌, ◌≡◌, refl, sym, ap, subst, ◌∙◌, false, ◌==◌, arith, Bool-cases, inl, inr,
  List, [], ◌∷◌, All, All-map, All-zip, append-nil, take-all, drop_past, length, last_or, Status,
  enospc,
}
use arcpi.Fat.{Bpb, number_of_clusters}
use arcpi.Fat.Action.{Result, ok, fail, next}
use arcpi.Fat.Dirent.{first_cluster}
use arcpi.Fat.Interface.{FatOps, IsFat}
use arcpi.Fat.Cluster.{is_next, is_available}
use arcpi.Fat.Cluster.Allocated.{free_count, free_count-cong}
use arcpi.Fat.Cluster.Allocate.{probes}
use arcpi.Fat.Cluster.Loop.{Holds, last_mark}
use arcpi.Fat.Cluster.Probes.{Fits, AllocationOutcome, probes-All, allocate_clusters-Outcome}
use arcpi.Fat.Truncate.{OpenFile, clusters_needed, attach_chain, increase_file}
use arcpi.Fat.Truncate.Follows.{Follows, Follows-cong}
use arcpi.Fat.Truncate.Needed.{Needs, IsSize, clusters_needed-Needs}
use arcpi.Fat.Truncate.Walk.{walk_clusters_lem}
use arcpi.Fat.Truncate.Append.{All-last}
use arcpi.Fat.Truncate.Attach.{Grown, IsSound, AllUsable, attach-Grown}

module _ {S : Type 0} {ops : FatOps S} {limit : ℕ} (fat : IsFat ops limit) (b : Bpb) where
  -- Too few clusters were available, and the file and every cluster in use are as they were.
  pub record NoSpace (cs : List ℕ) (count : ℕ) (x y : OpenFile S) (e : Status) : Type 0 where
    pub status : e ≡ enospc
    pub good : fat.Good y.fat
    pub missing : 0 < count
    pub few :
        free_count b (fat.entries x.fat) (probes b (number_of_clusters b) 0 (last_or cs 2)) ≤ count
    pub same_file : y.file ≡ x.file
    pub chain : Follows b (fat.entries y.fat) (first_cluster x.file) cs
    pub used :
        (j : ℕ)
        → fat.InRange j
        → is_available b (fat.entries x.fat j) ≡ false
        → fat.entries y.fat j ≡ fat.entries x.fat j

  abbrev pub GrowthOutcome : List ℕ → (count : ℕ) → (x y : OpenFile S) → Result (Unit {0}) → Type 0
  GrowthOutcome cs count x y (ok _) = (ds : List ℕ) × Grown fat b cs ds count x y
  GrowthOutcome cs count x y (fail e) = NoSpace cs count x y e

  unchanged :
      (cs : List ℕ) (count : ℕ) (x : OpenFile S) (s : S)
      → 0 ≡ count
      → IsSound fat b cs x
      → Holds fat b s (fat.entries x.fat)
      → Grown fat b cs [] count x (record x { fat = s })
  unchanged cs count x s none sound h = record {
    good = h.good;
    same_place = refl;
    size = none;
    chain = subst (Follows b (fat.entries s) (first_cluster x.file)) (sym (append-nil cs)) (
        Follows-cong b (fat.entries x.fat) (fat.entries s) (first_cluster x.file) cs
          (All-map cs (λ c r. sym (h.same c r)) sound.file.in_range) sound.file.chain);
    fresh = tt;
    others = λ j r _ _. h.same j r;
  }

  last_numbered :
      (cs : List ℕ)
      → All (λ c. (2 ≤ c) × (c < 2 ^ 16)) cs
      → (2 ≤ last_or cs 2) × (last_or cs 2 < 2 ^ 16)
  last_numbered [] a = (omega arith, omega arith)
  last_numbered (c ∷ cs) a = All-last (λ c. (2 ≤ c) × (c < 2 ^ 16)) c cs a

  same_count :
      (cs : List ℕ) (s : S) (x : OpenFile S)
      → IsSound fat b cs x
      → Fits b limit
      → AllUsable fat b
      → Holds fat b s (fat.entries x.fat)
      → let qs = probes b (number_of_clusters b) 0 (last_or cs 2) in
        free_count b (fat.entries s) qs ≡ free_count b (fat.entries x.fat) qs
  same_count cs s x sound fits usable h =
      let (p2, p_lt) = last_numbered cs sound.numbered in
      free_count-cong b (fat.entries s) (fat.entries x.fat)
        (probes b (number_of_clusters b) 0 (last_or cs 2))
        (probes-All b fits p2 p_lt (λ q. fat.entries s q ≡ fat.entries x.fat q)
          (number_of_clusters b) 0 (λ q a z. h.same q (usable q a z).0.in_range) (omega arith))

  -- What follows the allocation, for either result of it.
  attached :
      (count : ℕ) (cs : List ℕ) (p : ℕ) (s s' : S) (x : OpenFile S) (r : Result ℕ)
      → IsSound fat b cs x
      → Fits b limit
      → AllUsable fat b
      → is_next b (last_mark fat b) ≡ false
      → Holds fat b s (fat.entries x.fat)
      → fat.Good s'
      → 0 < count
      → AllocationOutcome fat b s s' count (last_or cs 2) r
      → (r' : Result (Unit {0})) × (y : OpenFile S) × (next
            (r, record x { fat = s' })
            (attach_chain ops b (last_or cs 2))
          ≡ (r', y))
        × GrowthOutcome cs count x y r'
  attached count cs p s s' x (fail e) sound fits usable mark h g pos (no_space, few, kept) =
      let used : (j : ℕ)
          → fat.InRange j
          → is_available b (fat.entries x.fat j) ≡ false
          → fat.entries s' j ≡ fat.entries x.fat j =
        λ j r busy.
          kept j r (subst (λ v. is_available b v ≡ false) (sym (h.same j r)) busy) ∙ h.same j r in
      (
        fail e,
        record x { fat = s' },
        refl,
        record {
          status = no_space;
          good = g;
          missing = pos;
          few = subst (λ k. k ≤ count) (same_count cs s x sound fits usable h) few;
          same_file = refl;
          chain =
              Follows-cong b (fat.entries x.fat) (fat.entries s') (first_cluster x.file) cs
                (All-zip cs (λ c r busy. sym (used c r busy)) sound.file.in_range sound.used)
                sound.file.chain;
          used = used;
        },
      )
  attached count cs p s s' x (ok d) sound fits usable mark h g pos ([], a, first) =
      absurd (omega (arith, pos, a.size))
  attached count cs p s s' x (ok d) sound fits usable mark h g pos (d' ∷ ds, a, first) =
      let us = All-map (d' ∷ ds) (λ c r. usable c r.0 r.1) a.numbered in
      let (y, e, grown) = attach-Grown fat b count cs ds d' s s' x sound fits mark h g a us in
      (
        ok tt,
        y,
        ap (λ d. attach_chain ops b (last_or cs 2) d (record x { fat = s' })) (sym first) ∙ e,
        (d' ∷ ds, grown),
      )

  increase_needed-Outcome :
      (bytes : ℕ) (x : OpenFile S) (cs : List ℕ)
      → IsSound fat b cs x
      → fat.Good x.fat
      → Fits b limit
      → AllUsable fat b
      → is_next b (last_mark fat b) ≡ false
      → (r : Result (Unit {0})) × (y : OpenFile S) × (increase_file ops b bytes x ≡ (r, y))
        × GrowthOutcome cs (clusters_needed b bytes - length cs) x y r
  unfolding increase_file
  increase_needed-Outcome bytes x cs sound g fits usable mark =
      let n = clusters_needed b bytes in
      let t = fat.entries x.fat in
      let file = sound.file in
      let not_root : (x.file.dirent_lbo == 0) ≡ false = ground (arith, file.not_root) in
      let (e, s1, e1, h1, f1) =
        walk_clusters_lem fat b n 2 (first_cluster x.file) cs x.fat t
          (record { good = g; same = λ j _. refl }) file.in_range file.chain in
      elim (Bool-cases (n - length cs == 0)) [
        | inl enough ↦ (
          ok tt,
          record x { fat = s1 },
          rw (not_root, e1, enough) refl,
          ([], unchanged cs (n - length cs) x s1 (ground (arith, enough)) sound h1),
        )
        | inr missing ↦
            let all = take-all n cs (drop_past n cs (ground (arith, missing))) in
            let p = last_or cs 2 in
            let walked = e1 ∙ ap (λ l. (ok (n - length cs, last_or l 2, e), s1)) all in
            let (p2, p_lt) = last_numbered cs sound.numbered in
            let (r, s', e2, g', out) =
              allocate_clusters-Outcome fat b (n - length cs) p e s1 (ground (arith, missing)) p2
                p_lt fits h1.good (λ q a z. (usable q a z).0) in
            let (r', y, e3, o) =
              attached (n - length cs) cs p s1 s' x r sound fits usable mark h1 g'
                (ground (arith, missing)) out in
            (r', y, rw (not_root, walked, missing, e2) e3, o)
      ]

  -- `FatIncreaseFileAllocation` brings a file to the least number `n` of clusters that holds the size:
  -- it leaves the file alone if it has so many; else it puts as many clusters as are missing at the
  -- end of the file's chain, which were available, and changes no other entry; or it answers ENOSPC,
  -- and then clusters were missing, no more than these were available, the file and its chain are as
  -- they were, and no entry of a cluster in use has changed. The size plus the bytes of one cluster
  -- is at most 2^32, the volume is in order, the file's clusters are a chain in the FAT without
  -- repetition, numbered from 2 and not available, its directory entry can be written, is not the
  -- root directory's, and has no cluster if the chain is empty, the numbers of the volume's clusters
  -- fit into an entry and are no marks, the clusters can be written, and the mark that ends a chain
  -- is read as an end.
  pub increase_file-Outcome :
      (bytes : ℕ) (x : OpenFile S) (cs : List ℕ)
      → IsSize b bytes
      → IsSound fat b cs x
      → fat.Good x.fat
      → Fits b limit
      → AllUsable fat b
      → is_next b (last_mark fat b) ≡ false
      → (n : ℕ) × Needs b bytes n
        × (r : Result (Unit {0})) × (y : OpenFile S) × (increase_file ops b bytes x ≡ (r, y))
        × GrowthOutcome cs (n - length cs) x y r
  increase_file-Outcome bytes x cs size sound g fits usable mark =
      let (r, y, e, out) = increase_needed-Outcome bytes x cs sound g fits usable mark in
      (clusters_needed b bytes, clusters_needed-Needs b bytes size, r, y, e, out)
