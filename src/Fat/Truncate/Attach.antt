-- ===== src/Fat/Truncate/Attach.antt =====
-- How `FatIncreaseFileAllocation` of arcfw/ported/fatboot.c puts a new chain behind a file.
use native.Mathlib.Nat.{mod-eq_of_lt}
use arcpi.Base.{
  ℕ, ◌+◌, ◌^◌, ◌<◌, ◌≤◌, ◌≡◌, ◌≢◌, refl, sym, subst, ◌∙◌, true, false, ◌==◌, arith, List, [], ◌∷◌,
  ◌++◌, All, All-map, All-zip, All-append, length, last_or,
}
use arcpi.Fat.{Bpb, cluster_available, number_of_clusters}
use arcpi.Fat.Action.{ok}
use arcpi.Fat.Dirent.{first_cluster, put_first_cluster}
use arcpi.Fat.Interface.{FatOps, IsFat}
use arcpi.Fat.Cluster.{is_next, is_available}
use arcpi.Fat.Cluster.Allocate.{put}
use arcpi.Fat.Cluster.Allocated.{All-sym, used_apart}
use arcpi.Fat.Cluster.Loop.{Holds, Usable, last_mark}
use arcpi.Fat.Cluster.Probes.{Fits, Allocated}
use arcpi.Fat.Truncate.{OpenFile, attach_chain}
use arcpi.Fat.Truncate.Follows.{Follows, Follows-put, Follows-cong}
use arcpi.Fat.Truncate.Freed.{IsFile}
use arcpi.Fat.Truncate.Append.{All-last, IsChain-Follows, Follows-append, put_there}

module _ {S : Type 0} {ops : FatOps S} {limit : ℕ} (fat : IsFat ops limit) (b : Bpb) where
  -- The file has these clusters more at its end, which were available; the other entries of the FAT
  -- are as they were.
  pub record Grown (cs ds : List ℕ) (count : ℕ) (x y : OpenFile S) : Type 0 where
    pub good : fat.Good y.fat
    pub same_place : y.file.dirent_lbo ≡ x.file.dirent_lbo
    pub size : length ds ≡ count
    pub chain : Follows b (fat.entries y.fat) (first_cluster y.file) (cs ++ ds)
    pub fresh : All (λ d. is_available b (fat.entries x.fat d) ≡ true) ds
    pub others :
        (j : ℕ)
        → fat.InRange j
        → All (λ c. c ≢ j) cs
        → All (λ d. d ≢ j) ds
        → fat.entries y.fat j ≡ fat.entries x.fat j

  -- The clusters that may be allocated are on the disk, and their numbers are no marks.
  abbrev pub AllUsable : Type 0
  AllUsable = (q : ℕ) → 2 ≤ q → q < number_of_clusters b + 2 → Usable fat b q × (is_next b q ≡ true)

  -- The file's clusters are numbered like those of the volume, are not available, and there are none only
  -- if its directory entry says so.
  pub record IsSound (cs : List ℕ) (x : OpenFile S) : Type 0 where
    pub file : IsFile fat b cs (fat.entries x.fat) x.file
    pub numbered : All (λ c. (2 ≤ c) × (c < 2 ^ 16)) cs
    pub used : All (λ c. is_available b (fat.entries x.fat c) ≡ false) cs
    pub none : cs ≡ [] → first_cluster x.file ≡ cluster_available

  attach_empty :
      (previous d : ℕ) (ds : List ℕ) (x : OpenFile S) (u : ℕ → ℕ)
      → IsFile fat b [] u x.file
      → fat.Good x.fat
      → first_cluster x.file ≡ cluster_available
      → d < 2 ^ 16
      → (y : OpenFile S) × (attach_chain ops b previous d x ≡ (ok tt, y))
        × Holds fat b y.fat (fat.entries x.fat)
        × (y.file.dirent_lbo ≡ x.file.dirent_lbo)
        × (first_cluster y.file ≡ d)
  unfolding attach_chain
  attach_empty previous d ds x u file g none lt =
      let z : (first_cluster x.file == cluster_available) ≡ true = ground (arith, none) in
      let dirent = put_first_cluster d x.file.dirent in
      let (s, e, g1, m) =
        fat.write_lem x.file.dirent_lbo 32 dirent x.fat g file.place
          (λ p. ground (arith, file.bytes p, lt)) in
      (
        record { file = record x.file { dirent = dirent }; fat = s },
        rw (z, e) refl,
        record { good = g1; same = m },
        refl,
        ground arith,
      )

  attach_behind :
      (p d : ℕ) (x : OpenFile S)
      → fat.Good x.fat
      → fat.InRange p
      → (first_cluster x.file == cluster_available) ≡ false
      → d < limit
      → limit ≤ 2 ^ 16
      → (s : S) × (attach_chain ops b p d x ≡ (ok tt, record x { fat = s }))
        × Holds fat b s (put p d (fat.entries x.fat))
  unfolding attach_chain
  attach_behind p d x g range some lt small =
      let (s, e, g1, m) = fat.set_lem p d x.fat g range (omega (arith, lt, small)) in
      (s, rw (some, e) refl, record { good = g1; same = λ j r. rw (m j r, mod-eq_of_lt lt) refl })

  -- The chain of the new clusters, once they have been allocated.
  new_chain :
      (s s' : S) (count d : ℕ) (ds : List ℕ)
      → Allocated fat b s s' count (d ∷ ds)
      → All (λ c. is_next b c ≡ true) (d ∷ ds)
      → is_next b (last_mark fat b) ≡ false
      → Follows b (fat.entries s') d (d ∷ ds)
  new_chain s s' count d ds a nx mark =
      IsChain-Follows b (last_mark fat b) (fat.entries s') d ds a.chain nx mark

  fresh_before :
      (s s' : S) (t : ℕ → ℕ) (count : ℕ) (ds : List ℕ)
      → Holds fat b s t
      → Allocated fat b s s' count ds
      → All (λ c. Usable fat b c × (is_next b c ≡ true)) ds
      → All (λ d. is_available b (t d) ≡ true) ds
  fresh_before s s' t count ds h a us =
      All-zip ds (λ c f u. subst (λ v. is_available b v ≡ true) (h.same c u.0.in_range) f) a.free us

  pub attach-Grown :
      (count : ℕ) (cs ds : List ℕ) (d : ℕ) (s s' : S) (x : OpenFile S)
      → IsSound cs x
      → Fits b limit
      → is_next b (last_mark fat b) ≡ false
      → Holds fat b s (fat.entries x.fat)
      → fat.Good s'
      → Allocated fat b s s' count (d ∷ ds)
      → All (λ c. Usable fat b c × (is_next b c ≡ true)) (d ∷ ds)
      → (y : OpenFile S) × (attach_chain ops b (last_or cs 2) d (record x { fat = s' })
          ≡ (ok tt, y))
        × Grown cs (d ∷ ds) count x y
  attach-Grown count [] ds d s s' x sound fits mark h g a us =
      let t = fat.entries x.fat in
      let chain = new_chain s s' count d ds a (All-map (d ∷ ds) (λ c u. u.1) us) mark in
      let below = us.0.0.below in
      let (y, r, hy, place, first) =
        attach_empty 2 d ds (record x { fat = s' }) t sound.file g (sound.none refl)
          (omega (arith, below, fits.small)) in
      let same = All-map (d ∷ ds) (λ c u. sym (hy.same c u.0.in_range)) us in
      (
        y,
        r,
        record {
          good = hy.good;
          same_place = place;
          size = a.size;
          chain =
              subst (λ v. Follows b (fat.entries y.fat) v (d ∷ ds)) (sym first)
                (Follows-cong b (fat.entries s') (fat.entries y.fat) d (d ∷ ds) same chain);
          fresh = fresh_before s s' t count (d ∷ ds) h a us;
          others = λ j r _ o. hy.same j r ∙ a.others j r o ∙ h.same j r;
        },
      )
  attach-Grown count (c ∷ cs) ds d s s' x sound fits mark h g a us =
      let t = fat.entries x.fat in
      let u = fat.entries s' in
      let p = last_or cs c in
      let first = first_cluster x.file in
      let chain = new_chain s s' count d ds a (All-map (d ∷ ds) (λ c u. u.1) us) mark in
      let fresh = fresh_before s s' t count (d ∷ ds) h a us in
      let some : (first == cluster_available) ≡ false =
        ground (arith, sound.file.chain.0, sound.numbered.0.0) in
      let range = All-last fat.InRange c cs sound.file.in_range in
      let (s2, r, h2) =
        attach_behind p d (record x { fat = s' }) g range some us.0.0.below fits.small in
      let kept =
        All-zip (c ∷ cs)
          (λ k r busy.
            sym (
              a.others k r (All-sym k (d ∷ ds) (used_apart b t k (d ∷ ds) busy fresh))
              ∙ h.same k r))
          sound.file.in_range sound.used in
      let old = Follows-cong b t u first (c ∷ cs) kept sound.file.chain in
      let apart = used_apart b t p (d ∷ ds) (All-last _ c cs sound.used) fresh in
      let all =
        Follows-append b d u first c cs (d ∷ ds) sound.file.distinct old
          (Follows-put b p d u d (d ∷ ds) apart chain) in
      let ranges =
        All-append fat.InRange (c ∷ cs) (d ∷ ds) sound.file.in_range
          (All-map (d ∷ ds) (λ c u. u.0.in_range) us) in
      (
        record x { fat = s2 },
        r,
        record {
          good = h2.good;
          same_place = refl;
          size = a.size;
          chain =
              Follows-cong b (put p d u) (fat.entries s2) first ((c ∷ cs) ++ (d ∷ ds))
                (All-map ((c ∷ cs) ++ (d ∷ ds)) (λ k r. sym (h2.same k r)) ranges) all;
          fresh = fresh;
          others = λ j r k o.
              h2.same j r
              ∙ put_there b p d j u (All-last (λ c. c ≢ j) c cs k)
              ∙ a.others j r o
              ∙ h.same j r;
        },
      )
