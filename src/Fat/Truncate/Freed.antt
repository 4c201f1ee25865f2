-- ===== src/Fat/Truncate/Freed.antt =====
-- What `FatTruncateFileAllocation` of arcfw/ported/fatboot.c leaves of a file.
use arcpi.Base.{
  ℕ, zero, suc, ◌-◌, ◌<◌, ◌≤◌, ◌≡◌, ◌≢◌, refl, sym, ap, subst, ◌∙◌, true, false, ◌==◌,
  if◌then◌else◌, arith, Bool-cases, inl, inr, List, [], ◌∷◌, All, All-last_take, All-map, All-zip,
  All-drop, All-take, drop_past, length-drop, take-all, length, take, drop, last_or, leb,
}
use arcpi.Runtime.{Memory}
use arcpi.Fat.{Bpb, interpret_cluster_type, is_twelve_bit, cluster_available, cluster_last}
use arcpi.Fat.Action.{ok}
use arcpi.Fat.Dirent.{
  FatFile, TimeFields, first_cluster, set_dirent, put_first_cluster, put_file_size,
}
use arcpi.Fat.Entry.{IsBytes}
use arcpi.Fat.Interface.{FatOps, IsFat}
use arcpi.Fat.Cluster.{is_next}
use arcpi.Fat.Cluster.Allocate.{put, Distinct}
use arcpi.Fat.Cluster.Loop.{Holds, last_mark}
use arcpi.Fat.Truncate.{OpenFile, is_last, clusters_needed, clear_dirent, end_chain, truncate_file}
use arcpi.Fat.Truncate.Follows.{
  Follows, Follows-cut, Follows-cong, Distinct-drop, Follows-put, Follows-freed, Follows-nexts,
  Follows-ended, apart_last, apart_kept, freed, freed_outside, freed_available,
}
use arcpi.Fat.Truncate.Needed.{Needs, IsSize, clusters_needed-Needs}
use arcpi.Fat.Truncate.Walk.{walk_clusters_lem, free_clusters_lem}

available_not_next : (b : Bpb) → is_next b cluster_available ≡ false
unfolding interpret_cluster_type
available_not_next b = elim (Bool-cases (is_twelve_bit b)) [
  | inl e ↦ rw (is_next, e) refl
  | inr e ↦ rw (is_next, e) refl
]

last_not_next : (b : Bpb) (e : ℕ) → is_last b e ≡ true → is_next b e ≡ false
last_not_next b e h = ground (arith, h)

next_nonzero : (b : Bpb) (c : ℕ) → is_next b c ≡ true → (c == 0) ≡ false
next_nonzero b c h = elim (Bool-cases (c == 0)) [
  | inl z ↦
      let e : c ≡ 0 = ground (arith, z) in
      let n : is_next b 0 ≡ true = subst (λ c. is_next b c ≡ true) e h in
      let m = available_not_next b in absurd cc
  | inr ne ↦ ne
]

cleared_first :
    (now : TimeFields) (d : Memory)
    → first_cluster (record {
      dirent_lbo = 0;
      dirent = put_file_size 0 (put_first_cluster cluster_available (set_dirent now d d 0));
    })
      ≡ cluster_available
unfolding set_dirent
cleared_first now d = ground arith

set_dirent-IsBytes :
    (now : TimeFields) (d : Memory)
    → IsBytes d
    → IsBytes (put_file_size 0 (put_first_cluster cluster_available (set_dirent now d d 0)))
unfolding set_dirent
set_dirent-IsBytes now d bytes p = ground (arith, bytes p)

module _ {S : Type 0} {ops : FatOps S} {limit : ℕ} (fat : IsFat ops limit) (b : Bpb) where
  -- The file keeps its first `n` clusters, the others of its clusters are available, and every other
  -- entry of the FAT is as it was.
  pub record Shortened (n : ℕ) (cs : List ℕ) (t : ℕ → ℕ) (x y : OpenFile S) : Type 0 where
    pub good : fat.Good y.fat
    pub same_place : y.file.dirent_lbo ≡ x.file.dirent_lbo
    pub kept : Follows b (fat.entries y.fat) (first_cluster y.file) (take n cs)
    pub rest : All (λ c. fat.entries y.fat c ≡ cluster_available) (drop n cs)
    pub others : (j : ℕ) → fat.InRange j → All (λ c. c ≢ j) cs → fat.entries y.fat j ≡ t j

  -- The file before: its chain, and a place for its directory entry.
  pub record IsFile (cs : List ℕ) (t : ℕ → ℕ) (f : FatFile) : Type 0 where
    pub chain : Follows b t (first_cluster f) cs
    pub in_range : All fat.InRange cs
    pub distinct : Distinct cs
    pub place : fat.Writable f.dirent_lbo 32
    pub not_root : 0 < f.dirent_lbo
    pub bytes : IsBytes f.dirent

  clear_dirent_lem :
      (now : TimeFields) (x : OpenFile S) (cs : List ℕ) (t : ℕ → ℕ)
      → IsFile cs t x.file
      → Holds fat b x.fat t
      → (y : OpenFile S) × (clear_dirent ops b now x ≡ (ok tt, y))
        × Holds fat b y.fat t
        × (y.file.dirent_lbo ≡ x.file.dirent_lbo)
        × (first_cluster y.file ≡ cluster_available)
  unfolding clear_dirent
  clear_dirent_lem now x cs t file h =
      let d =
        put_file_size 0
          (put_first_cluster cluster_available (set_dirent now x.file.dirent x.file.dirent 0)) in
      let (s, e, g, m) =
        fat.write_lem x.file.dirent_lbo 32 d x.fat h.good file.place
          (set_dirent-IsBytes now x.file.dirent file.bytes) in
      (
        record x { file = record x.file { dirent = d }; fat = s },
        rw e refl,
        record { good = g; same = λ j r. m j r ∙ h.same j r },
        refl,
        cleared_first now x.file.dirent,
      )

  -- How the kept part of the chain is ended: the table afterwards.
  record Ended (n : ℕ) (cs : List ℕ) (t u : ℕ → ℕ) (place : ℕ) (y : OpenFile S) : Type 0 where
    holds : Holds fat b y.fat u
    same_place : y.file.dirent_lbo ≡ place
    kept : Follows b u (first_cluster y.file) (take n cs)
    rest_follows : (e : ℕ) → Follows b t e (drop n cs) → Follows b u e (drop n cs)
    others : (j : ℕ) → All (λ c. c ≢ j) cs → u j ≡ t j

  end_chain_lem :
      (now : TimeFields) (n e : ℕ) (x : OpenFile S) (cs : List ℕ) (t : ℕ → ℕ)
      → IsFile cs t x.file
      → Holds fat b x.fat t
      → n ≤ length cs
      → Follows b t e (drop n cs)
      → is_next b (last_mark fat b) ≡ false
      → (u : ℕ → ℕ) × (y : OpenFile S) × (end_chain ops b now (last_or (take n cs) 0) e x
          ≡ (ok tt, y))
        × Ended n cs t u x.file.dirent_lbo y
  unfolding end_chain
  end_chain_lem now zero e x cs t file h le f mark =
      elim (Bool-cases (first_cluster x.file == cluster_available)) [
        | inl z ↦
            let first : first_cluster x.file ≡ cluster_available = ground (arith, z) in
            (
              t,
              x,
              rw z refl,
              record {
                holds = h;
                same_place = refl;
                kept = subst (λ c. is_next b c ≡ false) (sym first) (available_not_next b);
                rest_follows = λ e f. f;
                others = λ j a. refl;
              },
            )
        | inr nz ↦
            let (y, e1, h1, place, first) = clear_dirent_lem now x cs t file h in
            (
              t,
              y,
              rw (nz, e1) refl,
              record {
                holds = h1;
                same_place = place;
                kept = subst (λ c. is_next b c ≡ false) (sym first) (available_not_next b);
                rest_follows = λ e f. f;
                others = λ j a. refl;
              },
            )
      ]
  end_chain_lem now (suc n) e x [] t file h le f mark = absurd (omega (arith, le))
  end_chain_lem now (suc n) e x (c ∷ cs) t file h le f mark =
      let i = last_or (take n cs) c in
      let nexts = Follows-nexts b t (first_cluster x.file) (c ∷ cs) file.chain in
      let nz = next_nonzero b i (All-last_take (λ c. is_next b c ≡ true) n c cs nexts) in
      elim (Bool-cases (is_last b e)) [
        | inl end ↦
            let all = Follows-ended b t e (drop n cs) f (last_not_next b e end) in
            (
              t,
              x,
              rw (nz, end) refl,
              record {
                holds = h;
                same_place = refl;
                kept =
                    subst (Follows b t (first_cluster x.file)) (sym (take-all (suc n) (c ∷ cs) all))
                      file.chain;
                rest_follows = λ e f. f;
                others = λ j a. refl;
              },
            )
        | inr more ↦
            let range = All-last_take fat.InRange n c cs file.in_range in
            let (s1, e1, g1, m1) = fat.set_lem i cluster_last x.fat h.good range (omega arith) in
            (
              put i (last_mark fat b) t,
              record x { fat = s1 },
              rw (nz, more, e1) refl,
              record {
                holds = record {
                  good = g1;
                  same =
                      λ j r. m1 j r ∙ ap (λ v. if i == j then last_mark fat b else v) (h.same j r);
                };
                same_place = refl;
                kept =
                    Follows-cut b n (last_mark fat b) t (first_cluster x.file) 0 (c ∷ cs) mark
                      file.distinct (omega (arith, le)) file.chain;
                rest_follows = λ e f.
                    Follows-put b i (last_mark fat b) t e (drop n cs)
                      (apart_last n c cs file.distinct) f;
                others = λ j a.
                    let ne : i ≢ j = All-last_take (λ c. c ≢ j) n c cs a in ground (arith, ne);
              },
            )
      ]

  Shortened-by :
      (n : ℕ) (cs : List ℕ) (t u : ℕ → ℕ) (x y : OpenFile S) (s : S)
      → IsFile cs t x.file
      → Ended n cs t u x.file.dirent_lbo y
      → Holds fat b s (freed b (drop n cs) u)
      → Shortened n cs t x (record y { fat = s })
  Shortened-by n cs t u x y s file end h =
      let rest = drop n cs in
      record {
        good = h.good;
        same_place = end.same_place;
        kept =
            Follows-cong b (freed b rest u) (fat.entries s) (first_cluster y.file) (take n cs)
              (All-map (take n cs) (λ c r. sym (h.same c r))
                (All-take fat.InRange n cs file.in_range))
              (Follows-freed b rest u (first_cluster y.file) (take n cs)
                (apart_kept n cs file.distinct) end.kept);
        rest =
            All-zip rest (λ c r e. h.same c r ∙ e) (All-drop fat.InRange n cs file.in_range)
              (freed_available b rest u);
        others =
            λ j r a. h.same j r ∙ freed_outside b rest u j (All-drop _ n cs a) ∙ end.others j a;
      }

  truncate_needed-Shortened :
      (now : TimeFields) (fuel bytes : ℕ) (x : OpenFile S) (cs : List ℕ)
      → IsFile cs (fat.entries x.fat) x.file
      → fat.Good x.fat
      → length cs < fuel
      → is_next b (last_mark fat b) ≡ false
      → (y : OpenFile S) × (truncate_file ops b now fuel bytes x ≡ (ok tt, y))
        × Shortened (clusters_needed b bytes) cs (fat.entries x.fat) x y
  unfolding truncate_file
  truncate_needed-Shortened now fuel bytes x cs file g enough mark =
      let n = clusters_needed b bytes in
      let t = fat.entries x.fat in
      let not_root : (x.file.dirent_lbo == 0) ≡ false = ground (arith, file.not_root) in
      let (e, s1, e1, h1, f1) =
        walk_clusters_lem fat b n 0 (first_cluster x.file) cs x.fat t
          (record { good = g; same = λ j _. refl }) file.in_range file.chain in
      elim (Bool-cases (leb n (length cs))) [
        | inr more ↦
            let missing : (n - length cs == 0) ≡ false = ground (arith, more) in
            let none = drop_past n cs (ground (arith, more)) in
            (
              record x { fat = s1 },
              rw (not_root, e1, missing) refl,
              record {
                good = h1.good;
                same_place = refl;
                kept =
                    subst (Follows b (fat.entries s1) (first_cluster x.file))
                      (sym (take-all n cs none))
                      (Follows-cong b t (fat.entries s1) (first_cluster x.file) cs
                        (All-map cs (λ c r. sym (h1.same c r)) file.in_range) file.chain);
                rest = subst (All _) (sym none) tt;
                others = λ j r a. h1.same j r;
              },
            )
        | inl fits ↦
            let le : n ≤ length cs = ground (arith, fits) in
            let missing : (n - length cs == 0) ≡ true = ground (arith, fits) in
            let (u, y, e2, end) =
              end_chain_lem now n e (record x { fat = s1 }) cs t file h1 le f1 mark in
            let (s3, e3, h3) =
              free_clusters_lem fat b fuel e (drop n cs) y.fat u end.holds
                (All-drop fat.InRange n cs file.in_range) (Distinct-drop n cs file.distinct)
                (end.rest_follows e f1) (omega (arith, enough, length-drop n cs)) in
            (
              record y { fat = s3 },
              rw (not_root, e1, missing, e2, e3) refl,
              Shortened-by n cs t u x y s3 file end h3,
            )
      ]

  -- `FatTruncateFileAllocation` keeps the first `n` clusters of the file, for the least `n` that holds
  -- the size, or all if there are fewer; it ends the chain behind them, makes the other clusters of
  -- the file available, and the rest of the FAT does not change. The size plus the bytes of one
  -- cluster is at most 2^32, the volume is in order, the file's clusters are a chain in the FAT
  -- without repetition, its directory entry can be written and is not the root directory's, the
  -- mark that ends a chain is read as an end, and the fuel is more than the number of clusters.
  pub truncate_file-Shortened :
      (now : TimeFields) (fuel bytes : ℕ) (x : OpenFile S) (cs : List ℕ)
      → IsSize b bytes
      → IsFile cs (fat.entries x.fat) x.file
      → fat.Good x.fat
      → length cs < fuel
      → is_next b (last_mark fat b) ≡ false
      → (n : ℕ) × Needs b bytes n
        × (y : OpenFile S) × (truncate_file ops b now fuel bytes x ≡ (ok tt, y))
        × Shortened n cs (fat.entries x.fat) x y
  truncate_file-Shortened now fuel bytes x cs size file g enough mark =
      let (y, e, shortened) = truncate_needed-Shortened now fuel bytes x cs file g enough mark in
      (clusters_needed b bytes, clusters_needed-Needs b bytes size, y, e, shortened)
