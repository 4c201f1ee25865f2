-- ===== src/Fat/Directory/Search.antt =====
-- What `FatSearchForDirent` of arcfw/ported/fatboot.c finds.
use arcpi.Base.{
  ℕ, zero, suc, ◌<◌, ◌≡◌, ◌≢◌, refl, sym, ap, subst, ◌∙◌, true, false, arith, List, [], ◌∷◌, ◌++◌,
  ◌==◌, All, length, if◌then◌else◌, Option, none, enoent, Bool-cases, inl, inr,
}
use arcpi.Runtime.{Memory}
use arcpi.Fat.{
  Bpb, bytes_per_cluster, index_to_lbo, root_directory_lbo, root_directory_size, cluster_available,
}
use arcpi.Fat.Action.{Action, Result, next, ok, fail}
use arcpi.Fat.Interface.{FatOps, IsFat}
use arcpi.Fat.Cluster.{is_next}
use arcpi.Fat.Truncate.Follows.{Follows}
use arcpi.Fat.Directory.{Scan, search_blocks, search_clusters, search_root, search_for_dirent}
use arcpi.Fat.Directory.Reference.{
  Scan-cases, blocks_from, first_match, first_match-nothing, after, first_match-append,
}
use arcpi.Fat.Directory.Reader.{IsReader, rounds, Has, IsRegion, BlocksAnswer, Answer}
use arcpi.Fat.Directory.Blocks.{from_start}

module _ {S : Type 0} {ops : FatOps S} {limit : ℕ} (fat : IsFat ops limit)
    (read : (lbo length : ℕ) → Memory → Action S Memory) (reader : IsReader fat read) (b : Bpb)
    (t : ℕ → ℕ) (m : Memory) where
  -- The entries of a directory that has these clusters.
  abbrev pub entries_in : List ℕ → List ℕ
  entries_in [] = []
  entries_in (c ∷ cs) =
      blocks_from (rounds (bytes_per_cluster b)) (index_to_lbo b c) ++ entries_in cs

  abbrev pub Found : Scan → Action S (Memory × ℕ) → S → Type 0
  Found c action s =
      (r : Result (Memory × ℕ)) × (s' : S) × (action s ≡ (r, s'))
      × Has fat read reader t m s'
      × Answer fat read reader m c r

  after_lookup :
      (c : ℕ) (s : S)
      → Has fat read reader t m s
      → fat.InRange c
      → (s' : S) × (ops.lookup c s ≡ (ok (t c), s')) × Has fat read reader t m s'
  after_lookup c s h r =
      let (s', e, good, same) = fat.lookup_lem c s h.good r in
      (
        s',
        e ∙ ap (λ v. (ok v, s')) (h.table c r),
        record {
          good = good;
          table = λ j r. same j r ∙ h.table j r;
          bytes = λ p st.
              ap (λ x. reader.contents x.1 p) (sym e)
              ∙ reader.lookup_keeps c s h.good r p st
              ∙ h.bytes p st;
        },
      )

  go_on :
      (n : ℕ) (name : Memory) (e c : ℕ) (buffer buf : Memory) (s s1 s2 : S) (entry : ℕ)
      → e ≡ c
      → is_next b c ≡ true
      → search_blocks ops read b false name
          (rounds (bytes_per_cluster b))
          0
          (index_to_lbo b c)
          buffer
          s
        ≡ (ok (none, buf), s1)
      → ops.lookup c s1 ≡ (ok entry, s2)
      → search_clusters ops read b (suc n) name e buffer s
        ≡ search_clusters ops read b n name entry buf s2
  unfolding search_clusters
  go_on n name e c buffer buf s s1 s2 entry ec nx e1 e2 =
      subst
        (λ e.
          search_clusters ops read b (suc n) name e buffer s
          ≡ search_clusters ops read b n name entry buf s2)
        (sym ec) (rw (nx, e1) (ap (λ v. next v (λ x. search_clusters ops read b n name x buf)) e2))

  search_clusters-Found :
      (fuel : ℕ) (name : Memory) (e : ℕ) (cs : List ℕ) (buffer : Memory) (s : S)
      → Has fat read reader t m s
      → Follows b t e cs
      → All fat.InRange cs
      → All (λ c. IsRegion fat read reader (rounds (bytes_per_cluster b)) (index_to_lbo b c)) cs
      → length cs < fuel
      → Found
          (first_match false name m (entries_in cs))
          (search_clusters ops read b fuel name e buffer)
          s
  unfolding search_clusters
  search_clusters-Found zero name e cs buffer s h f r g lt = absurd (omega (arith, lt))
  search_clusters-Found (suc n) name e [] buffer s h f r g lt = (
    fail enoent,
    s,
    rw f refl,
    h,
    subst (λ c. Answer fat read reader m c (fail enoent)) (sym (first_match-nothing false name m))
        refl,
  )
  search_clusters-Found (suc n) name e (c ∷ cs) buffer s h (ec, nx, f) (rc, r) (gc, g) lt =
      let here =
        first_match false name m (blocks_from (rounds (bytes_per_cluster b)) (index_to_lbo b c)) in
      let behind = first_match false name m (entries_in cs) in
      let all : first_match false name m (entries_in (c ∷ cs)) ≡ after here behind =
        first_match-append false name m
          (blocks_from (rounds (bytes_per_cluster b)) (index_to_lbo b c)) (entries_in cs) in
      let (r1, s1, e1, has, a) =
        from_start fat read reader b t m false name (rounds (bytes_per_cluster b))
          (index_to_lbo b c) buffer s h gc in
      elim (Scan-cases here) [
        | inl (p, w) ↦
            let (x, buf, eq, entry) = subst (λ k. BlocksAnswer fat read reader m k r1) w a in
            (
              ok x,
              s1,
              rw (ec, nx, e1, eq) refl,
              has,
              subst (λ k. Answer fat read reader m k (ok x))
                  (sym (all ∙ ap (λ k. after k behind) w)) (x, refl, entry),
            )
        | inr (inl w) ↦
            let eq : r1 ≡ fail enoent = subst (λ k. BlocksAnswer fat read reader m k r1) w a in
            (
              fail enoent,
              s1,
              rw (ec, nx, e1, eq) refl,
              has,
              subst (λ k. Answer fat read reader m k (fail enoent))
                  (sym (all ∙ ap (λ k. after k behind) w)) refl,
            )
        | inr (inr w) ↦
            let (buf, eq) = subst (λ k. BlocksAnswer fat read reader m k r1) w a in
            let (s2, e2, has2) = after_lookup c s1 has rc in
            let (r3, s3, e3, has3, a3) =
              search_clusters-Found n name (t c) cs buf s2 has2 f r g (omega (arith, lt)) in
            (
              r3,
              s3,
              go_on n name e c buffer buf s s1 s2 (t c) ec nx (e1 ∙ ap (λ v. (v, s1)) eq) e2 ∙ e3,
              has3,
              subst (λ k. Answer fat read reader m k r3) (sym (all ∙ ap (λ k. after k behind) w))
                  a3,
            )
      ]

  -- The addresses of a directory's entries in their order, and that they can be read.
  abbrev pub addresses : (index : ℕ) → List ℕ → List ℕ
  addresses index cs =
      if index == cluster_available
      then blocks_from (rounds (root_directory_size b)) (root_directory_lbo b)
      else entries_in cs

  -- The clusters of a directory, none for the root directory.
  pub record IsDirectory (index : ℕ) (cs : List ℕ) : Type 0 where
    pub root :
        index ≡ cluster_available
        → IsRegion fat read reader (rounds (root_directory_size b)) (root_directory_lbo b)
    pub chain : index ≢ cluster_available → Follows b t index cs
    pub in_range : All fat.InRange cs
    pub regions :
        All (λ c. IsRegion fat read reader (rounds (bytes_per_cluster b)) (index_to_lbo b c)) cs

  abbrev root_addresses : List ℕ
  root_addresses = blocks_from (rounds (root_directory_size b)) (root_directory_lbo b)

  in_root :
      (name buffer : Memory) (s s1 : S) (r1 : Result (Option (Memory × ℕ) × Memory))
      → search_blocks ops read b true name
          (rounds (root_directory_size b))
          0
          (root_directory_lbo b)
          buffer
          s
        ≡ (r1, s1)
      → Has fat read reader t m s1
      → BlocksAnswer fat read reader m (first_match true name m root_addresses) r1
      → Found (first_match true name m root_addresses) (search_root ops read b name buffer) s
  unfolding search_root
  in_root name buffer s s1 r1 e1 has a =
      elim (Scan-cases (first_match true name m root_addresses)) [
        | inl (p, w) ↦
            let (x, buf, eq, entry) = subst (λ k. BlocksAnswer fat read reader m k r1) w a in
            (
              ok x,
              s1,
              rw (e1, eq) refl,
              has,
              subst (λ k. Answer fat read reader m k (ok x)) (sym w) (x, refl, entry),
            )
        | inr (inl w) ↦
            let eq : r1 ≡ fail enoent = subst (λ k. BlocksAnswer fat read reader m k r1) w a in
            (
              fail enoent,
              s1,
              rw (e1, eq) refl,
              has,
              subst (λ k. Answer fat read reader m k (fail enoent)) (sym w) refl,
            )
        | inr (inr w) ↦
            let (buf, eq) = subst (λ k. BlocksAnswer fat read reader m k r1) w a in
            (
              fail enoent,
              s1,
              rw (e1, eq) refl,
              has,
              subst (λ k. Answer fat read reader m k (fail enoent)) (sym w) refl,
            )
      ]

  -- FatSearchForDirent finds what one pass over the addresses of the directory's entries finds: the
  -- first entry with the name, with its bytes and its address, and otherwise, or if an entry that was
  -- never used comes before, it fails with ENOENT. The root directory's search passes over the
  -- volume's label. The directory's clusters are the chain that the FAT has from its first one, they
  -- can be read, and the fuel is more than their number. The FAT and the bytes stay as they were.
  pub search_for_dirent-Found :
      (fuel index : ℕ) (name : Memory) (cs : List ℕ) (buffer : Memory) (s : S)
      → Has fat read reader t m s
      → IsDirectory index cs
      → length cs < fuel
      → Found
          (first_match (index == cluster_available) name m (addresses index cs))
          (search_for_dirent ops read b fuel index name buffer)
          s
  unfolding search_for_dirent
  search_for_dirent-Found fuel index name cs buffer s h d lt =
      elim (Bool-cases (index == cluster_available)) [
        | inl root ↦
            let at_root : index ≡ cluster_available = ground (arith, root) in
            let blocks = rounds (root_directory_size b) in
            let (r1, s1, e1, has, a) =
              from_start fat read reader b t m true name blocks (root_directory_lbo b) buffer s h
                (d.root at_root) in
            rw root (in_root name buffer s s1 r1 e1 has a)
        | inr sub ↦ rw sub (
            search_clusters-Found fuel name index cs buffer s h (d.chain (ground (arith, sub)))
              d.in_range d.regions lt)
      ]
