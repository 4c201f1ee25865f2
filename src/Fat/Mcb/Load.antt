-- ===== src/Fat/Mcb/Load.antt =====
-- What `FatLoadMcb` of arcfw/ported/fatboot.c loads.
use native.Mathlib.Nat.{lt_of_mul-lt-mul_right}
use arcpi.Base.{
  ℕ, zero, suc, ◌+◌, ◌*◌, ◌≤◌, ◌<◌, ◌≡◌, refl, ◌∙◌, true, false, ltb, leb, arith, Bool-cases, inl,
  inr, ◌⊎◌, List, length, get_or, add32, mul_step,
}
use arcpi.Fat.{Bpb, bytes_per_cluster, index_to_lbo}
use arcpi.Fat.Action.{ok}
use arcpi.Fat.Interface.{FatOps, IsFat}
use arcpi.Fat.Cluster.Loop.{Holds}
use arcpi.Fat.Cluster.{is_next}
use arcpi.Fat.Mcb.{
  FatMcb, FileMap, maximum_mcb, is_contiguous, extend_run, add_run, first_run, skip_clusters,
  collect_runs, load_runs,
}
use arcpi.Fat.Mcb.Position.{
  IsAddressable, RunsMap, Loaded, extend_run-Loaded, add_run-Loaded, first_run-Loaded,
}

abbrev pub nth : List ℕ → ℕ → ℕ
nth cs k = get_or cs k 0

-- The clusters of a file in the FAT `t`, from its first cluster on, to the entry that ends them.
pub record IsFileChain (b : Bpb) (InRange : ℕ → Type 0) (t : ℕ → ℕ) (first : ℕ) (cs : List ℕ)
    : Type 0 where
  pub head : 0 < length cs → first ≡ nth cs 0
  pub in_range : (k : ℕ) → k < length cs → InRange (nth cs k)
  pub nexts : (k : ℕ) → k < length cs → is_next b (nth cs k) ≡ true
  pub links : (k : ℕ) → k + 1 < length cs → t (nth cs k) ≡ nth cs (k + 1)
  pub ending : (k : ℕ) → k + 1 ≡ length cs → is_next b (t (nth cs k)) ≡ false

order : (k l : ℕ) → k ≤ l → (k < l) ⊎ (k ≡ l)
order k l h = omega arith

module _ {S : Type 0} {ops : FatOps S} {limit : ℕ} (fat : IsFat ops limit) (b : Bpb) where
  module _ {t : ℕ → ℕ} {first : ℕ} {cs : List ℕ} (chain : IsFileChain b fat.InRange t first cs)
      (a : IsAddressable b cs) where
    abbrev end_of : (k : ℕ) → ℕ
    end_of k = k * bytes_per_cluster b + bytes_per_cluster b

    skip_clusters_lem :
        (fuel starting k : ℕ) (x : FileMap S)
        → Holds fat b x.fat t
        → k < length cs
        → length cs ≤ fuel + k
        → starting < length cs * bytes_per_cluster b
        → k * bytes_per_cluster b ≤ starting
        → (k' : ℕ) × (s : S) × (skip_clusters ops b fuel starting (end_of k) (nth cs k) x
            ≡ (ok (true, end_of k', nth cs k'), record x { fat = s }))
          × Holds fat b s t
          × (k' < length cs)
          × (starting ≤ end_of k')
          × (k' * bytes_per_cluster b ≤ starting)
    unfolding skip_clusters
    skip_clusters_lem zero starting k x h lt enough below from = absurd (omega (arith, lt, enough))
    skip_clusters_lem (suc n) starting k x h lt enough below from =
        elim (Bool-cases (ltb (end_of k) starting)) [
          | inr there ↦
              (k, x.fat, rw (there, chain.nexts k lt) refl, h, lt, ground (arith, there), from)
          | inl more ↦
              let room = mul_step k (length cs) (bytes_per_cluster b) lt in
              let still : k + 1 < length cs =
                lt_of_mul-lt-mul_right (bytes_per_cluster b) (ground (arith, more, below)) in
              let (s1, e1, g1, m1) = fat.lookup_lem (nth cs k) x.fat h.good (chain.in_range k lt) in
              let value = h.same (nth cs k) (chain.in_range k lt) ∙ chain.links k still in
              let step : add32 (end_of k) (bytes_per_cluster b) ≡ end_of (k + 1) =
                ground
                  (arith, mul_step (k + 1) (length cs) (bytes_per_cluster b) still, a.file_end) in
              let (k', s, e, r1, r2, r3, r4) =
                skip_clusters_lem n starting (k + 1) (record x { fat = s1 })
                  (record { good = g1; same = λ j r. m1 j r ∙ h.same j r }) still
                  (omega (arith, enough)) below (ground (arith, more)) in
              (k', s, rw (more, chain.nexts k lt, e1, value, step, e) refl, r1, r2, r3, r4)
        ]

    -- The runs after the second loop, which started with the runs `m` up to cluster `k`.
    record Collected (k : ℕ) (m m' : FatMcb) : Type 0 where
      map : RunsMap b cs m'
      same_start : m'.vbo 0 ≡ m.vbo 0
      grows : m.vbo m.in_use ≤ m'.vbo m'.in_use
      next_too : k + 1 < length cs → m.in_use + 1 < maximum_mcb → end_of (k + 1) ≤ m'.vbo m'.in_use

    Collected-later :
        (k : ℕ) (m m1 m' : FatMcb)
        → Loaded b cs k m
        → Loaded b cs (k + 1) m1
        → m1.vbo 0 ≡ m.vbo 0
        → Collected (k + 1) m1 m'
        → Collected k m m'
    Collected-later k m m1 m' l l1 start c = record {
      map = c.map;
      same_start = c.same_start ∙ start;
      grows = omega (arith, l.end, l1.end, c.grows);
      next_too = λ still room. omega (arith, l1.end, c.grows);
    }

    collect_runs_lem :
        (fuel k : ℕ) (x : FileMap S)
        → Holds fat b x.fat t
        → k < length cs
        → length cs ≤ fuel + k
        → Loaded b cs k x.mcb
        → (s : S) × (m : FatMcb) × (collect_runs ops b fuel (nth cs k) x
            ≡ (ok tt, record x { fat = s; mcb = m }))
          × Holds fat b s t
          × Collected k x.mcb m
    unfolding collect_runs
    collect_runs_lem zero k x h lt enough l = absurd (omega (arith, lt, enough))
    collect_runs_lem (suc n) k x h lt enough l =
        let (s1, e1, g1, m1) = fat.lookup_lem (nth cs k) x.fat h.good (chain.in_range k lt) in
        let value = h.same (nth cs k) (chain.in_range k lt) in
        let h1 : Holds fat b s1 t = record { good = g1; same = λ j r. m1 j r ∙ h.same j r } in
        elim (order (k + 1) (length cs) (omega arith)) [
          | inr final ↦ (
            s1,
            x.mcb,
            rw (e1, value, chain.ending k final) refl,
            h1,
            record {
              map = l.map;
              same_start = refl;
              grows = omega arith;
              next_too = λ still _. absurd (omega (arith, still, final));
            },
          )
          | inl still ↦
              let linked = value ∙ chain.links k still in
              let lbo = index_to_lbo b (nth cs (k + 1)) in
              let next_on = chain.nexts (k + 1) still in
              elim (Bool-cases (is_contiguous x.mcb lbo)) [
                | inl hit ↦
                    let l1 = extend_run-Loaded b cs k x.mcb a still l hit in
                    let (s, m, e, h2, c) =
                      collect_runs_lem n (k + 1) (record x { fat = s1; mcb = extend_run b x.mcb })
                        h1 still (omega (arith, enough)) l1 in
                    (
                      s,
                      m,
                      rw (e1, linked, next_on, hit, e) refl,
                      h2,
                      Collected-later k x.mcb (extend_run b x.mcb) m l l1
                          (ground (arith, l.some_run)) c,
                    )
                | inr gap ↦ elim (Bool-cases (leb maximum_mcb (x.mcb.in_use + 1))) [
                  | inl full ↦ (
                    s1,
                    x.mcb,
                    rw (e1, linked, next_on, gap, full) refl,
                    h1,
                    record {
                      map = l.map;
                      same_start = refl;
                      grows = omega arith;
                      next_too = λ _ room. absurd (ground (arith, full, room));
                    },
                  )
                  | inr room ↦
                      let l1 = add_run-Loaded b cs k x.mcb a still l (ground (arith, room)) in
                      let (s, m, e, h2, c) =
                        collect_runs_lem n (k + 1)
                          (record x { fat = s1; mcb = add_run b lbo x.mcb }) h1 still
                          (omega (arith, enough)) l1 in
                      (
                        s,
                        m,
                        rw (e1, linked, next_on, gap, room, e) refl,
                        h2,
                        Collected-later k x.mcb (add_run b lbo x.mcb) m l l1 (ground arith) c,
                      )
                ]
              ]
        ]

    -- The runs say where the bytes of the file lie, and `starting` is one of them.
    pub record Serves (starting : ℕ) (m : FatMcb) : Type 0 where
      pub map : RunsMap b cs m
      pub from : m.vbo 0 ≤ starting
      pub to : starting < m.vbo m.in_use

    Serves-by :
        (starting k : ℕ) (m m' : FatMcb)
        → k < length cs
        → starting < length cs * bytes_per_cluster b
        → starting ≤ end_of k
        → k * bytes_per_cluster b ≤ starting
        → Loaded b cs k (first_run b (end_of k) (nth cs k) m)
        → Collected k (first_run b (end_of k) (nth cs k) m) m'
        → Serves starting m'
    Serves-by starting k m m' lt below up from l c = record {
      map = c.map;
      from = omega (arith, c.same_start, l.start, from);
      to = elim (order starting (end_of k) up) [
        | inl inside ↦ omega (arith, inside, c.grows)
        | inr edge ↦
            let still : k + 1 < length cs =
              lt_of_mul-lt-mul_right (bytes_per_cluster b) (omega (arith, edge, below)) in
            omega (arith, edge, c.next_too still (omega arith), a.some_byte)
      ];
    }

    pub load_runs-Serves :
        (fuel starting : ℕ) (x : FileMap S)
        → Holds fat b x.fat t
        → length cs ≤ fuel
        → starting < length cs * bytes_per_cluster b
        → (s : S) × (m : FatMcb) × (load_runs ops b fuel first starting x
            ≡ (ok tt, record x { fat = s; mcb = m }))
          × Holds fat b s t
          × Serves starting m
    unfolding load_runs
    load_runs-Serves fuel starting x h enough below =
        let some : 0 < length cs =
          lt_of_mul-lt-mul_right (bytes_per_cluster b) (omega (arith, below)) in
        let (k, s1, e1, h1, lt, up, from) =
          skip_clusters_lem fuel starting 0 x h some (omega (arith, enough)) below (omega arith) in
        let l = first_run-Loaded b cs k (end_of k) (nth cs k) x.mcb a lt refl refl in
        let (s2, m, e2, h2, c) =
          collect_runs_lem fuel k
            (record x { fat = s1; mcb = first_run b (end_of k) (nth cs k) x.mcb }) h1 lt
            (omega (arith, enough)) l in
        let begin : bytes_per_cluster b ≡ end_of 0 = omega arith in
        let start = (λ i. skip_clusters ops b fuel starting (begin i) (chain.head some i) x) ∙ e1 in
        (s2, m, rw (start, e2) refl, h2, Serves-by starting k x.mcb m lt below up from l c)
