-- ===== src/Fat/Mcb/Lookup.antt =====
-- What `FatVboToLbo` of arcfw/ported/fatboot.c answers.
use native.Mathlib.Nat.{lt_of_mul-lt-mul_right, mod-lt, mod-add-div'}
use arcpi.Base.{
  ℕ, zero, suc, ◌+◌, ◌-◌, ◌*◌, ◌/◌, ◌^◌, ◌≤◌, ◌<◌, ◌≡◌, refl, sym, ap, ◌∙◌, false, ltb, ◌==◌, arith,
  Bool-cases, inl, inr, All, List, length, add32, sub32,
}
use arcpi.Fat.{Bpb, bytes_per_cluster}
use arcpi.Fat.Action.{ok}
use arcpi.Fat.Interface.{FatOps, IsFat}
use arcpi.Fat.Cluster.Loop.{Holds}
use arcpi.Fat.Dirent.{FatFile, first_cluster}
use arcpi.Fat.Mcb.{update, FatMcb, FileMap, is_elsewhere, load_mcb, find_run, vbo_to_lbo}
use arcpi.Fat.Mcb.Position.{position, IsAddressable, RunsMap}
use arcpi.Fat.Mcb.Chain.{Follows-IsFileChain}
use arcpi.Fat.Truncate.Follows.{Follows}
use arcpi.Fat.Mcb.Load.{load_runs-Serves}

-- The bytes from offset `v` of the file on lie at `lbo`, as many as `count` in one piece.
pub record Contiguous (b : Bpb) (cs : List ℕ) (v lbo count : ℕ) : Type 0 where
  pub here : lbo ≡ position b cs v
  pub some : 0 < count
  pub inside : v + count ≤ length cs * bytes_per_cluster b
  pub piece : (k : ℕ) → k < count → position b cs (v + k) ≡ lbo + k

module _ {S : Type 0} (ops : FatOps S) (b : Bpb) where
  find_run_lem :
      (n i v : ℕ) (x : FileMap S)
      → i + n ≡ x.mcb.in_use
      → x.mcb.vbo i ≤ v
      → v < x.mcb.vbo x.mcb.in_use
      → (j : ℕ) × (find_run ops b n i v x
          ≡ (ok (add32 (x.mcb.lbo j) (sub32 v (x.mcb.vbo j)), sub32 (x.mcb.vbo (j + 1)) v), x))
        × (j < x.mcb.in_use)
        × (x.mcb.vbo j ≤ v)
        × (v < x.mcb.vbo (j + 1))
  unfolding find_run
  find_run_lem zero i v x e from to =
      let at : x.mcb.vbo i ≡ x.mcb.vbo x.mcb.in_use = ap x.mcb.vbo (omega (arith, e)) in
      absurd (omega (arith, from, to, at))
  find_run_lem (suc n) i v x e from to = elim (Bool-cases (ltb v (x.mcb.vbo (i + 1)))) [
    | inl hit ↦ (i, rw hit refl, omega (arith, e), from, ground (arith, hit))
    | inr miss ↦
        let (j, r, j_lt, low, high) =
          find_run_lem n (suc i) v x (omega (arith, e)) (ground (arith, miss)) to in
        (j, rw (miss, r) refl, j_lt, low, high)
  ]

module _ (b : Bpb) where
  position_bound :
      (cs : List ℕ) (v : ℕ)
      → IsAddressable b cs
      → v < length cs * bytes_per_cluster b
      → position b cs v < 2 ^ 32
  position_bound cs v a lt =
      let n = bytes_per_cluster b in
      let d = mod-add-div' v n in
      let q : v / n < length cs = lt_of_mul-lt-mul_right n (omega (arith, d, lt)) in
      omega (arith, a.disk_end (v / n) q, mod-lt v a.some_byte)

  run-Contiguous :
      (cs : List ℕ) (m : FatMcb) (j v : ℕ)
      → IsAddressable b cs
      → RunsMap b cs m
      → j < m.in_use
      → m.vbo j ≤ v
      → v < m.vbo (j + 1)
      → Contiguous b cs v (add32 (m.lbo j) (sub32 v (m.vbo j))) (sub32 (m.vbo (j + 1)) v)
  run-Contiguous cs m j v a r lt from to =
      let (inside, at) = r.runs j v lt from to in
      let last : m.vbo (j + 1) - 1 < length cs * bytes_per_cluster b =
        (r.runs j (m.vbo (j + 1) - 1) lt (omega (arith, from, to)) (omega (arith, to))).0 in
      let bound = position_bound cs v a inside in
      let lbo : add32 (m.lbo j) (sub32 v (m.vbo j)) ≡ m.lbo j + (v - m.vbo j) =
        omega (arith, at, bound, inside, a.file_end, from) in
      let count : sub32 (m.vbo (j + 1)) v ≡ m.vbo (j + 1) - v =
        omega (arith, last, a.file_end, to) in
      record {
        here = lbo ∙ sym at;
        some = omega (arith, count, to);
        inside = omega (arith, count, last, to);
        piece = λ k k_lt.
            (r.runs j (v + k) lt (omega (arith, from)) (omega (arith, count, k_lt, to))).1
            ∙ omega (arith, lbo, from);
      }

module _ {S : Type 0} {ops : FatOps S} {limit : ℕ} (fat : IsFat ops limit) (b : Bpb) where
  pub record Answered (t : ℕ → ℕ) (cs : List ℕ) (file_id v : ℕ) (r : ℕ × ℕ) (x : FileMap S)
      : Type 0 where
    pub holds : Holds fat b x.fat t
    pub same_file : x.file_id ≡ file_id
    pub map : RunsMap b cs x.mcb
    pub contiguous : Contiguous b cs v r.0 r.1

  -- FatVboToLbo answers an offset inside a file with the disk position of that byte of the file, and
  -- with a count of bytes that lie on the disk from there on in the order of the file. The file's
  -- clusters are the chain that the FAT has from its first cluster, they are addressable, the file is
  -- not the root directory, the runs kept from earlier calls are right if they belong to this
  -- file, and the fuel is at least the number of clusters. The FAT stays as it was, and the runs
  -- kept afterwards are right for this file.
  pub vbo_to_lbo-Answered :
      (t : ℕ → ℕ) (cs : List ℕ) (fuel file_id v : ℕ) (f : FatFile) (x : FileMap S)
      → Follows b t (first_cluster f) cs
      → All fat.InRange cs
      → IsAddressable b cs
      → Holds fat b x.fat t
      → (x.file_id ≡ file_id → RunsMap b cs x.mcb)
      → 0 < f.dirent_lbo
      → length cs ≤ fuel
      → v < length cs * bytes_per_cluster b
      → (r : ℕ × ℕ) × (y : FileMap S) × (vbo_to_lbo ops b fuel file_id f v x ≡ (ok r, y))
        × Answered t cs file_id v r y
  unfolding vbo_to_lbo load_mcb
  vbo_to_lbo-Answered t cs fuel file_id v f x follows range a h known file enough inside =
      let chain = Follows-IsFileChain b t fat.InRange (first_cluster f) cs follows range in
      elim (Bool-cases (is_elsewhere ops b file_id v x)) [
        | inl out ↦
            let not_root : (f.dirent_lbo == 0) ≡ false = ground (arith, file) in
            let x0 = record x {
              file_id = file_id;
              mcb = record x.mcb { in_use = 0; vbo = update x.mcb.vbo 0 0 };
            } in
            let (s, m, e, h1, g) = load_runs-Serves fat b chain a fuel v x0 h enough inside in
            let (j, e1, lt, from, to) =
              find_run_lem ops b m.in_use 0 v (record { file_id = file_id; mcb = m; fat = s })
                (omega arith) g.from g.to in
            (
              _,
              _,
              rw (out, not_root, e, e1) refl,
              record {
                holds = h1;
                same_file = refl;
                map = g.map;
                contiguous = run-Contiguous b cs m j v a g.map lt from to;
              },
            )
        | inr hit ↦
            let same : x.file_id ≡ file_id = ground (arith, hit) in
            let map = known same in
            let (j, e1, lt, from, to) =
              find_run_lem ops b x.mcb.in_use 0 v x (omega arith) (ground (arith, hit))
                (ground (arith, hit)) in
            (
              _,
              _,
              rw (hit, e1) refl,
              record {
                holds = h;
                same_file = same;
                map = map;
                contiguous = run-Contiguous b cs x.mcb j v a map lt from to;
              },
            )
      ]
