-- ===== src/Fat/Mcb/Position.antt =====
-- Where the bytes of a file lie, and when the runs of arcfw/ported/fatboot.c are right about it.
use native.Mathlib.Nat.{mod-lt, mod-add-div'}
use arcpi.Base.{
  ℕ, ◌+◌, ◌-◌, ◌*◌, ◌/◌, ◌%◌, ◌^◌, ◌≤◌, ◌<◌, ◌≡◌, sym, ap, ◌∙◌, true, ◌==◌, arith, Bool-cases, inl,
  inr, List, length, ltb, get_or, add32, sub32, mul_order, mul_step, same_product,
}
use arcpi.Fat.{Bpb, bytes_per_cluster, index_to_lbo}
use arcpi.Fat.Mcb.{FatMcb, first_run, maximum_mcb, extend_run, add_run, is_contiguous}

-- Offset `x` lies in cluster `k` of the file.
pub in_cluster : (x k n : ℕ) → k * n ≤ x → x < k * n + n → (x / n ≡ k) × (x % n ≡ x - k * n)
in_cluster x k n le lt =
    let pos : 0 < n = omega (arith, le, lt) in
    let r = mod-lt x pos in
    let d = mod-add-div' x n in
    elim (mul_order (x / n) k n) [
      | inl e ↦ (e, omega (arith, d, r, same_product (x / n) k n e))
      | inr (_, inl less) ↦ absurd (omega (arith, d, r, le, less))
      | inr (_, inr more) ↦ absurd (omega (arith, d, r, lt, more))
    ]

module _ (b : Bpb) where
  -- The disk offset of byte `x` of a file with these clusters.
  abbrev pub position : List ℕ → (x : ℕ) → ℕ
  position cs x = index_to_lbo b (get_or cs (x / bytes_per_cluster b) 0) + x % bytes_per_cluster b

  -- The offsets of the file and of the disk are ULONGs.
  pub record IsAddressable (cs : List ℕ) : Type 0 where
    pub some_byte : 0 < bytes_per_cluster b
    pub file_end : length cs * bytes_per_cluster b + bytes_per_cluster b < 2 ^ 32
    pub disk_end :
        (k : ℕ) → k < length cs → index_to_lbo b (get_or cs k 0) + bytes_per_cluster b < 2 ^ 32

  -- Every run takes its offsets to where these bytes lie.
  pub record RunsMap (cs : List ℕ) (m : FatMcb) : Type 0 where
    pub bounded : m.in_use < maximum_mcb
    pub runs :
        (i x : ℕ)
        → i < m.in_use
        → m.vbo i ≤ x
        → x < m.vbo (i + 1)
        → (x < length cs * bytes_per_cluster b) × (position cs x ≡ m.lbo i + (x - m.vbo i))

  -- The runs end with cluster `k`.
  pub record Loaded (cs : List ℕ) (k : ℕ) (m : FatMcb) : Type 0 where
    pub map : RunsMap cs m
    pub some_run : 0 < m.in_use
    pub end : m.vbo m.in_use ≡ k * bytes_per_cluster b + bytes_per_cluster b
    pub start : m.vbo (m.in_use - 1) ≤ k * bytes_per_cluster b
    pub end_lbo :
        m.lbo (m.in_use - 1) + (m.vbo m.in_use - m.vbo (m.in_use - 1))
        ≡ index_to_lbo b (get_or cs k 0) + bytes_per_cluster b

  at_cluster :
      (cs : List ℕ) (k x : ℕ)
      → k * bytes_per_cluster b ≤ x
      → x < k * bytes_per_cluster b + bytes_per_cluster b
      → position cs x ≡ index_to_lbo b (get_or cs k 0) + (x - k * bytes_per_cluster b)
  at_cluster cs k x le lt =
      let (q, r) = in_cluster x k (bytes_per_cluster b) le lt in
      λ t. index_to_lbo b (get_or cs (q t) 0) + r t

  -- The arithmetic of the next cluster.
  next_end :
      (cs : List ℕ) (k : ℕ) (m : FatMcb)
      → IsAddressable cs
      → k + 1 < length cs
      → Loaded cs k m
      → (add32 (m.vbo m.in_use) (bytes_per_cluster b)
          ≡ (k + 1) * bytes_per_cluster b + bytes_per_cluster b)
        × ((k + 1) * bytes_per_cluster b + bytes_per_cluster b ≤ length cs * bytes_per_cluster b)
        × ((k + 1) * bytes_per_cluster b ≡ m.vbo m.in_use)
  next_end cs k m a lt l =
      let n = bytes_per_cluster b in
      let room = mul_step (k + 1) (length cs) n lt in
      let step : (k + 1) * n ≡ k * n + n = omega arith in
      let end = l.end in
      (omega (arith, a.file_end, room, step, end), room, omega (arith, step, end))

  contiguous_lem :
      (cs : List ℕ) (k lbo : ℕ) (m : FatMcb)
      → IsAddressable cs
      → k + 1 < length cs
      → Loaded cs k m
      → is_contiguous m lbo ≡ true
      → lbo ≡ m.lbo (m.in_use - 1) + (m.vbo m.in_use - m.vbo (m.in_use - 1))
  contiguous_lem cs k lbo m a lt l hit =
      let room = mul_step (k + 1) (length cs) (bytes_per_cluster b) lt in
      ground (arith, hit, l.end, l.start, l.end_lbo, a.disk_end k, a.file_end, room)

  -- The cluster behind the ones that are loaded.
  next_cluster :
      (cs : List ℕ) (k x : ℕ) (m : FatMcb)
      → IsAddressable cs
      → k + 1 < length cs
      → Loaded cs k m
      → m.vbo m.in_use ≤ x
      → x < add32 (m.vbo m.in_use) (bytes_per_cluster b)
      → (x < length cs * bytes_per_cluster b)
        × (position cs x ≡ index_to_lbo b (get_or cs (k + 1) 0) + (x - m.vbo m.in_use))
  next_cluster cs k x m a lt l from to =
      let (e, room, v) = next_end cs k m a lt l in
      (
        omega (arith, e, room, to),
        at_cluster cs (k + 1) x (omega (arith, v, from)) (omega (arith, e, to))
            ∙ ap (λ v. index_to_lbo b (get_or cs (k + 1) 0) + (x - v)) v,
      )

  extended_run :
      (cs : List ℕ) (k : ℕ) (m : FatMcb)
      → IsAddressable cs
      → k + 1 < length cs
      → Loaded cs k m
      → is_contiguous m (index_to_lbo b (get_or cs (k + 1) 0)) ≡ true
      → (i x : ℕ) → i < m.in_use
      → (extend_run b m).vbo i ≤ x
      → x < (extend_run b m).vbo (i + 1)
      → (x < length cs * bytes_per_cluster b)
        × (position cs x ≡ m.lbo i + (x - (extend_run b m).vbo i))
  extended_run cs k m a lt l hit i x i_lt from to =
      let same : (extend_run b m).vbo i ≡ m.vbo i = ground (arith, i_lt) in
      elim (Bool-cases (ltb x (m.vbo (i + 1)))) [
        | inl old ↦
            let (p, q) = l.map.runs i x i_lt (omega (arith, same, from)) (ground (arith, old)) in
            (p, q ∙ ap (λ v. m.lbo i + (x - v)) (sym same))
        | inr new ↦
            let last : i ≡ m.in_use - 1 = ground (arith, new, to, i_lt) in
            let top : m.vbo (i + 1) ≡ m.vbo m.in_use = ap m.vbo (omega (arith, last, l.some_run)) in
            let above : m.vbo m.in_use ≤ x = ground (arith, new, top) in
            let (p, q) =
              next_cluster cs k x m a lt l above (ground (arith, to, last, l.some_run)) in
            let c = contiguous_lem cs k _ m a lt l hit in
            let low = ap m.vbo last in
            (p, q ∙ omega (arith, c, l.start, l.end, same, low, ap m.lbo last, above))
      ]

  -- The last run takes one cluster more.
  pub extend_run-Loaded :
      (cs : List ℕ) (k : ℕ) (m : FatMcb)
      → IsAddressable cs
      → k + 1 < length cs
      → Loaded cs k m
      → is_contiguous m (index_to_lbo b (get_or cs (k + 1) 0)) ≡ true
      → Loaded cs (k + 1) (extend_run b m)
  extend_run-Loaded cs k m a lt l hit =
      let (e, room, v) = next_end cs k m a lt l in
      let c = contiguous_lem cs k _ m a lt l hit in
      record {
        map = record { bounded = l.map.bounded; runs = extended_run cs k m a lt l hit };
        some_run = l.some_run;
        end = ground (arith, e);
        start = ground (arith, v, l.some_run, l.start, l.end);
        end_lbo = ground (arith, c, e, v, l.some_run, l.start, l.end);
      }

  added_run :
      (cs : List ℕ) (k : ℕ) (m : FatMcb)
      → IsAddressable cs
      → k + 1 < length cs
      → Loaded cs k m
      → (i x : ℕ) → i < m.in_use + 1
      → (add_run b (index_to_lbo b (get_or cs (k + 1) 0)) m).vbo i ≤ x
      → x < (add_run b (index_to_lbo b (get_or cs (k + 1) 0)) m).vbo (i + 1)
      → (x < length cs * bytes_per_cluster b)
        × (position cs x
            ≡ (add_run b (index_to_lbo b (get_or cs (k + 1) 0)) m).lbo i
              + (x - (add_run b (index_to_lbo b (get_or cs (k + 1) 0)) m).vbo i))
  added_run cs k m a lt l i x i_lt from to =
      let m' = add_run b (index_to_lbo b (get_or cs (k + 1) 0)) m in
      let same : m'.vbo i ≡ m.vbo i = ground (arith, i_lt) in
      elim (Bool-cases (i == m.in_use)) [
        | inl e ↦
            let at : i ≡ m.in_use = ground (arith, e) in
            let low = ap m.vbo at in
            let (p, q) =
              next_cluster cs k x m a lt l (omega (arith, low, same, from))
                (ground (arith, to, at)) in
            let here : m'.lbo i ≡ index_to_lbo b (get_or cs (k + 1) 0) = ground (arith, e) in
            (p, q ∙ omega (arith, here, same, low))
        | inr ne ↦
            let (p, q) =
              l.map.runs i x (ground (arith, ne, i_lt)) (omega (arith, same, from))
                (ground (arith, to, ne, i_lt)) in
            let here : m'.lbo i ≡ m.lbo i = ground (arith, ne) in (p, q ∙ omega (arith, here, same))
      ]

  -- A run more for one cluster.
  pub add_run-Loaded :
      (cs : List ℕ) (k : ℕ) (m : FatMcb)
      → IsAddressable cs
      → k + 1 < length cs
      → Loaded cs k m
      → m.in_use + 1 < maximum_mcb
      → Loaded cs (k + 1) (add_run b (index_to_lbo b (get_or cs (k + 1) 0)) m)
  add_run-Loaded cs k m a lt l room =
      let (e, _, v) = next_end cs k m a lt l in
      record {
        map = record { bounded = room; runs = added_run cs k m a lt l };
        some_run = omega arith;
        end = ground (arith, e);
        start = ground (arith, v);
        end_lbo = ground (arith, e, v);
      }

  first_run_map :
      (cs : List ℕ) (k vbo entry : ℕ) (m : FatMcb)
      → IsAddressable cs
      → k < length cs
      → vbo ≡ k * bytes_per_cluster b + bytes_per_cluster b
      → entry ≡ get_or cs k 0
      → (i x : ℕ) → i < 1
      → (first_run b vbo entry m).vbo i ≤ x
      → x < (first_run b vbo entry m).vbo (i + 1)
      → (x < length cs * bytes_per_cluster b)
        × (position cs x ≡ (first_run b vbo entry m).lbo i + (x - (first_run b vbo entry m).vbo i))
  first_run_map cs k vbo entry m a lt e here i x i_lt from to =
      let n = bytes_per_cluster b in
      let room = mul_step k (length cs) n lt in
      let low : sub32 vbo n ≡ k * n = omega (arith, e, room, a.file_end) in
      let start : (first_run b vbo entry m).vbo i ≡ k * n = ground (arith, i_lt, low) in
      let lbo : (first_run b vbo entry m).lbo i ≡ index_to_lbo b entry = ground (arith, i_lt) in
      let end : x < vbo = ground (arith, i_lt, to) in
      (
        omega (arith, end, e, room),
        at_cluster cs k x (omega (arith, start, from)) (omega (arith, end, e))
            ∙ omega (arith, start, lbo, ap (index_to_lbo b) here),
      )

  -- The first run alone.
  pub first_run-Loaded :
      (cs : List ℕ) (k vbo entry : ℕ) (m : FatMcb)
      → IsAddressable cs
      → k < length cs
      → vbo ≡ k * bytes_per_cluster b + bytes_per_cluster b
      → entry ≡ get_or cs k 0
      → Loaded cs k (first_run b vbo entry m)
  first_run-Loaded cs k vbo entry m a lt e here =
      let n = bytes_per_cluster b in
      let room = mul_step k (length cs) n lt in
      let low : sub32 vbo n ≡ k * n = omega (arith, e, room, a.file_end) in
      record {
        map = record { bounded = omega arith; runs = first_run_map cs k vbo entry m a lt e here };
        some_run = omega arith;
        end = e;
        start = omega (arith, low);
        end_lbo = omega (arith, e, low, ap (index_to_lbo b) here);
      }
