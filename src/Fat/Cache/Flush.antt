-- ===== src/Fat/Cache/Flush.antt =====
-- `FatFlushFatEntries` of arcfw/ported/fatboot.c.
use arcpi.Base.{
  mul_step, mul_order, ℕ, zero, suc, ◌+◌, ◌-◌, ◌*◌, ◌≤◌, ◌<◌, ◌≡◌, refl, sym, ap, ◌∙◌, true, false,
  ◌&&◌, ltb, leb, ◌==◌, if◌then◌else◌, arith, Bool-cases, inl, inr,
}
use arcpi.Runtime.{Memory}
use arcpi.Fat.{Bpb, bytes_per_fat, first_fat_area_lbo}
use arcpi.Fat.Action.{ok}
use arcpi.Fat.Device.{ArcDevice, IsDisk, overwritten, fat_disk_write_lem}
use arcpi.Fat.Cache.{Volume, window_lbo, write_copies, amount_to_write, flush_fat_entries}
use arcpi.Fat.Entry.{IsBytes}
use arcpi.Fat.Cache.View.{IsMountable, fats_end, fat_lbo, in_window, view, Coherent}

same_copy :
    (area bpf i lo n p : ℕ) (b m : Memory)
    → lo + n ≤ bpf
    → p < bpf
    → overwritten (lo + area + i * bpf) n b m (area + i * bpf + p)
      ≡ (if i == i && (leb lo p && ltb p (lo + n)) then b (p - lo) else m (area + i * bpf + p))
same_copy area bpf i lo n p b m h lt = ground arith

-- A write of part of copy `i` of the FAT, seen at byte `p` of copy `k`.
at_copy :
    (area bpf k i lo n p : ℕ) (b m : Memory)
    → lo + n ≤ bpf
    → p < bpf
    → overwritten (lo + area + i * bpf) n b m (area + k * bpf + p)
      ≡ (if k == i && (leb lo p && ltb p (lo + n)) then b (p - lo) else m (area + k * bpf + p))
at_copy area bpf k i lo n p b m h lt = elim (mul_order k i bpf) [
  | inl e ↦ rw e (same_copy area bpf i lo n p b m h lt)
  | inr (ne, inl le) ↦ ground (arith, ne, le)
  | inr (ne, inr le) ↦ ground (arith, ne, le)
]

beyond : (lbo n q : ℕ) (b m : Memory) → lbo + n ≤ q → overwritten lbo n b m q ≡ m q
beyond lbo n q b m h = ground (arith, h)

module _ {D : Type 0} {dev : ArcDevice D} (disk : IsDisk dev) where
  -- The disk behind the FATs is the same.
  abbrev pub SameBehind : Bpb → (d d' : D) → Type 0
  SameBehind b d d' = (q : ℕ) → fats_end b ≤ q → disk.contents d' q ≡ disk.contents d q

  window_lbo_lem :
      (i : ℕ) (v : Volume D)
      → IsMountable disk.size v.bpb
      → v.cached_vbo ≤ bytes_per_fat v.bpb
      → i < v.bpb.fats
      → window_lbo i v ≡ v.cached_vbo + first_fat_area_lbo v.bpb + i * bytes_per_fat v.bpb
  window_lbo_lem i v m le lt =
      ground (arith, m.room, m.below, mul_step i v.bpb.fats (bytes_per_fat v.bpb) lt)

  -- What the loop leaves in byte `p` of copy `k`.
  abbrev left_by : (n i amount : ℕ) → Volume D → (k p : ℕ) → ℕ
  left_by n i amount v k p =
      if (leb i k && ltb k (i + n)) && (leb v.cached_vbo p && ltb p (v.cached_vbo + amount))
      then v.cache (p - v.cached_vbo)
      else disk.contents v.device (fat_lbo v.bpb k p)

  left_by_step :
      (n i amount : ℕ) (v : Volume D) (d : D) (k p : ℕ)
      → disk.contents d (fat_lbo v.bpb k p) ≡ (
          if k == i && (leb v.cached_vbo p && ltb p (v.cached_vbo + amount))
          then v.cache (p - v.cached_vbo)
          else disk.contents v.device (fat_lbo v.bpb k p))
      → left_by n (suc i) amount (record v { device = d }) k p ≡ left_by (suc n) i amount v k p
  left_by_step n i amount v d k p g = ground (arith, g)

  write_copies_lem :
      (n i amount : ℕ) (v : Volume D)
      → IsMountable disk.size v.bpb
      → IsBytes v.cache
      → v.cached_vbo + amount ≤ bytes_per_fat v.bpb
      → i + n ≤ v.bpb.fats
      → (d : D) × (write_copies dev n i amount v ≡ (ok tt, record v { device = d }))
        × ((k p : ℕ)
            → k < v.bpb.fats
            → p < bytes_per_fat v.bpb
            → disk.contents d (fat_lbo v.bpb k p) ≡ left_by n i amount v k p)
        × SameBehind v.bpb v.device d
  unfolding write_copies
  write_copies_lem zero i amount v m b fits le =
      (v.device, refl, λ k p lt below. ground arith, λ q le. refl)
  write_copies_lem (suc n) i amount v m b fits le =
      let bpf = bytes_per_fat v.bpb in
      let area = first_fat_area_lbo v.bpb in
      let at = window_lbo_lem i v m (omega (arith, fits)) (omega (arith, le)) in
      let room = mul_step i v.bpb.fats bpf (omega (arith, le)) in
      let (d1, e1, f1) =
        fat_disk_write_lem dev disk (window_lbo i v) amount v.cache v.device
          (omega (arith, at, room, m.room, fits)) b in
      let (d2, e2, f2, behind) =
        write_copies_lem n (suc i) amount (record v { device = d1 }) m b fits (omega (arith, le)) in
      (
        d2,
        rw (e1, e2) refl,
        λ k p lt below.
            let g =
              f1 (fat_lbo v.bpb k p)
              ∙ ap
                  (λ lbo.
                    overwritten lbo amount v.cache (disk.contents v.device) (fat_lbo v.bpb k p))
                  at
              ∙ at_copy area bpf k i v.cached_vbo amount p v.cache (disk.contents v.device) fits
                  below in
            f2 k p lt below ∙ left_by_step n i amount v d1 k p g,
        λ q le.
            behind q le
            ∙ f1 q
            ∙ beyond (window_lbo i v) amount q v.cache (disk.contents v.device)
                (omega (arith, at, room, fits, le)),
      )

  amount_fits :
      (v : Volume D)
      → Coherent disk v
      → v.cached ≡ true
      → (v.cached_vbo + amount_to_write v ≤ bytes_per_fat v.bpb)
        × ((p : ℕ)
            → p < bytes_per_fat v.bpb
            → (leb v.cached_vbo p && ltb p (v.cached_vbo + amount_to_write v)) ≡ in_window v p)
  amount_fits v c on =
      let one = mul_step 0 v.bpb.fats (bytes_per_fat v.bpb) c.mountable.some_fat in
      let start = (c.aligned on).1 in
      (
        ground (arith, one, c.mountable.room, c.mountable.below, start),
        λ p lt. ground (arith, one, c.mountable.room, c.mountable.below, start, on),
      )

  -- What the loop writes is what the volume holds.
  left_view :
      (v : Volume D)
      → Coherent disk v
      → v.cached ≡ true
      → (k p : ℕ) → k < v.bpb.fats
      → p < bytes_per_fat v.bpb
      → left_by v.bpb.fats 0 (amount_to_write v) v k p ≡ view disk.contents v p
  left_view v c on k p lt below = elim (Bool-cases (in_window v p)) [
    | inl w ↦ ground (arith, (amount_fits v c on).1 p below, w, lt)
    | inr w ↦ ground (arith, (amount_fits v c on).1 p below, w, c.copies k p lt below)
  ]

  abbrev pub flushed : Volume D → D → Volume D
  flushed v d = record v { device = d; dirty = false }

  -- Whatever the window held is on every copy of the FAT, which is the same FAT as before.
  pub record Flushed (v : Volume D) (d : D) : Type 0 where
    pub coherent : Coherent disk (flushed v d)
    pub same_view :
        (p : ℕ)
        → p < bytes_per_fat v.bpb
        → view disk.contents (flushed v d) p ≡ view disk.contents v p
    pub mirrored :
        (k p : ℕ)
        → k < v.bpb.fats
        → p < bytes_per_fat v.bpb
        → disk.contents d (fat_lbo v.bpb k p) ≡ view disk.contents v p
    pub behind : SameBehind v.bpb v.device d

  same_view_by :
      (v : Volume D) (d : D) (p : ℕ)
      → disk.contents d (fat_lbo v.bpb 0 p) ≡ view disk.contents v p
      → view disk.contents (flushed v d) p ≡ view disk.contents v p
  same_view_by v d p h = ground (arith, h)

  Flushed-by :
      (v : Volume D)
      → Coherent disk v
      → (d : D)
      → ((k p : ℕ)
          → k < v.bpb.fats
          → p < bytes_per_fat v.bpb
          → disk.contents d (fat_lbo v.bpb k p) ≡ view disk.contents v p)
      → SameBehind v.bpb v.device d
      → Flushed v d
  Flushed-by v c d all behind =
      let same : (p : ℕ)
          → p < bytes_per_fat v.bpb
          → view disk.contents (flushed v d) p ≡ view disk.contents v p =
        λ p lt. same_view_by v d p (all 0 p c.mountable.some_fat lt) in
      record {
        coherent = record {
          mountable = c.mountable;
          aligned = c.aligned;
          cache_bytes = c.cache_bytes;
          dirty_cached = λ e. absurd cc;
          copies = λ k p lt below _. all k p lt below ∙ sym (same p below);
        };
        same_view = same;
        mirrored = all;
        behind = behind;
      }

  -- `FatFlushFatEntries` succeeds, changes nothing in memory but the dirty flag, and leaves on every
  -- copy of the FAT what the window and the disk held together, so that the FAT is the same. The disk
  -- behind the FATs is as it was.
  pub flush_fat_entries-Flushed :
      (v : Volume D)
      → Coherent disk v
      → v.cached ≡ true
      → (d : D) × (flush_fat_entries dev v ≡ (ok tt, flushed v d)) × Flushed v d
  unfolding flush_fat_entries
  flush_fat_entries-Flushed v c on =
      let (d, e, f, behind) =
        write_copies_lem v.bpb.fats 0 (amount_to_write v) v c.mountable c.cache_bytes
          (amount_fits v c on).0 (omega arith) in
      (
        d,
        rw e refl,
        Flushed-by v c d (λ k p lt below. f k p lt below ∙ left_view v c on k p lt below) behind,
      )
