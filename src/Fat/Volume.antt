-- ===== src/Fat/Volume.antt =====
-- The mounted volume of arcfw/ported/fatboot.c as the FAT that its cluster routines work on.
use arcpi.Base.{
  ℕ, ◌+◌, ◌*◌, ◌≤◌, ◌<◌, ◌≡◌, refl, sym, ap, subst, ◌∙◌, arith, mul_step, ◌%◌, ◌==◌, if◌then◌else◌,
  ◌^◌,
}
use arcpi.Runtime.{Memory}
use arcpi.Fat.{Bpb, bytes_per_fat, first_fat_area_lbo, is_twelve_bit}
use arcpi.Fat.Entry.{entry_limit, IsBytes}
use arcpi.Fat.Action.{ok}
use arcpi.Fat.Device.{ArcDevice, IsDisk, overwritten, fat_disk_write, fat_disk_write_lem}
use arcpi.Fat.Cache.{Volume, on_device, lookup_fat_entry, set_fat_entry}
use arcpi.Fat.Cache.View.{InFat, fat_lbo, view, table, Coherent}
use arcpi.Fat.Cache.Table.{same_table, lookup_fat_entry-SameFat, set_fat_entry-Updated}
use arcpi.Fat.Interface.{FatOps, IsFat}

abbrev pub volume_ops : {D : Type 0} → ArcDevice D → FatOps (Volume D)
volume_ops dev = record {
  lookup = lookup_fat_entry dev;
  set = set_fat_entry dev;
  write = λ lbo n b. on_device (fat_disk_write dev lbo n b);
}

module _ {D : Type 0} {dev : ArcDevice D} (disk : IsDisk dev) (b : Bpb) where
  -- A mounted volume with this geometry.
  pub record Mounted (v : Volume D) : Type 0 where
    pub coherent : Coherent disk v
    pub bpb_lem : v.bpb ≡ b

  -- The part of the disk behind the FATs.
  abbrev pub BehindFats : (lbo n : ℕ) → Type 0
  BehindFats lbo n = (first_fat_area_lbo b + b.fats * bytes_per_fat b ≤ lbo) × (lbo + n ≤ disk.size)

  pub volume_lookup :
      (i : ℕ) (v : Volume D)
      → Mounted v
      → InFat b i
      → (w : Volume D) × (lookup_fat_entry dev i v ≡ (ok (table disk.contents v i), w))
        × Mounted w
        × ((j : ℕ) → InFat b j → table disk.contents w j ≡ table disk.contents v j)
  volume_lookup i v m h =
      let (w, e, s) =
        lookup_fat_entry-SameFat disk i v m.coherent (subst (λ b. InFat b i) (sym m.bpb_lem) h) in
      (
        w,
        e,
        record { coherent = s.coherent; bpb_lem = s.same_bpb ∙ m.bpb_lem },
        λ j h. s.same_entries j (subst (λ b. InFat b j) (sym m.bpb_lem) h),
      )

  pub volume_set :
      (i entry : ℕ) (v : Volume D)
      → Mounted v
      → InFat b i
      → entry < 2 ^ 16
      → (w : Volume D) × (set_fat_entry dev i entry v ≡ (ok tt, w))
        × Mounted w
        × ((j : ℕ)
            → InFat b j
            → table disk.contents w j
              ≡ (if i == j then entry % entry_limit (is_twelve_bit b) else table disk.contents v j))
  volume_set i entry v m h lt =
      let (w, e, u) =
        set_fat_entry-Updated disk i entry v m.coherent (subst (λ b. InFat b i) (sym m.bpb_lem) h)
          lt in
      (
        w,
        e,
        record { coherent = u.coherent; bpb_lem = u.same_bpb ∙ m.bpb_lem },
        λ j h.
            u.entries j (subst (λ b. InFat b j) (sym m.bpb_lem) h)
            ∙ ap
                (λ b.
                  if i == j then entry % entry_limit (is_twelve_bit b) else table disk.contents v j)
                m.bpb_lem,
      )

  same_view :
      (v : Volume D) (d : D) (p : ℕ)
      → disk.contents d (fat_lbo v.bpb 0 p) ≡ disk.contents v.device (fat_lbo v.bpb 0 p)
      → view disk.contents (record v { device = d }) p ≡ view disk.contents v p
  same_view v d p h = ground (arith, h)

  before :
      (v : Volume D) (k p lbo n : ℕ) (buffer : Memory)
      → k < v.bpb.fats
      → p < bytes_per_fat v.bpb
      → first_fat_area_lbo v.bpb + v.bpb.fats * bytes_per_fat v.bpb ≤ lbo
      → overwritten lbo n buffer (disk.contents v.device) (fat_lbo v.bpb k p)
        ≡ disk.contents v.device (fat_lbo v.bpb k p)
  before v k p lbo n buffer lt below from =
      ground (arith, mul_step k v.bpb.fats (bytes_per_fat v.bpb) lt, from)

  -- Bytes of the device that no FAT uses may change.
  pub other_device :
      (v : Volume D) (d : D)
      → Coherent disk v
      → ((k p : ℕ)
          → k < v.bpb.fats
          → p < bytes_per_fat v.bpb
          → disk.contents d (fat_lbo v.bpb k p) ≡ disk.contents v.device (fat_lbo v.bpb k p))
      → Coherent disk (record v { device = d })
        × ((p : ℕ)
            → p < bytes_per_fat v.bpb
            → view disk.contents (record v { device = d }) p ≡ view disk.contents v p)
  other_device v d c kept =
      let same : (p : ℕ)
          → p < bytes_per_fat v.bpb
          → view disk.contents (record v { device = d }) p ≡ view disk.contents v p =
        λ p lt. same_view v d p (kept 0 p c.mountable.some_fat lt) in
      (
        record {
          mountable = c.mountable;
          aligned = c.aligned;
          cache_bytes = c.cache_bytes;
          dirty_cached = c.dirty_cached;
          copies = λ k p lt below out.
              kept k p lt below ∙ c.copies k p lt below out ∙ sym (same p below);
        },
        same,
      )

  pub volume_write :
      (lbo n : ℕ) (buffer : Memory) (v : Volume D)
      → Mounted v
      → BehindFats lbo n
      → IsBytes buffer
      → (w : Volume D) × (on_device (fat_disk_write dev lbo n buffer) v ≡ (ok tt, w))
        × Mounted w
        × ((j : ℕ) → InFat b j → table disk.contents w j ≡ table disk.contents v j)
  volume_write lbo n buffer v m (from, to) bytes =
      let (d, e, f) = fat_disk_write_lem dev disk lbo n buffer v.device to bytes in
      let kept : (k p : ℕ)
          → k < v.bpb.fats
          → p < bytes_per_fat v.bpb
          → disk.contents d (fat_lbo v.bpb k p) ≡ disk.contents v.device (fat_lbo v.bpb k p) =
        λ k p lt below.
          f (fat_lbo v.bpb k p)
          ∙ before v k p lbo n buffer lt below (
              subst (λ b. first_fat_area_lbo b + b.fats * bytes_per_fat b ≤ lbo) (sym m.bpb_lem)
                from) in
      let (c, same) = other_device v d m.coherent kept in
      (
        record v { device = d },
        rw e refl,
        record { coherent = c; bpb_lem = m.bpb_lem },
        λ j h.
            same_table disk v (record v { device = d }) refl same j
              (subst (λ b. InFat b j) (sym m.bpb_lem) h),
      )

  unfoldable pub volume_fat : IsFat (volume_ops dev) (entry_limit (is_twelve_bit b))
  volume_fat = record {
    Good = Mounted;
    InRange = InFat b;
    Writable = BehindFats;
    entries = table disk.contents;
    lookup_lem = volume_lookup;
    set_lem = volume_set;
    write_lem = volume_write;
  }
