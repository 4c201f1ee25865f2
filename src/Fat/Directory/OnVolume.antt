-- ===== src/Fat/Directory/OnVolume.antt =====
-- `DiskRead` of arcfw/ported/fatboot.c on a mounted volume, behind its FATs.
use arcpi.Base.{ℕ, ◌+◌, ◌-◌, ◌≤◌, ◌<◌, ◌≡◌, refl, sym, ap, subst, ◌∙◌, arith}
use arcpi.Runtime.{Memory}
use arcpi.Fat.{Bpb}
use arcpi.Fat.Action.{Action, Result, ok, fail}
use arcpi.Fat.Device.{ArcDevice, IsDisk, fetched, fat_disk_read, fat_disk_read_lem}
use arcpi.Fat.Cache.{Volume, lookup_fat_entry}
use arcpi.Fat.Cache.View.{InFat, fats_end, fat_lbo, table}
use arcpi.Fat.Cache.Table.{same_table, lookup_fat_entry-SameFat}
use arcpi.Fat.Volume.{volume_fat, Mounted, other_device}
use arcpi.Fat.Directory.Reader.{IsReader}

abbrev pub read_result :
    {D : Type 0} → Volume D → Result (Unit {0}) × (Memory × D) → Result Memory × Volume D
read_result v (ok u, (b, d)) = (ok b, record v { device = d })
read_result v (fail e, (b, d)) = (fail e, record v { device = d })

abbrev pub volume_read :
    {D : Type 0} → ArcDevice D → (lbo length : ℕ) → Memory → Action (Volume D) Memory
volume_read dev lbo n buffer v = read_result v (fat_disk_read dev lbo n (buffer, v.device))

module _ {D : Type 0} {dev : ArcDevice D} (disk : IsDisk dev) (b : Bpb) where
  abbrev pub BehindFat : ℕ → Type 0
  BehindFat p = (fats_end b ≤ p) × (p < disk.size)

  fetched_byte : (lbo n q : ℕ) (m buffer : Memory) → q < n → fetched lbo n m buffer q ≡ m (lbo + q)
  fetched_byte lbo n q m buffer lt = ground (arith, lt)

  pub volume_read_lem :
      (lbo n : ℕ) (buffer : Memory) (v : Volume D)
      → Mounted disk b v
      → 0 < n
      → ((q : ℕ) → q < n → BehindFat (lbo + q))
      → (b' : Memory) × (w : Volume D) × (volume_read dev lbo n buffer v ≡ (ok b', w))
        × Mounted disk b w
        × ((j : ℕ) → InFat b j → table disk.contents w j ≡ table disk.contents v j)
        × ((q : ℕ) → q < n → b' q ≡ disk.contents v.device (lbo + q))
        × ((p : ℕ) → BehindFat p → disk.contents w.device p ≡ disk.contents v.device p)
  volume_read_lem lbo n buffer v m some stored =
      let (b', d, e, f, kept) =
        fat_disk_read_lem dev disk lbo n buffer v.device
          (omega (arith, (stored (n - 1) (omega (arith, some))).1, some)) in
      let (c, same) =
        other_device disk b v d m.coherent (λ k p lt below. kept (fat_lbo v.bpb k p)) in
      (
        b',
        record v { device = d },
        ap (read_result v) e,
        record { coherent = c; bpb_lem = m.bpb_lem },
        λ j h.
            same_table disk v (record v { device = d }) refl same j
              (subst (λ b. InFat b j) (sym m.bpb_lem) h),
        λ q lt. f q ∙ fetched_byte lbo n q (disk.contents v.device) buffer lt,
        λ p h. kept p,
      )

  pub lookup_keeps :
      (i : ℕ) (v : Volume D)
      → Mounted disk b v
      → InFat b i
      → (p : ℕ) → BehindFat p
      → disk.contents (lookup_fat_entry dev i v).1.device p ≡ disk.contents v.device p
  lookup_keeps i v m h p behind =
      let (w, e, s) =
        lookup_fat_entry-SameFat disk i v m.coherent (subst (λ b. InFat b i) (sym m.bpb_lem) h) in
      ap (λ x. disk.contents x.1.device p) e
      ∙ s.behind p (subst (λ b. fats_end b ≤ p) (sym m.bpb_lem) behind.0)

  unfoldable pub volume_reader : IsReader (volume_fat disk b) (volume_read dev)
  unfolding volume_fat
  volume_reader = record {
    Stored = BehindFat;
    contents = λ v. disk.contents v.device;
    read_lem = volume_read_lem;
    lookup_keeps = lookup_keeps;
  }
