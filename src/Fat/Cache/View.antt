-- ===== src/Fat/Cache/View.antt =====
-- The FAT that the window of arcfw/ported/fatboot.c and the disk hold together, and the invariant
-- of a mounted volume.
use arcpi.Base.{
  ℕ, ◌+◌, ◌-◌, ◌*◌, ◌%◌, ◌^◌, ◌≤◌, ◌<◌, ◌≡◌, Bool, true, false, ◌&&◌, ltb, leb, if◌then◌else◌,
}
use arcpi.Runtime.{Memory}
use arcpi.Fat.{Bpb, bytes_per_fat, first_fat_area_lbo, is_twelve_bit}
use arcpi.Fat.Entry.{entry_vbo, fat_entry, IsBytes}
use arcpi.Fat.Device.{ArcDevice, IsDisk}
use arcpi.Fat.Cache.{Volume, cache_size}

-- The FATs lie on the disk with room for one window behind them, and a disk has less than 4 GiB.
pub record IsMountable (size : ℕ) (b : Bpb) : Type 0 where
  pub room : first_fat_area_lbo b + b.fats * bytes_per_fat b + cache_size ≤ size
  pub below : size < 2 ^ 32
  pub some_fat : 0 < b.fats

-- Both bytes of entry `i` belong to the FAT.
abbrev pub InFat : Bpb → ℕ → Type 0
InFat b i = entry_vbo (is_twelve_bit b) i + 1 < bytes_per_fat b

-- Byte `p` of copy `k` of the FAT.
abbrev pub fat_lbo : Bpb → (k p : ℕ) → ℕ
fat_lbo b k p = first_fat_area_lbo b + k * bytes_per_fat b + p

-- Where the FATs end on the disk.
abbrev pub fats_end : Bpb → ℕ
fats_end b = first_fat_area_lbo b + b.fats * bytes_per_fat b

module _ {D : Type 0} where
  abbrev pub in_window : Volume D → ℕ → Bool
  in_window v p = v.cached && (leb v.cached_vbo p && ltb p (v.cached_vbo + cache_size))

  -- Byte `p` of the FAT: the window goes before the disk.
  abbrev pub view : (D → Memory) → Volume D → Memory
  view contents v p =
      if in_window v p then v.cache (p - v.cached_vbo) else contents v.device (fat_lbo v.bpb 0 p)

  -- Entry `i` of the FAT.
  abbrev pub table : (D → Memory) → Volume D → ℕ → ℕ
  table contents v i = fat_entry (is_twelve_bit v.bpb) i (view contents v)

-- Every copy of the FAT on the disk holds the same bytes, except where the window is dirty.
pub record Coherent {D : Type 0} {dev : ArcDevice D} (disk : IsDisk dev) (v : Volume D)
    : Type 0 where
  pub mountable : IsMountable disk.size v.bpb
  pub aligned :
      v.cached ≡ true → (v.cached_vbo % cache_size ≡ 0) × (v.cached_vbo < bytes_per_fat v.bpb)
  pub cache_bytes : IsBytes v.cache
  pub dirty_cached : v.dirty ≡ true → v.cached ≡ true
  pub copies :
      (k p : ℕ)
      → k < v.bpb.fats
      → p < bytes_per_fat v.bpb
      → (v.dirty && in_window v p) ≡ false
      → disk.contents v.device (fat_lbo v.bpb k p) ≡ view disk.contents v p
