-- ===== src/Fat/Cache.antt =====
-- The window of the FAT that a mounted volume keeps in memory (arcfw/ported/fatboot.c,
-- arcfw/inc/fatboot.h): `FatLookupFatEntry`, `FatSetFatEntry` and `FatFlushFatEntries`.
pub mod View
pub mod Flush
pub mod Window
pub mod Table
pub mod Stale
use arcpi.Base.{
  ℕ, zero, suc, ◌+◌, ◌-◌, ◌*◌, ◌/◌, Bool, true, false, not, ◌||◌, ltb, leb, if◌then◌else◌, add32,
  sub32, mul32,
}
use arcpi.Runtime.{Memory}
use arcpi.Fat.{Bpb, bytes_per_fat, first_fat_area_lbo, is_twelve_bit}
use arcpi.Fat.Entry.{entry_vbo, little_word, decode, encode, two_bytes}
use arcpi.Fat.Action.{Action, pure, gets, modify, when, within, ◌>>=◌, ◌>>◌}
use arcpi.Fat.Device.{ArcDevice, fat_disk_read, fat_disk_write}

abbrev pub cache_size : ℕ
cache_size = 512 * 3

-- `FAT_STRUCTURE_CONTEXT` with the device of the file id, without the retrieval information of
-- the last file; `cached` is whether `CachedFat` points to the buffer.
pub record Volume (D : Type 0) : Type 0 where
  pub bpb : Bpb
  pub device : D
  pub dirty : Bool
  pub cached : Bool
  pub cached_vbo : ℕ
  pub cache : Memory

module _ {D : Type 0} where
  abbrev pub on_cache : {A : Type 0} → Action (Memory × D) A → Action (Volume D) A
  on_cache = within (λ v. (v.cache, v.device)) (λ x v. record v { cache = x.0; device = x.1 })

  abbrev pub on_device : {A : Type 0} → Action D A → Action (Volume D) A
  on_device = within (λ v. v.device) (λ d v. record v { device = d })

  -- The test that the window has to be turned.
  abbrev pub misses : (vbo : ℕ) → Volume D → Bool
  misses vbo v =
      not v.cached || (ltb vbo v.cached_vbo || ltb (add32 v.cached_vbo cache_size) (add32 vbo 1))

  abbrev pub amount_to_write : Volume D → ℕ
  amount_to_write v =
      if leb (add32 v.cached_vbo cache_size) (bytes_per_fat v.bpb)
      then cache_size
      else sub32 (bytes_per_fat v.bpb) v.cached_vbo

  -- Where copy `i` of the FAT keeps the window.
  abbrev pub window_lbo : (i : ℕ) → Volume D → ℕ
  window_lbo i v =
      add32 (add32 v.cached_vbo (first_fat_area_lbo v.bpb)) (mul32 i (bytes_per_fat v.bpb))

module _ {D : Type 0} (dev : ArcDevice D) where
  -- The loop of `FatFlushFatEntries`, with `n` copies left from copy `i` on.
  unfoldable pub write_copies : (n i amount : ℕ) → Action (Volume D) (Unit {0})
  unfolding fat_disk_write
  write_copies zero i amount = pure tt
  write_copies (suc n) i amount = do
    v ← gets (λ v. v)
    on_device (fat_disk_write dev (window_lbo i v) amount v.cache)
    write_copies n (suc i) amount

  -- `FatFlushFatEntries`
  unfoldable pub flush_fat_entries : Action (Volume D) (Unit {0})
  unfolding write_copies
  flush_fat_entries = do
    v ← gets (λ v. v)
    write_copies v.bpb.fats 0 (amount_to_write v)
    modify (λ v. record v { dirty = false })

  -- The body of the test: the window that holds `vbo` is read in.
  unfoldable pub turn_window : (vbo : ℕ) → Action (Volume D) (Unit {0})
  unfolding flush_fat_entries fat_disk_read
  turn_window vbo = do
    modify (λ v. record v { cached = true })
    v ← gets (λ v. v)
    when v.dirty flush_fat_entries
    modify (λ v. record v { cached_vbo = vbo / cache_size * cache_size })
    v ← gets (λ v. v)
    on_cache (fat_disk_read dev (add32 v.cached_vbo (first_fat_area_lbo v.bpb)) cache_size)

  unfoldable pub map_window : (vbo : ℕ) → Action (Volume D) (Unit {0})
  unfolding turn_window
  map_window vbo = do v ← gets (λ v. v); when (misses vbo v) (turn_window vbo)

  -- `FatLookupFatEntry`
  unfoldable pub lookup_fat_entry : (index : ℕ) → Action (Volume D) ℕ
  unfolding map_window
  lookup_fat_entry index = do
    v ← gets (λ v. v)
    let twelve = is_twelve_bit v.bpb
    let vbo = entry_vbo twelve index
    map_window vbo
    v ← gets (λ v. v)
    let offset = vbo - v.cached_vbo
    pure (decode twelve index (little_word (v.cache offset) (v.cache (offset + 1))))

  -- `FatSetFatEntry`
  unfoldable pub set_fat_entry : (index entry : ℕ) → Action (Volume D) (Unit {0})
  unfolding map_window
  set_fat_entry index entry = do
    v ← gets (λ v. v)
    let twelve = is_twelve_bit v.bpb
    let vbo = entry_vbo twelve index
    map_window vbo
    v ← gets (λ v. v)
    let offset = vbo - v.cached_vbo
    let word = encode twelve index (little_word (v.cache offset) (v.cache (offset + 1))) entry
    modify (λ v. record v { cache = two_bytes offset word v.cache; dirty = true })
