-- ===== src/Fat/Cache/Stale.antt =====
-- What `FatLookupFatEntry` of arcfw/ported/fatboot.c leaves behind when the disk cannot be read.
use arcpi.Base.{ℕ, ◌+◌, ◌-◌, ◌*◌, ◌/◌, ◌^◌, ◌<◌, ◌≡◌, refl, Bool, true, false, add32, Status, arith}
use arcpi.Runtime.{Memory}
use arcpi.Fat.{first_fat_area_lbo, is_twelve_bit}
use arcpi.Fat.Entry.{entry_vbo, little_word, decode}
use arcpi.Fat.Action.{ok, fail}
use arcpi.Fat.Device.{ArcDevice, fat_disk_read}
use arcpi.Fat.Cache.{Volume, cache_size, misses, lookup_fat_entry, map_window, turn_window}

module _ {D : Type 0} (dev : ArcDevice D) where
  -- The volume after the read of a window has failed with this buffer and device.
  abbrev pub after_failure : (vbo : ℕ) → Memory × D → Volume D → Volume D
  after_failure vbo x v = record v {
    cached = true;
    cached_vbo = vbo / cache_size * cache_size;
    cache = x.0;
    device = x.1;
  }

  hits_after :
      (twelve : Bool) (i j : ℕ) (x : Memory × D) (v : Volume D)
      → i < 2 ^ 16
      → j < 2 ^ 16
      → entry_vbo twelve j / cache_size ≡ entry_vbo twelve i / cache_size
      → misses (entry_vbo twelve j) (after_failure (entry_vbo twelve i) x v) ≡ false
  hits_after true i j x v hi hj e = ground arith
  hits_after false i j x v hi hj e = ground arith

  -- When the window with entry `i` has to be read from the disk and the read fails, the lookup
  -- reports the failure, but marks the window as cached: the next lookup of an entry `j` of that window
  -- succeeds with whatever the buffer holds, without another read.
  pub lookup_fat_entry-stale :
      (i j : ℕ) (v : Volume D) (e : Status) (x : Memory × D)
      → let twelve = is_twelve_bit v.bpb in
        let start = entry_vbo twelve i / cache_size * cache_size in
        let offset = entry_vbo twelve j - start in
        i < 2 ^ 16
        → j < 2 ^ 16
        → entry_vbo twelve j / cache_size ≡ entry_vbo twelve i / cache_size
        → misses (entry_vbo twelve i) v ≡ true
        → v.dirty ≡ false
        → fat_disk_read dev (add32 start (first_fat_area_lbo v.bpb)) cache_size (v.cache, v.device)
          ≡ (fail e, x)
        → let w = after_failure (entry_vbo twelve i) x v in
          (lookup_fat_entry dev i v ≡ (fail e, w))
          × (lookup_fat_entry dev j w
              ≡ (ok (decode twelve j (little_word (x.0 offset) (x.0 (offset + 1)))), w))
  unfolding lookup_fat_entry map_window turn_window
  lookup_fat_entry-stale i j v e x hi hj same out clean bad =
      (rw (out, clean, bad) refl, rw (hits_after (is_twelve_bit v.bpb) i j x v hi hj same) refl)
