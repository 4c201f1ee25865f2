-- ===== src/Fat/Tests.antt =====
-- The routines of arcfw/ported/fatboot.c on a small disk.
mod Files
use arcpi.Base.{
  ℕ, zero, suc, ◌+◌, ◌-◌, ◌*◌, ◌/◌, ◌%◌, ◌^◌, ◌≤◌, ◌<◌, ◌≡◌, refl, Bool, true, false, leb,
  if◌then◌else◌, arith, Status, esuccess, enospc, List, [], ◌∷◌, eio, enospc, List, [], ◌∷◌,
}
use arcpi.Runtime.{Memory}
use arcpi.Fat.{
  Bpb, bytes_per_fat, first_fat_area_lbo, is_twelve_bit, number_of_clusters, interpret_cluster_type,
  index_to_lbo, file_area_lbo, root_directory_lbo, root_directory_size, bytes_per_cluster,
}
use arcpi.Fat.Action.{Result, ok, fail}
use arcpi.Fat.Entry.{fat_entry, put_fat_entry, entry_limit, fat_entry-put, decode}
use arcpi.Fat.Device.{ArcDevice, IsDisk, overwritten, fetched, fat_disk_read}
use arcpi.Fat.Cache.{Volume, flush_fat_entries, lookup_fat_entry, set_fat_entry}
use arcpi.Fat.Cache.View.{IsMountable, Coherent, InFat, table}
use arcpi.Fat.Cache.Flush.{Flushed, flushed, flush_fat_entries-Flushed}
use arcpi.Fat.Cache.Table.{SameFat, Updated, lookup_fat_entry-SameFat, set_fat_entry-Updated}
use arcpi.Fat.Cache.Stale.{after_failure, lookup_fat_entry-stale}
use arcpi.Fat.Cluster.{allocate_clusters}
use arcpi.Fat.Cluster.Loop.{Usable}
use arcpi.Fat.Cluster.Probes.{Allocated, Fits, AllocationOutcome, allocate_clusters-Outcome}
use arcpi.Fat.Names.{first_component, arc_name}
use arcpi.Fat.Names.RoundTrip.{arc_name-first_component}
use arcpi.Fat.Cluster.LastRound.{allocate_clusters-last_round}
use arcpi.Fat.Volume.{volume_fat, volume_ops, Mounted}

-- A disk of 64 sectors in memory, and the position of the last seek.
abbrev Store : Type 0
Store = Memory × ℕ

abbrev store_size : ℕ
store_size = 64 * 512

abbrev bytes_of : Store → Memory
bytes_of d p = d.0 p % 2 ^ 8

abbrev store_device : ArcDevice Store
store_device = record {
  seek = λ lbo d. (esuccess, (d.0, lbo));
  read = λ n x.
      if leb (x.1.1 + n) store_size
      then (esuccess, n, (fetched x.1.1 n (bytes_of x.1) x.0, (x.1.0, x.1.1 + n)))
      else (eio, 0, x);
  write = λ n b d.
      if leb (d.1 + n) store_size
      then (esuccess, n, (overwritten d.1 n b d.0, d.1 + n))
      else (eio, 0, d);
}

store_read_lem :
    (n : ℕ) (b : Memory) (d : Store)
    → d.1 + n ≤ store_size
    → store_device.read n (b, d) ≡ (esuccess, n, (fetched d.1 n (bytes_of d) b, (d.0, d.1 + n)))
store_read_lem n b d h = ground (arith, h)

store_write_lem :
    (n : ℕ) (b : Memory) (d : Store)
    → d.1 + n ≤ store_size
    → store_device.write n b d ≡ (esuccess, n, (overwritten d.1 n b d.0, d.1 + n))
store_write_lem n b d h = ground (arith, h)

overwritten_bytes :
    (n : ℕ) (b : Memory) (d : Store) (p : ℕ)
    → b (p - d.1) < 2 ^ 8
    → overwritten d.1 n b d.0 p % 2 ^ 8 ≡ overwritten d.1 n b (bytes_of d) p
overwritten_bytes n b d p h = ground (arith, h)

bytes_of-lt : (d : Store) (p : ℕ) → bytes_of d p < 2 ^ 8
bytes_of-lt d p = omega arith

abbrev store_disk : IsDisk store_device
store_disk = record {
  size = store_size;
  contents = bytes_of;
  position = λ d. d.1;
  byte_lem = bytes_of-lt;
  seek_lem = λ lbo d h. ((d.0, lbo), refl, refl, λ p. refl);
  read_lem = λ n b d h.
      (fetched d.1 n (bytes_of d) b, (d.0, d.1 + n), store_read_lem n b d h, λ p. refl, λ p. refl);
  write_lem = λ n b d h bytes. (
    (overwritten d.1 n b d.0, d.1 + n),
    store_write_lem n b d h,
    λ p. overwritten_bytes n b d p (bytes (p - d.1)),
  );
}

abbrev small_bpb : Bpb
small_bpb = record {
  bytes_per_sector = 512;
  sectors_per_cluster = 1;
  reserved_sectors = 1;
  fats = 2;
  root_entries = 16;
  sectors = 64;
  large_sectors = 0;
  sectors_per_fat = 1;
}

-- An empty volume that has just been mounted.
abbrev empty_volume : Volume Store
empty_volume = record {
  bpb = small_bpb;
  device = (λ p. 0, 0);
  dirty = false;
  cached = false;
  cached_vbo = 0;
  cache = λ p. 0;
}

empty_volume-Coherent : Coherent store_disk empty_volume
unfolding bytes_per_fat first_fat_area_lbo
empty_volume-Coherent = record {
  mountable = record { room = omega arith; below = omega arith; some_fat = omega arith };
  aligned = λ e. absurd cc;
  cache_bytes = λ p. omega arith;
  dirty_cached = λ e. absurd cc;
  copies = λ k p lt below _. refl;
}

abbrev empty_window : Volume Store
empty_window = record empty_volume { cached = true; dirty = true; cache = λ p. p % 2 ^ 8 }

empty_window-Coherent : Coherent store_disk empty_window
unfolding bytes_per_fat first_fat_area_lbo
empty_window-Coherent = record {
  mountable = record { room = omega arith; below = omega arith; some_fat = omega arith };
  aligned = λ e. (refl, omega arith);
  cache_bytes = λ p. omega arith;
  dirty_cached = λ e. refl;
  copies = λ k p lt below out. absurd (ground (arith, out, below));
}

small-InFat : (i : ℕ) → i < 300 → InFat small_bpb i
unfolding bytes_per_fat is_twelve_bit number_of_clusters
small-InFat i lt = omega (arith, lt)

fat_entry-put_example :
    fat_entry true 4 (put_fat_entry true 5 0xabcd (λ p. p % 2 ^ 8))
    ≡ fat_entry true 4 (λ p. p % 2 ^ 8)
fat_entry-put_example =
    fat_entry-put true 5 4 0xabcd (λ p. p % 2 ^ 8) (λ p. omega arith) (omega arith)

flush_fat_entries-Flushed_example :
    (d : Store) × (flush_fat_entries store_device empty_window
      ≡ (ok tt, flushed store_disk empty_window d))
    × Flushed store_disk empty_window d
flush_fat_entries-Flushed_example =
    flush_fat_entries-Flushed store_disk empty_window empty_window-Coherent refl

lookup_fat_entry-SameFat_example :
    (w : Volume Store) × (lookup_fat_entry store_device 5 empty_window
      ≡ (ok (table bytes_of empty_window 5), w))
    × SameFat store_disk empty_window w
lookup_fat_entry-SameFat_example =
    lookup_fat_entry-SameFat store_disk 5 empty_window empty_window-Coherent
      (small-InFat 5 (omega arith))

set_fat_entry-Updated_example :
    (w : Volume Store) × (set_fat_entry store_device 7 0xfff empty_window ≡ (ok tt, w))
    × Updated store_disk 7 0xfff empty_window w
set_fat_entry-Updated_example =
    set_fat_entry-Updated store_disk 7 0xfff empty_window empty_window-Coherent
      (small-InFat 7 (omega arith)) (omega arith)

-- A device whose reads fail with the buffer half filled.
abbrev broken_device : ArcDevice Store
broken_device = record store_device { read = λ n x. (eio, 0, ((λ p. 0xff), x.1)) }

lookup_fat_entry-stale_example :
    (lookup_fat_entry broken_device 5 empty_volume
      ≡ (fail eio, after_failure broken_device 7 ((λ p. 0xff), (λ p. 0, 512)) empty_volume))
    × (lookup_fat_entry broken_device 6
          (after_failure broken_device 7 ((λ p. 0xff), (λ p. 0, 512)) empty_volume)
        ≡ (ok 0xfff, after_failure broken_device 7 ((λ p. 0xff), (λ p. 0, 512)) empty_volume))
unfolding is_twelve_bit number_of_clusters fat_disk_read first_fat_area_lbo decode
lookup_fat_entry-stale_example =
    lookup_fat_entry-stale broken_device 5 6 empty_volume eio ((λ p. 0xff), (λ p. 0, 512))
      (omega arith) (omega arith) refl refl refl refl

small_area :
    (q : ℕ)
    → 2 ≤ q
    → q < 62
    → (1536 ≤ index_to_lbo small_bpb q) × (index_to_lbo small_bpb q + 512 ≤ 32768)
unfolding index_to_lbo file_area_lbo root_directory_lbo root_directory_size bytes_per_cluster
    bytes_per_fat
small_area q from to = (omega (arith, from, to), omega (arith, from, to))

small-Usable :
    (q : ℕ)
    → 2 ≤ q
    → q < number_of_clusters small_bpb + 2
    → Usable (volume_fat store_disk small_bpb) small_bpb q
unfolding number_of_clusters volume_fat index_to_lbo file_area_lbo root_directory_lbo
    root_directory_size bytes_per_cluster bytes_per_fat first_fat_area_lbo is_twelve_bit
small-Usable q from to = record {
  in_range = omega arith;
  nonzero = omega arith;
  below = omega arith;
  clearable = (small_area q from to, tt);
}

small-Fits : Fits small_bpb (2 ^ 12)
unfolding number_of_clusters
small-Fits = record { some_cluster = omega arith; numbered = omega arith; small = omega arith }

allocate_clusters-Outcome_example :
    (r : Result ℕ) × (w : Volume Store) × (allocate_clusters
        (volume_ops store_device)
        small_bpb
        3
        2
        0
        empty_volume
      ≡ (r, w))
    × Mounted store_disk small_bpb w
    × AllocationOutcome (volume_fat store_disk small_bpb) small_bpb empty_volume w 3 2 r
unfolding volume_fat is_twelve_bit
allocate_clusters-Outcome_example =
    allocate_clusters-Outcome (volume_fat store_disk small_bpb) small_bpb 3 2 0 empty_volume
      (omega arith) (omega arith) (omega arith) small-Fits
      (record { coherent = empty_volume-Coherent; bpb_lem = refl }) small-Usable

-- Every cluster of an empty volume is available, so that the last one is found in the last round.
allocate_clusters-last_round_example :
    (cs : List ℕ) × (w : Volume Store) × (allocate_clusters
        (volume_ops store_device)
        small_bpb
        60
        2
        0
        empty_volume
      ≡ (fail enospc, w))
    × Allocated (volume_fat store_disk small_bpb) small_bpb empty_volume w 60 cs
unfolding volume_fat is_twelve_bit number_of_clusters interpret_cluster_type fat_entry decode
allocate_clusters-last_round_example =
    allocate_clusters-last_round (volume_fat store_disk small_bpb) small_bpb 60 2 0 empty_volume
      (omega arith) (omega arith) small-Fits
      (record { coherent = empty_volume-Coherent; bpb_lem = refl }) small-Usable refl refl

-- bo.e\x, which is left at the backslash.
arc_name-first_component_example :
    (arc_name (first_component (0x62 ∷ 0x6f ∷ 0x2e ∷ 0x65 ∷ 0x5c ∷ 0x78 ∷ [])).0
      ≡ 0x42 ∷ 0x4f ∷ 0x2e ∷ 0x45 ∷ [])
    × ((first_component (0x62 ∷ 0x6f ∷ 0x2e ∷ 0x65 ∷ 0x5c ∷ 0x78 ∷ [])).1 ≡ 0x5c ∷ 0x78 ∷ [])
arc_name-first_component_example =
    arc_name-first_component 0x62 (0x6f ∷ []) (0x65 ∷ []) (0x5c ∷ 0x78 ∷ [])
      ((omega arith, omega arith, omega arith), ((omega arith, omega arith, omega arith), tt))
      ((omega arith, omega arith, omega arith), tt) (omega arith) (omega arith) refl (omega arith)
