-- ===== src/Fat/Tests/Files.antt =====
-- The routines of arcfw/ported/fatboot.c on a file of three clusters.
mod Directories
use arcpi.Base.{
  ℕ, zero, suc, ◌+◌, ◌-◌, ◌^◌, ◌<◌, ◌≤◌, ◌≡◌, refl, true, ◌==◌, if◌then◌else◌, List, [], ◌∷◌, arith,
}
use arcpi.Runtime.{Memory}
use arcpi.Fat.{
  bytes_per_fat, first_fat_area_lbo, is_twelve_bit, number_of_clusters, interpret_cluster_type,
  index_to_lbo, file_area_lbo, root_directory_lbo, root_directory_size, bytes_per_cluster,
}
use arcpi.Fat.Action.{Result, ok}
use arcpi.Fat.Dirent.{FatFile, TimeFields}
use arcpi.Fat.Entry.{IsBytes, fat_entry, put_fat_entry, put_fat_entry-IsBytes, encode, decode}
use arcpi.Fat.Cache.{Volume}
use arcpi.Fat.Cache.View.{table}
use arcpi.Fat.Cluster.{is_next}
use arcpi.Fat.Mcb.{FileMap, vbo_to_lbo}
use arcpi.Fat.Mcb.Position.{IsAddressable}
use arcpi.Fat.Mcb.Load.{nth}
use arcpi.Fat.Mcb.Lookup.{Answered, vbo_to_lbo-Answered}
use arcpi.Fat.Truncate.{OpenFile, truncate_file, increase_file}
use arcpi.Fat.Truncate.Needed.{Needs, IsSize}
use arcpi.Fat.Truncate.Grown.{GrowthOutcome, increase_file-Outcome}
use arcpi.Fat.Truncate.Freed.{IsFile, Shortened, truncate_file-Shortened}
use arcpi.Fat.Volume.{volume_fat, volume_ops, Mounted}
use arcpi.Fat.Tests.{
  Store, store_device, store_disk, bytes_of, small_bpb, empty_window, small-Fits, small-Usable,
}

abbrev chain_bytes : Memory
unfolding put_fat_entry encode
chain_bytes = put_fat_entry true 8 0xfff (put_fat_entry true 6 8 (put_fat_entry true 5 6 (λ p. 0)))

chain_bytes-IsBytes : IsBytes chain_bytes
unfolding put_fat_entry encode
chain_bytes-IsBytes =
    put_fat_entry-IsBytes true 8 0xfff _
      (put_fat_entry-IsBytes true 6 8 _
        (put_fat_entry-IsBytes true 5 6 (λ p. 0) (λ p. omega arith) (omega arith)) (omega arith))
      (omega arith)

abbrev chain_volume : Volume Store
chain_volume = record empty_window { cache = chain_bytes }

chain_volume-Mounted : Mounted store_disk small_bpb chain_volume
unfolding bytes_per_fat first_fat_area_lbo
chain_volume-Mounted = record {
  coherent = record {
    mountable = record { room = omega arith; below = omega arith; some_fat = omega arith };
    aligned = λ e. (refl, omega arith);
    cache_bytes = chain_bytes-IsBytes;
    dirty_cached = λ e. refl;
    copies = λ k p lt below out. absurd (ground (arith, out, below));
  };
  bpb_lem = refl;
}

abbrev clusters : List ℕ
clusters = 5 ∷ 6 ∷ 8 ∷ []

abbrev chain_file : FatFile
chain_file = record { dirent_lbo = 1536; dirent = λ p. if p == 26 then 5 else 0 }

chain_file-IsFile :
    IsFile
      (volume_fat store_disk small_bpb)
      small_bpb
      clusters
      (table bytes_of chain_volume)
      chain_file
unfolding volume_fat bytes_per_fat first_fat_area_lbo is_twelve_bit number_of_clusters
    interpret_cluster_type fat_entry decode chain_bytes
chain_file-IsFile = record {
  chain = (refl, refl, (refl, refl, (refl, refl, refl)));
  in_range = (omega arith, (omega arith, (omega arith, tt)));
  distinct = ((omega arith, (omega arith, tt)), ((omega arith, tt), (tt, tt)));
  place = (omega arith, omega arith);
  not_root = omega arith;
  bytes = λ p. ground arith;
}

abbrev noon : TimeFields
noon = record { year = 1996; month = 7; day = 5; hour = 12; minute = 0; second = 0 }

small-IsSize : (n : ℕ) → n < 2 ^ 16 → IsSize small_bpb n
unfolding bytes_per_cluster
small-IsSize n lt = record { some_byte = omega arith; fits = omega (arith, lt) }

truncate_file-Shortened_example :
    (n : ℕ) × Needs small_bpb 600 n
    × (y : OpenFile (Volume Store)) × (truncate_file
          (volume_ops store_device)
          small_bpb
          noon
          9
          600
          (record { file = chain_file; fat = chain_volume })
        ≡ (ok tt, y))
    × Shortened
        (volume_fat store_disk small_bpb)
        small_bpb
        n
        clusters
        (table bytes_of chain_volume)
        (record { file = chain_file; fat = chain_volume })
        y
unfolding volume_fat bytes_per_cluster is_twelve_bit number_of_clusters interpret_cluster_type
truncate_file-Shortened_example =
    truncate_file-Shortened (volume_fat store_disk small_bpb) small_bpb noon 9 600
      (record { file = chain_file; fat = chain_volume }) clusters (small-IsSize 600 (omega arith))
      chain_file-IsFile chain_volume-Mounted (omega arith) refl

-- The runs of another file are in memory.
abbrev other_map : FileMap (Volume Store)
other_map = record {
  file_id = 3;
  mcb = record { in_use = 0; vbo = λ i. 0; lbo = λ i. 0 };
  fat = chain_volume;
}

clusters_fit :
    (k : ℕ) → k < 3 → index_to_lbo small_bpb (nth clusters k) + bytes_per_cluster small_bpb < 2 ^ 32
unfolding bytes_per_cluster index_to_lbo file_area_lbo root_directory_lbo root_directory_size
    bytes_per_fat
clusters_fit zero lt = omega arith
clusters_fit (suc zero) lt = omega arith
clusters_fit (suc (suc zero)) lt = omega arith
clusters_fit (suc (suc (suc k))) lt = absurd (omega (arith, lt))

clusters-IsAddressable : IsAddressable small_bpb clusters
unfolding bytes_per_cluster index_to_lbo file_area_lbo root_directory_lbo root_directory_size
    bytes_per_fat
clusters-IsAddressable = record {
  some_byte = omega arith;
  file_end = omega arith;
  disk_end = clusters_fit;
}

vbo_to_lbo-Answered_example :
    (r : ℕ × ℕ) × (y : FileMap (Volume Store)) × (vbo_to_lbo
        (volume_ops store_device)
        small_bpb
        9
        2
        chain_file
        1100
        other_map
      ≡ (ok r, y))
    × Answered
        (volume_fat store_disk small_bpb)
        small_bpb
        (table bytes_of chain_volume)
        clusters
        2
        1100
        r
        y
unfolding volume_fat bytes_per_cluster
vbo_to_lbo-Answered_example =
    vbo_to_lbo-Answered (volume_fat store_disk small_bpb) small_bpb (table bytes_of chain_volume)
      clusters 9 2 1100 chain_file other_map chain_file-IsFile.chain chain_file-IsFile.in_range
      clusters-IsAddressable (record { good = chain_volume-Mounted; same = λ j r. refl })
      (λ e. absurd (omega (arith, e))) (omega arith) (omega arith) (omega arith)

small_numbers : (q : ℕ) → 2 ≤ q → q < 62 → is_next small_bpb q ≡ true
unfolding is_twelve_bit number_of_clusters interpret_cluster_type
small_numbers q a z = ground (arith, a, z)

increase_file-Outcome_example :
    (n : ℕ) × Needs small_bpb 2300 n
    × (r : Result (Unit {0})) × (y : OpenFile (Volume Store)) × (increase_file
          (volume_ops store_device)
          small_bpb
          2300
          (record { file = chain_file; fat = chain_volume })
        ≡ (r, y))
    × GrowthOutcome
        (volume_fat store_disk small_bpb)
        small_bpb
        clusters
        (n - 3)
        (record { file = chain_file; fat = chain_volume })
        y
        r
unfolding volume_fat bytes_per_cluster is_twelve_bit number_of_clusters interpret_cluster_type
    fat_entry decode chain_bytes
increase_file-Outcome_example =
    increase_file-Outcome (volume_fat store_disk small_bpb) small_bpb 2300
      (record { file = chain_file; fat = chain_volume }) clusters (small-IsSize 2300 (omega arith))
      (record {
        file = chain_file-IsFile;
        numbered = (
          (omega arith, omega arith),
          ((omega arith, omega arith), ((omega arith, omega arith), tt)),
        );
        used = (refl, (refl, (refl, tt)));
        none = λ e. absurd cc;
      })
      chain_volume-Mounted small-Fits (λ q a z. (small-Usable q a z, small_numbers q a z)) refl
