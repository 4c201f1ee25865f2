-- ===== src/Fat/Tests/Files/Directories.antt =====
-- The search of arcfw/ported/fatboot.c in a directory of three clusters.
use arcpi.Base.{ℕ, ◌+◌, ◌*◌, ◌≤◌, ◌≡◌, ◌==◌, refl, false, ltb, if◌then◌else◌, [], ◌∷◌, arith}
use arcpi.Runtime.{Memory}
use arcpi.Fat.{
  bytes_per_fat, first_fat_area_lbo, is_twelve_bit, number_of_clusters, interpret_cluster_type,
  index_to_lbo, file_area_lbo, root_directory_lbo, root_directory_size, bytes_per_cluster,
  cluster_available,
}
use arcpi.Fat.Entry.{fat_entry, decode}
use arcpi.Fat.Cache.{Volume}
use arcpi.Fat.Cache.View.{table}
use arcpi.Fat.Volume.{volume_fat, volume_ops, Mounted}
use arcpi.Fat.Directory.{search_for_dirent, is_match, found}
use arcpi.Fat.Directory.Reference.{first_match}
use arcpi.Fat.Directory.Reader.{IsRegion}
use arcpi.Fat.Directory.Search.{IsDirectory, Found, addresses, search_for_dirent-Found}
use arcpi.Fat.Directory.OnVolume.{volume_read, volume_reader}
use arcpi.Fat.Tests.{Store, store_device, store_disk, bytes_of, small_bpb, empty_window}
use arcpi.Fat.Tests.Files.{chain_bytes, chain_bytes-IsBytes, clusters}

-- The first cluster of the directory has entries of one name only, the others of another.
abbrev directory_volume : Volume Store
directory_volume = record empty_window {
  cache = chain_bytes;
  device = (λ p. if ltb p 4096 then 0x41 else 0x42, 0);
}

directory_volume-Mounted : Mounted store_disk small_bpb directory_volume
unfolding bytes_per_fat first_fat_area_lbo
directory_volume-Mounted = record {
  coherent = record {
    mountable = record { room = omega arith; below = omega arith; some_fat = omega arith };
    aligned = λ e. (refl, omega arith);
    cache_bytes = chain_bytes-IsBytes;
    dirty_cached = λ e. refl;
    copies = λ k p lt below out. absurd (ground (arith, out, below));
  };
  bpb_lem = refl;
}

abbrev bytes : Memory
bytes = bytes_of directory_volume.device

abbrev name : Memory
name p = 0x42

-- The search passes the entries of the first cluster and finds the first of the second.
first_match_test : first_match false name bytes (3584 ∷ 4064 ∷ 4096 ∷ []) ≡ found 4096
unfolding first_match is_match
first_match_test = refl

abbrev Region : ℕ → Type 0
Region p =
    IsRegion (volume_fat store_disk small_bpb) (volume_read store_device)
      (volume_reader store_disk small_bpb) 1 p

region : (p : ℕ) → 2048 ≤ p → p + 512 ≤ 64 * 512 → Region p
unfolding volume_fat volume_reader bytes_per_fat first_fat_area_lbo
region p from to = record {
  fits = omega (arith, to);
  stored = λ q lt. (omega (arith, from), omega (arith, lt, to));
}

clusters-IsDirectory :
    IsDirectory
      (volume_fat store_disk small_bpb)
      (volume_read store_device)
      (volume_reader store_disk small_bpb)
      small_bpb
      (table bytes_of directory_volume)
      bytes
      5
      clusters
unfolding volume_fat volume_reader bytes_per_fat first_fat_area_lbo is_twelve_bit number_of_clusters
    interpret_cluster_type fat_entry decode chain_bytes bytes_per_cluster index_to_lbo file_area_lbo
    root_directory_lbo root_directory_size
clusters-IsDirectory = record {
  root = λ e. absurd (omega (arith, e));
  chain = λ ne. (refl, refl, (refl, refl, (refl, refl, refl)));
  in_range = (omega arith, (omega arith, (omega arith, tt)));
  regions = (
    region 3584 (omega arith) (omega arith),
    (region 4096 (omega arith) (omega arith), (region 5120 (omega arith) (omega arith), tt)),
  );
}

search_for_dirent-Found_example :
    Found
      (volume_fat store_disk small_bpb)
      (volume_read store_device)
      (volume_reader store_disk small_bpb)
      small_bpb
      (table bytes_of directory_volume)
      bytes
      (first_match (5 == cluster_available) name bytes (
        addresses
          (volume_fat store_disk small_bpb)
          (volume_read store_device)
          (volume_reader store_disk small_bpb)
          small_bpb
          (table bytes_of directory_volume)
          bytes
          5
          clusters))
      (search_for_dirent
        (volume_ops store_device)
        (volume_read store_device)
        small_bpb
        4
        5
        name
        (λ p. 0))
      directory_volume
unfolding volume_fat volume_reader
search_for_dirent-Found_example =
    search_for_dirent-Found (volume_fat store_disk small_bpb) (volume_read store_device)
      (volume_reader store_disk small_bpb) small_bpb (table bytes_of directory_volume) bytes 4 5
      name clusters (λ p. 0) directory_volume
      (record { good = directory_volume-Mounted; table = λ j r. refl; bytes = λ p st. refl })
      clusters-IsDirectory (omega arith)
