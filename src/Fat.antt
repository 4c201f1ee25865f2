-- ===== src/Fat.antt =====
-- arcfw/ported/fatboot.c: the FAT file system of the loader, with the volume geometry of
-- arcfw/inc/fat.h.
--
-- A USHORT or UCHAR field of the BIOS parameter block is a number; ULONG arithmetic wraps. A
-- FAT_ENTRY is a USHORT. The double-space branches are compiled out (DBLSPACE_LEGAL).
pub mod Action
pub mod Device
pub mod Cache
pub mod Interface
pub mod Cluster
pub mod Volume
pub mod Dirent
pub mod Directory
pub mod Mcb
pub mod Truncate
pub mod Names
mod Tests
pub mod Entry
use arcpi.Base.{
  ℕ, ◌+◌, ◌-◌, ◌*◌, ◌/◌, ◌%◌, ◌^◌, Bool, true, false, ◌&&◌, ltb, leb, ◌==◌, if◌then◌else◌, add32,
  sub32, mul32,
}

-- `BIOS_PARAMETER_BLOCK`
pub record Bpb : Type 0 where
  pub bytes_per_sector : ℕ
  pub sectors_per_cluster : ℕ
  pub reserved_sectors : ℕ
  pub fats : ℕ
  pub root_entries : ℕ
  pub sectors : ℕ
  pub large_sectors : ℕ
  pub sectors_per_fat : ℕ

abbrev pub dirent_size : ℕ
dirent_size = 32

-- `FatBytesPerCluster`, `FatBytesPerFat`, `FatReservedBytes`, `FatFirstFatAreaLbo`
pub bytes_per_cluster : Bpb → ℕ
bytes_per_cluster b = mul32 b.bytes_per_sector b.sectors_per_cluster

pub bytes_per_fat : Bpb → ℕ
bytes_per_fat b = mul32 b.bytes_per_sector b.sectors_per_fat

pub first_fat_area_lbo : Bpb → ℕ
first_fat_area_lbo b = mul32 b.reserved_sectors b.bytes_per_sector

-- `FatRootDirectorySize`, `FatRootDirectoryLbo`, `FatFileAreaLbo`
pub root_directory_size : Bpb → ℕ
root_directory_size b = mul32 b.root_entries dirent_size

pub root_directory_lbo : Bpb → ℕ
unfolding bytes_per_fat
root_directory_lbo b =
    add32 (mul32 b.bytes_per_sector b.reserved_sectors) (mul32 b.fats (bytes_per_fat b))

pub file_area_lbo : Bpb → ℕ
unfolding root_directory_lbo root_directory_size
file_area_lbo b = add32 (root_directory_lbo b) (root_directory_size b)

-- `FatNumberOfClusters` and `FatIndexBitSize(B) == 12`
pub number_of_clusters : Bpb → ℕ
number_of_clusters b =
    sub32 (add32 b.sectors b.large_sectors) (
      add32 (add32 b.reserved_sectors (b.fats * b.sectors_per_fat))
        (b.root_entries * dirent_size / b.bytes_per_sector))
    / b.sectors_per_cluster

pub is_twelve_bit : Bpb → Bool
unfolding number_of_clusters
is_twelve_bit b = ltb (number_of_clusters b) 4087

pub data ClusterType : Type 0 where
  available reserved bad last next : ClusterType

-- `FatInterpretClusterType`, for the two widths of an entry.
unfoldable pub interpret_cluster_type : (twelve : Bool) (entry : ℕ) → ClusterType
interpret_cluster_type true entry =
    let e = entry % 2 ^ 12 in
    if e == 0
    then available
    else if leb 0xff0 e && leb e 0xff6
    then reserved
    else if e == 0xff7
    then bad
    else if leb 0xff8 e && leb e 0xfff
    then last
    else next
interpret_cluster_type false entry =
    let e = entry % 2 ^ 16 in
    if e == 0
    then available
    else if leb 0xfff0 e && leb e 0xfff6
    then reserved
    else if e == 0xfff7
    then bad
    else if leb 0xfff8 e && leb e 0xffff
    then last
    else next

abbrev pub cluster_available : ℕ
cluster_available = 0

abbrev pub cluster_last : ℕ
cluster_last = 0xffff

-- `FatIndexToLbo`
pub index_to_lbo : Bpb → (index : ℕ) → ℕ
unfolding bytes_per_cluster file_area_lbo
index_to_lbo b index = add32 (mul32 (sub32 index 2) (bytes_per_cluster b)) (file_area_lbo b)
