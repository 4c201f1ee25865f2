-- ===== src/Disk.antt =====
-- arcfw/arm/ramdisk.c: the disk image in memory as a block device.
--
-- The device's state is an entry of the file table (`BL_FILE_TABLE` of arcfw/inc/bldr.h), and a
-- `Machine` is the memory, the image that `RamdiskInit` found, and the table. An address and every
-- ULONG wrap at 2^32. The bytes of memory are below 256, so that `|` of shifted bytes is `+`.
pub mod Init
pub mod Read
pub mod Partition
mod Tests
use arcpi.Base.{
  ℕ, zero, suc, ◌+◌, ◌*◌, ◌/◌, ◌^◌, Bool, true, false, not, ◌&&◌, List, ltb, ◌==◌, if◌then◌else◌,
  get_or, set, add32, sub32, mul32, sector_size, Status, esuccess, eio,
}
use arcpi.Runtime.{Memory, memcpy}

-- Which `BL_DEVICE_ENTRY_TABLE` an entry points to: none, `RamdiskEntryTable`, or the one of a
-- file system.
pub data Table : Type 0 where
  no_table ramdisk file_system : Table

pub record FileEntry : Type 0 where
  pub is_open : Bool
  pub can_read : Bool
  pub can_write : Bool
  pub table : Table
  pub starting_sector : ℕ
  pub length_low : ℕ
  pub length_high : ℕ
  pub position_low : ℕ
  pub position_high : ℕ

-- An entry after `memset(..., 0, ...)`.
abbrev pub blank_entry : FileEntry
blank_entry = record {
  is_open = false;
  can_read = false;
  can_write = false;
  table = no_table;
  starting_sector = 0;
  length_low = 0;
  length_high = 0;
  position_low = 0;
  position_high = 0;
}

pub record Machine : Type 0 where
  pub memory : Memory
  pub rd_base : ℕ
  pub rd_bytes : ℕ
  pub files : List FileEntry

-- `BlFileTable[fid]`, read and written.
abbrev pub entry : ℕ → Machine → FileEntry
entry fid m = get_or m.files fid blank_entry

abbrev pub put_entry : ℕ → FileEntry → Machine → Machine
put_entry fid e m = record m { files = set m.files fid e }

-- `le32`
unfoldable pub le32 : Memory → ℕ → ℕ
le32 m p = m p + m (p + 1) * 2 ^ 8 + m (p + 2) * 2 ^ 16 + m (p + 3) * 2 ^ 24

-- The partition entry `i` of the boot record at `p`, and its two fields.
abbrev pub partition_entry : (p i : ℕ) → ℕ
partition_entry p i = p + 0x1be + i * 16

abbrev pub partition_start : Memory → (p i : ℕ) → ℕ
partition_start m p i = le32 m (partition_entry p i + 8)

abbrev pub partition_count : Memory → (p i : ℕ) → ℕ
partition_count m p i = le32 m (partition_entry p i + 12)

abbrev pub has_signature : Memory → ℕ → Bool
has_signature m p = m (p + 510) == 0x55 && m (p + 511) == 0xaa

-- The loop of `RamdiskInit`: `n` entries from entry `i` on.
pub largest_end : (n i : ℕ) → Memory → (p largest : ℕ) → ℕ
unfolding le32
largest_end zero i m p largest = largest
largest_end (suc n) i m p largest =
    let end = add32 (partition_start m p i) (partition_count m p i) in
    largest_end n (suc i) m p
      (if not (partition_count m p i == 0) && ltb largest end then end else largest)

-- The two builds: an image linked into the loader, or one that the firmware has staged at
-- `RAMDISK_LOAD_ADDR`.
pub data Image : Type 0 where
  embedded : (start end : ℕ) → Image
  staged : Image

abbrev pub load_address : ℕ
load_address = 0x00800000

-- `RamdiskInit`
unfoldable pub ramdisk_init : Image → Machine → Machine
unfolding largest_end
ramdisk_init (embedded start end) m = record m { rd_base = start; rd_bytes = sub32 end start }
ramdisk_init staged m = record m {
  rd_base = load_address;
  rd_bytes =
      if has_signature m.memory load_address
      then mul32 (largest_end 4 0 m.memory load_address 0) sector_size
      else 0;
}

-- `RamdiskReadSectors`
unfoldable pub read_sectors : (lba count buffer : ℕ) → Machine → Status × Machine
read_sectors lba count buffer m =
    let offset = mul32 lba sector_size in
    let bytes = mul32 count sector_size in
    if ltb m.rd_bytes (add32 offset bytes)
    then (eio, m)
    else (esuccess, record m { memory = memcpy buffer (add32 m.rd_base offset) bytes m.memory })

-- `RamdiskTotalSectors`
unfoldable pub total_sectors : Machine → ℕ
total_sectors m = m.rd_bytes / sector_size

-- `RamdiskRead`: the status, the count, and the machine.
unfoldable pub ramdisk_read : (fid buffer length : ℕ) → Machine → Status × ℕ × Machine
ramdisk_read fid buffer length m =
    let f = entry fid m in
    let part = mul32 f.starting_sector sector_size in
    let pos = f.position_low in
    if ltb m.rd_bytes (add32 (add32 part pos) length) then (eio, 0, m) else (
      esuccess,
      length,
      put_entry fid (record f { position_low = add32 pos length })
          (record m { memory = memcpy buffer (add32 (add32 m.rd_base part) pos) length m.memory }),
    )

pub data SeekMode : Type 0 where
  seek_absolute seek_relative : SeekMode

-- `RamdiskSeek`, with the two halves of the offset.
unfoldable pub ramdisk_seek : (fid low high : ℕ) → SeekMode → Machine → Status × Machine
ramdisk_seek fid low high seek_relative m =
    let f = entry fid m in
    (esuccess, put_entry fid (record f { position_low = add32 f.position_low low }) m)
ramdisk_seek fid low high seek_absolute m =
    let f = entry fid m in
    (esuccess, put_entry fid (record f { position_low = low; position_high = high }) m)

-- `RamdiskClose`
unfoldable pub ramdisk_close : (fid : ℕ) → Machine → Status × Machine
ramdisk_close fid m =
    let f = entry fid m in (esuccess, put_entry fid (record f { is_open = false }) m)

-- The part of `FILE_INFORMATION` that is not zero.
pub record FileInformation : Type 0 where
  pub ending_low : ℕ
  pub ending_high : ℕ
  pub current_low : ℕ
  pub current_high : ℕ

-- `RamdiskGetFileInformation`
unfoldable pub ramdisk_information : (fid : ℕ) → Machine → Status × FileInformation
ramdisk_information fid m =
    let f = entry fid m in
    (
      esuccess,
      record {
        ending_low = f.length_low;
        ending_high = f.length_high;
        current_low = f.position_low;
        current_high = f.position_high;
      },
    )
