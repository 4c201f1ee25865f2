-- ===== src/Emulator.antt =====
-- arcfw/arm/arcemul.c: the emulated ARC firmware vector, on top of the file table and the disk of
-- arcfw/arm/ramdisk.c.
--
-- Path names are bytes before the NUL. A file id that a routine returns through a pointer is an
-- `Option`. `BlOpen` (arcfw/ported/blio.c) and the entry table of a file system are parameters.
pub mod Vector
pub mod Dispatch
pub mod Names
pub mod Io
pub mod Slots
pub mod Opened
mod Tests
use arcpi.Base.{
  ℕ, zero, suc, ◌+◌, ◌-◌, ◌*◌, ◌^◌, ◌%◌, Bool, true, false, not, ◌&&◌, ◌||◌, List, [], ◌∷◌, Option,
  none, some, ltb, leb, ◌==◌, if◌then◌else◌, length, take, drop, get_or, add32, mul32, sector_size,
  is_nonneg32, ushort, Status, esuccess, eacces, eagain, ebadf, einval, eio, emfile, enametoolong,
  enodev, enoent,
}
use arcpi.Runtime.Strings.{stricmp, is_zero}
use arcpi.Disk.{
  Table, no_table, ramdisk, file_system, FileEntry, blank_entry, Machine, entry, put_entry,
  has_signature, partition_start, partition_count, read_sectors, total_sectors, ramdisk_read,
  ramdisk_seek, ramdisk_close, ramdisk_information, SeekMode, FileInformation,
}

-- "partition("
abbrev pub tag : List ℕ
tag = b'p' ∷ b'a' ∷ b'r' ∷ b't' ∷ b'i' ∷ b't' ∷ b'i' ∷ b'o' ∷ b'n' ∷ b'(' ∷ []

-- The loop over the tag: what follows it, if the name starts with it.
pub after_tag : (tag name : List ℕ) → Option (List ℕ)
after_tag [] cs = some cs
after_tag (t ∷ ts) [] = none
after_tag (t ∷ ts) (c ∷ cs) = let rest = after_tag ts cs in if c == t then rest else none

-- The loop over the digits, with `n` and `got`, and what follows them. An `int` is kept as its bit
-- pattern; its overflow wraps.
pub read_digits : (n : ℕ) (got : Bool) → List ℕ → ℕ × Bool × List ℕ
read_digits n got [] = (n, got, [])
read_digits n got (c ∷ cs) =
    let rest = read_digits (add32 (mul32 n 10) (c - 0x30)) true cs in
    if leb 0x30 c && leb c 0x39 then rest else (n, got, c ∷ cs)

-- The number at one position of the name.
pub number_here : List ℕ → Option ℕ
unfolding after_tag read_digits
number_here cs = elim (after_tag tag cs) [
  | none ↦ none
  | some q ↦
      let r = read_digits 0 false q in if r.1 && get_or r.2 0 0 == 0x29 then some r.0 else none
]

-- `ParsePartitionNumber`; -1 is `none`.
unfoldable pub parse_partition_number : List ℕ → Option ℕ
unfolding number_here
parse_partition_number [] = none
parse_partition_number (c ∷ cs) =
    let rest = parse_partition_number cs in
    elim (number_here (c ∷ cs)) [ none ↦ rest | some n ↦ some n ]

abbrev pub file_table_size : ℕ
file_table_size = 32

abbrev pub boot_fileid : ℕ
boot_fileid = 2

-- The loops of `AEDeviceOpen` over the file table, `n` rounds from slot `fid` on: an open ramdisk
-- device with the same first sector, and a slot that is not open.
abbrev pub is_device : (start : ℕ) → FileEntry → Bool
is_device start e =
    e.is_open
    && (elim e.table as (λ t. Bool) [ ramdisk ↦ true | no_table ↦ false | file_system ↦ false ])
    && e.starting_sector == start

pub find_device : (n fid start : ℕ) → Machine → Option ℕ
find_device zero fid start m = none
find_device (suc n) fid start m =
    let rest = find_device n (suc fid) start m in
    if is_device start (entry fid m) then some fid else rest

pub find_closed : (n fid : ℕ) → Machine → Option ℕ
find_closed zero fid m = none
find_closed (suc n) fid m =
    let rest = find_closed n (suc fid) m in if not (entry fid m).is_open then some fid else rest

-- The entry of a device that is opened anew.
abbrev pub device_entry : (start count : ℕ) → FileEntry
device_entry start count = record blank_entry {
  is_open = true;
  can_read = true;
  table = ramdisk;
  starting_sector = start;
  length_low = mul32 count sector_size;
}

-- The second half of `AEDeviceOpen`: reuse, or allocate.
unfoldable pub open_slot : (start count : ℕ) → Machine → Status × Option ℕ × Machine
unfolding find_device find_closed
open_slot start count m =
    let rounds = file_table_size - boot_fileid in
    elim (find_device rounds boot_fileid start m) [
      | some fid ↦ (esuccess, some fid, m)
      | none ↦ elim (find_closed rounds boot_fileid m) [
        | none ↦ (emfile, none, m)
        | some fid ↦ (esuccess, some fid, put_entry fid (device_entry start count) m)
      ]
    ]

-- The first sector and the number of sectors of partition `part`, from the boot record that was
-- read to `mbr`.
unfoldable pub locate : (part mbr : ℕ) → Machine → Status × ℕ × ℕ
locate part mbr m =
    let start = partition_start m.memory mbr (part - 1) in
    let count = partition_count m.memory mbr (part - 1) in
    if not (has_signature m.memory mbr)
    then (eio, 0, 0)
    else if ltb 4 part
    then (enodev, 0, 0)
    else if count == 0
    then (enodev, 0, 0)
    else (esuccess, start, count)

unfoldable pub after_locate : Status × ℕ × ℕ → Machine → Status × Option ℕ × Machine
unfolding open_slot
after_locate (esuccess, start, count) m = open_slot start count m
after_locate (status, _, _) m = (status, none, m)

unfoldable pub after_read : (part mbr : ℕ) → Status × Machine → Status × Option ℕ × Machine
unfolding locate after_locate
after_read part mbr (esuccess, m) = after_locate (locate part mbr m) m
after_read part mbr (status, m) = (status, none, m)

-- `AEDeviceOpen`, with the address of its local `mbr`.
unfoldable pub device_open : (mbr : ℕ) → List ℕ → Machine → Status × Option ℕ × Machine
unfolding parse_partition_number open_slot after_read
device_open mbr device m = elim (parse_partition_number device) [
  | none ↦ (enodev, none, m)
  | some part ↦
      if not (is_nonneg32 part)
      then (enodev, none, m)
      else if part == 0
      then open_slot 0 (total_sectors m) m
      else after_read part mbr (read_sectors 0 1 mbr m)
]
