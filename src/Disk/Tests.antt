-- ===== src/Disk/Tests.antt =====
-- The theorems about arcfw/arm/ramdisk.c at a small image.
use arcpi.Base.{
  zero, suc, ◌+◌, ◌*◌, ◌^◌, ◌≤◌, ◌<◌, ◌≡◌, refl, inl, true, false, arith, [], ◌∷◌, if◌then◌else◌,
  ◌==◌, sector_size,
}
use arcpi.Runtime.{Memory}
use arcpi.Disk.{
  Machine, FileEntry, blank_entry, ramdisk, staged, load_address, partition_start, partition_count,
  le32, ramdisk_init, largest_end, read_sectors, ramdisk_read, ramdisk_seek, seek_absolute,
  total_sectors, ramdisk_close, ramdisk_information, entry,
}
use arcpi.Base.{esuccess}
use arcpi.Disk.Partition.{ramdisk_read-partition}
use arcpi.Disk.Read.{Delivered}
use arcpi.Disk.Init.{IsSmall, ramdisk_init-covers}
use arcpi.Disk.Read.{IsImage, IsTarget, IsDevice, ReadAt, read_sectors_wraps, ramdisk_read-ReadAt}

-- One partition, from sector 1 on, of 15 sectors.
abbrev image : Memory
image p =
    if p == load_address + 510
    then 0x55
    else if p == load_address + 511
    then 0xaa
    else if p == load_address + 0x1be + 8
    then 1
    else if p == load_address + 0x1be + 12
    then 15
    else 0

abbrev device : FileEntry
device = record blank_entry {
  is_open = true;
  can_read = true;
  table = ramdisk;
  starting_sector = 1;
  length_low = 7680;
}

abbrev machine : Machine
machine = record {
  memory = image;
  rd_base = load_address;
  rd_bytes = 8192;
  files = blank_entry ∷ blank_entry ∷ device ∷ [];
}

sized : (ramdisk_init staged machine).rd_bytes ≡ 8192
unfolding ramdisk_init largest_end le32
sized = refl

closed_again : (entry 2 (ramdisk_close 2 machine).1).is_open ≡ false
unfolding ramdisk_close
closed_again = refl

byte_length : (ramdisk_information 2 machine).1.ending_low ≡ 15 * sector_size
unfolding ramdisk_information
byte_length = refl

whole_disk : total_sectors machine ≡ 16
unfolding total_sectors
whole_disk = refl

image-IsSmall : IsSmall image load_address
unfolding le32
image-IsSmall zero lt = omega arith
image-IsSmall (suc zero) lt = omega arith
image-IsSmall (suc (suc zero)) lt = omega arith
image-IsSmall (suc (suc (suc zero))) lt = omega arith
image-IsSmall (suc (suc (suc (suc i)))) lt = absurd (omega arith)

used : 0 < partition_count image load_address 0
unfolding le32
used = omega arith

ramdisk_init-covers_example :
    (partition_start image load_address 0 + partition_count image load_address 0) * sector_size
    ≤ (ramdisk_init staged machine).rd_bytes
ramdisk_init-covers_example = ramdisk_init-covers machine 0 refl image-IsSmall (omega arith) used

machine-IsImage : IsImage machine
machine-IsImage = omega arith

low_buffer : IsTarget 0x10000 1024 machine
low_buffer = inl (omega arith)

read_sectors_wraps_example :
    read_sectors (2 ^ 23 + 3) 2 0x10000 machine ≡ read_sectors 3 2 0x10000 machine
read_sectors_wraps_example = read_sectors_wraps 3 2 0x10000 machine

machine-IsDevice : IsDevice 2 512 machine
machine-IsDevice = record { slot = omega arith; base = refl; small = omega arith }

ramdisk_read-ReadAt_example :
    ReadAt 512 100 1024 2 0x10000 machine
      (ramdisk_read 2 0x10000 1024 (ramdisk_seek 2 100 0 seek_absolute machine).1)
ramdisk_read-ReadAt_example =
    ramdisk_read-ReadAt 100 1024 2 0x10000 machine-IsImage machine-IsDevice low_buffer (omega arith)

sized-IsImage : IsImage (ramdisk_init staged machine)
unfolding ramdisk_init largest_end le32
sized-IsImage = omega arith

sized-IsDevice :
    IsDevice 2 (partition_start image load_address 0 * sector_size) (ramdisk_init staged machine)
unfolding ramdisk_init largest_end le32
sized-IsDevice = record { slot = omega arith; base = refl; small = omega arith }

sized-IsTarget : IsTarget 0x10000 1024 (ramdisk_init staged machine)
unfolding ramdisk_init largest_end le32
sized-IsTarget = inl (omega arith)

in_partition : 100 + 1024 ≤ partition_count image load_address 0 * sector_size
unfolding le32
in_partition = omega arith

ramdisk_read-partition_example :
    ((ramdisk_read 2 0x10000 1024
        (ramdisk_seek 2 100 0 seek_absolute (ramdisk_init staged machine)).1).0
      ≡ esuccess)
    × Delivered
        (partition_start image load_address 0 * sector_size + 100)
        1024
        0x10000
        (ramdisk_init staged machine)
        (ramdisk_read 2 0x10000 1024
          (ramdisk_seek 2 100 0 seek_absolute (ramdisk_init staged machine)).1).2.memory
ramdisk_read-partition_example =
    ramdisk_read-partition 0 100 1024 2 0x10000 machine refl image-IsSmall (omega arith) used
      sized-IsDevice sized-IsImage sized-IsTarget in_partition (omega arith)
