-- ===== src/Disk/Partition.antt =====
-- arcfw/arm/ramdisk.c from `RamdiskInit` to `RamdiskRead`: a partition of the image can be read.
use arcpi.Base.{ℕ, ◌+◌, ◌*◌, ◌^◌, ◌≤◌, ◌<◌, ◌≡◌, inl, inr, true, arith, sector_size, esuccess}
use arcpi.Disk.{
  Machine, staged, load_address, has_signature, partition_start, partition_count, ramdisk_init,
  ramdisk_read, ramdisk_seek, seek_absolute,
}
use arcpi.Disk.Init.{IsSmall, ramdisk_init-covers}
use arcpi.Disk.Read.{IsImage, IsTarget, IsDevice, Delivered, ramdisk_read-ReadAt}

-- With a staged image whose partitions end below 4 GiB, every range of bytes of a partition in use
-- can be read through an entry of the file table that stands for it: a seek and a read succeed and
-- deliver these bytes, into a buffer apart from the image, for a start and an end below 2 GiB.
pub ramdisk_read-partition :
    (k offset size fid buffer : ℕ) (m : Machine)
    → has_signature m.memory load_address ≡ true
    → IsSmall m.memory load_address
    → k < 4
    → 0 < partition_count m.memory load_address k
    → IsDevice fid (partition_start m.memory load_address k * sector_size) (ramdisk_init staged m)
    → IsImage (ramdisk_init staged m)
    → IsTarget buffer size (ramdisk_init staged m)
    → offset + size ≤ partition_count m.memory load_address k * sector_size
    → offset + size < 2 ^ 31
    → ((ramdisk_read fid buffer size
          (ramdisk_seek fid offset 0 seek_absolute (ramdisk_init staged m)).1).0
        ≡ esuccess)
      × Delivered
          (partition_start m.memory load_address k * sector_size + offset)
          size
          buffer
          (ramdisk_init staged m)
          (ramdisk_read fid buffer size
            (ramdisk_seek fid offset 0 seek_absolute (ramdisk_init staged m)).1).2.memory
ramdisk_read-partition k offset size fid buffer m signed small lt used device image target inside
      limit =
    let covers = ramdisk_init-covers m k signed small lt used in
    let r = ramdisk_read-ReadAt offset size fid buffer image device target limit in
    elim r.served [
      | inl (full, status, bytes) ↦ (status, bytes)
      | inr (short, status, same) ↦ absurd (omega (arith, covers, short, inside))
    ]
