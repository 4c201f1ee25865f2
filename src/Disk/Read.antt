-- ===== src/Disk/Read.antt =====
-- The reads of arcfw/arm/ramdisk.c.
use arcpi.Base.{
  ap, Bool-cases, ◌⊎◌, inl, inr, ◌∙◌, ℕ, ◌+◌, ◌-◌, ◌*◌, ◌^◌, ◌≤◌, ◌<◌, ◌≡◌, refl, true, false,
  arith, ltb, leb, if◌then◌else◌, add32, mul32, word, sector_size, length, get_or, set,
  get_or-set_self, length-set, Status, esuccess, eio,
}
use arcpi.Runtime.{Memory, memcpy}
use arcpi.Runtime.Copy.{in_block, memcpy-moved}
use arcpi.Disk.{
  Machine, FileEntry, entry, blank_entry, read_sectors, ramdisk_read, ramdisk_seek, seek_absolute,
}

-- The image lies in the 32-bit address space.
abbrev pub IsImage : Machine → Type 0
IsImage m = m.rd_base + m.rd_bytes < word

-- A buffer of `n` bytes that the image does not overlap.
abbrev pub IsTarget : (buffer n : ℕ) → Machine → Type 0
IsTarget buffer n m = (buffer + n ≤ m.rd_base) ⊎ (m.rd_base + m.rd_bytes ≤ buffer)

-- `n` bytes of the image from byte `from` on are in the buffer, and no other byte has changed.
abbrev pub Delivered : (from n buffer : ℕ) → Machine → Memory → Type 0
Delivered from n buffer m after =
    (p : ℕ)
    → after p
      ≡ (if in_block p buffer n then m.memory (m.rd_base + from + (p - buffer)) else m.memory p)

copy_out :
    (m : Machine) (from n buffer : ℕ) {source : ℕ}
    → IsTarget buffer n m
    → from + n ≤ m.rd_bytes
    → source ≡ m.rd_base + from
    → Delivered from n buffer m (memcpy buffer source n m.memory)
copy_out m from n buffer t h e p =
    rw e (memcpy-moved buffer (m.rd_base + from) n m.memory p (apart t))
  where
    apart : IsTarget buffer n m → (buffer + n ≤ m.rd_base + from) ⊎ (m.rd_base + from + n ≤ buffer)
    apart (inl l) = inl (omega arith)
    apart (inr r) = inr (omega arith)

-- Either `size` bytes from byte `from` on were delivered with ESUCCESS, or they are not all in the
-- image: then the status is EIO and memory is as before.
abbrev pub Served : (from size buffer : ℕ) → Machine → Status → Memory → Type 0
Served from size buffer m status after =
    ((from + size ≤ m.rd_bytes) × (status ≡ esuccess) × Delivered from size buffer m after)
    ⊎ ((m.rd_bytes < from + size) × (status ≡ eio) × (after ≡ m.memory))

-- `RamdiskReadSectors` delivers the sectors, or answers EIO and changes nothing if the image ends
-- before them, into a buffer apart from the image, as long as the byte numbers fit a ULONG.
pub read_sectors-Served :
    (lba count buffer : ℕ) (m : Machine)
    → IsImage m
    → IsTarget buffer (count * sector_size) m
    → (lba + count) * sector_size < word
    → Served
        (lba * sector_size)
        (count * sector_size)
        buffer
        m
        (read_sectors lba count buffer m).0
        (read_sectors lba count buffer m).1.memory
unfolding read_sectors
read_sectors-Served lba count buffer m i t small =
    let offset : mul32 lba sector_size ≡ lba * sector_size = omega arith in
    let bytes : mul32 count sector_size ≡ count * sector_size = omega arith in
    let end : add32 (lba * sector_size) (count * sector_size)
        ≡ lba * sector_size + count * sector_size =
      omega arith in
    elim (Bool-cases (ltb m.rd_bytes (lba * sector_size + count * sector_size))) [
      | inl short ↦ rw (offset, bytes, end, short) (inr (ground arith, refl, refl))
      | inr full ↦
          let within : lba * sector_size + count * sector_size ≤ m.rd_bytes = ground arith in
          rw (offset, bytes, end, full)
            (inl (
              within,
              refl,
              copy_out m (lba * sector_size) (count * sector_size) buffer t within (omega arith),
            ))
    ]

-- Past 4 GiB the sector number wraps: sector 2^23 + n is served as sector n.
pub read_sectors_wraps :
    (lba count buffer : ℕ) (m : Machine)
    → read_sectors (2 ^ 23 + lba) count buffer m ≡ read_sectors lba count buffer m
unfolding read_sectors
read_sectors_wraps lba count buffer m =
    let e : mul32 (2 ^ 23 + lba) sector_size ≡ mul32 lba sector_size = omega arith in rw e refl

-- A slot of the table whose partition starts at byte `from`.
pub record IsDevice (fid from : ℕ) (m : Machine) : Type 0 where
  pub slot : fid < length m.files
  pub base : (entry fid m).starting_sector * sector_size ≡ from
  pub small : from < 2 ^ 31

-- `RamdiskSeek` to byte `offset` of a partition and `RamdiskRead` of `size` bytes: the bytes at that
-- offset, their number as the count and the position behind them, or EIO with no byte and the
-- position at the offset.
pub record ReadAt (from offset size fid buffer : ℕ) (m : Machine) (r : Status × ℕ × Machine)
    : Type 0 where
  pub served : Served (from + offset) size buffer m r.0 r.2.memory
  pub position :
      (entry fid r.2).position_low
      ≡ (if leb (from + offset + size) m.rd_bytes then offset + size else offset)
  pub number : r.1 ≡ (if leb (from + offset + size) m.rd_bytes then size else 0)

-- A seek and a read on an open partition of the image deliver the bytes at that offset, or answer
-- EIO, as `ReadAt` says, into a buffer apart from the image, for a first byte and an end below
-- 2 GiB.
pub ramdisk_read-ReadAt :
    {from : ℕ} (offset size fid buffer : ℕ) {m : Machine}
    → IsImage m
    → IsDevice fid from m
    → IsTarget buffer size m
    → offset + size < 2 ^ 31
    → ReadAt from offset size fid buffer m
        (ramdisk_read fid buffer size (ramdisk_seek fid offset 0 seek_absolute m).1)
unfolding ramdisk_read ramdisk_seek
ramdisk_read-ReadAt {from} offset size fid buffer {m} i d t h =
    let f : FileEntry = record (entry fid m) { position_low = offset; position_high = 0 } in
    let at : get_or (set m.files fid f) fid blank_entry ≡ f =
      get_or-set_self m.files fid f blank_entry d.slot in
    let part : mul32 (entry fid m).starting_sector sector_size ≡ from =
      omega (arith, d.base, d.small) in
    let end : add32 (add32 from offset) size ≡ from + offset + size = omega (arith, d.small) in
    elim (Bool-cases (ltb m.rd_bytes (from + offset + size))) [
      | inl short ↦
          let over : leb (from + offset + size) m.rd_bytes ≡ false = ground arith in
          rw (at, part, end, short)
            (record {
              served = inr (ground arith, refl, refl);
              position = rw over (ap (λ e. e.position_low) at);
              number = rw over refl;
            })
      | inr full ↦
          let within : from + offset + size ≤ m.rd_bytes = ground arith in
          let fits : leb (from + offset + size) m.rd_bytes ≡ true = ground arith in
          let g : FileEntry = record f { position_low = add32 offset size } in
          let behind : get_or (set (set m.files fid f) fid g) fid blank_entry ≡ g =
            get_or-set_self (set m.files fid f) fid g blank_entry
              (rw (length-set m.files fid f) d.slot) in
          let moved_on : add32 offset size ≡ offset + size = omega arith in
          rw (at, part, end, full)
            (record {
              served =
                  inl (within, refl, copy_out m (from + offset) size buffer t within (omega arith));
              position = rw fits (ap (λ e. e.position_low) behind ∙ moved_on);
              number = rw fits refl;
            })
    ]
