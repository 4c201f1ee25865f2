-- ===== src/Emulator/Opened.antt =====
-- `AEDeviceOpen` of arcfw/arm/arcemul.c on an image with a boot record.
use arcpi.Base.{ℕ, sector_size}
use arcpi.Runtime.{memcpy}
use arcpi.Disk.{Machine}

-- The machine once the boot record was read to `mbr`.
abbrev pub with_record : (mbr : ℕ) → Machine → Machine
with_record mbr m = record m { memory = memcpy mbr m.rd_base sector_size m.memory }
