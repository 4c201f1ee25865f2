-- ===== src/Emulator/Vector.antt =====
-- `AEOpen` of arcfw/arm/arcemul.c, the entry tables of devices, and the display status.
--
-- `fs` is the entry table of a mounted file system, whose slots may be NULL, and `bl_open` is
-- `BlOpen`. The ramdisk's table is the one that arcfw/arm/ramdisk.c ends with.
use arcpi.Base.{
  ℕ, suc, ◌+◌, Bool, true, false, ◌||◌, List, [], ◌∷◌, Option, none, some, leb, ◌==◌, if◌then◌else◌,
  take, drop, add32, ushort, Status, esuccess, eacces, enametoolong, enoent,
}
use arcpi.Runtime.Strings.{stricmp, is_zero}
use arcpi.Disk.{
  no_table, Machine, entry, put_entry, ramdisk_read, ramdisk_seek, ramdisk_close,
  ramdisk_information, SeekMode, FileInformation,
}
use arcpi.Emulator.{device_open}

pub data OpenMode : Type 0 where
  open_read_only open_write_only open_read_write create_write_only create_read_write : OpenMode
  supersede_write_only supersede_read_write open_directory create_directory open_maximum_mode :
      OpenMode

-- `BL_DEVICE_ENTRY_TABLE`, the slots that the vector dispatches to. A
-- count is an `Option`: a routine may leave it unwritten.
pub record EntryTable : Type 0 where
  pub close : ℕ → Machine → Status × Machine
  pub read : (fid buffer length : ℕ) → Machine → Status × Option ℕ × Machine
  pub read_status : Option (ℕ → Machine → Status)
  pub seek : Option ((fid low high : ℕ) → SeekMode → Machine → Status × Machine)
  pub write : Option ((fid buffer length : ℕ) → Machine → Status × Option ℕ × Machine)
  pub information : Option (ℕ → Machine → Status × FileInformation)
  pub set_information : Option ((fid flags mask : ℕ) → Machine → Status × Machine)
  pub directory_entry : Option ((fid buffer length : ℕ) → Machine → Status × Option ℕ × Machine)

-- `RamdiskEntryTable`; `RamdiskGetReadStatus` always answers ESUCCESS.
abbrev pub ramdisk_table : EntryTable
ramdisk_table = record {
  close = ramdisk_close;
  read = λ fid buffer n m. let r = ramdisk_read fid buffer n m in (r.0, some r.1, r.2);
  read_status = some λ fid m. esuccess;
  seek = some ramdisk_seek;
  write = none;
  information = some ramdisk_information;
  set_information = none;
  directory_entry = none;
}

-- "multi(0)serial(0)"
abbrev pub serial_console_name : List ℕ
serial_console_name =
    b'm' ∷ b'u' ∷ b'l' ∷ b't' ∷ b'i' ∷ b'(' ∷ b'0' ∷ b')' ∷ b's' ∷ b'e' ∷ b'r' ∷ b'i' ∷ b'a' ∷ b'l'
    ∷ b'(' ∷ b'0' ∷ b')' ∷ []

abbrev pub console_input : ℕ
console_input = 0

abbrev pub console_output : ℕ
console_output = 1

abbrev pub is_console : ℕ → Bool
is_console fid = fid == console_input || fid == console_output

-- The loop for the last ')': its position, counted from `i`.
unfoldable pub last_paren : (i : ℕ) → List ℕ → Option ℕ
last_paren i [] = none
last_paren i (c ∷ cs) = elim (last_paren (suc i) cs) [
  | some p ↦ some p
  | none ↦ if c == 0x29 then some i else none
]

abbrev pub is_directory_mode : OpenMode → Bool
is_directory_mode open_directory = true
is_directory_mode _ = false

-- The console: the slot's flags are set, and its table is NULL.
unfoldable pub open_console : OpenMode → Machine → Status × Option ℕ × Machine
open_console open_read_write m = (eacces, none, m)
open_console open_write_only m = (
  esuccess,
  some console_output,
  put_entry console_output
      (record (entry console_output m) {
        is_open = true;
        can_read = false;
        can_write = true;
        table = no_table;
      })
      m,
)
open_console mode m = (
  esuccess,
  some console_input,
  put_entry console_input
      (record (entry console_input m) {
        is_open = true;
        can_read = true;
        can_write = false;
        table = no_table;
      })
      m,
)

module _ (bl_open : (device : ℕ) → List ℕ → OpenMode → Machine → Status × Option ℕ × Machine) where
  -- The file or directory on a device that is open.
  unfoldable pub open_file :
      (file : List ℕ) → OpenMode → Status × Option ℕ × Machine → Status × Option ℕ × Machine
  open_file [] mode (esuccess, some fid, m) =
      if is_directory_mode mode then bl_open fid (0x5c ∷ []) mode m else (esuccess, some fid, m)
  open_file (c ∷ cs) mode (esuccess, some fid, m) = bl_open fid (c ∷ cs) mode m
  open_file file mode (status, _, m) = (status, none, m)

  -- `AEOpen`: the console, or a device and a file behind the last ')'. `device[128]` is its local
  -- buffer.
  unfoldable pub ae_open : (mbr : ℕ) → List ℕ → OpenMode → Machine → Status × Option ℕ × Machine
  unfolding open_console last_paren open_file
  ae_open mbr path mode m =
      if is_zero (stricmp path serial_console_name)
      then open_console mode m
      else elim (last_paren 0 path) [
        | none ↦ (enoent, none, m)
        | some p ↦
            if leb 128 (p + 1)
            then (enametoolong, none, m)
            else open_file (drop (p + 1) path) mode (device_open mbr (take (p + 1) path) m)
      ]

-- The cursor and the extents of `ARC_DISPLAY_STATUS`, from those of `fbcon_status`.
unfoldable pub display_status : ℕ × ℕ × ℕ × ℕ → ℕ × ℕ × ℕ × ℕ
display_status (col, row, maxcol, maxrow) =
    (ushort (add32 col 1), ushort (add32 row 1), ushort (add32 maxcol 1), ushort (add32 maxrow 1))
