-- ===== src/Emulator/Dispatch.antt =====
-- The routines of arcfw/arm/arcemul.c that dispatch on a file id: to the console, or through the entry
-- table of a device or of a mounted file system, `fs`.
--
-- The console devices (arcfw/arm/console.c, uart.c, usb.c) appear as the bytes written and as a list
-- of polls.
use arcpi.Base.{
  ℕ, zero, suc, ◌%◌, ◌^◌, Bool, List, [], ◌∷◌, ◌++◌, Option, none, some, ◌==◌, if◌then◌else◌,
  Status, esuccess, eacces, eagain, ebadf, einval,
}
use arcpi.Runtime.{Memory, store}
use arcpi.Disk.{Table, no_table, ramdisk, file_system, Machine, entry, SeekMode, FileInformation}
use arcpi.Emulator.Vector.{EntryTable, ramdisk_table, console_input, console_output, is_console}

-- One round of the polling loop of `AERead`: what the serial line or the keyboard has.
pub data Poll : Type 0 where
  serial_byte : ℕ → Poll
  key : ℕ → Poll
  lost_key : Poll
  idle : Poll

-- The loop of `AERead` for `n` bytes: the bytes and the polls that are left, or nothing as long as
-- it waits.
unfoldable pub read_console : (n : ℕ) → List Poll → Option (List ℕ × List Poll)
read_console zero ps = some ([], ps)
read_console (suc n) [] = none
read_console (suc n) (serial_byte c ∷ ps) = elim (read_console n ps) [
  | none ↦ none
  | some r ↦ some (c % 2 ^ 8 ∷ r.0, r.1)
]
read_console (suc n) (key c ∷ ps) = elim (read_console n ps) [
  | none ↦ none
  | some r ↦ some (c % 2 ^ 8 ∷ r.0, r.1)
]
read_console (suc n) (lost_key ∷ ps) = read_console (suc n) ps
read_console (suc n) (idle ∷ ps) = read_console (suc n) ps

-- The loop of `AEWrite` for console output: the bytes of the buffer, in order.
unfoldable pub console_bytes : (n buffer : ℕ) → Machine → List ℕ
console_bytes zero buffer m = []
console_bytes (suc n) buffer m = m.memory buffer ∷ console_bytes n (suc buffer) m

-- The bytes that console input leaves in the buffer.
unfoldable pub store_bytes : List ℕ → (buffer : ℕ) → Memory → Memory
store_bytes [] buffer m = m
store_bytes (c ∷ cs) buffer m = store_bytes cs (suc buffer) (store m buffer c)

module _ (fs : EntryTable) where
  -- `BlFileTable[fid].DeviceEntryTable`
  abbrev pub table_of : Table → Option EntryTable
  table_of no_table = none
  table_of ramdisk = some ramdisk_table
  table_of file_system = some fs

  -- `AEClose`
  unfoldable pub ae_close : ℕ → Machine → Status × Machine
  ae_close fid m =
      if is_console fid
      then (esuccess, m)
      else elim (table_of (entry fid m).table) [ none ↦ (ebadf, m) | some t ↦ t.close fid m ]

  -- `AERead` of any id but console input.
  unfoldable pub read_device : (fid buffer length : ℕ) → Machine → Status × Option ℕ × Machine
  read_device fid buffer n m = elim (table_of (entry fid m).table) [
    | none ↦ (ebadf, none, m)
    | some t ↦ t.read fid buffer n m
  ]

  -- `AERead`; nothing while it waits for console input.
  unfoldable pub ae_read :
      (fid buffer length : ℕ)
      → List Poll
      → Machine
      → Option (Status × Option ℕ × Machine × List Poll)
  unfolding read_console store_bytes read_device
  ae_read fid buffer n ps m =
      if fid == console_input
      then elim (read_console n ps) [
        | none ↦ none
        | some r ↦
            some (esuccess, some n, record m { memory = store_bytes r.0 buffer m.memory }, r.1)
      ]
      else let r = read_device fid buffer n m in some (r.0, r.1, r.2, ps)

  -- `AEReadStatus`; `ready` is whether the serial line or the keyboard has a byte.
  unfoldable pub ae_read_status : (ready : Bool) → ℕ → Machine → Status
  ae_read_status ready fid m =
      if fid == console_input
      then (if ready then esuccess else eagain)
      else elim (table_of (entry fid m).table) [
        | none ↦ esuccess
        | some t ↦ elim t.read_status [ none ↦ esuccess | some f ↦ f fid m ]
      ]

  -- `AESeek`
  unfoldable pub ae_seek : (fid low high : ℕ) → SeekMode → Machine → Status × Machine
  ae_seek fid low high mode m =
      if is_console fid then (esuccess, m) else elim (table_of (entry fid m).table) [
        | none ↦ (ebadf, m)
        | some t ↦ elim t.seek [ none ↦ (ebadf, m) | some f ↦ f fid low high mode m ]
      ]

  -- `AEWrite` of any id but console output.
  unfoldable pub write_device : (fid buffer length : ℕ) → Machine → Status × Option ℕ × Machine
  write_device fid buffer n m = elim (table_of (entry fid m).table) [
    | none ↦ (eacces, none, m)
    | some t ↦ elim t.write [ none ↦ (eacces, none, m) | some f ↦ f fid buffer n m ]
  ]

  -- `AEWrite`, with the bytes that the console has been sent.
  unfoldable pub ae_write :
      (fid buffer length : ℕ) → List ℕ → Machine → Status × Option ℕ × Machine × List ℕ
  unfolding console_bytes write_device
  ae_write fid buffer n sent m =
      if fid == console_output
      then (esuccess, some n, m, sent ++ console_bytes n buffer m)
      else let r = write_device fid buffer n m in (r.0, r.1, r.2, sent)

  -- `AEGetFileInformation`
  unfoldable pub ae_information : ℕ → Machine → Status × Option FileInformation
  ae_information fid m =
      if is_console fid then (einval, none) else elim (table_of (entry fid m).table) [
        | none ↦ (ebadf, none)
        | some t ↦ elim t.information [
          | none ↦ (ebadf, none)
          | some f ↦ let r = f fid m in (r.0, some r.1)
        ]
      ]

  -- `AESetFileInformation`
  unfoldable pub ae_set_information : (fid flags mask : ℕ) → Machine → Status × Machine
  ae_set_information fid flags mask m =
      if is_console fid then (einval, m) else elim (table_of (entry fid m).table) [
        | none ↦ (eacces, m)
        | some t ↦ elim t.set_information [ none ↦ (eacces, m) | some f ↦ f fid flags mask m ]
      ]

  -- `AEGetDirectoryEntry`
  unfoldable pub ae_directory_entry :
      (fid buffer length : ℕ) → Machine → Status × Option ℕ × Machine
  ae_directory_entry fid buffer n m =
      if is_console fid then (ebadf, none, m) else elim (table_of (entry fid m).table) [
        | none ↦ (ebadf, none, m)
        | some t ↦ elim t.directory_entry [ none ↦ (ebadf, none, m) | some f ↦ f fid buffer n m ]
      ]
