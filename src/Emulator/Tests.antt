-- ===== src/Emulator/Tests.antt =====
-- The theorems about arcfw/arm/arcemul.c at concrete names, tables and polls.
use arcpi.Base.{
  ℕ, zero, suc, ◌+◌, ◌^◌, ◌<◌, ◌≡◌, refl, false, arith, List, [], ◌∷◌, ◌++◌, Option, none, some,
  if◌then◌else◌, leb, ◌==◌, Status, enodev, enametoolong, eagain,
}
use arcpi.Runtime.{Memory}
use arcpi.Runtime.Strings.{stricmp, is_zero}
use arcpi.Disk.{Machine, FileEntry, blank_entry, load_address}
use arcpi.Emulator.{tag, parse_partition_number, device_open, open_slot}
use arcpi.Emulator.Vector.{OpenMode, open_read_only, ramdisk_table, ae_open, open_file}
use arcpi.Emulator.Dispatch.{Poll, serial_byte, key, lost_key, idle, read_console, ae_read_status}
use arcpi.Emulator.Names.{rendered, number_of, parse_partition_number_lem, ae_open-splits}
use arcpi.Emulator.Slots.{Outcome, open_slot-Outcome}
use arcpi.Emulator.Io.{IsRead, read_console-IsRead}
use arcpi.Console.{Console}
use arcpi.Console.Cursor.{OnScreen}

abbrev image : Memory
image p =
    if p == load_address + 510
    then 0x55
    else if p == load_address + 511
    then 0xaa
    else if p == load_address + 0x1be + 8
    then 1
    else if p == load_address + 0x1be + 12
    then 15
    else 0

abbrev repeat : ℕ → List FileEntry
repeat zero = []
repeat (suc n) = blank_entry ∷ repeat n

abbrev machine : Machine
machine = record { memory = image; rd_base = load_address; rd_bytes = 8192; files = repeat 32 }

-- "multi(0)partition(1"
abbrev name : List ℕ
name =
    b'm' ∷ b'u' ∷ b'l' ∷ b't' ∷ b'i' ∷ b'(' ∷ b'0' ∷ b')' ∷ b'p' ∷ b'a' ∷ b'r' ∷ b't' ∷ b'i' ∷ b't'
    ∷ b'i' ∷ b'o' ∷ b'n' ∷ b'(' ∷ b'1' ∷ []

abbrev file : List ℕ
file = 0x5c ∷ b'a' ∷ []

-- A file system that opens nothing.
abbrev bl_open : ℕ → List ℕ → OpenMode → Machine → Status × Option ℕ × Machine
bl_open fid path mode m = (enodev, none, m)

waits_for_a_byte : ae_read_status ramdisk_table false 0 machine ≡ eagain
unfolding ae_read_status
waits_for_a_byte = refl

twelve : number_of 0 (1 ∷ 2 ∷ []) < 2 ^ 32
unfolding number_of
twelve = omega arith

parse_partition_number_lem_example :
    parse_partition_number ((b'(' ∷ []) ++ tag ++ rendered (1 ∷ 2 ∷ []) ++ 0x29 ∷ file)
    ≡ some (number_of 0 (1 ∷ 2 ∷ []))
parse_partition_number_lem_example =
    parse_partition_number_lem (b'(' ∷ []) 1 (2 ∷ []) file (λ e. absurd (omega (arith, e)), tt)
      (omega arith, (omega arith, tt)) twelve

not_the_console :
    is_zero (
      stricmp (name ++ 0x29 ∷ file) (
        b'm' ∷ b'u' ∷ b'l' ∷ b't' ∷ b'i' ∷ b'(' ∷ b'0' ∷ b')' ∷ b's' ∷ b'e' ∷ b'r' ∷ b'i' ∷ b'a'
        ∷ b'l' ∷ b'(' ∷ b'0' ∷ b')' ∷ []))
    ≡ false
unfolding stricmp
not_the_console = refl

ae_open-splits_example : ae_open bl_open 0x10000 (name ++ 0x29 ∷ file) open_read_only machine ≡ (
    if leb 127 19
    then (enametoolong, none, machine)
    else open_file bl_open file open_read_only (device_open 0x10000 (name ++ 0x29 ∷ []) machine))
ae_open-splits_example =
    ae_open-splits bl_open 0x10000 name file open_read_only machine
      ((λ e. absurd (omega (arith, e))), ((λ e. absurd (omega (arith, e))), tt)) not_the_console

open_slot-Outcome_example : Outcome 1 15 machine (open_slot 1 15 machine)
open_slot-Outcome_example = open_slot-Outcome 1 15 machine refl

opened : (open_slot 1 15 machine).1 ≡ some 2
unfolding open_slot
opened = refl

abbrev polls : List Poll
polls = idle ∷ serial_byte 0x161 ∷ lost_key ∷ key b'b' ∷ key b'c' ∷ []

read_console-IsRead_example : IsRead 2 polls (read_console 2 polls)
read_console-IsRead_example = read_console-IsRead 2 polls

abbrev screen : Console ℕ
screen = record {
  display = 0;
  cols = 80;
  rows = 25;
  cur_col = 3;
  cur_row = 24;
  esc_seen = false;
  in_csi = false;
  inverse = false;
  params = 0 ∷ 0 ∷ 0 ∷ 0 ∷ 0 ∷ 0 ∷ 0 ∷ 0 ∷ [];
  pcount = 0;
}

screen-OnScreen : OnScreen screen
screen-OnScreen = record {
  some_row = omega arith;
  some_col = omega arith;
  small_rows = omega arith;
  small_cols = omega arith;
  row = omega arith;
  col = omega arith;
  index = omega arith;
  array = refl;
}
