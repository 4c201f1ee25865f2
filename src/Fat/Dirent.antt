-- ===== src/Fat/Dirent.antt =====
-- `DIRENT` of arcfw/inc/fat.h as its 32 bytes, and `FatSetDirent` of arcfw/ported/fatboot.c.
use arcpi.Base.{ℕ, ◌+◌, ◌-◌, ◌*◌, ◌/◌, ◌%◌, ◌^◌, ltb, ◌==◌, if◌then◌else◌}
use arcpi.Runtime.{Memory, store}
use arcpi.Fat.Entry.{little_word, two_bytes}

-- `FirstClusterOfFile` and `FileSize`, read and written.
abbrev pub first_cluster_of : Memory → ℕ
first_cluster_of d = little_word (d 26) (d 27)

abbrev pub put_first_cluster : (entry : ℕ) → Memory → Memory
put_first_cluster entry d = two_bytes 26 entry d

abbrev pub put_file_size : (size : ℕ) → Memory → Memory
put_file_size size d = two_bytes 30 (size / 2 ^ 16) (two_bytes 28 (size % 2 ^ 16) d)

-- What `ArcGetTime` answers.
pub record TimeFields : Type 0 where
  pub year : ℕ
  pub month : ℕ
  pub day : ℕ
  pub hour : ℕ
  pub minute : ℕ
  pub second : ℕ

-- `FAT_TIME` and `FAT_DATE` are bit fields.
pub fat_time : TimeFields → ℕ
fat_time t = t.second / 2 % 2 ^ 5 + t.minute % 2 ^ 6 * 2 ^ 5 + t.hour % 2 ^ 5 * 2 ^ 11

pub fat_date : TimeFields → ℕ
fat_date t = t.day % 2 ^ 5 + t.month % 2 ^ 4 * 2 ^ 5 + (t.year + 2 ^ 16 - 1980) % 2 ^ 7 * 2 ^ 9

-- `Attributes | FAT_DIRENT_ATTR_ARCHIVE`
abbrev pub with_archive : ℕ → ℕ
with_archive a = if a / 2 ^ 5 % 2 == 1 then a else a + 2 ^ 5

abbrev pub put_name : (name : Memory) → Memory → Memory
put_name name d p = if ltb p 11 then name p else d p

-- `FatSetDirent`
unfoldable pub set_dirent : TimeFields → (name dirent : Memory) → (attributes : ℕ) → Memory
unfolding fat_time fat_date
set_dirent now name d attributes =
    two_bytes 24 (fat_date now)
      (two_bytes 22 (fat_time now) (store (put_name name d) 11 (with_archive attributes)))

-- What an open file's entry of the file table says (`FAT_FILE_CONTEXT`); `DirentLbo` is 0 for the root
-- directory.
pub record FatFile : Type 0 where
  pub dirent_lbo : ℕ
  pub dirent : Memory

abbrev pub first_cluster : FatFile → ℕ
first_cluster f = first_cluster_of f.dirent
