-- ===== src/Fat/Interface.antt =====
-- What the cluster routines of arcfw/ported/fatboot.c use of the FAT and the device below them: the
-- macros `LookupFatEntry`, `SetFatEntry` and `DiskWrite`.
use arcpi.Base.{ℕ, ◌%◌, ◌^◌, ◌<◌, ◌≡◌, ◌==◌, if◌then◌else◌}
use arcpi.Runtime.{Memory}
use arcpi.Fat.Entry.{IsBytes}
use arcpi.Fat.Action.{Action, ok}

pub record FatOps (S : Type 0) : Type 0 where
  pub lookup : (index : ℕ) → Action S ℕ
  pub set : (index entry : ℕ) → Action S (Unit {0})
  pub write : (lbo length : ℕ) → Memory → Action S (Unit {0})

-- The operations act on one table of entries, each below `limit`.
pub record IsFat {S : Type 0} (ops : FatOps S) (limit : ℕ) : Type 1 where
  pub Good : S → Type 0
  pub InRange : ℕ → Type 0
  pub Writable : (lbo length : ℕ) → Type 0
  pub entries : S → ℕ → ℕ
  pub lookup_lem :
      (i : ℕ) (s : S)
      → Good s
      → InRange i
      → (s' : S) × (ops.lookup i s ≡ (ok (entries s i), s'))
        × Good s'
        × ((j : ℕ) → InRange j → entries s' j ≡ entries s j)
  pub set_lem :
      (i entry : ℕ) (s : S)
      → Good s
      → InRange i
      → entry < 2 ^ 16
      → (s' : S) × (ops.set i entry s ≡ (ok tt, s'))
        × Good s'
        × ((j : ℕ) → InRange j → entries s' j ≡ (if i == j then entry % limit else entries s j))
  pub write_lem :
      (lbo n : ℕ) (b : Memory) (s : S)
      → Good s
      → Writable lbo n
      → IsBytes b
      → (s' : S) × (ops.write lbo n b s ≡ (ok tt, s'))
        × Good s'
        × ((j : ℕ) → InRange j → entries s' j ≡ entries s j)
