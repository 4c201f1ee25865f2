-- ===== src/Emulator/Slots.antt =====
-- The file table in `AEDeviceOpen` of arcfw/arm/arcemul.c.
use arcpi.Base.{
  ℕ, zero, suc, ◌+◌, ◌≤◌, ◌<◌, ◌≡◌, ◌≢◌, ◌⊎◌, inl, inr, refl, sym, ap, ◌∙◌, Bool, true, false, not,
  Option, none, some, length, get_or-set_self, get_or-set_ne, Bool-cases, Option-cases, arith,
  Status, esuccess, emfile,
}
use arcpi.Disk.{FileEntry, blank_entry, Machine, entry}
use arcpi.Emulator.{
  file_table_size, boot_fileid, is_device, find_device, find_closed, device_entry, open_slot,
}

-- What a search of `n` slots from slot `i` on should answer.
abbrev pub FirstSlot : (FileEntry → Bool) → (n i : ℕ) → Machine → Option ℕ → Type 0
FirstSlot test n i m none = (k : ℕ) → i ≤ k → k < i + n → test (entry k m) ≡ false
FirstSlot test n i m (some fid) =
    (i ≤ fid)
    × (fid < i + n)
    × (test (entry fid m) ≡ true)
    × ((k : ℕ) → i ≤ k → k < fid → test (entry k m) ≡ false)

abbrev pub is_closed : FileEntry → Bool
is_closed e = not e.is_open

FirstSlot-here :
    (test : FileEntry → Bool) (n i : ℕ) (m : Machine)
    → test (entry i m) ≡ true
    → FirstSlot test (suc n) i m (some i)
FirstSlot-here test n i m h = (omega arith, omega arith, h, λ k lo hi. absurd (omega arith))

below_or_at : (i k : ℕ) → i ≤ k → (i ≡ k) ⊎ (suc i ≤ k)
below_or_at i k h = ground arith

FirstSlot-later :
    (test : FileEntry → Bool) (n i : ℕ) (m : Machine) (r : Option ℕ)
    → test (entry i m) ≡ false
    → FirstSlot test n (suc i) m r
    → FirstSlot test (suc n) i m r
FirstSlot-later test n i m none h f =
    λ k lo hi. elim (below_or_at i k lo) [ inl e ↦ rw⁻¹ e h | inr later ↦ f k later (omega arith) ]
FirstSlot-later test n i m (some fid) h (lo, hi, here, before) = (
  omega arith,
  omega arith,
  here,
  λ k low high. elim (below_or_at i k low) [ inl e ↦ rw⁻¹ e h | inr later ↦ before k later high ],
)

find_device-FirstSlot :
    (n i start : ℕ) (m : Machine) → FirstSlot (is_device start) n i m (find_device n i start m)
unfolding find_device
find_device-FirstSlot zero i start m = λ k lo hi. absurd (omega arith)
find_device-FirstSlot (suc n) i start m = elim (Bool-cases (is_device start (entry i m))) [
  | inl hit ↦ rw hit (FirstSlot-here (is_device start) n i m hit)
  | inr miss ↦ rw miss (
      FirstSlot-later (is_device start) n i m (find_device n (suc i) start m) miss
        (find_device-FirstSlot n (suc i) start m))
]

find_closed-FirstSlot : (n i : ℕ) (m : Machine) → FirstSlot is_closed n i m (find_closed n i m)
unfolding find_closed
find_closed-FirstSlot zero i m = λ k lo hi. absurd (omega arith)
find_closed-FirstSlot (suc n) i m = elim (Bool-cases (is_closed (entry i m))) [
  | inl hit ↦ rw hit (FirstSlot-here is_closed n i m hit)
  | inr miss ↦ rw miss (
      FirstSlot-later is_closed n i m (find_closed n (suc i) m) miss
        (find_closed-FirstSlot n (suc i) m))
]

-- A first slot is the only one.
FirstSlot-unique :
    (test : FileEntry → Bool) (n i fid : ℕ) (m : Machine) (r : Option ℕ)
    → FirstSlot test n i m (some fid)
    → FirstSlot test n i m r
    → r ≡ some fid
FirstSlot-unique test n i fid m none (lo, hi, here, before) f =
    absurd (let miss = f fid lo hi in cc)
FirstSlot-unique test n i fid m (some k) (lo, hi, here, before) (lo', hi', here', before') =
    elim (order k fid) [
      | inl e ↦ ap some e
      | inr (inl lt) ↦ absurd (let miss = before k lo' lt in cc)
      | inr (inr gt) ↦ absurd (let miss = before' fid lo gt in cc)
    ]
  where
    order : (a b : ℕ) → (a ≡ b) ⊎ ((a < b) ⊎ (b < a))
    order a b = ground arith

-- A file id that `AEDeviceOpen` may hand out: not one of the console's.
abbrev pub IsFileId : ℕ → Type 0
IsFileId fid = (boot_fileid ≤ fid) × (fid < file_table_size)

abbrev pub NoDevice : (start : ℕ) → Machine → Type 0
NoDevice start m = (k : ℕ) → IsFileId k → is_device start (entry k m) ≡ false

-- An open device with the same first sector is used again, and nothing changes.
pub record IsReused (start fid : ℕ) (m : Machine) (r : Status × Option ℕ × Machine) : Type 0 where
  pub id : IsFileId fid
  pub device : is_device start (entry fid m) ≡ true
  pub first : (k : ℕ) → boot_fileid ≤ k → k < fid → is_device start (entry k m) ≡ false
  pub answer : r ≡ (esuccess, some fid, m)

-- A closed slot becomes the device, and no other slot changes.
pub record IsAllocated (start count fid : ℕ) (m : Machine) (r : Status × Option ℕ × Machine)
    : Type 0 where
  pub id : IsFileId fid
  pub no_device : NoDevice start m
  pub closed : (entry fid m).is_open ≡ false
  pub status : r.0 ≡ esuccess
  pub answer : r.1 ≡ some fid
  pub here : entry fid r.2 ≡ device_entry start count
  pub others : (k : ℕ) → k ≢ fid → entry k r.2 ≡ entry k m
  pub memory : r.2.memory ≡ m.memory

-- Every slot is open, none as this device: the answer is EMFILE, and nothing changes.
pub record IsRefused (start : ℕ) (m : Machine) (r : Status × Option ℕ × Machine) : Type 0 where
  pub no_device : NoDevice start m
  pub all_open : (k : ℕ) → IsFileId k → (entry k m).is_open ≡ true
  pub answer : r ≡ (emfile, none, m)

abbrev pub Outcome : (start count : ℕ) → Machine → Status × Option ℕ × Machine → Type 0
Outcome start count m r =
    ((fid : ℕ) × IsReused start fid m r)
    ⊎ (((fid : ℕ) × IsAllocated start count fid m r) ⊎ IsRefused start m r)

not-false : (b : Bool) → not b ≡ false → b ≡ true
not-false true e = refl
not-false false e = cc

not-true : (b : Bool) → not b ≡ true → b ≡ false
not-true true e = cc
not-true false e = refl

-- The slot part of `AEDeviceOpen` on a table of 32 entries: reuse before allocation, and EMFILE only
-- if the table is full. The console's slots 0 and 1 are never handed out.
pub open_slot-Outcome :
    (start count : ℕ) (m : Machine)
    → length m.files ≡ file_table_size
    → Outcome start count m (open_slot start count m)
unfolding open_slot
open_slot-Outcome start count m whole = elim (Option-cases (find_device 30 2 start m)) [
  | inr (fid, e) ↦
      let (lo, hi, here, before) = rw e at (find_device-FirstSlot 30 2 start m) in
      rw (open_slot, e)
        (inl (fid, record { id = (lo, hi); device = here; first = before; answer = refl }))
  | inl e ↦
      let missing = rw e at (find_device-FirstSlot 30 2 start m) in
      let no_device : NoDevice start m = λ k id. missing k id.0 id.1 in
      elim (Option-cases (find_closed 30 2 m)) [
        | inr (fid, e') ↦
            let (lo, hi, here, before) = rw e' at (find_closed-FirstSlot 30 2 m) in
            rw (open_slot, e, e')
              (inr (
                inl (
                  fid,
                  record {
                    id = (lo, hi);
                    no_device = no_device;
                    closed = not-true (entry fid m).is_open here;
                    status = refl;
                    answer = refl;
                    here =
                        get_or-set_self m.files fid (device_entry start count) blank_entry
                          (rw whole hi);
                    others = λ k ne.
                        get_or-set_ne m.files fid k (device_entry start count) blank_entry
                          (λ h. ne (sym h));
                    memory = refl;
                  },
                )))
        | inl e' ↦
            let full = rw e' at (find_closed-FirstSlot 30 2 m) in
            rw (open_slot, e, e')
              (inr (
                inr (record {
                  no_device = no_device;
                  all_open = λ k id. not-false (entry k m).is_open (full k id.0 id.1);
                  answer = refl;
                })))
      ]
]

-- The answer for a table whose first device with this first sector is slot `fid`.
open_slot-first :
    (start count fid : ℕ) (m : Machine)
    → FirstSlot (is_device start) 30 2 m (some fid)
    → open_slot start count m ≡ (esuccess, some fid, m)
unfolding open_slot
open_slot-first start count fid m first =
    let e =
      FirstSlot-unique (is_device start) 30 2 fid m (find_device 30 2 start m) first
        (find_device-FirstSlot 30 2 start m) in
    rw (open_slot, e) refl

self_is_device : (start count : ℕ) → is_device start (device_entry start count) ≡ true
self_is_device start count = ground arith

-- On a table of 32 entries, opening a device again hands out the same file id and leaves the table alone, so that repeated
-- opens use up no slots.
pub open_slot-again :
    (start count again fid : ℕ) (m : Machine)
    → length m.files ≡ file_table_size
    → (open_slot start count m).1 ≡ some fid
    → open_slot start again (open_slot start count m).2
      ≡ (esuccess, some fid, (open_slot start count m).2)
open_slot-again start count again fid m whole got = elim (open_slot-Outcome start count m whole) [
  | inl (k, u) ↦
      let same : k ≡ fid = let e = ap (λ r. r.1) u.answer in cc in
      rw u.answer (
        open_slot-first start again k m (u.id.0, u.id.1, u.device, u.first)
        ∙ ap (λ j. (esuccess, some j, m)) same)
  | inr (inl (k, a)) ↦
      let t = (open_slot start count m).2 in
      let same : k ≡ fid = let e = a.answer in cc in
      let device : is_device start (entry k t) ≡ true = rw a.here (self_is_device start count) in
      open_slot-first start again k t (
        a.id.0,
        a.id.1,
        device,
        λ j lo lt.
            rw (a.others j (λ e. absurd (omega (arith, e))))
              (a.no_device j (lo, omega (arith, a.id.1))),
      )
      ∙ ap (λ j. (esuccess, some j, t)) same
  | inr (inr f) ↦ absurd (let e = ap (λ r. r.1) f.answer in cc)
]
