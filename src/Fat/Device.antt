-- ===== src/Fat/Device.antt =====
-- `FatDiskRead` and `FatDiskWrite` of arcfw/ported/fatboot.c, over the device calls that they make.
use arcpi.Base.{
  ℕ, ◌+◌, ◌-◌, ◌^◌, ◌≤◌, ◌<◌, ◌≡◌, ◌&&◌, ◌==◌, leb, ltb, if◌then◌else◌, Status, esuccess, eio,
  Bool-cases, inl, inr, refl, arith, ==_self, ◌∙◌,
}
use arcpi.Runtime.{Memory}
use arcpi.Fat.Action.{Action, checked, pure, raise, within, ok, ◌>>=◌, ◌>>◌}

-- `ArcSeek`, `ArcRead` and `ArcWrite` on one device id: each is the driver's. A read takes the buffer
-- as it was and gives back the count, and a write gives back the count.
pub record ArcDevice (D : Type 0) : Type 0 where
  pub seek : (lbo : ℕ) → D → Status × D
  pub read : (length : ℕ) → Memory × D → Status × ℕ × (Memory × D)
  pub write : (length : ℕ) → Memory → D → Status × ℕ × D

module _ {D : Type 0} (dev : ArcDevice D) where
  arc_seek : (lbo : ℕ) → Action D (Unit {0})
  arc_seek lbo d = let r = dev.seek lbo d in (checked r.0 tt, r.1)

  arc_read : (length : ℕ) → Action (Memory × D) ℕ
  arc_read n x = let r = dev.read n x in (checked r.0 r.1, r.2)

  arc_write : (length : ℕ) → Memory → Action D ℕ
  arc_write n b d = let r = dev.write n b d in (checked r.0 r.1, r.2)

  -- `FatDiskRead`; the state is the buffer and the device.
  unfoldable pub fat_disk_read : (lbo length : ℕ) → Action (Memory × D) (Unit {0})
  unfolding arc_seek arc_read
  fat_disk_read lbo n = if n == 0 then pure tt else do
    within (λ x. x.1) (λ d x. (x.0, d)) (arc_seek lbo)
    count ← arc_read n
    if n == count then pure tt else raise eio

  -- `FatDiskWrite`
  unfoldable pub fat_disk_write : (lbo length : ℕ) → Memory → Action D (Unit {0})
  unfolding arc_seek arc_write
  fat_disk_write lbo n b =
      if n == 0
      then pure tt
      else do arc_seek lbo; count ← arc_write n b; if n == count then pure tt else raise eio

-- The `n` bytes at `lbo` of `m` replaced by those of the buffer.
abbrev pub overwritten : (lbo n : ℕ) → Memory → Memory → Memory
overwritten lbo n b m p = if leb lbo p && ltb p (lbo + n) then b (p - lbo) else m p

-- The `n` bytes of the buffer replaced by those at `lbo` of `m`.
abbrev pub fetched : (lbo n : ℕ) → Memory → Memory → Memory
fetched lbo n m b p = if ltb p n then m (lbo + p) else b p

abbrev pub Same : Memory → Memory → Type 0
Same m m' = (p : ℕ) → m p ≡ m' p

-- A device that stores `size` bytes and serves every transfer inside them.
pub record IsDisk {D : Type 0} (dev : ArcDevice D) : Type 0 where
  pub size : ℕ
  pub contents : D → Memory
  pub position : D → ℕ
  pub byte_lem : (d : D) (p : ℕ) → contents d p < 2 ^ 8
  pub seek_lem :
      (lbo : ℕ) (d : D)
      → lbo ≤ size
      → (d' : D) × (dev.seek lbo d ≡ (esuccess, d'))
        × (position d' ≡ lbo)
        × Same (contents d') (contents d)
  pub read_lem :
      (n : ℕ) (b : Memory) (d : D)
      → position d + n ≤ size
      → (b' : Memory) × (d' : D) × (dev.read n (b, d) ≡ (esuccess, n, (b', d')))
        × Same b' (fetched (position d) n (contents d) b)
        × Same (contents d') (contents d)
  pub write_lem :
      (n : ℕ) (b : Memory) (d : D)
      → position d + n ≤ size
      → ((p : ℕ) → b p < 2 ^ 8)
      → (d' : D) × (dev.write n b d ≡ (esuccess, n, d'))
        × Same (contents d') (overwritten (position d) n b (contents d))

module _ {D : Type 0} (dev : ArcDevice D) (disk : IsDisk dev) where
  -- A read inside the disk fetches the bytes and changes nothing on it.
  pub fat_disk_read_lem :
      (lbo n : ℕ) (b : Memory) (d : D)
      → lbo + n ≤ disk.size
      → (b' : Memory) × (d' : D) × (fat_disk_read dev lbo n (b, d) ≡ (ok tt, (b', d')))
        × Same b' (fetched lbo n (disk.contents d) b)
        × Same (disk.contents d') (disk.contents d)
  unfolding fat_disk_read
  fat_disk_read_lem lbo n b d h = elim (Bool-cases (n == 0)) [
    | inl e ↦ (b, d, rw e refl, λ p. ground (arith, e), λ p. refl)
    | inr e ↦
        let (d1, e1, at, s1) = disk.seek_lem lbo d (omega (arith, h)) in
        let (b', d2, e2, f, s2) = disk.read_lem n b d1 (omega (arith, at, h)) in
        (
          b',
          d2,
          rw (e, e1, e2, ==_self n) refl,
          λ p. ground (arith, f p, s1 (lbo + p), at),
          λ p. s2 p ∙ s1 p,
        )
  ]

  pub fat_disk_write_lem :
      (lbo n : ℕ) (b : Memory) (d : D)
      → lbo + n ≤ disk.size
      → ((p : ℕ) → b p < 2 ^ 8)
      → (d' : D) × (fat_disk_write dev lbo n b d ≡ (ok tt, d'))
        × Same (disk.contents d') (overwritten lbo n b (disk.contents d))
  unfolding fat_disk_write
  fat_disk_write_lem lbo n b d h ok_b = elim (Bool-cases (n == 0)) [
    | inl e ↦ (d, rw e refl, λ p. ground (arith, e))
    | inr e ↦
        let (d1, e1, at, s1) = disk.seek_lem lbo d (omega (arith, h)) in
        let (d2, e2, f) = disk.write_lem n b d1 (omega (arith, at, h)) ok_b in
        (d2, rw (e, e1, e2, ==_self n) refl, λ p. ground (arith, f p, s1 p, at))
  ]
