-- ===== src/Fat/Cache/Window.antt =====
-- How `FatLookupFatEntry` and `FatSetFatEntry` of arcfw/ported/fatboot.c turn the window.
use arcpi.Base.{
  mul_step, ℕ, ◌+◌, ◌-◌, ◌*◌, ◌/◌, ◌≤◌, ◌<◌, ◌≡◌, refl, sym, ap, subst, ◌∙◌, true, false, add32,
  arith, Bool-cases, inl, inr,
}
use arcpi.Runtime.{Memory}
use arcpi.Fat.{bytes_per_fat, first_fat_area_lbo}
use arcpi.Fat.Action.{ok, when}
use arcpi.Fat.Device.{ArcDevice, IsDisk, fetched, fat_disk_read_lem}
use arcpi.Fat.Cache.{Volume, cache_size, misses, flush_fat_entries, turn_window, map_window}
use arcpi.Fat.Cache.View.{fat_lbo, view, Coherent}
use arcpi.Fat.Cache.Flush.{SameBehind, flush_fat_entries-Flushed}

module _ {D : Type 0} {dev : ArcDevice D} (disk : IsDisk dev) where
  abbrev unloaded : Volume D → D → Volume D
  unloaded v d = record v { device = d; dirty = false; cached = true }

  -- The window may be given up: the disk holds all of the FAT.
  abbrev Settled : Volume D → D → Type 0
  Settled v d =
      (k p : ℕ)
      → k < v.bpb.fats
      → p < bytes_per_fat v.bpb
      → disk.contents d (fat_lbo v.bpb k p) ≡ view disk.contents v p

  settle :
      (v : Volume D)
      → Coherent disk v
      → (d : D) × (when v.dirty (flush_fat_entries dev) (record v { cached = true })
          ≡ (ok tt, unloaded v d))
        × Settled v d
        × SameBehind disk v.bpb v.device d
  settle v c = elim (Bool-cases v.dirty) [
    | inr off ↦
        (v.device, rw off refl, λ k p lt below. c.copies k p lt below (rw off refl), λ q le. refl)
    | inl on ↦
        let cached = c.dirty_cached on in
        let (d, e, f) = flush_fat_entries-Flushed disk v c cached in
        (
          d,
          ap (λ b. when b (flush_fat_entries dev) (record v { cached = true })) on
              ∙ subst
                  (λ b.
                    flush_fat_entries dev (record v { cached = b })
                    ≡ (ok tt, record v { device = d; dirty = false; cached = b }))
                  cached e,
          f.mirrored,
          f.behind,
        )
  ]

  -- The window holds the word at `vbo`, and the FAT is the same.
  pub record Mapped (vbo : ℕ) (v w : Volume D) : Type 0 where
    pub coherent : Coherent disk w
    pub same_bpb : w.bpb ≡ v.bpb
    pub same_view :
        (p : ℕ) → p < bytes_per_fat v.bpb → view disk.contents w p ≡ view disk.contents v p
    pub behind : SameBehind disk v.bpb v.device w.device
    pub on : w.cached ≡ true
    pub from : w.cached_vbo ≤ vbo
    pub to : vbo < w.cached_vbo + cache_size

  abbrev reloaded : Volume D → (vbo : ℕ) → Memory → D → Volume D
  reloaded v vbo b d = record v {
    device = d;
    dirty = false;
    cached = true;
    cached_vbo = vbo / cache_size * cache_size;
    cache = b;
  }

  -- The new window shows what the disk holds, which is all of the FAT.
  view-reloaded :
      (vbo : ℕ) (v : Volume D) (b : Memory) (d d' : D) (p : ℕ)
      → let start = vbo / cache_size * cache_size in
        disk.contents d (fat_lbo v.bpb 0 p) ≡ view disk.contents v p
        → disk.contents d' (fat_lbo v.bpb 0 p) ≡ disk.contents d (fat_lbo v.bpb 0 p)
        → b (p - start)
          ≡ fetched
              (start + first_fat_area_lbo v.bpb)
              cache_size
              (disk.contents d)
              v.cache
              (p - start)
        → view disk.contents (reloaded v vbo b d') p ≡ view disk.contents v p
  view-reloaded vbo v b d d' p s kept f = ground (arith, s, kept, f)

  turn_window-Mapped :
      (vbo : ℕ) (v : Volume D)
      → Coherent disk v
      → vbo < bytes_per_fat v.bpb
      → (w : Volume D) × (turn_window dev vbo v ≡ (ok tt, w)) × Mapped vbo v w
  unfolding turn_window
  turn_window-Mapped vbo v c lt =
      let start = vbo / cache_size * cache_size in
      let lbo = add32 start (first_fat_area_lbo v.bpb) in
      let one = mul_step 0 v.bpb.fats (bytes_per_fat v.bpb) c.mountable.some_fat in
      let at : lbo ≡ start + first_fat_area_lbo v.bpb =
        omega (arith, one, c.mountable.room, c.mountable.below) in
      let (d, e, s, behind) = settle v c in
      let (b', d', e', f, kept) =
        fat_disk_read_lem dev disk lbo cache_size v.cache d
          (omega (arith, one, at, c.mountable.room)) in
      let same : (p : ℕ)
          → p < bytes_per_fat v.bpb
          → view disk.contents (reloaded v vbo b' d') p ≡ view disk.contents v p =
        λ p below.
          view-reloaded vbo v b' d d' p (s 0 p c.mountable.some_fat below)
            (kept (fat_lbo v.bpb 0 p))
            (f (p - start)
              ∙ ap (λ l. fetched l cache_size (disk.contents d) v.cache (p - start)) at) in
      (
        reloaded v vbo b' d',
        rw (e, e') refl,
        record {
          coherent = record {
            mountable = c.mountable;
            aligned = λ _. (omega arith, omega (arith, lt));
            cache_bytes = λ p. ground (arith, f p, disk.byte_lem d (lbo + p), c.cache_bytes p);
            dirty_cached = λ e. refl;
            copies = λ k p k_lt below _.
                kept (fat_lbo v.bpb k p) ∙ s k p k_lt below ∙ sym (same p below);
          };
          same_bpb = refl;
          same_view = same;
          behind = λ q le. kept q ∙ behind q le;
          on = refl;
          from = omega arith;
          to = omega arith;
        },
      )

  stays :
      (vbo : ℕ) (v : Volume D)
      → Coherent disk v
      → vbo < bytes_per_fat v.bpb
      → misses vbo v ≡ false
      → Mapped vbo v v
  stays vbo v c lt hit =
      let one = mul_step 0 v.bpb.fats (bytes_per_fat v.bpb) c.mountable.some_fat in
      let on : v.cached ≡ true = ground (arith, hit) in
      let start = (c.aligned on).1 in
      record {
        coherent = c;
        same_bpb = refl;
        same_view = λ p below. refl;
        behind = λ q le. refl;
        on = on;
        from = ground (arith, hit);
        to = ground (arith, hit, start, one, lt, c.mountable.room, c.mountable.below);
      }

  pub map_window-Mapped :
      (vbo : ℕ) (v : Volume D)
      → Coherent disk v
      → vbo < bytes_per_fat v.bpb
      → (w : Volume D) × (map_window dev vbo v ≡ (ok tt, w)) × Mapped vbo v w
  unfolding map_window
  map_window-Mapped vbo v c lt = elim (Bool-cases (misses vbo v)) [
    | inl out ↦ let (w, e, m) = turn_window-Mapped vbo v c lt in (w, rw out e, m)
    | inr hit ↦ (v, rw hit refl, stays vbo v c lt hit)
  ]
