-- ===== src/Fat/Cache/Table.antt =====
-- The FAT as a table of entries behind `FatLookupFatEntry` and `FatSetFatEntry` of
-- arcfw/ported/fatboot.c.
use arcpi.Base.{
  ℕ, ◌+◌, ◌-◌, ◌%◌, ◌^◌, ◌≤◌, ◌<◌, ◌≡◌, refl, sym, ap, ◌∙◌, Bool, true, false, ◌==◌, if◌then◌else◌,
  arith,
}
use arcpi.Fat.{bytes_per_fat, is_twelve_bit}
use arcpi.Fat.Entry.{
  entry_vbo, little_word, decode, encode, two_bytes, fat_entry, put_fat_entry, entry_limit, IsBytes,
  fat_entry-put, fat_entry-cong, fat_entry_bytes, put_fat_entry_bytes, encode-lt,
}
use arcpi.Fat.Action.{ok}
use arcpi.Fat.Device.{ArcDevice, IsDisk}
use arcpi.Fat.Cache.{Volume, cache_size, lookup_fat_entry, set_fat_entry}
use arcpi.Fat.Cache.Flush.{SameBehind}
use arcpi.Fat.Cache.View.{InFat, fat_lbo, view, table, Coherent}
use arcpi.Fat.Cache.Window.{Mapped, map_window-Mapped}

word_inside :
    (twelve : Bool) (i start : ℕ)
    → start % cache_size ≡ 0
    → entry_vbo twelve i < start + cache_size
    → entry_vbo twelve i + 1 < start + cache_size
word_inside true i start a lt = omega arith
word_inside false i start a lt = omega arith

module _ {D : Type 0} {dev : ArcDevice D} (disk : IsDisk dev) where
  view-IsBytes : (v : Volume D) → Coherent disk v → IsBytes (view disk.contents v)
  view-IsBytes v c p =
      ground (arith, c.cache_bytes (p - v.cached_vbo), disk.byte_lem v.device (fat_lbo v.bpb 0 p))

  pub same_table :
      (v w : Volume D)
      → w.bpb ≡ v.bpb
      → ((p : ℕ) → p < bytes_per_fat v.bpb → view disk.contents w p ≡ view disk.contents v p)
      → (j : ℕ) → InFat v.bpb j
      → table disk.contents w j ≡ table disk.contents v j
  same_table v w b s j h =
      ap (λ b. fat_entry (is_twelve_bit b) j (view disk.contents w)) b
      ∙ fat_entry-cong (is_twelve_bit v.bpb) j (view disk.contents w) (view disk.contents v)
          (s _ (omega arith)) (s _ h)

  -- A byte of the window, as the volume shows it.
  at_offset :
      (w : Volume D) (p : ℕ)
      → w.cached ≡ true
      → w.cached_vbo ≤ p
      → p < w.cached_vbo + cache_size
      → view disk.contents w p ≡ w.cache (p - w.cached_vbo)
  at_offset w p on from to = ground (arith, on)

  -- The word that the code takes from the window, once the window is there.
  word_lem :
      (i : ℕ) (v w : Volume D)
      → Mapped disk (entry_vbo (is_twelve_bit v.bpb) i) v w
      → let vbo = entry_vbo (is_twelve_bit v.bpb) i in
        let offset = vbo - w.cached_vbo in
        (view disk.contents w vbo ≡ w.cache offset)
        × (view disk.contents w (vbo + 1) ≡ w.cache (offset + 1))
  word_lem i v w m =
      let twelve = is_twelve_bit v.bpb in
      let vbo = entry_vbo twelve i in
      let inside = word_inside twelve i w.cached_vbo (m.coherent.aligned m.on).0 m.to in
      let from = m.from in
      (
        at_offset w vbo m.on m.from m.to,
        at_offset w (vbo + 1) m.on (omega (arith, from)) inside ∙ ap w.cache (omega (arith, from)),
      )

  -- The FAT after a step that changes none of its entries.
  pub record SameFat (v w : Volume D) : Type 0 where
    pub coherent : Coherent disk w
    pub same_bpb : w.bpb ≡ v.bpb
    pub same_entries : (j : ℕ) → InFat v.bpb j → table disk.contents w j ≡ table disk.contents v j
    pub behind : SameBehind disk v.bpb v.device w.device

  -- `FatLookupFatEntry` succeeds with the entry that the FAT holds, whatever window is cached before
  -- the call, and changes no entry and nothing on the disk behind the FATs.
  pub lookup_fat_entry-SameFat :
      (i : ℕ) (v : Volume D)
      → Coherent disk v
      → InFat v.bpb i
      → (w : Volume D) × (lookup_fat_entry dev i v ≡ (ok (table disk.contents v i), w))
        × SameFat v w
  unfolding lookup_fat_entry
  lookup_fat_entry-SameFat i v c h =
      let twelve = is_twelve_bit v.bpb in
      let vbo = entry_vbo twelve i in
      let (w, e, m) = map_window-Mapped disk vbo v c (omega arith) in
      let (low, high) = word_lem i v w m in
      let value : decode twelve i
            (little_word (w.cache (vbo - w.cached_vbo)) (w.cache (vbo - w.cached_vbo + 1)))
          ≡ table disk.contents v i =
        sym (λ t. decode twelve i (little_word (low t) (high t)))
        ∙ sym (fat_entry_bytes twelve i (view disk.contents w))
        ∙ fat_entry-cong twelve i (view disk.contents w) (view disk.contents v)
            (m.same_view vbo (omega arith)) (m.same_view (vbo + 1) h) in
      (
        w,
        rw e (λ t. (ok (value t), w)),
        record {
          coherent = m.coherent;
          same_bpb = m.same_bpb;
          same_entries = same_table v w m.same_bpb m.same_view;
          behind = m.behind;
        },
      )

  -- The FAT after entry `i` has been set.
  pub record Updated (i entry : ℕ) (v w : Volume D) : Type 0 where
    pub coherent : Coherent disk w
    pub same_bpb : w.bpb ≡ v.bpb
    pub entries :
        (j : ℕ)
        → InFat v.bpb j
        → table disk.contents w j
          ≡ (if i == j then entry % entry_limit (is_twelve_bit v.bpb) else table disk.contents v j)

  abbrev written : Volume D → (offset word : ℕ) → Volume D
  written w offset word = record w { cache = two_bytes offset word w.cache; dirty = true }

  -- A write of two bytes of the window is one of two bytes of the FAT.
  view-written :
      (w : Volume D) (vbo word p : ℕ)
      → w.cached ≡ true
      → w.cached_vbo ≤ vbo
      → vbo + 1 < w.cached_vbo + cache_size
      → view disk.contents (written w (vbo - w.cached_vbo) word) p
        ≡ two_bytes vbo word (view disk.contents w) p
  view-written w vbo word p on from to = ground (arith, on)

  written-Coherent :
      (w : Volume D) (offset word : ℕ)
      → Coherent disk w
      → w.cached ≡ true
      → word < 2 ^ 16
      → Coherent disk (written w offset word)
  written-Coherent w offset word c on lt = record {
    mountable = c.mountable;
    aligned = c.aligned;
    cache_bytes = λ p. ground (arith, c.cache_bytes p, lt);
    dirty_cached = λ _. on;
    copies = λ k p k_lt below out. ground (arith, out, c.copies k p k_lt below);
  }

  -- The word that the code writes is the one that puts the entry into the FAT.
  written_put :
      (i entry : ℕ) (v w : Volume D) (p : ℕ)
      → Mapped disk (entry_vbo (is_twelve_bit v.bpb) i) v w
      → let twelve = is_twelve_bit v.bpb in
        let offset = entry_vbo twelve i - w.cached_vbo in
        let old = little_word (w.cache offset) (w.cache (offset + 1)) in
        view disk.contents (written w offset (encode twelve i old entry)) p
        ≡ put_fat_entry twelve i entry (view disk.contents w) p
  written_put i entry v w p m =
      let twelve = is_twelve_bit v.bpb in
      let vbo = entry_vbo twelve i in
      let offset = vbo - w.cached_vbo in
      let old = little_word (w.cache offset) (w.cache (offset + 1)) in
      let (low, high) = word_lem i v w m in
      let inside = word_inside twelve i w.cached_vbo (m.coherent.aligned m.on).0 m.to in
      view-written w vbo (encode twelve i old entry) p m.on m.from inside
      ∙ sym (λ t.
        two_bytes vbo (encode twelve i (little_word (low t) (high t)) entry) (view disk.contents w)
          p)
      ∙ sym (put_fat_entry_bytes twelve i entry (view disk.contents w) p)

  -- `FatSetFatEntry` sets its entry, cut to the width of the FAT, and leaves every other entry of the
  -- FAT as it was, whatever window is cached before the call.
  pub set_fat_entry-Updated :
      (i entry : ℕ) (v : Volume D)
      → Coherent disk v
      → InFat v.bpb i
      → entry < 2 ^ 16
      → (w : Volume D) × (set_fat_entry dev i entry v ≡ (ok tt, w)) × Updated i entry v w
  unfolding set_fat_entry
  set_fat_entry-Updated i entry v c h lt =
      let twelve = is_twelve_bit v.bpb in
      let vbo = entry_vbo twelve i in
      let (w, e, m) = map_window-Mapped disk vbo v c (omega arith) in
      let offset = vbo - w.cached_vbo in
      let old = little_word (w.cache offset) (w.cache (offset + 1)) in
      let word = encode twelve i old entry in
      let word_lt =
        encode-lt twelve i old entry
          (omega (arith, m.coherent.cache_bytes offset, m.coherent.cache_bytes (offset + 1))) lt in
      (
        written w offset word,
        rw e refl,
        record {
          coherent = written-Coherent w offset word m.coherent m.on word_lt;
          same_bpb = m.same_bpb;
          entries = λ j j_in.
              ap (λ b. fat_entry (is_twelve_bit b) j (view disk.contents (written w offset word)))
                m.same_bpb
              ∙ fat_entry-cong twelve j (view disk.contents (written w offset word))
                  (put_fat_entry twelve i entry (view disk.contents w))
                  (written_put i entry v w _ m) (written_put i entry v w _ m)
              ∙ fat_entry-put twelve i j entry (view disk.contents w) (view-IsBytes w m.coherent) lt
              ∙ ap (λ x. if i == j then entry % entry_limit twelve else x)
                  (fat_entry-cong twelve j (view disk.contents w) (view disk.contents v)
                    (m.same_view _ (omega arith)) (m.same_view _ j_in));
        },
      )
