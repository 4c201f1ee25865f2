-- ===== src/Memory/Shrunk.antt =====
-- `BlGenerateDescriptor` of arcfw/ported/blmemory.c when its own call of `BlAllocateHeap` has to
-- make a new heap, and takes it from the very descriptor that is being cut.
use arcpi.Base.{
  ℕ, ◌+◌, ◌-◌, ◌≤◌, ◌<◌, ◌≡◌, ◌∙◌, refl, true, false, ◌&&◌, some, List, [], ◌∷◌, ◌++◌, arith, ◌==◌,
  length, get_elem?, set, sub32, add32, word, length-set, get_elem?-lt, get_elem?-set_self,
  get_elem?-append_left, esuccess,
}
use mathlib.Core.List.{append_assoc}
use arcpi.Memory.{
  TypeOfMemory, Descriptor, descriptor, Loader, null, descriptor_size, descriptor_at,
  put_descriptor, insert_tail, first_free, allocate_heap, trim_descriptor, generate_descriptor,
}
use arcpi.Memory.Cover.{AllBounded, AllBounded-get, descriptor_at-eq}
use arcpi.Memory.Refill.{IsFull, allocate_heap-refill}

module _ {m : Loader} (i : ℕ) (kind : TypeOfMemory) (count : ℕ) {d : Descriptor}
    (full : IsFull descriptor_size m) (b : AllBounded m.descriptors)
    (at : get_elem? m.descriptors i ≡ some d) (found : first_free 16 0 m.descriptors ≡ some i)
    (inside : count < d.count) where
  -- What the refill leaves of the descriptor.
  shrunk : Descriptor
  shrunk = descriptor d.kind d.base (d.count - 16)

  shrunk_at :
      (es : List Descriptor) → get_elem? ((set m.descriptors i shrunk ++ es)) i ≡ some shrunk
  shrunk_at es =
      let lt : i < length m.descriptors = get_elem?-lt m.descriptors i at in
      get_elem?-append_left (set m.descriptors i shrunk) es i
        (omega (arith, length-set m.descriptors i shrunk))
      ∙ get_elem?-set_self m.descriptors i shrunk lt

  after_refill :
      get_elem?
        ((allocate_heap descriptor_size m).1.descriptors ++ (descriptor kind d.base count ∷ []))
        i
      ≡ some shrunk
  unfolding shrunk
  after_refill =
      let r = allocate_heap-refill descriptor_size full b at found in
      rw (r.descriptors, append_assoc) (shrunk_at _)

  trim_wraps :
      (m₁ : Loader)
      → get_elem? m₁.descriptors i ≡ some shrunk
      → d.count < count + 16
      → 16 ≤ d.count
      → d.count < word
      → let (s, m') = trim_descriptor i d.base count 0 m₁ in
        (s ≡ esuccess) × (word ≤ (descriptor_at i m').count + 16)
  unfolding trim_descriptor shrunk
  trim_wraps m₁ at₁ large big small =
      let rest = descriptor d.kind (add32 d.base count) (sub32 (d.count - 16) count) in
      let same : (d.base == d.base) ≡ true = ground arith in
      let after : descriptor_at i (put_descriptor i rest m₁) ≡ rest =
        descriptor_at-eq (put_descriptor i rest m₁) i
          (get_elem?-set_self m₁.descriptors i rest (get_elem?-lt m₁.descriptors i at₁)) in
      rw (descriptor_at-eq m₁ i at₁, same) (refl, rw after (omega arith))

  -- If the heap is full and the descriptor that is being cut is the one that the new heap comes
  -- out of, a region at its start that is larger than what the heap leaves is granted all the
  -- same, and the rest of the descriptor is given a page count that has wrapped below zero.
  pub generate_descriptor_wraps :
      d.count < count + 16
      → 16 ≤ d.count
      → let (s, m') = generate_descriptor i kind d.base count m in
        (s ≡ esuccess) × (word ≤ (descriptor_at i m').count + 16)
  unfolding generate_descriptor
  generate_descriptor_wraps large big =
      let r = allocate_heap-refill descriptor_size full b at found in
      let got : ((allocate_heap descriptor_size m).0 == null) ≡ false =
        ground (arith, r.some_block) in
      let fits = (AllBounded-get m.descriptors i b at).fits in
      let off : sub32 d.base d.base ≡ 0 = omega arith in
      let part : (0 == 0 && count == d.count) ≡ false = ground arith in
      rw (descriptor_at-eq m i at, off, part, got)
        (trim_wraps (insert_tail (descriptor kind d.base count) (allocate_heap descriptor_size m).1)
          after_refill large big (omega arith))
