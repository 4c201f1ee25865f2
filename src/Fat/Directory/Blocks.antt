-- ===== src/Fat/Directory/Blocks.antt =====
-- The loop over blocks of 16 entries in `FatSearchForDirent` of arcfw/ported/fatboot.c.
use arcpi.Base.{
  ℕ, zero, suc, ◌+◌, ◌*◌, ◌^◌, ◌<◌, ◌≡◌, refl, sym, ap, subst, ◌∙◌, Bool, arith, Option, none, some,
  enoent, inl, inr, add32,
}
use arcpi.Runtime.{Memory}
use arcpi.Fat.{Bpb}
use arcpi.Fat.Action.{Action, Result, ok, fail}
use arcpi.Fat.Interface.{FatOps, IsFat}
use arcpi.Fat.Directory.{at, scan, looked_at, search_blocks}
use arcpi.Fat.Directory.Reference.{
  Scan-cases, Inside, entries_from, blocks_from, first_match, first_match-nothing, placed, after,
  first_match-append, first_match-scan, entry_same, scan-Inside,
}
use arcpi.Fat.Directory.Reader.{IsReader, Has, IsRegion, BlocksAnswer, next-IsRegion}

module _ {S : Type 0} {ops : FatOps S} {limit : ℕ} (fat : IsFat ops limit)
    (read : (lbo length : ℕ) → Memory → Action S Memory) (reader : IsReader fat read) (b : Bpb)
    (t : ℕ → ℕ) (m : Memory) where
  abbrev Passed : (root : Bool) → (name : Memory) → (n offset start : ℕ) → Memory → S → Type 0
  Passed root name n offset start buffer s =
      (r : Result (Option (Memory × ℕ) × Memory)) × (s' : S) × (search_blocks ops read b root name n
          offset start buffer s
        ≡ (r, s'))
      × Has fat read reader t m s'
      × BlocksAnswer fat read reader m (first_match root name m (blocks_from n (offset + start))) r

  -- One round of the loop, with the rounds behind it.
  search_round :
      (root : Bool) (name : Memory) (n offset start : ℕ) (buffer buf : Memory) (s s1 : S)
      → offset + start + 512 < 2 ^ 32
      → read (offset + start) 512 buffer s ≡ (ok buf, s1)
      → Has fat read reader t m s1
      → ((q : ℕ) → q < 512 → buf q ≡ m (offset + start + q))
      → Passed root name n (add32 offset 512) start buf s1
      → Passed root name (suc n) offset start buffer s
  unfolding search_blocks
  search_round root name n offset start buffer buf s s1 fits e has same (r, s2, e2, has2, a) =
      let lbo = offset + start in
      let found_here = scan root name 16 0 buf in
      let behind = first_match root name m (blocks_from n (lbo + 512)) in
      let at_lbo : add32 offset start ≡ lbo = omega (arith, fits) in
      let here : first_match root name m (entries_from 16 lbo) ≡ placed lbo found_here =
        subst
          (λ p. first_match root name m (entries_from 16 p) ≡ placed lbo (scan root name 16 0 buf))
          (omega arith) (first_match-scan root name m buf lbo same 16 0 (omega arith)) in
      let all : first_match root name m (blocks_from (suc n) lbo)
          ≡ after (placed lbo found_here) behind =
        first_match-append root name m (entries_from 16 lbo) (blocks_from n (lbo + 512))
        ∙ ap (λ r. after r behind) here in
      let rest = search_blocks ops read b root name n (add32 offset 512) start buf in
      elim (Scan-cases found_here) [
        | inl (i, f) ↦
            let lt : i < 16 =
              subst Inside f (scan-Inside root name m buf lbo same 16 0 (omega arith)) in
            let pos : add32 lbo (i * 32) ≡ lbo + i * 32 = omega (arith, lt, fits) in
            (
              ok (some (at (i * 32) buf, add32 lbo (i * 32)), buf),
              s1,
              rw (at_lbo, e) (ap (λ c. looked_at c lbo buf rest s1) f),
              has,
              subst
                  (λ c.
                    BlocksAnswer fat read reader m c
                      (ok (some (at (i * 32) buf, add32 lbo (i * 32)), buf)))
                  (sym (all ∙ ap (λ c. after (placed lbo c) behind) f))
                  (_, buf, refl, (pos, entry_same root name m buf lbo same i lt)),
            )
        | inr (inl f) ↦ (
          fail enoent,
          s1,
          rw (at_lbo, e) (ap (λ c. looked_at c lbo buf rest s1) f),
          has,
          subst (λ c. BlocksAnswer fat read reader m c (fail enoent))
              (sym (all ∙ ap (λ c. after (placed lbo c) behind) f)) refl,
        )
        | inr (inr f) ↦
            let next : add32 offset 512 + start ≡ lbo + 512 = omega (arith, fits) in
            (
              r,
              s2,
              rw (at_lbo, e) (ap (λ c. looked_at c lbo buf rest s1) f ∙ e2),
              has2,
              subst (λ c. BlocksAnswer fat read reader m c r)
                  (ap (λ p. first_match root name m (blocks_from n p)) next
                    ∙ sym (all ∙ ap (λ c. after (placed lbo c) behind) f))
                  a,
            )
      ]

  search_blocks-Passed :
      (root : Bool) (name : Memory) (n offset start : ℕ) (buffer : Memory) (s : S)
      → Has fat read reader t m s
      → IsRegion fat read reader n (offset + start)
      → Passed root name n offset start buffer s
  unfolding search_blocks
  search_blocks-Passed root name zero offset start buffer s h g = (
    ok (none, buffer),
    s,
    refl,
    h,
    subst (λ c. BlocksAnswer fat read reader m c (ok (none, buffer)))
        (sym (first_match-nothing root name m)) (buffer, refl),
  )
  search_blocks-Passed root name (suc n) offset start buffer s h g =
      let lbo = offset + start in
      let (buf, s1, e, good, table, read_bytes, kept) =
        reader.read_lem lbo 512 buffer s h.good (omega arith)
          (λ q lt. g.stored q (omega (arith, lt))) in
      let has : Has fat read reader t m s1 = record {
        good = good;
        table = λ j r. table j r ∙ h.table j r;
        bytes = λ p r. kept p r ∙ h.bytes p r;
      } in
      let next : lbo + 512 ≡ add32 offset 512 + start = omega (arith, g.fits) in
      search_round root name n offset start buffer buf s s1 (omega (arith, g.fits)) e has
        (λ q lt. read_bytes q lt ∙ h.bytes (lbo + q) (g.stored q (omega (arith, lt))))
        (search_blocks-Passed root name n (add32 offset 512) start buf s1 has
          (subst (IsRegion fat read reader n) next (next-IsRegion fat read reader n lbo g)))

  pub from_start :
      (root : Bool) (name : Memory) (n start : ℕ) (buffer : Memory) (s : S)
      → Has fat read reader t m s
      → IsRegion fat read reader n start
      → (r : Result (Option (Memory × ℕ) × Memory)) × (s' : S) × (search_blocks ops read b root name
            n 0 start buffer s
          ≡ (r, s'))
        × Has fat read reader t m s'
        × BlocksAnswer fat read reader m (first_match root name m (blocks_from n start)) r
  from_start root name n start buffer s h g =
      let zero_add : start ≡ 0 + start = omega arith in
      let (r, s', e, has, a) =
        search_blocks-Passed root name n 0 start buffer s h
          (subst (IsRegion fat read reader n) zero_add g) in
      (
        r,
        s',
        e,
        has,
        subst (λ p. BlocksAnswer fat read reader m (first_match root name m (blocks_from n p)) r)
            (sym zero_add) a,
      )
