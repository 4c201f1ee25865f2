-- ===== src/Fat/Truncate/Follows.antt =====
-- Cluster chains in the FAT of arcfw/ported/fatboot.c, and what changes of single entries do to them.
use arcpi.Base.{
  ℕ, zero, suc, ◌<◌, ◌≡◌, ◌≢◌, refl, sym, subst, ◌∙◌, true, false, arith, List, [], ◌∷◌, All,
  All-last_take, length, take, drop, last_or, All-every, All-zip, All-drop,
}
use arcpi.Fat.{Bpb, cluster_available}
use arcpi.Fat.Cluster.{is_next}
use arcpi.Fat.Cluster.Allocate.{put, Distinct}

module _ (b : Bpb) where
  -- From entry `e` on the table leads through these clusters to an entry that ends them.
  abbrev pub Follows : (ℕ → ℕ) → (e : ℕ) → List ℕ → Type 0
  Follows t e [] = is_next b e ≡ false
  Follows t e (c ∷ cs) = (e ≡ c) × (is_next b c ≡ true) × Follows t (t c) cs

  put-other : (i x : ℕ) (t : ℕ → ℕ) (j : ℕ) → i ≢ j → put i x t j ≡ t j
  put-other i x t j ne = ground (arith, ne)

  -- An entry that belongs to no cluster of the chain may change.
  pub Follows-put :
      (i x : ℕ) (t : ℕ → ℕ) (e : ℕ) (cs : List ℕ)
      → All (λ c. i ≢ c) cs
      → Follows t e cs
      → Follows (put i x t) e cs
  Follows-put i x t e [] a f = f
  Follows-put i x t e (c ∷ cs) (ne, a) (h, n, f) = (
    h,
    n,
    subst (λ v. Follows (put i x t) v cs) (sym (put-other i x t c ne))
        (Follows-put i x t (t c) cs a f),
  )

  -- The table with the entries of these clusters made available.
  abbrev pub freed : List ℕ → (ℕ → ℕ) → ℕ → ℕ
  freed [] t = t
  freed (c ∷ cs) t = freed cs (put c cluster_available t)

  pub freed_outside : (cs : List ℕ) (t : ℕ → ℕ) (j : ℕ) → All (λ c. c ≢ j) cs → freed cs t j ≡ t j
  freed_outside [] t j a = refl
  freed_outside (c ∷ cs) t j (ne, a) =
      freed_outside cs (put c cluster_available t) j a ∙ put-other c cluster_available t j ne

  freed_same :
      (cs : List ℕ) (t : ℕ → ℕ) (j : ℕ) → t j ≡ cluster_available → freed cs t j ≡ cluster_available
  freed_same [] t j e = e
  freed_same (c ∷ cs) t j e = freed_same cs (put c cluster_available t) j (ground (arith, e))

  pub freed_available : (cs : List ℕ) (t : ℕ → ℕ) → All (λ c. freed cs t c ≡ cluster_available) cs
  freed_available [] t = tt
  freed_available (c ∷ cs) t = (
    freed_same cs (put c cluster_available t) c (ground arith),
    freed_available cs (put c cluster_available t),
  )

  pub Follows-freed :
      (xs : List ℕ) (t : ℕ → ℕ) (e : ℕ) (cs : List ℕ)
      → All (λ x. All (λ c. x ≢ c) cs) xs
      → Follows t e cs
      → Follows (freed xs t) e cs
  Follows-freed [] t e cs a f = f
  Follows-freed (x ∷ xs) t e cs (h, a) f =
      Follows-freed xs (put x cluster_available t) e cs a
        (Follows-put x cluster_available t e cs h f)

  -- A chain cut behind its first `n + 1` clusters, by an end mark in the last of them.
  pub Follows-cut :
      (n mark : ℕ) (t : ℕ → ℕ) (e d : ℕ) (cs : List ℕ)
      → is_next b mark ≡ false
      → Distinct cs
      → n < length cs
      → Follows t e cs
      → Follows (put (last_or (take (suc n) cs) d) mark t) e (take (suc n) cs)
  Follows-cut n mark t e d [] m dis lt f = absurd (omega (arith, lt))
  Follows-cut zero mark t e d (c ∷ cs) m dis lt (h, nx, f) =
      (h, nx, subst (λ v. is_next b v ≡ false) (ground arith) m)
  Follows-cut (suc n) mark t e d (c ∷ []) m dis lt f = absurd (omega (arith, lt))
  Follows-cut (suc n) mark t e d (c ∷ x ∷ cs) m (dc, dis) lt (h, nx, f) =
      let i = last_or (take (suc n) (x ∷ cs)) c in
      let ne : i ≢ c = λ eq. All-last_take (λ x. c ≢ x) n x cs dc (sym eq) in
      (
        h,
        nx,
        subst (λ v. Follows (put i mark t) v (take (suc n) (x ∷ cs)))
            (sym (put-other i mark t c ne))
            (Follows-cut n mark t (t c) c (x ∷ cs) m dis (omega (arith, lt)) f),
      )

  pub Follows-nexts :
      (t : ℕ → ℕ) (e : ℕ) (cs : List ℕ) → Follows t e cs → All (λ c. is_next b c ≡ true) cs
  Follows-nexts t e [] f = tt
  Follows-nexts t e (c ∷ cs) (h, nx, f) = (nx, Follows-nexts t (t c) cs f)

  pub Follows-ended :
      (t : ℕ → ℕ) (e : ℕ) (cs : List ℕ) → Follows t e cs → is_next b e ≡ false → cs ≡ []
  Follows-ended t e [] f n = refl
  Follows-ended t e (c ∷ cs) (h, nx, f) n =
      let nx' = subst (λ c. is_next b c ≡ true) (sym h) nx in absurd cc

-- The last cluster of the kept part is none of the others.
pub apart_last :
    (n c : ℕ) (cs : List ℕ) → Distinct (c ∷ cs) → All (λ x. last_or (take n cs) c ≢ x) (drop n cs)
apart_last zero c cs d = d.0
apart_last (suc n) c [] d = tt
apart_last (suc n) c (x ∷ cs) d = apart_last n x cs d.1

pub apart_kept :
    (n : ℕ) (cs : List ℕ) → Distinct cs → All (λ x. All (λ c. x ≢ c) (take n cs)) (drop n cs)
apart_kept zero cs d = All-every _ cs (λ x. tt)
apart_kept (suc n) [] d = tt
apart_kept (suc n) (c ∷ cs) (dc, d) =
    All-zip (drop n cs) (λ x ne a. (λ e. ne (sym e), a)) (All-drop _ n cs dc) (apart_kept n cs d)

pub Distinct-drop : (n : ℕ) (cs : List ℕ) → Distinct cs → Distinct (drop n cs)
Distinct-drop zero cs d = d
Distinct-drop (suc n) [] d = tt
Distinct-drop (suc n) (c ∷ cs) d = Distinct-drop n cs d.1

pub Follows-cong :
    (b : Bpb) (t u : ℕ → ℕ) (e : ℕ) (cs : List ℕ)
    → All (λ c. t c ≡ u c) cs
    → Follows b t e cs
    → Follows b u e cs
Follows-cong b t u e [] a f = f
Follows-cong b t u e (c ∷ cs) (h, a) (ec, nx, f) =
    (ec, nx, subst (λ v. Follows b u v cs) h (Follows-cong b t u (t c) cs a f))
