-- ===== src/Fat/Truncate/Append.antt =====
-- A chain linked behind another one in the FAT of arcfw/ported/fatboot.c.
use arcpi.Base.{
  ℕ, ◌≡◌, ◌≢◌, refl, sym, subst, true, false, arith, List, [], ◌∷◌, ◌++◌, All, last_or,
}
use arcpi.Fat.{Bpb}
use arcpi.Fat.Cluster.{is_next}
use arcpi.Fat.Cluster.Allocate.{put, Distinct}
use arcpi.Fat.Cluster.Allocated.{IsChain}
use arcpi.Fat.Truncate.Follows.{Follows}

pub All-last : (P : ℕ → Type 0) (x : ℕ) (xs : List ℕ) → All P (x ∷ xs) → P (last_or xs x)
All-last P x [] a = a.0
All-last P x (y ∷ xs) a = All-last P y xs a.1

module _ (b : Bpb) where
  pub IsChain-Follows :
      (last : ℕ) (u : ℕ → ℕ) (c : ℕ) (cs : List ℕ)
      → IsChain last u (c ∷ cs)
      → All (λ c. is_next b c ≡ true) (c ∷ cs)
      → is_next b last ≡ false
      → Follows b u c (c ∷ cs)
  IsChain-Follows last u c [] h (nx, _) end =
      (refl, nx, subst (λ v. is_next b v ≡ false) (sym h) end)
  IsChain-Follows last u c (d ∷ cs) (h, hs) (nx, nxs) end = (
    refl,
    nx,
    subst (λ v. Follows b u v (d ∷ cs)) (sym h) (IsChain-Follows last u d cs hs nxs end),
  )

  put_here : (i x : ℕ) (t : ℕ → ℕ) → put i x t i ≡ x
  put_here i x t = ground arith

  pub put_there : (i x j : ℕ) (t : ℕ → ℕ) → i ≢ j → put i x t j ≡ t j
  put_there i x j t ne = ground (arith, ne)

  -- The last cluster of a chain is made to lead to `x`, where another chain starts.
  pub Follows-append :
      (x : ℕ) (t : ℕ → ℕ) (e c : ℕ) (cs ds : List ℕ)
      → Distinct (c ∷ cs)
      → Follows b t e (c ∷ cs)
      → Follows b (put (last_or cs c) x t) x ds
      → Follows b (put (last_or cs c) x t) e ((c ∷ cs) ++ ds)
  Follows-append x t e c [] ds dis (h, nx, f) g =
      (h, nx, subst (λ v. Follows b (put c x t) v ds) (sym (put_here c x t)) g)
  Follows-append x t e c (d ∷ cs) ds (dc, dis) (h, nx, f) g =
      let i = last_or cs d in
      let ne : i ≢ c = λ eq. All-last (λ y. c ≢ y) d cs dc (sym eq) in
      (
        h,
        nx,
        subst (λ v. Follows b (put i x t) v ((d ∷ cs) ++ ds)) (sym (put_there i x c t ne))
            (Follows-append x t (t c) d cs ds dis f g),
      )
