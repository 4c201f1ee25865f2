-- ===== src/Fat/Cluster/Allocated.antt =====
-- What `FatAllocateClusters` of arcfw/ported/fatboot.c allocates.
use arcpi.Base.{
  ℕ, zero, suc, ◌+◌, ◌≤◌, ◌<◌, ◌≡◌, subst, ◌≢◌, refl, sym, ◌∙◌, Bool, true, false, ◌==◌,
  if◌then◌else◌, arith, Bool-cases, inl, inr, ◌⊎◌, List, [], ◌∷◌, All, length,
}
use arcpi.Fat.{Bpb}
use arcpi.Fat.Cluster.{is_available}
use arcpi.Fat.Cluster.Allocate.{put, picked, in_time, link, Distinct}

-- Each cluster's entry is the next cluster, and the last one's is the mark.
abbrev pub IsChain : (last : ℕ) → (ℕ → ℕ) → List ℕ → Type 0
IsChain last t [] = Unit {0}
IsChain last t (c ∷ []) = t c ≡ last
IsChain last t (c ∷ d ∷ cs) = (t c ≡ d) × IsChain last t (d ∷ cs)

pub IsChain-cong :
    (last : ℕ) (t u : ℕ → ℕ) (cs : List ℕ)
    → All (λ c. t c ≡ u c) cs
    → IsChain last t cs
    → IsChain last u cs
IsChain-cong last t u [] a h = tt
IsChain-cong last t u (c ∷ []) (e, a) h = sym e ∙ h
IsChain-cong last t u (c ∷ d ∷ cs) (e, a) (h, hs) = (sym e ∙ h, IsChain-cong last t u (d ∷ cs) a hs)

pub link_outside :
    (last p : ℕ) (cs : List ℕ) (t : ℕ → ℕ) (j : ℕ)
    → All (λ c. c ≢ j) cs
    → (p ≡ 0) ⊎ (p ≢ j)
    → link last p cs t j ≡ t j
link_outside last p [] t j a ne = refl
link_outside last p (c ∷ cs) t j (nc, a) ne =
    link_outside last c cs (put c last (if p == 0 then t else put p c t)) j a (inr nc)
    ∙ ground (arith, nc, ne)

pub All-sym : (p : ℕ) (cs : List ℕ) → All (λ x. p ≢ x) cs → All (λ x. x ≢ p) cs
All-sym p [] a = tt
All-sym p (c ∷ cs) (ne, a) = (λ e. ne (sym e), All-sym p cs a)

link_previous_entry :
    (last p c : ℕ) (cs : List ℕ) (t : ℕ → ℕ)
    → 0 < p
    → All (λ x. p ≢ x) (c ∷ cs)
    → link last p (c ∷ cs) t p ≡ c
link_previous_entry last p c cs t pos (ne, a) =
    link_outside last c cs (put c last (if p == 0 then t else put p c t)) p (All-sym p cs a)
      (inr (λ e. ne (sym e)))
    ∙ ground (arith, pos, ne)

pub link-IsChain :
    (last p : ℕ) (cs : List ℕ) (t : ℕ → ℕ)
    → Distinct cs
    → All (λ c. 0 < c) cs
    → IsChain last (link last p cs t) cs
link-IsChain last p [] t d pos = tt
link-IsChain last p (c ∷ []) t d pos = ground arith
link-IsChain last p (c ∷ e ∷ cs) t (dc, d) (pc, pos) =
    let t2 = put c last (if p == 0 then t else put p c t) in
    (link_previous_entry last c e cs t2 pc dc, link-IsChain last c (e ∷ cs) t2 d pos)

pick_step :
    (c : Bool) (P : ℕ → Type 0) (q : ℕ) (xs ys : List ℕ)
    → (c ≡ true → P q)
    → All P xs
    → All P ys
    → All P (if c then q ∷ xs else ys)
pick_step true P q xs ys h ax ay = (h refl, ax)
pick_step false P q xs ys h ax ay = ay

module _ (b : Bpb) where
  pub picked-All :
      (P : ℕ → Type 0) (t : ℕ → ℕ) (r : ℕ) (qs : List ℕ) → All P qs → All P (picked b t r qs)
  picked-All P t zero qs a = tt
  picked-All P t (suc r) [] a = tt
  picked-All P t (suc r) (q ∷ qs) (h, a) =
      pick_step (is_available b (t q)) P q _ _ (λ _. h) (picked-All P t r qs a)
        (picked-All P t (suc r) qs a)

  pub picked_available :
      (t : ℕ → ℕ) (r : ℕ) (qs : List ℕ) → All (λ q. is_available b (t q) ≡ true) (picked b t r qs)
  picked_available t zero qs = tt
  picked_available t (suc r) [] = tt
  picked_available t (suc r) (q ∷ qs) =
      pick_step (is_available b (t q)) (λ q. is_available b (t q) ≡ true) q _ _ (λ e. e)
        (picked_available t r qs) (picked_available t (suc r) qs)

  pub picked-Distinct : (t : ℕ → ℕ) (r : ℕ) (qs : List ℕ) → Distinct qs → Distinct (picked b t r qs)
  picked-Distinct t zero qs d = tt
  picked-Distinct t (suc r) [] d = tt
  picked-Distinct t (suc r) (q ∷ qs) (f, d) = elim (Bool-cases (is_available b (t q))) [
    | inl free ↦ rw free (picked-All _ t r qs f, picked-Distinct t r qs d)
    | inr busy ↦ rw busy (picked-Distinct t (suc r) qs d)
  ]

  pub length-picked :
      (t : ℕ → ℕ) (r : ℕ) (qs : List ℕ) → in_time b t r qs ≡ true → length (picked b t r qs) ≡ r
  length-picked t zero qs e = refl
  length-picked t (suc r) [] e = absurd cc
  length-picked t (suc r) (q ∷ qs) e =
      ground (arith, e, length-picked t r qs, length-picked t (suc r) qs)

  -- How many of the clusters are available.
  abbrev pub free_count : (ℕ → ℕ) → List ℕ → ℕ
  free_count t [] = 0
  free_count t (q ∷ qs) = (if is_available b (t q) then 1 else 0) + free_count t qs

  pub late : (t : ℕ → ℕ) (r : ℕ) (qs : List ℕ) → in_time b t r qs ≡ false → free_count t qs ≤ r
  late t r [] e = omega arith
  late t zero (q ∷ qs) e = absurd cc
  late t (suc r) (q ∷ qs) e = ground (arith, e, late t r qs, late t (suc r) qs)

  pub free_count-cong :
      (t u : ℕ → ℕ) (qs : List ℕ) → All (λ q. t q ≡ u q) qs → free_count t qs ≡ free_count u qs
  free_count-cong t u [] a = refl
  free_count-cong t u (q ∷ qs) (h, a) = rw (h, free_count-cong t u qs a) refl

  -- Clusters with an entry are none of those without one.
  pub used_apart :
      (t : ℕ → ℕ) (c : ℕ) (ds : List ℕ)
      → is_available b (t c) ≡ false
      → All (λ d. is_available b (t d) ≡ true) ds
      → All (λ d. c ≢ d) ds
  used_apart t c [] u a = tt
  used_apart t c (d ∷ ds) u (h, a) = (
    (λ e. let h' = subst (λ d. is_available b (t d) ≡ true) (sym e) h in absurd cc),
    used_apart t c ds u a,
  )
