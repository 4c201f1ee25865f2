-- ===== src/Fat/Cluster/Allocate.antt =====
-- What the loop of `FatAllocateClusters` in arcfw/ported/fatboot.c leaves in the FAT.
use arcpi.Base.{
  ℕ, zero, suc, ◌≡◌, ◌≢◌, refl, Bool, true, false, ◌==◌, if◌then◌else◌, List, [], ◌∷◌, enospc, All,
}
use arcpi.Fat.{Bpb}
use arcpi.Fat.Action.{Result, ok, fail}
use arcpi.Fat.Cluster.{is_available, examined}

-- A table of entries with one replaced.
abbrev pub put : (i x : ℕ) → (ℕ → ℕ) → ℕ → ℕ
put i x t j = if i == j then x else t j

module _ (b : Bpb) where
  -- The first `needed` clusters of the list that the table has as available.
  abbrev pub picked : (ℕ → ℕ) → (needed : ℕ) → List ℕ → List ℕ
  picked t zero qs = []
  picked t (suc r) [] = []
  picked t (suc r) (q ∷ qs) =
      let yes_rest = picked t r qs in
      let no_rest = picked t (suc r) qs in if is_available b (t q) then q ∷ yes_rest else no_rest

  -- Whether a round is left after they have been found.
  abbrev pub in_time : (ℕ → ℕ) → (needed : ℕ) → List ℕ → Bool
  in_time t r [] = false
  in_time t zero (q ∷ qs) = true
  in_time t (suc r) (q ∷ qs) =
      let yes_rest = in_time t r qs in
      let no_rest = in_time t (suc r) qs in if is_available b (t q) then yes_rest else no_rest

  -- The clusters of rounds `j` to `j + n - 1`.
  abbrev pub probes : (n j hint : ℕ) → List ℕ
  probes zero j hint = []
  probes (suc n) j hint = examined b hint j ∷ probes n (suc j) hint

  pub picked-cong :
      (t u : ℕ → ℕ) (r : ℕ) (qs : List ℕ) → All (λ q. t q ≡ u q) qs → picked t r qs ≡ picked u r qs
  picked-cong t u zero qs a = refl
  picked-cong t u (suc r) [] a = refl
  picked-cong t u (suc r) (q ∷ qs) (e, a) =
      rw (e, picked-cong t u r qs a, picked-cong t u (suc r) qs a) refl

  pub in_time-cong :
      (t u : ℕ → ℕ) (r : ℕ) (qs : List ℕ)
      → All (λ q. t q ≡ u q) qs
      → in_time t r qs ≡ in_time u r qs
  in_time-cong t u r [] a = refl
  in_time-cong t u zero (q ∷ qs) a = refl
  in_time-cong t u (suc r) (q ∷ qs) (e, a) =
      rw (e, in_time-cong t u r qs a, in_time-cong t u (suc r) qs a) refl

-- Each cluster linked to the next, the last one marked as such, behind `previous` if that is not 0.
abbrev pub link : (last previous : ℕ) → List ℕ → (ℕ → ℕ) → ℕ → ℕ
link last previous [] t = t
link last previous (c ∷ cs) t =
    link last c cs (put c last (if previous == 0 then t else put previous c t))

abbrev pub first_of : List ℕ → ℕ → ℕ
first_of [] d = d
first_of (c ∷ cs) d = c

-- What the loop returns: the first cluster that was ever taken.
abbrev pub outcome : Bpb → (ℕ → ℕ) → (needed previous first : ℕ) → List ℕ → Result ℕ
outcome b t needed previous first qs =
    if in_time b t needed qs
    then ok (if previous == 0 then first_of (picked b t needed qs) first else first)
    else fail enospc

abbrev pub Distinct : List ℕ → Type 0
Distinct [] = Unit {0}
Distinct (q ∷ qs) = All (λ x. q ≢ x) qs × Distinct qs
