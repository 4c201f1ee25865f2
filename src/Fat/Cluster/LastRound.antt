-- ===== src/Fat/Cluster/LastRound.antt =====
-- The last round of `FatAllocateClusters` in arcfw/ported/fatboot.c.
use arcpi.Base.{
  ℕ, zero, suc, ◌+◌, ◌-◌, ◌^◌, ◌≤◌, ◌<◌, ◌≡◌, refl, ap, subst, ◌∙◌, Bool, true, false,
  if◌then◌else◌, arith, Bool-cases, inl, inr, List, [], ◌∷◌, enospc, length,
}
use arcpi.Fat.{Bpb, number_of_clusters}
use arcpi.Fat.Action.{ok, fail}
use arcpi.Fat.Interface.{FatOps, IsFat}
use arcpi.Fat.Cluster.{is_available, examined, allocate_clusters}
use arcpi.Fat.Cluster.Allocate.{picked, in_time, probes, first_of}
use arcpi.Fat.Cluster.Loop.{Usable, allocate_loop_lem}
use arcpi.Fat.Cluster.Allocated.{free_count}
use arcpi.Fat.Cluster.Probes.{Fits, IsCluster, Allocated, Allocated-by, probes-All, probes-Distinct}

spare_step :
    (c x y : Bool) (r n : ℕ)
    → (x ≡ true → r < n)
    → (y ≡ true → suc r < n)
    → (if c then x else y) ≡ true
    → suc r < (if c then 1 else 0) + n
spare_step true x y r n f g e = omega (arith, f e)
spare_step false x y r n f g e = omega (arith, g e)

module _ (b : Bpb) (t : ℕ → ℕ) where
  length-picked_all : (r : ℕ) (qs : List ℕ) → r ≤ free_count b t qs → length (picked b t r qs) ≡ r
  length-picked_all zero qs le = refl
  length-picked_all (suc r) [] le = absurd (omega (arith, le))
  length-picked_all (suc r) (q ∷ qs) le =
      ground (arith, le, length-picked_all r qs, length-picked_all (suc r) qs)

  abbrev FoundIn : (hint j : ℕ) → Type 0
  FoundIn hint j = is_available b (t (examined b hint j)) ≡ true

  -- Clusters that are found before the last round, and one that is available in it.
  in_time_spare :
      (n j i hint r : ℕ)
      → i ≡ j + n
      → FoundIn hint i
      → in_time b t r (probes b (suc n) j hint) ≡ true
      → r < free_count b t (probes b (suc n) j hint)
  in_time_spare zero j i hint zero at a e =
      let here : FoundIn hint j = subst (FoundIn hint) (omega (arith, at)) a in ground (arith, here)
  in_time_spare zero j i hint (suc r) at a e = absurd (ground (arith, e))
  in_time_spare (suc n) j i hint zero at a e =
      let rest = in_time_spare n (suc j) i hint zero (omega (arith, at)) a refl in
      omega (arith, rest)
  in_time_spare (suc n) j i hint (suc r) at a e =
      let a1 = in_time_spare n (suc j) i hint r (omega (arith, at)) a in
      let a2 = in_time_spare n (suc j) i hint (suc r) (omega (arith, at)) a in
      spare_step (is_available b (t (examined b hint j))) _ _ r _ a1 a2 e

  never_in_time :
      (n count hint : ℕ)
      → 0 < n
      → free_count b t (probes b n 0 hint) ≡ count
      → FoundIn hint (n - 1)
      → in_time b t count (probes b n 0 hint) ≡ false
  never_in_time zero count hint pos all final = absurd (omega (arith, pos))
  never_in_time (suc n) count hint pos all final =
      elim (Bool-cases (in_time b t count (probes b (suc n) 0 hint))) [
        | inl e ↦
            absurd
              (omega (arith, all, in_time_spare n 0 (suc n - 1) hint count (omega arith) final e))
        | inr e ↦ e
      ]

module _ {S : Type 0} {ops : FatOps S} {limit : ℕ} (fat : IsFat ops limit) (b : Bpb) where
  -- When just as many clusters are available as are asked for, and one of them is examined in the last
  -- round, then `FatAllocateClusters` answers ENOSPC although it has taken and linked them all.
  pub allocate_clusters-last_round :
      (count hint uninitialized : ℕ) (s : S)
      → 2 ≤ hint
      → hint < 2 ^ 16
      → Fits b limit
      → fat.Good s
      → ((q : ℕ) → 2 ≤ q → q < number_of_clusters b + 2 → Usable fat b q)
      → free_count b (fat.entries s) (probes b (number_of_clusters b) 0 hint) ≡ count
      → is_available b (fat.entries s (examined b hint (number_of_clusters b - 1))) ≡ true
      → (cs : List ℕ) × (s' : S) × (allocate_clusters ops b count hint uninitialized s
          ≡ (fail enospc, s'))
        × Allocated fat b s s' count cs
  unfolding allocate_clusters
  allocate_clusters-last_round count hint uninitialized s h2 hint_lt f g usable all final =
      let n = number_of_clusters b in
      let qs = probes b n 0 hint in
      let t = fat.entries s in
      let d = probes-Distinct b f h2 hint_lt n 0 (omega arith) in
      let us = probes-All b f h2 hint_lt (Usable fat b) n 0 usable (omega arith) in
      let numbers =
        probes-All b f h2 hint_lt (IsCluster fat b) n 0 (λ q a z. (a, z)) (omega arith) in
      let (s', e, h) =
        allocate_loop_lem fat b n 0 hint count 0 uninitialized s t f.small
          (record { good = g; same = λ j _. refl }) (inl refl) (inl refl) us d in
      let late = never_in_time b t n count hint f.some_cluster all final in
      (
        picked b t count qs,
        s',
        e
            ∙ ap
                (λ c. (
                  if c then ok (first_of (picked b t count qs) uninitialized) else fail enospc,
                  s',
                ))
                late,
        Allocated-by fat b count qs s s' d us numbers
            (length-picked_all b t count qs (omega (arith, all))) h,
      )
