-- ===== src/Fat/Cluster/Loop.antt =====
-- The loop of `FatAllocateClusters` in arcfw/ported/fatboot.c against its description in
-- Fat/Cluster/Allocate.
use native.Mathlib.Nat.{mod-eq_of_lt}
use arcpi.Base.{
  ℕ, zero, suc, ◌+◌, ◌/◌, ◌%◌, ◌^◌, ◌≤◌, ◌<◌, ◌≡◌, ◌≢◌, refl, ap, ◌∙◌, Bool, true, false, subst,
  ◌==◌, if◌then◌else◌, arith, Bool-cases, inl, inr, ◌⊎◌, List, [], ◌∷◌, All, add32,
}
use arcpi.Fat.{Bpb, bytes_per_cluster, index_to_lbo, cluster_last}
use arcpi.Fat.Action.{ok}
use arcpi.Fat.Interface.{FatOps, IsFat}
use arcpi.Fat.Cluster.{is_available, examined, clear_sectors, take_cluster, allocate_loop}
use arcpi.Fat.Cluster.Allocate.{
  put, picked, probes, picked-cong, in_time-cong, link, outcome, Distinct,
}

if_same : {A : Type 0} (c : Bool) (x : A) → (if c then x else x) ≡ x
if_same true x = refl
if_same false x = refl

module _ {S : Type 0} {ops : FatOps S} {limit : ℕ} (fat : IsFat ops limit) (b : Bpb) where
  -- The state holds this table.
  pub record Holds (s : S) (t : ℕ → ℕ) : Type 0 where
    pub good : fat.Good s
    pub same : (j : ℕ) → fat.InRange j → fat.entries s j ≡ t j

  abbrev ClearFits : (n lbo : ℕ) → Type 0
  ClearFits zero lbo = Unit {0}
  ClearFits (suc n) lbo = fat.Writable lbo 512 × ClearFits n (add32 lbo 512)

  -- A cluster number that fits into an entry, of a cluster on the disk.
  pub record Usable (q : ℕ) : Type 0 where
    pub in_range : fat.InRange q
    pub nonzero : 0 < q
    pub below : q < limit
    pub clearable : ClearFits ((bytes_per_cluster b + 511) / 512) (index_to_lbo b q)

  clear_sectors_lem :
      (n lbo : ℕ) (s : S)
      → fat.Good s
      → ClearFits n lbo
      → (s' : S) × (clear_sectors ops b n lbo s ≡ (ok tt, s')) × Holds s' (fat.entries s)
  unfolding clear_sectors
  clear_sectors_lem zero lbo s g f = (s, refl, record { good = g; same = λ j h. refl })
  clear_sectors_lem (suc n) lbo s g (w, f) =
      let (s1, e1, g1, m1) = fat.write_lem lbo 512 (λ _. 0) s g w (λ p. omega arith) in
      let (s2, e2, h2) = clear_sectors_lem n (add32 lbo 512) s1 g1 f in
      (s2, rw (e1, e2) refl, record { good = h2.good; same = λ j h. h2.same j h ∙ m1 j h })

  -- The entry that marks the end of a chain.
  abbrev pub last_mark : ℕ
  last_mark = cluster_last % limit

  abbrev linked_to : (previous q : ℕ) → (ℕ → ℕ) → ℕ → ℕ
  linked_to p q t = if p == 0 then t else put p q t

  link_previous :
      (p q : ℕ) (s : S) (t : ℕ → ℕ)
      → limit ≤ 2 ^ 16
      → Holds s t
      → (p ≡ 0) ⊎ fat.InRange p
      → q < limit
      → (s' : S) × ((if p == 0 then (λ x. (ok tt, x)) else ops.set p q) s ≡ (ok tt, s'))
        × Holds s' (linked_to p q t)
  link_previous p q s t small h from below = elim (Bool-cases (p == 0)) [
    | inl e ↦ (s, rw e refl, record { good = h.good; same = λ j r. rw e (h.same j r) })
    | inr e ↦
        let range : fat.InRange p = elim from [
          | inl z ↦ absurd (ground (arith, z, e))
          | inr r ↦ r
        ] in
        let (s1, e1, g1, m1) = fat.set_lem p q s h.good range (omega arith) in
        (
          s1,
          rw (e, e1) refl,
          record { good = g1; same = λ j r. rw (e, m1 j r, mod-eq_of_lt below, h.same j r) refl },
        )
  ]

  take_cluster_lem :
      (p q : ℕ) (s : S) (t : ℕ → ℕ)
      → limit ≤ 2 ^ 16
      → Holds s t
      → (p ≡ 0) ⊎ fat.InRange p
      → Usable q
      → (s' : S) × (take_cluster ops b p q s ≡ (ok tt, s'))
        × Holds s' (put q last_mark (linked_to p q t))
  unfolding take_cluster
  take_cluster_lem p q s t small h from u =
      let (s1, e1, h1) = link_previous p q s t small h from u.below in
      let (s2, e2, g2, m2) = fat.set_lem q cluster_last s1 h1.good u.in_range (omega arith) in
      let (s3, e3, h3) = clear_sectors_lem _ _ s2 g2 u.clearable in
      (
        s3,
        rw (e1, e2, e3) refl,
        record {
          good = h3.good;
          same =
              λ j r. h3.same j r ∙ m2 j r ∙ ap (λ x. if q == j then last_mark else x) (h1.same j r);
        },
      )

  -- Taking a cluster leaves the entries of the others but the one before it.
  untouched :
      (p q last : ℕ) (t : ℕ → ℕ) (qs : List ℕ)
      → (p ≡ 0) ⊎ All (λ x. p ≢ x) qs
      → All (λ x. q ≢ x) qs
      → All (λ x. put q last (linked_to p q t) x ≡ t x) qs
  untouched p q last t [] f d = tt
  untouched p q last t (x ∷ qs) (inl z) (ne, d) =
      (ground (arith, z, ne), untouched p q last t qs (inl z) d)
  untouched p q last t (x ∷ qs) (inr (pe, f)) (ne, d) =
      (ground (arith, pe, ne), untouched p q last t qs (inr f) d)

  later :
      (p q : ℕ) (qs : List ℕ) → (p ≡ 0) ⊎ All (λ x. p ≢ x) (q ∷ qs) → (p ≡ 0) ⊎ All (λ x. p ≢ x) qs
  later p q qs (inl z) = inl z
  later p q qs (inr (_, f)) = inr f

  outcome_step :
      (t t2 : ℕ → ℕ) (q p first r : ℕ) (qs : List ℕ)
      → 0 < q
      → is_available b (t q) ≡ true
      → All (λ x. t2 x ≡ t x) qs
      → outcome b t2 r q (if p == 0 then q else first) qs ≡ outcome b t (suc r) p first (q ∷ qs)
  outcome_step t t2 q p first r qs nonzero free a =
      let not_zero : (q == 0) ≡ false = ground (arith, nonzero) in
      rw (free, in_time-cong b t2 t r qs a, not_zero) refl

  pub allocate_loop_lem :
      (n j hint r p first : ℕ) (s : S) (t : ℕ → ℕ)
      → limit ≤ 2 ^ 16
      → Holds s t
      → (p ≡ 0) ⊎ fat.InRange p
      → (p ≡ 0) ⊎ All (λ x. p ≢ x) (probes b n j hint)
      → All Usable (probes b n j hint)
      → Distinct (probes b n j hint)
      → (s' : S) × (allocate_loop ops b n j hint r p first s
          ≡ (outcome b t r p first (probes b n j hint), s'))
        × Holds s' (link last_mark p (picked b t r (probes b n j hint)) t)
  unfolding allocate_loop
  allocate_loop_lem zero j hint zero p first s t small h from f u d = (s, refl, h)
  allocate_loop_lem zero j hint (suc r) p first s t small h from f u d = (s, refl, h)
  allocate_loop_lem (suc n) j hint zero p first s t small h from f u d =
      (s, rw (if_same (p == 0) first) refl, h)
  allocate_loop_lem (suc n) j hint (suc r) p first s t small h from f (uq, us) (dq, ds) =
      let q = examined b hint j in
      let (s1, e1, g1, m1) = fat.lookup_lem q s h.good uq.in_range in
      let h1 : Holds s1 t = record { good = g1; same = λ j r. m1 j r ∙ h.same j r } in
      elim (Bool-cases (is_available b (t q))) [
        | inl free ↦
            let t2 = put q last_mark (linked_to p q t) in
            let qs = probes b n (suc j) hint in
            let (s2, e2, h2) = take_cluster_lem p q s1 t small h1 from uq in
            let rest = untouched p q last_mark t qs (later p q (probes b n (suc j) hint) f) dq in
            let (s3, e3, h3) =
              allocate_loop_lem n (suc j) hint r q (if p == 0 then q else first) s2 t2 small h2
                (inr uq.in_range) (inr dq) us ds in
            let run : allocate_loop ops b (suc n) j hint (suc r) p first s
                ≡ (outcome b t2 r q (if p == 0 then q else first) qs, s3) =
              rw (e1, h.same q uq.in_range, free, e2, e3) refl in
            (
              s3,
              run ∙ ap (λ o. (o, s3)) (outcome_step t t2 q p first r qs uq.nonzero free rest),
              rw free (
                  subst (λ cs. Holds s3 (link last_mark q cs t2)) (picked-cong b t2 t r qs rest)
                    h3),
            )
        | inr busy ↦
            let (s2, e2, h2) =
              allocate_loop_lem n (suc j) hint (suc r) p first s1 t small h1 from
                (later p q (probes b n (suc j) hint) f) us ds in
            (s2, rw (e1, h.same q uq.in_range, busy, e2) refl, rw busy h2)
      ]
