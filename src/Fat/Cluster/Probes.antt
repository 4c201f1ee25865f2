-- ===== src/Fat/Cluster/Probes.antt =====
-- The clusters that `FatAllocateClusters` of arcfw/ported/fatboot.c examines, and its result.
use native.Mathlib.Nat.{mod-lt}
use arcpi.Base.{
  ℕ, zero, suc, ◌+◌, ◌-◌, ◌%◌, ◌^◌, ◌≤◌, ◌<◌, ◌≡◌, ◌≢◌, refl, sym, ap, ◌∙◌, true, false,
  if◌then◌else◌, arith, Bool-cases, inl, inr, List, [], ◌∷◌, add32, sub32, ushort, mod_apart,
  enospc, All, All-map, length,
}
use arcpi.Fat.{Bpb, number_of_clusters}
use arcpi.Fat.Action.{Result, ok, fail}
use arcpi.Fat.Interface.{FatOps, IsFat}
use arcpi.Fat.Cluster.{is_available, examined, allocate_clusters}
use arcpi.Fat.Cluster.Allocate.{picked, in_time, probes, link, first_of, Distinct}
use arcpi.Fat.Cluster.Loop.{Usable, Holds, last_mark, allocate_loop_lem}
use arcpi.Fat.Cluster.Allocated.{
  IsChain, IsChain-cong, link_outside, link-IsChain, picked-All, picked_available, picked-Distinct,
  All-sym, used_apart, length-picked, free_count, late,
}

first_of_nonempty : (cs : List ℕ) (c d : ℕ) → 0 < length cs → first_of cs c ≡ first_of cs d
first_of_nonempty [] c d h = absurd (omega (arith, h))
first_of_nonempty (x ∷ cs) c d h = refl

module _ (b : Bpb) where
  -- The volume has room for its clusters in the numbers below `limit`.
  pub record Fits (limit : ℕ) : Type 0 where
    pub some_cluster : 0 < number_of_clusters b
    pub numbered : number_of_clusters b + 2 ≤ limit
    pub small : limit ≤ 2 ^ 16

  examined_lem :
      (limit hint j : ℕ)
      → Fits limit
      → 2 ≤ hint
      → hint < 2 ^ 16
      → j < number_of_clusters b
      → examined b hint j ≡ (j + hint - 2) % number_of_clusters b + 2
  examined_lem limit hint j f h2 hint_lt lt =
      let small : sub32 (add32 j hint) 2 ≡ j + hint - 2 = omega (arith, f.numbered, f.small) in
      let r = mod-lt (j + hint - 2) f.some_cluster in
      ap (λ x. ushort (x % number_of_clusters b + 2)) small ∙ omega (arith, r, f.numbered, f.small)

  module _ {limit hint : ℕ} (f : Fits limit) (h2 : 2 ≤ hint) (hint_lt : hint < 2 ^ 16) where
    examined-in_range :
        (j : ℕ)
        → j < number_of_clusters b
        → (2 ≤ examined b hint j) × (examined b hint j < number_of_clusters b + 2)
    examined-in_range j lt =
        let e = examined_lem limit hint j f h2 hint_lt lt in
        let r = mod-lt (j + hint - 2) f.some_cluster in (omega (arith, e), omega (arith, e, r))

    pub probes-All :
        (P : ℕ → Type 0) (n j : ℕ)
        → ((q : ℕ) → 2 ≤ q → q < number_of_clusters b + 2 → P q)
        → j + n ≤ number_of_clusters b
        → All P (probes b n j hint)
    probes-All P zero j h le = tt
    probes-All P (suc n) j h le =
        let (a, z) = examined-in_range j (omega (arith, le)) in
        (h (examined b hint j) a z, probes-All P n (suc j) h (omega (arith, le)))

    -- Two rounds examine different clusters.
    examined_apart :
        (i j : ℕ) → i < j → j < number_of_clusters b → examined b hint i ≢ examined b hint j
    examined_apart i j lt below e =
        let ei = examined_lem limit hint i f h2 hint_lt (omega arith) in
        let ej = examined_lem limit hint j f h2 hint_lt below in
        mod_apart (i + hint - 2) (j + hint - 2) (number_of_clusters b) (omega arith) (omega arith)
          (omega (arith, ei, ej, e))

    later_rounds :
        (i n j : ℕ)
        → i < j
        → j + n ≤ number_of_clusters b
        → All (λ q. examined b hint i ≢ q) (probes b n j hint)
    later_rounds i zero j lt le = tt
    later_rounds i (suc n) j lt le =
        (examined_apart i j lt (omega arith), later_rounds i n (suc j) (omega arith) (omega arith))

    pub probes-Distinct : (n j : ℕ) → j + n ≤ number_of_clusters b → Distinct (probes b n j hint)
    probes-Distinct zero j le = tt
    probes-Distinct (suc n) j le = (
      later_rounds j n (suc j) (omega arith) (omega arith),
      probes-Distinct n (suc j) (omega arith),
    )

module _ {S : Type 0} {ops : FatOps S} {limit : ℕ} (fat : IsFat ops limit) (b : Bpb) where
  -- The number of a cluster of the volume.
  abbrev pub IsCluster : ℕ → Type 0
  IsCluster q = (2 ≤ q) × (q < number_of_clusters b + 2)

  -- The clusters `cs` were available, and are now a chain; the other entries are as they were.
  pub record Allocated (s s' : S) (count : ℕ) (cs : List ℕ) : Type 0 where
    pub size : length cs ≡ count
    pub numbered : All IsCluster cs
    pub distinct : Distinct cs
    pub free : All (λ c. is_available b (fat.entries s c) ≡ true) cs
    pub chain : IsChain (last_mark fat b) (fat.entries s') cs
    pub others : (j : ℕ) → fat.InRange j → All (λ c. c ≢ j) cs → fat.entries s' j ≡ fat.entries s j

  abbrev pub AllocationOutcome : (s s' : S) (count hint : ℕ) → Result ℕ → Type 0
  AllocationOutcome s s' count hint (ok first) =
      (cs : List ℕ) × Allocated s s' count cs × (first_of cs 0 ≡ first)
  AllocationOutcome s s' count hint (fail e) =
      (e ≡ enospc)
      × (free_count b (fat.entries s) (probes b (number_of_clusters b) 0 hint) ≤ count)
      × ((j : ℕ)
          → fat.InRange j
          → is_available b (fat.entries s j) ≡ false
          → fat.entries s' j ≡ fat.entries s j)

  pub Allocated-by :
      (count : ℕ) (qs : List ℕ) (s s' : S)
      → Distinct qs
      → All (Usable fat b) qs
      → All IsCluster qs
      → length (picked b (fat.entries s) count qs) ≡ count
      → Holds fat b s'
          (link (last_mark fat b) 0 (picked b (fat.entries s) count qs) (fat.entries s))
      → Allocated s s' count (picked b (fat.entries s) count qs)
  Allocated-by count qs s s' d u numbered size h =
      let t = fat.entries s in
      let cs = picked b t count qs in
      let last = last_mark fat b in
      let us = picked-All b (Usable fat b) t count qs u in
      let distinct = picked-Distinct b t count qs d in
      record {
        size = size;
        numbered = picked-All b IsCluster t count qs numbered;
        distinct = distinct;
        free = picked_available b t count qs;
        chain =
            IsChain-cong last (link last 0 cs t) (fat.entries s') cs
              (All-map cs (λ c x. sym (h.same c x.in_range)) us)
              (link-IsChain last 0 cs t distinct (All-map cs (λ c x. x.nonzero) us));
        others = λ j r a. h.same j r ∙ link_outside last 0 cs t j a (inl refl);
      }

  -- `FatAllocateClusters` either takes as many available clusters as asked for, makes them one chain
  -- whose first cluster it returns, and leaves every other entry of the FAT alone, or it answers
  -- ENOSPC; then no more clusters than asked for were available, and no entry of a cluster in use
  -- has changed.
  pub allocate_clusters-Outcome :
      (count hint uninitialized : ℕ) (s : S)
      → 0 < count
      → 2 ≤ hint
      → hint < 2 ^ 16
      → Fits b limit
      → fat.Good s
      → ((q : ℕ) → 2 ≤ q → q < number_of_clusters b + 2 → Usable fat b q)
      → (r : Result ℕ) × (s' : S) × (allocate_clusters ops b count hint uninitialized s ≡ (r, s'))
        × fat.Good s'
        × AllocationOutcome s s' count hint r
  unfolding allocate_clusters
  allocate_clusters-Outcome count hint uninitialized s pos h2 hint_lt f g usable =
      let n = number_of_clusters b in
      let qs = probes b n 0 hint in
      let t = fat.entries s in
      let d = probes-Distinct b f h2 hint_lt n 0 (omega arith) in
      let us = probes-All b f h2 hint_lt (Usable fat b) n 0 usable (omega arith) in
      let numbers = probes-All b f h2 hint_lt IsCluster n 0 (λ q a z. (a, z)) (omega arith) in
      let (s', e, h) =
        allocate_loop_lem fat b n 0 hint count 0 uninitialized s t f.small
          (record { good = g; same = λ j _. refl }) (inl refl) (inl refl) us d in
      elim (Bool-cases (in_time b t count qs)) [
        | inl time ↦
            let a = Allocated-by count qs s s' d us numbers (length-picked b t count qs time) h in
            let cs = picked b t count qs in
            (
              ok (first_of cs uninitialized),
              s',
              e ∙ ap (λ c. (if c then ok (first_of cs uninitialized) else fail enospc, s')) time,
              h.good,
              (cs, a, first_of_nonempty cs 0 uninitialized (omega (arith, a.size))),
            )
        | inr gone ↦ (
          fail enospc,
          s',
          e
              ∙ ap
                  (λ c. (
                    if c then ok (first_of (picked b t count qs) uninitialized) else fail enospc,
                    s',
                  ))
                  gone,
          h.good,
          (
            refl,
            late b t count qs gone,
            λ j r busy.
                let cs = picked b t count qs in
                let apart =
                  All-sym j cs (used_apart b t j cs busy (picked_available b t count qs)) in
                h.same j r ∙ link_outside (last_mark fat b) 0 cs t j apart (inl refl),
          ),
        )
      ]
