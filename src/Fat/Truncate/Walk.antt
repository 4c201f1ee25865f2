-- ===== src/Fat/Truncate/Walk.antt =====
-- The loops of `FatTruncateFileAllocation` and `FatIncreaseFileAllocation` in
-- arcfw/ported/fatboot.c along a cluster chain.
use native.Mathlib.Nat.{zero-mod}
use arcpi.Base.{
  ℕ, zero, suc, ◌-◌, ◌<◌, ◌≡◌, refl, ◌∙◌, ◌==◌, if◌then◌else◌, arith, List, [], ◌∷◌, All, length,
  take, drop, last_or,
}
use arcpi.Fat.{Bpb, cluster_available}
use arcpi.Fat.Action.{ok}
use arcpi.Fat.Interface.{FatOps, IsFat}
use arcpi.Fat.Cluster.Allocate.{put, Distinct}
use arcpi.Fat.Cluster.Loop.{Holds}
use arcpi.Fat.Truncate.{walk_clusters, free_clusters}
use arcpi.Fat.Truncate.Follows.{Follows, Follows-put, freed}

module _ {S : Type 0} {ops : FatOps S} {limit : ℕ} (fat : IsFat ops limit) (b : Bpb) where
  pub walk_clusters_lem :
      (n current e : ℕ) (cs : List ℕ) (s : S) (t : ℕ → ℕ)
      → Holds fat b s t
      → All fat.InRange cs
      → Follows b t e cs
      → (e' : ℕ) × (s' : S) × (walk_clusters ops b n current e s
          ≡ (ok (n - length cs, last_or (take n cs) current, e'), s'))
        × Holds fat b s' t
        × Follows b t e' (drop n cs)
  unfolding walk_clusters
  walk_clusters_lem zero current e cs s t h r f =
      let z : 0 ≡ 0 - length cs = omega arith in (e, s, (λ i. (ok (z i, current, e), s)), h, f)
  walk_clusters_lem (suc n) current e [] s t h r f =
      let z : suc n ≡ suc n - 0 = omega arith in (e, s, rw f (λ i. (ok (z i, current, e), s)), h, f)
  walk_clusters_lem (suc n) current e (c ∷ cs) s t h (rc, r) (ec, nx, f) =
      let (s1, e1, g1, m1) = fat.lookup_lem c s h.good rc in
      let (e', s', e2, h2, f2) =
        walk_clusters_lem n c (t c) cs s1 t
          (record { good = g1; same = λ j x. m1 j x ∙ h.same j x }) r f in
      let z : n - length cs ≡ suc n - suc (length cs) = omega arith in
      (
        e',
        s',
        rw (ec, nx, e1, h.same c rc, e2) (λ i. (ok (z i, last_or (take n cs) c, e'), s')),
        h2,
        f2,
      )

  pub free_clusters_lem :
      (fuel e : ℕ) (cs : List ℕ) (s : S) (t : ℕ → ℕ)
      → Holds fat b s t
      → All fat.InRange cs
      → Distinct cs
      → Follows b t e cs
      → length cs < fuel
      → (s' : S) × (free_clusters ops b fuel e s ≡ (ok tt, s')) × Holds fat b s' (freed b cs t)
  unfolding free_clusters
  free_clusters_lem zero e cs s t h r d f enough = absurd (omega (arith, enough))
  free_clusters_lem (suc n) e [] s t h r d f enough = (s, rw f refl, h)
  free_clusters_lem (suc n) e (c ∷ cs) s t h (rc, r) (dc, d) (ec, nx, f) enough =
      let (s1, e1, g1, m1) = fat.lookup_lem c s h.good rc in
      let (s2, e2, g2, m2) = fat.set_lem c cluster_available s1 g1 rc (omega arith) in
      let h2 : Holds fat b s2 (put c cluster_available t) = record {
        good = g2;
        same = λ j x. m2 j x ∙ (λ i. if c == j then zero-mod limit i else (m1 j x ∙ h.same j x) i);
      } in
      let (s3, e3, h3) =
        free_clusters_lem n (t c) cs s2 (put c cluster_available t) h2 r d
          (Follows-put b c cluster_available t (t c) cs dc f) (omega (arith, enough)) in
      (s3, rw (ec, nx, e1, h.same c rc, e2, e3) refl, h3)
