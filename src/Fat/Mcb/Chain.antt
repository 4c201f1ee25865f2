-- ===== src/Fat/Mcb/Chain.antt =====
-- A chain of clusters by the index of a cluster, for arcfw/ported/fatboot.c.
use arcpi.Base.{ℕ, zero, suc, ◌+◌, ◌<◌, ◌≡◌, ap, ◌∙◌, false, arith, List, [], ◌∷◌, length, All}
use arcpi.Fat.{Bpb}
use arcpi.Fat.Cluster.{is_next}
use arcpi.Fat.Mcb.Load.{nth, IsFileChain}
use arcpi.Fat.Truncate.Follows.{Follows, Follows-nexts}

All-nth : (P : ℕ → Type 0) (cs : List ℕ) (k : ℕ) → k < length cs → All P cs → P (nth cs k)
All-nth P [] k lt a = absurd (omega (arith, lt))
All-nth P (c ∷ cs) zero lt a = a.0
All-nth P (c ∷ cs) (suc k) lt a = All-nth P cs k (omega (arith, lt)) a.1

module _ (b : Bpb) (t : ℕ → ℕ) where
  starts : (e : ℕ) (cs : List ℕ) → Follows b t e cs → 0 < length cs → e ≡ nth cs 0
  starts e [] f lt = absurd (omega (arith, lt))
  starts e (c ∷ cs) f lt = f.0

  links :
      (e : ℕ) (cs : List ℕ) (k : ℕ)
      → Follows b t e cs
      → k + 1 < length cs
      → t (nth cs k) ≡ nth cs (k + 1)
  links e [] k f lt = absurd (omega (arith, lt))
  links e (c ∷ cs) zero f lt = starts (t c) cs f.2 (omega (arith, lt))
  links e (c ∷ cs) (suc k) f lt =
      let next : suc (k + 1) ≡ suc k + 1 = omega arith in
      links (t c) cs k f.2 (omega (arith, lt)) ∙ ap (nth (c ∷ cs)) next

  ends :
      (e : ℕ) (cs : List ℕ) (k : ℕ)
      → Follows b t e cs
      → k + 1 ≡ length cs
      → is_next b (t (nth cs k)) ≡ false
  ends e [] k f at = absurd (omega (arith, at))
  ends e (c ∷ []) zero f at = f.2
  ends e (c ∷ d ∷ cs) zero f at = absurd (omega (arith, at))
  ends e (c ∷ cs) (suc k) f at = ends (t c) cs k f.2 (omega (arith, at))

  pub Follows-IsFileChain :
      (InRange : ℕ → Type 0) (e : ℕ) (cs : List ℕ)
      → Follows b t e cs
      → All InRange cs
      → IsFileChain b InRange t e cs
  Follows-IsFileChain InRange e cs f r = record {
    head = starts e cs f;
    in_range = λ k lt. All-nth InRange cs k lt r;
    nexts = λ k lt. All-nth _ cs k lt (Follows-nexts b t e cs f);
    links = λ k lt. links e cs k f lt;
    ending = λ k at. ends e cs k f at;
  }
