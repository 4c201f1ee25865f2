-- ===== src/Fat/Action.antt =====
-- The status discipline of arcfw/ported/fatboot.c: its macros (`DiskRead`, `LookupFatEntry`, ...)
-- return from the caller with any status that is not ESUCCESS.
use arcpi.Base.{Bool, true, false, ◌≡◌, ◌∙◌, ap, Status, esuccess}

pub data Result {ℓ} (A : Type ℓ) : Type ℓ where
  ok : A → Result A
  fail : Status → Result A

-- What a routine does to a state.
abbrev pub Action {ℓ} : Type 0 → Type ℓ → Type ℓ
Action S A = S → Result A × S

abbrev pub next {ℓ κ} :
    {S : Type 0} {A : Type ℓ} {B : Type κ} → Result A × S → (A → Action S B) → Result B × S
next (ok a, s) f = f a s
next (fail e, s) f = (fail e, s)

infixl 5 ◌>>=◌ ◌>>◌
abbrev pub ◌>>=◌ {ℓ κ} :
    {S : Type 0} {A : Type ℓ} {B : Type κ} → Action S A → (A → Action S B) → Action S B
◌>>=◌ m f s = next (m s) f

abbrev pub ◌>>◌ {κ} : {S : Type 0} {B : Type κ} → Action S (Unit {0}) → Action S B → Action S B
m >> k = m >>= λ _. k

abbrev pub pure {ℓ} : {S : Type 0} {A : Type ℓ} → A → Action S A
pure a s = (ok a, s)

abbrev pub raise {ℓ} : {S : Type 0} {A : Type ℓ} → Status → Action S A
raise e s = (fail e, s)

abbrev pub gets {ℓ} : {S : Type 0} {A : Type ℓ} → (S → A) → Action S A
gets f s = (ok (f s), s)

abbrev pub modify : {S : Type 0} → (S → S) → Action S (Unit {0})
modify f s = (ok tt, f s)

-- `if (c) { m }`
abbrev pub when : {S : Type 0} → Bool → Action S (Unit {0}) → Action S (Unit {0})
when true m = m
when false m = pure tt

-- A status with a value that counts only if the status is ESUCCESS.
abbrev pub checked {ℓ} : {A : Type ℓ} → Status → A → Result A
checked esuccess a = ok a
checked e a = fail e

-- An action on a part of the state.
abbrev pub within {ℓ} :
    {S T : Type 0} {A : Type ℓ} → (T → S) → (S → T → T) → Action S A → Action T A
within get put m t = let r = m (get t) in (r.0, put r.1 t)

-- The action succeeds, with a value and a state that `Q` relates.
abbrev pub Achieves {ℓ} : {S : Type 0} {A : Type ℓ} → Action S A → S → (A → S → Type ℓ) → Type ℓ
Achieves m s Q = (a : _) × (s' : _) × (m s ≡ (ok a, s')) × Q a s'

module _ {S : Type 0} {A B : Type 0} where
  pub bind-Achieves :
      (m : Action S A) (f : A → Action S B) (s : S) (Q : A → S → Type 0) (R : B → S → Type 0)
      → Achieves m s Q
      → ((a : A) (s' : S) → Q a s' → Achieves (f a) s' R)
      → Achieves (m >>= f) s R
  bind-Achieves m f s Q R (a, s', e, q) k =
      let r = k a s' q in (r.0, r.1, ap (λ x. next x f) e ∙ r.2, r.3)
