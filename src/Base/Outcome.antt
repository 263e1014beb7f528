-- ===== src/Base/Outcome.antt =====
-- A computation that may panic, such as by an index out of range.
use Prim.Native.Nat.{ℕ}
use mathlib.Core.Option.{none, some}
use mathlib.Core.List.{List}
use mathlib.Core.Logic.{◌⊎◌, inl, inr}
use mathlib.Core.Path.{◌≡◌, refl}
use go_netflow.Base.Lists.{get_elem?}

pub data Outcome {ℓ} (A : Type ℓ) : Type ℓ where
  panic : Outcome A
  returns : A → Outcome A

infixl 5 ◌>>=◌
abbrev pub ◌>>=◌ {ℓ κ} : {A : Type ℓ} {B : Type κ} → Outcome A → (A → Outcome B) → Outcome B
panic >>= f = panic
returns a >>= f = f a

-- `s[i]`
abbrev pub index {ℓ} : {A : Type ℓ} → List A → ℕ → Outcome A
index s i = elim (get_elem? s i) [ none ↦ panic | some a ↦ returns a ]

pub Outcome-cases {ℓ} : {A : Type ℓ} (o : Outcome A) → (o ≡ panic) ⊎ ((a : A) × (o ≡ returns a))
Outcome-cases panic = inl refl
Outcome-cases (returns a) = inr (a, refl)
