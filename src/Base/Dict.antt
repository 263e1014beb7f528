-- ===== src/Base/Dict.antt =====
-- A Go `map[string]V` as an association list: writing a present key replaces its value, a lookup
-- of a missing key gives `none` (the comma-ok form).
use Prim.Native.Nat.{◌+◌}
use mathlib.Core.Path.{◌≡◌, refl}
use mathlib.Core.Bool.{Bool, false}
use mathlib.Core.List.{List, [], ◌∷◌}
use mathlib.Core.Option.{Option, none, some}
use native.Mathlib.Omega.{arith}
use go_netflow.Base.Tests.{if◌then◌else◌, Bool-cases}
use go_netflow.Base.Lists.{length}
use mathlib.Core.Logic.{inl, inr}
use go_netflow.Base.Bytes.{Bytes, bytes_eq, bytes_eq_iff, bytes_ne_sym}

abbrev pub Dict : Type 0 → Type 0
Dict V = List (Bytes × V)

module _ {V : Type 0} where
  unfoldable pub lookup : Bytes → Dict V → Option V
  lookup k [] = none
  lookup k ((j, v) ∷ m) = if bytes_eq j k then some v else lookup k m

  unfoldable pub insert : Bytes → V → Dict V → Dict V
  insert k v [] = (k, v) ∷ []
  insert k v ((j, w) ∷ m) = if bytes_eq j k then (k, v) ∷ m else (j, w) ∷ insert k v m

  unfoldable pub delete : Bytes → Dict V → Dict V
  delete k [] = []
  delete k ((j, w) ∷ m) = if bytes_eq j k then delete k m else (j, w) ∷ delete k m

  -- The entries that pass a test of their key and value.
  unfoldable pub keep : (Bytes → V → Bool) → Dict V → Dict V
  keep p [] = []
  keep p ((j, w) ∷ m) = if p j w then (j, w) ∷ keep p m else keep p m

  pub lookup-insert :
      (k j : Bytes) (v : V) (m : Dict V)
      → lookup j (insert k v m) ≡ (if bytes_eq k j then some v else lookup j m)
  unfolding lookup insert
  lookup-insert k j v [] = refl
  lookup-insert k j v ((i, w) ∷ m) =
      ground (arith, bytes_eq_iff k j, bytes_eq_iff i k, bytes_eq_iff i j, lookup-insert k j v m)

  pub lookup-delete :
      (k j : Bytes) (m : Dict V)
      → lookup j (delete k m) ≡ (if bytes_eq k j then none else lookup j m)
  unfolding lookup delete
  lookup-delete k j [] = ground arith
  lookup-delete k j ((i, w) ∷ m) =
      ground (arith, bytes_eq_iff k j, bytes_eq_iff i k, bytes_eq_iff i j, lookup-delete k j m)

  -- No key twice: every map that the operations build.
  abbrev pub Fresh : Bytes → Dict V → Type 0
  Fresh k [] = Unit {0}
  Fresh k ((j, w) ∷ m) = (bytes_eq j k ≡ false) × Fresh k m

  abbrev pub Distinct : Dict V → Type 0
  Distinct [] = Unit {0}
  Distinct ((j, w) ∷ m) = Fresh j m × Distinct m

  pub lookup-Fresh : (k : Bytes) (m : Dict V) → Fresh k m → lookup k m ≡ none
  unfolding lookup
  lookup-Fresh k [] f = refl
  lookup-Fresh k ((j, w) ∷ m) f = rw f.0 (lookup-Fresh k m f.1)

  pub Fresh-insert :
      (k j : Bytes) (v : V) (m : Dict V) → bytes_eq k j ≡ false → Fresh j m → Fresh j (insert k v m)
  unfolding insert
  Fresh-insert k j v [] h f = (h, tt)
  Fresh-insert k j v ((i, w) ∷ m) h f = ground (arith, Fresh-insert k j v m h f.1)

  pub insert-Distinct : (k : Bytes) (v : V) (m : Dict V) → Distinct m → Distinct (insert k v m)
  unfolding insert
  insert-Distinct k v [] d = (tt, tt)
  insert-Distinct k v ((i, w) ∷ m) d = elim (Bool-cases (bytes_eq i k)) [
    | inl e ↦ rw e (rw ((bytes_eq_iff i k).0 e) at d.0, d.1)
    | inr n ↦ rw n (Fresh-insert k i v m (bytes_ne_sym i k n) d.0, insert-Distinct k v m d.1)
  ]

  Fresh-keep : (p : Bytes → V → Bool) (j : Bytes) (m : Dict V) → Fresh j m → Fresh j (keep p m)
  unfolding keep
  Fresh-keep p j [] f = tt
  Fresh-keep p j ((i, w) ∷ m) f = ground (arith, Fresh-keep p j m f.1)

  pub keep-Distinct : (p : Bytes → V → Bool) (m : Dict V) → Distinct m → Distinct (keep p m)
  unfolding keep
  keep-Distinct p [] d = tt
  keep-Distinct p ((i, w) ∷ m) d = ground (arith, Fresh-keep p i m d.0, keep-Distinct p m d.1)

  Fresh-delete : (k j : Bytes) (m : Dict V) → Fresh j m → Fresh j (delete k m)
  unfolding delete
  Fresh-delete k j [] f = tt
  Fresh-delete k j ((i, w) ∷ m) f = ground (arith, Fresh-delete k j m f.1)

  pub delete-Distinct : (k : Bytes) (m : Dict V) → Distinct m → Distinct (delete k m)
  unfolding delete
  delete-Distinct k [] d = tt
  delete-Distinct k ((i, w) ∷ m) d = ground (arith, Fresh-delete k i m d.0, delete-Distinct k m d.1)

  -- The value of a key, if it passes a test.
  abbrev pub filtered : (Bytes → V → Bool) → Bytes → Option V → Option V
  filtered p j none = none
  filtered p j (some w) = if p j w then some w else none

  pub lookup-keep :
      (p : Bytes → V → Bool) (j : Bytes) (m : Dict V)
      → Distinct m
      → lookup j (keep p m) ≡ filtered p j (lookup j m)
  unfolding lookup keep
  lookup-keep p j [] d = refl
  lookup-keep p j ((i, w) ∷ m) d = elim (Bool-cases (bytes_eq i j)) [
    | inl e ↦
        let same = (bytes_eq_iff i j).0 e in
        let gone : lookup j (keep p m) ≡ none =
          rw (← same) (lookup-Fresh i (keep p m) (Fresh-keep p i m d.0)) in
        rw e (elim (Bool-cases (p i w)) [
          | inl t ↦ rw (t, e, ← same, t)
          | inr f ↦ rw (f, gone, ← same, f)
        ])
    | inr n ↦ rw n (elim (Bool-cases (p i w)) [
      | inl t ↦ rw (t, n) (lookup-keep p j m d.1)
      | inr f ↦ rw f (lookup-keep p j m d.1)
    ])
  ]

  -- How many keys a map has.
  pub length-insert :
      (k : Bytes) (v : V) (m : Dict V)
      → length (insert k v m) ≡ (elim (lookup k m) [ none ↦ length m + 1 | some _ ↦ length m ])
  unfolding insert lookup
  length-insert k v [] = omega arith
  length-insert k v ((i, w) ∷ m) = ground (arith, length-insert k v m)
