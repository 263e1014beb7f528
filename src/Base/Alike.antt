-- ===== src/Base/Alike.antt =====
-- Two maps with the same entries, in any order: what is summed over their entries is the same.
use Prim.Native.Nat.{ℕ, ◌+◌}
use mathlib.Core.Path.{◌≡◌, refl, sym, ap, ap₂, ◌∙◌, subst}
use mathlib.Core.List.{[], ◌∷◌}
use mathlib.Core.Option.{some}
use mathlib.Core.Logic.{inl, inr}
use native.Mathlib.Omega.{arith}
use go_netflow.Base.Tests.{Bool-cases}
use go_netflow.Base.Bytes.{Bytes, bytes_eq, bytes_eq_refl, bytes_eq_iff}
use go_netflow.Base.Dict.{
  Dict, lookup, delete, Fresh, Distinct, lookup-Fresh, lookup-delete, delete-Distinct,
}

module _ {V : Type 0} where
  -- Every key has the same value in both.
  abbrev pub Alike : Dict V → Dict V → Type 0
  Alike m n = (k : Bytes) → lookup k m ≡ lookup k n

  -- The sum of a measure over the entries.
  unfoldable pub sum_over : (Bytes → V → ℕ) → Dict V → ℕ
  sum_over f [] = 0
  sum_over f ((k, v) ∷ m) = f k v + sum_over f m

  delete-Fresh : (k : Bytes) (m : Dict V) → Fresh k m → delete k m ≡ m
  unfolding delete
  delete-Fresh k [] h = refl
  delete-Fresh k ((j, w) ∷ m) h = rw h.0 (ap (◌∷◌ (j, w)) (delete-Fresh k m h.1))

  sum_over-delete :
      (f : Bytes → V → ℕ) (k : Bytes) (v : V) (m : Dict V)
      → Distinct m
      → lookup k m ≡ some v
      → sum_over f m ≡ f k v + sum_over f (delete k m)
  unfolding sum_over delete lookup
  sum_over-delete f k v [] d h = absurd (ground (arith, h))
  sum_over-delete f k v ((j, w) ∷ m) d h = elim (Bool-cases (bytes_eq j k)) [
    | inl e ↦
        let same = (bytes_eq_iff j k).0 e in
        let value : w ≡ v = ground (arith, e, h) in
        let gone = delete-Fresh k m (subst (λ i. Fresh i m) same d.0) in
        rw e (
          ap (λ x. x + sum_over f m) (ap₂ f same value) ∙ ap (λ n. f k v + sum_over f n) (sym gone))
    | inr n ↦ ground (arith, n, h, sum_over-delete f k v m d.1)
  ]

  Alike-delete :
      (k : Bytes) (v : V) (m n : Dict V) → Fresh k m → Alike ((k, v) ∷ m) n → Alike m (delete k n)
  unfolding lookup
  Alike-delete k v m n h a j = elim (Bool-cases (bytes_eq k j)) [
    | inl e ↦ rw (lookup-delete k j n, e) (rw⁻¹ ((bytes_eq_iff k j).0 e) (lookup-Fresh k m h))
    | inr e ↦ ground (arith, lookup-delete k j n, e, a j)
  ]

  pub sum_over-Alike :
      (f : Bytes → V → ℕ) (m n : Dict V)
      → Distinct m
      → Distinct n
      → Alike m n
      → sum_over f m ≡ sum_over f n
  unfolding sum_over lookup
  sum_over-Alike f [] [] d e a = refl
  sum_over-Alike f [] ((j, w) ∷ n) d e a = absurd (ground (arith, a j, bytes_eq_refl j))
  sum_over-Alike f ((k, v) ∷ m) n d e a =
      let here : lookup k n ≡ some v = sym (a k) ∙ rw (bytes_eq_refl k) refl in
      ap (λ s. f k v + s)
        (sum_over-Alike f m (delete k n) d.1 (delete-Distinct k n e) (Alike-delete k v m n d.0 a))
      ∙ sym (sum_over-delete f k v n e here)
