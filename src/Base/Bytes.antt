-- ===== src/Base/Bytes.antt =====
-- Go strings as lists of bytes: equality, prefixes and suffixes, `strings.Split` on one byte and
-- `strings.TrimSpace` (for ASCII white space).
use Prim.Native.Char.{code}
use Prim.Native.String.{String}
use Prim.Native.Nat.{ℕ}
use mathlib.Core.Path.{◌≡◌, refl, ap, ◌∙◌}
use mathlib.Core.Logic.{◌↔◌}
use mathlib.Core.Bool.{Bool, true, false, ◌&&◌, ◌||◌}
use mathlib.Core.List.{List, [], ◌∷◌, ◌++◌, reverse, append-nil, append_assoc}
use native.Mathlib.Omega.{arith}
use go_netflow.Base.Tests.{◌==◌, leb, if◌then◌else◌}

abbrev pub Bytes : Type 0
Bytes = List ℕ

-- The bytes of an ASCII literal.
abbrev pub codes : String → Bytes
codes String.[] = []
codes (String.◌∷◌ c s) = code c ∷ codes s

unfoldable pub bytes_eq : Bytes → Bytes → Bool
bytes_eq [] [] = true
bytes_eq [] (y ∷ ys) = false
bytes_eq (x ∷ xs) [] = false
bytes_eq (x ∷ xs) (y ∷ ys) = x == y && bytes_eq xs ys

pub bytes_eq_iff : (a b : Bytes) → (bytes_eq a b ≡ true) ↔ (a ≡ b)
unfolding bytes_eq
bytes_eq_iff [] [] = (λ _. refl, λ _. refl)
bytes_eq_iff [] (y ∷ ys) = ground arith
bytes_eq_iff (x ∷ xs) [] = ground arith
bytes_eq_iff (x ∷ xs) (y ∷ ys) = ground (arith, bytes_eq_iff xs ys)

pub bytes_eq_refl : (a : Bytes) → bytes_eq a a ≡ true
bytes_eq_refl a = (bytes_eq_iff a a).1 refl

-- `strings.HasPrefix(s, p)`
unfoldable pub has_prefix : Bytes → Bytes → Bool
has_prefix s [] = true
has_prefix [] (p ∷ ps) = false
has_prefix (c ∷ s) (p ∷ ps) = c == p && has_prefix s ps

-- `strings.HasSuffix(s, p)`
unfoldable pub has_suffix : Bytes → Bytes → Bool
unfolding has_prefix
has_suffix s p = has_prefix (reverse s) (reverse p)

split_from : ℕ → Bytes → Bytes → List Bytes
split_from sep cur [] = cur ∷ []
split_from sep cur (c ∷ s) =
    let next = cur ∷ split_from sep [] s in
    let more = split_from sep (cur ++ c ∷ []) s in if c == sep then next else more

-- `strings.Split(s, sep)` for a separator of one byte
unfoldable pub split : Bytes → ℕ → List Bytes
unfolding split_from
split s sep = split_from sep [] s

-- '\t', '\n', '\v', '\f', '\r' and ' '
is_space : ℕ → Bool
is_space c = (leb 9 c && leb c 13) || c == 32

trim_left : Bytes → Bytes
unfolding is_space
trim_left [] = []
trim_left (c ∷ s) = if is_space c then trim_left s else c ∷ s

-- `strings.TrimSpace(s)`
unfoldable pub trim_space : Bytes → Bytes
unfolding trim_left
trim_space s = reverse (trim_left (reverse (trim_left s)))

-- A text without a separator is one part, and a separator ends a part.
abbrev pub Lacks : ℕ → Bytes → Type 0
Lacks b [] = Unit {0}
Lacks b (c ∷ s) = ((c == b) ≡ false) × Lacks b s

pub bytes_ne_sym : (a b : Bytes) → bytes_eq a b ≡ false → bytes_eq b a ≡ false
bytes_ne_sym a b h = ground (arith, bytes_eq_iff a b, bytes_eq_iff b a)

split_from-sep :
    (sep : ℕ) (cur a s : Bytes)
    → Lacks sep a
    → split_from sep cur (a ++ sep ∷ s) ≡ (cur ++ a) ∷ split_from sep [] s
unfolding split_from
split_from-sep sep cur [] s h = rw append-nil (ground arith)
split_from-sep sep cur (c ∷ a) s h =
    rw h.0 (split_from-sep sep (cur ++ c ∷ []) a s h.1 ∙ rw append_assoc)

split_from-Lacks : (sep : ℕ) (cur a : Bytes) → Lacks sep a → split_from sep cur a ≡ (cur ++ a) ∷ []
unfolding split_from
split_from-Lacks sep cur [] h = rw append-nil
split_from-Lacks sep cur (c ∷ a) h =
    rw h.0 (split_from-Lacks sep (cur ++ c ∷ []) a h.1 ∙ rw append_assoc)

-- A text of two parts without the separator is split into them.
pub split-two :
    (sep : ℕ) (a b : Bytes) → Lacks sep a → Lacks sep b → split (a ++ sep ∷ b) sep ≡ a ∷ b ∷ []
unfolding split
split-two sep a b ha hb = split_from-sep sep [] a b ha ∙ ap (◌∷◌ a) (split_from-Lacks sep [] b hb)
