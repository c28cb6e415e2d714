-- ===== src/Prelude/Bytes.antt =====
-- Go strings and byte slices as lists of bytes, with the functions of package `strings` that the
-- program calls, and the byte order that Go's `<` compares strings by.
pub mod Order
use Prim.Native.Char.{code}
use Prim.Native.String.{String}
use cloudrig.Prelude.Lists.{All, length, take, drop}
use cloudrig.Prelude.Tests.{◌==◌, ltb, if◌then◌else◌}
use Prim.Native.Nat.{ℕ, zero, suc, ◌<◌, ◌+◌}
use mathlib.Core.Path.{◌≡◌, refl, ap}
use mathlib.Core.Logic.{◌↔◌, ◌≢◌}
use mathlib.Core.Bool.{Bool, true, false, ◌&&◌}
use mathlib.Core.Option.{Option, none, some}
use mathlib.Core.List.{List, [], ◌∷◌, ◌++◌}
use native.Mathlib.Omega.{arith}

abbrev pub Bytes : Type 0
Bytes = List ℕ

-- The code points of a literal, which are its bytes when the text is ASCII.
abbrev pub codes : String → Bytes
codes String.[] = []
codes (String.◌∷◌ c s) = code c ∷ codes s

abbrev pub IsBytes : Bytes → Type 0
IsBytes = All (λ b. b < 256)

-- s == t
unfoldable pub str_eq : Bytes → Bytes → Bool
str_eq [] [] = true
str_eq [] (y ∷ ys) = false
str_eq (x ∷ xs) [] = false
str_eq (x ∷ xs) (y ∷ ys) = x == y && str_eq xs ys

-- s < t
unfoldable pub str_lt : Bytes → Bytes → Bool
str_lt s [] = false
str_lt [] (y ∷ ys) = true
str_lt (x ∷ xs) (y ∷ ys) = let rest = str_lt xs ys in if x == y then rest else ltb x y

-- strings.HasPrefix(s, p), with the prefix first
unfoldable pub has_prefix : Bytes → Bytes → Bool
has_prefix [] s = true
has_prefix (x ∷ p) [] = false
has_prefix (x ∷ p) (y ∷ s) = x == y && has_prefix p s

-- strings.CutPrefix(s, p)
unfoldable pub cut_prefix : Bytes → Bytes → Option Bytes
cut_prefix [] s = some s
cut_prefix (x ∷ p) [] = none
cut_prefix (x ∷ p) (y ∷ s) = let rest = cut_prefix p s in if x == y then rest else none

pub str_eq_iff : (s t : Bytes) → (str_eq s t ≡ true) ↔ (s ≡ t)
unfolding str_eq
str_eq_iff [] [] = (λ _. refl, λ _. refl)
str_eq_iff [] (y ∷ t) = ground arith
str_eq_iff (x ∷ s) [] = ground arith
str_eq_iff (x ∷ s) (y ∷ t) = ground (arith, str_eq_iff s t)

pub str_eq_refl : (s : Bytes) → str_eq s s ≡ true
str_eq_refl s = (str_eq_iff s s).1 refl

pub cut_prefix-append : (p s : Bytes) → cut_prefix p (p ++ s) ≡ some s
unfolding cut_prefix
cut_prefix-append [] s = refl
cut_prefix-append (x ∷ p) s = ground (arith, cut_prefix-append p s)

pub append-cut_prefix : (p s r : Bytes) → cut_prefix p s ≡ some r → s ≡ p ++ r
unfolding cut_prefix
append-cut_prefix [] s r h = ground arith
append-cut_prefix (x ∷ p) [] r h = ground arith
append-cut_prefix (x ∷ p) (y ∷ s) r h = ground (arith, append-cut_prefix p s r)

pub has_prefix-append : (p s : Bytes) → has_prefix p (p ++ s) ≡ true
unfolding has_prefix
has_prefix-append [] s = refl
has_prefix-append (x ∷ p) s = ground (arith, has_prefix-append p s)

pub has_prefix_split : (p s : Bytes) → has_prefix p s ≡ true → (r : Bytes) × (s ≡ p ++ r)
unfolding has_prefix
has_prefix_split [] s h = (s, refl)
has_prefix_split (x ∷ p) [] h = ground arith
has_prefix_split (x ∷ p) (y ∷ s) h =
    let (r, e) = has_prefix_split p s (ground arith) in (r, ground arith)

-- strings.Cut(s, sep): what stands before and behind the first separator.
unfoldable pub cut : Bytes → Bytes → Option (Bytes × Bytes)
cut sep [] = elim (cut_prefix sep []) [ none ↦ none | some r ↦ some ([], r) ]
cut sep (c ∷ s) =
    let rest = cut sep s in
    elim (cut_prefix sep (c ∷ s)) [
      | some r ↦ some ([], r)
      | none ↦ elim rest [ none ↦ none | some (a, b) ↦ some (c ∷ a, b) ]
    ]

-- What stands before and behind the last occurrence of a byte.
unfoldable pub cut_last : ℕ → Bytes → Option (Bytes × Bytes)
cut_last b [] = none
cut_last b (c ∷ s) =
    let here : Option (Bytes × Bytes) = if c == b then some ([], s) else none in
    elim (cut_last b s) [ some (a, r) ↦ some (c ∷ a, r) | none ↦ here ]

abbrev pub Lacks : ℕ → Bytes → Type 0
Lacks b = All (λ c. c ≢ b)

-- The first separator is found behind a text that lacks the separator's first byte.
pub cut-append :
    (b : ℕ) (sep p r : Bytes) → Lacks b p → cut (b ∷ sep) (p ++ ((b ∷ sep) ++ r)) ≡ some (p, r)
unfolding cut cut_prefix
cut-append b sep [] r h = ground (arith, cut_prefix-append sep r)
cut-append b sep (c ∷ p) r h = ground (arith, cut-append b sep p r h.1)

cut_last-none : (b : ℕ) (s : Bytes) → Lacks b s → cut_last b s ≡ none
unfolding cut_last
cut_last-none b [] h = refl
cut_last-none b (c ∷ s) h = ground (arith, cut_last-none b s h.1)

-- The last occurrence of a byte is found in front of a text that lacks it.
pub cut_last-append : (b : ℕ) (p r : Bytes) → Lacks b r → cut_last b (p ++ b ∷ r) ≡ some (p, r)
unfolding cut_last
cut_last-append b [] r h = ground (arith, cut_last-none b r h)
cut_last-append b (c ∷ p) r h = ground (arith, cut_last-append b p r h)
