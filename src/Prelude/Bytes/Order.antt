-- ===== src/Prelude/Bytes/Order.antt =====
-- Laws of the byte order of strings, and how a prefix test meets it.
use Prim.Native.Nat.{ℕ}
use cloudrig.Prelude.Bytes.{Lacks, Bytes, str_eq, str_lt, has_prefix, str_eq_iff}
use mathlib.Core.Path.{◌≡◌, refl}
use mathlib.Core.Logic.{◌⊎◌}
use mathlib.Core.Bool.{true, false}
use mathlib.Core.List.{[], ◌∷◌, ◌++◌}
use native.Mathlib.Omega.{arith}

pub str_lt_irrefl : (s : Bytes) → str_lt s s ≡ false
unfolding str_lt
str_lt_irrefl [] = refl
str_lt_irrefl (x ∷ s) = ground (arith, str_lt_irrefl s)

pub str_lt_trans : (s t u : Bytes) → str_lt s t ≡ true → str_lt t u ≡ true → str_lt s u ≡ true
unfolding str_lt
str_lt_trans s t [] h k = ground arith
str_lt_trans s [] (z ∷ u) h k = ground arith
str_lt_trans [] (y ∷ t) (z ∷ u) h k = refl
str_lt_trans (x ∷ s) (y ∷ t) (z ∷ u) h k = ground (arith, str_lt_trans s t u)

pub str_lt_total : (s t : Bytes) → (str_lt s t ≡ true) ⊎ (str_lt t s ≡ true) ⊎ (str_eq s t ≡ true)
unfolding str_lt str_eq
str_lt_total [] [] = ground arith
str_lt_total [] (y ∷ t) = ground arith
str_lt_total (x ∷ s) [] = ground arith
str_lt_total (x ∷ s) (y ∷ t) = ground (arith, str_lt_total s t)

-- A string that is neither below nor above another equals it.
pub str_lt_antisym : (s t : Bytes) → str_lt s t ≡ false → str_lt t s ≡ false → s ≡ t
str_lt_antisym s t h k = ground (arith, str_lt_total s t, str_eq_iff s t)

pub str_lt_asym : (s t : Bytes) → str_lt s t ≡ true → str_lt t s ≡ false
str_lt_asym s t h = ground (arith, str_lt_trans s t s h, str_lt_irrefl s)

-- `t ≤ u` and `s < t` give `s < u`.
pub str_lt_le_trans : (s t u : Bytes) → str_lt s t ≡ true → str_lt u t ≡ false → str_lt s u ≡ true
str_lt_le_trans s t u h k = ground (arith, str_lt_total t u, str_eq_iff t u, str_lt_trans s t u)

-- A string is not below its own prefix.
pub prefix_not_lt : (p s : Bytes) → has_prefix p s ≡ true → str_lt s p ≡ false
unfolding has_prefix str_lt
prefix_not_lt [] s h = refl
prefix_not_lt (x ∷ p) [] h = ground arith
prefix_not_lt (x ∷ p) (y ∷ s) h = ground (arith, prefix_not_lt p s)

-- The strings with a prefix are an interval: past the first one above them, none follows.
pub prefix_interval :
    (p s t : Bytes)
    → str_lt s p ≡ false
    → has_prefix p s ≡ false
    → str_lt s t ≡ true
    → has_prefix p t ≡ false
unfolding has_prefix str_lt
prefix_interval [] s t h k l = ground arith
prefix_interval (x ∷ p) [] t h k l = ground arith
prefix_interval (x ∷ p) (y ∷ s) [] h k l = refl
prefix_interval (x ∷ p) (y ∷ s) (z ∷ t) h k l = ground (arith, prefix_interval p s t)

-- A common beginning does not decide an order.
pub str_lt-append : (p s t : Bytes) → str_lt (p ++ s) (p ++ t) ≡ str_lt s t
unfolding str_lt
str_lt-append [] s t = refl
str_lt-append (x ∷ p) s t = ground (arith, str_lt-append p s t)

pub has_prefix-append_self : (p s t : Bytes) → has_prefix (p ++ s) (p ++ t) ≡ has_prefix s t
unfolding has_prefix
has_prefix-append_self [] s t = refl
has_prefix-append_self (x ∷ p) s t = ground (arith, has_prefix-append_self p s t)

-- Two texts that lack a byte, each closed by it, are one a prefix of the other only if they are
-- equal.
pub has_prefix-closed :
    (b : ℕ) (p q r : Bytes)
    → Lacks b p
    → Lacks b q
    → has_prefix (p ++ b ∷ []) (q ++ b ∷ r) ≡ str_eq p q
unfolding has_prefix str_eq
has_prefix-closed b [] [] r h k = ground arith
has_prefix-closed b [] (y ∷ q) r h k = ground arith
has_prefix-closed b (x ∷ p) [] r h k = ground arith
has_prefix-closed b (x ∷ p) (y ∷ q) r h k = ground (arith, has_prefix-closed b p q r h.1 k.1)
