-- ===== src/Prelude/Decimal.antt =====
-- Decimal numerals of package `strconv`: FormatInt of what is not negative, and ParseInt with a
-- base of 10 and 64 bits.
use Prim.Native.Nat.{ℕ, zero, suc, ◌+◌, ◌-◌, ◌*◌, ◌/◌, ◌%◌, ◌^◌, ◌≤◌, ◌<◌}
use native.Mathlib.Nat.{pow-suc}
use mathlib.Core.Path.{◌≡◌, refl, sym, ◌∙◌, ap, ap₂}
use mathlib.Core.Logic.{inl, inr}
use mathlib.Core.Bool.{◌&&◌}
use mathlib.Core.Option.{Option, none, some}
use mathlib.Core.List.{[], ◌∷◌, ◌++◌}
use native.Mathlib.Omega.{arith}
use cloudrig.Prelude.Tests.{ltb, leb, ◌==◌, if◌then◌else◌, Bool-cases}
use cloudrig.Prelude.Lists.{length, replicate, All}
use cloudrig.Prelude.Bytes.{Bytes, str_lt}
use cloudrig.Prelude.Int.{ℤ, pos, negsuc}

-- The digits of a number in front of a text; `20` is the fuel for numbers below 10 ^ 20.
unfoldable pub format_digits : ℕ → ℕ → Bytes → Bytes
format_digits zero n acc = acc
format_digits (suc f) n acc =
    let more = format_digits f (n / 10) ((b'0' + n % 10) ∷ acc) in
    if n / 10 == 0 then (b'0' + n % 10) ∷ acc else more

unfoldable pub format_int : ℕ → Bytes
unfolding format_digits
format_int n = format_digits 20 n []

-- The value of a text of digits that goes on from the value before it.
unfoldable pub scan : Bytes → ℕ → Option ℕ
scan [] n = some n
scan (c ∷ s) n =
    let rest = scan s (n * 10 + (c - b'0')) in if leb b'0' c && leb c b'9' then rest else none

unfoldable pub digits_value : Bytes → Option ℕ
unfolding scan
digits_value [] = none
digits_value (c ∷ s) = scan (c ∷ s) 0

abbrev positive : Option ℕ → Option ℤ
positive none = none
positive (some n) = if ltb n (2 ^ 63) then some (pos n) else none

abbrev negative : Option ℕ → Option ℤ
negative none = none
negative (some zero) = some (pos 0)
negative (some (suc n)) = if leb (suc n) (2 ^ 63) then some (negsuc n) else none

-- `none` is a syntax or a range error.
unfoldable pub parse_int : Bytes → Option ℤ
unfolding digits_value
parse_int [] = none
parse_int (c ∷ s) =
    if c == b'+'
    then positive (digits_value s)
    else if c == b'-'
    then negative (digits_value s)
    else positive (digits_value (c ∷ s))

abbrev below_word : Option ℕ → Option ℕ
below_word none = none
below_word (some n) = if ltb n (2 ^ 64) then some n else none

-- ParseUint; `none` is a syntax or a range error.
unfoldable pub parse_uint : Bytes → Option ℕ
unfolding digits_value
parse_uint s = below_word (digits_value s)

-- The last `f` digits of a number in front of a text, zeros included.
fixed : ℕ → ℕ → Bytes → Bytes
fixed zero n acc = acc
fixed (suc f) n acc = fixed f (n / 10) ((b'0' + n % 10) ∷ acc)

tenth-lt : (f n : ℕ) → n < 10 ^ suc f → n / 10 < 10 ^ f
tenth-lt f n h = omega (arith, pow-suc 10 f)

scan-fixed : (f n : ℕ) (acc : Bytes) → n < 10 ^ f → scan (fixed f n acc) 0 ≡ scan acc n
unfolding scan fixed
scan-fixed zero n acc h = ap (scan acc) (omega arith)
scan-fixed (suc f) n acc h =
    scan-fixed f (n / 10) ((b'0' + n % 10) ∷ acc) (tenth-lt f n h)
    ∙ ground (arith, ap (scan acc) {x = n / 10 * 10 + (b'0' + n % 10 - b'0')} {y = n})

replicate-cons : (f : ℕ) (c : ℕ) (s : Bytes) → replicate f c ++ (c ∷ s) ≡ c ∷ (replicate f c ++ s)
replicate-cons zero c s = refl
replicate-cons (suc f) c s = ap (◌∷◌ c) (replicate-cons f c s)

fixed-zero : (f : ℕ) (acc : Bytes) → fixed f 0 acc ≡ replicate f b'0' ++ acc
unfolding fixed
fixed-zero zero acc = refl
fixed-zero (suc f) acc = fixed-zero f (b'0' ∷ acc) ∙ replicate-cons f b'0' acc

-- Padded with zeros a numeral is its fixed form.
fixed-format_digits :
    (f n : ℕ) (acc : Bytes)
    → n < 10 ^ f
    → replicate (f + length acc - length (format_digits f n acc)) b'0' ++ format_digits f n acc
      ≡ fixed f n acc
unfolding fixed format_digits
fixed-format_digits zero n acc h =
    ap (λ k. replicate k b'0' ++ acc) {x = 0 + length acc - length acc} {y = 0} (omega arith)
fixed-format_digits (suc f) n acc h = elim (Bool-cases (n / 10 == 0)) [
  | inl last ↦
      let e : n / 10 ≡ 0 = ground arith in
      rw last (
        ap (λ k. replicate k b'0' ++ ((b'0' + n % 10) ∷ acc))
          {x = suc f + length acc - suc (length acc)} {y = f} (omega arith)
        ∙ sym
            (ap (λ q. fixed f q ((b'0' + n % 10) ∷ acc)) e ∙ fixed-zero f ((b'0' + n % 10) ∷ acc)))
  | inr more ↦ rw more (
      ap
        (λ k.
          replicate (k - length (format_digits f (n / 10) ((b'0' + n % 10) ∷ acc))) b'0'
          ++ format_digits f (n / 10) ((b'0' + n % 10) ∷ acc))
        {x = suc f + length acc} {y = f + suc (length acc)} (omega arith)
      ∙ fixed-format_digits f (n / 10) ((b'0' + n % 10) ∷ acc) (tenth-lt f n h))
]

-- Fixed forms of one width compare as the numbers do.
str_lt-fixed :
    (f m n : ℕ) (a b : Bytes)
    → m < 10 ^ f
    → n < 10 ^ f
    → str_lt (fixed f m a) (fixed f n b) ≡ (if m == n then str_lt a b else ltb m n)
unfolding fixed
str_lt-fixed zero m n a b h k = ground arith
str_lt-fixed (suc f) m n a b h k =
    str_lt-fixed f (m / 10) (n / 10) ((b'0' + m % 10) ∷ a) ((b'0' + n % 10) ∷ b) (tenth-lt f m h)
      (tenth-lt f n k)
    ∙ unfold str_lt in ground arith

abbrev pub IsDigits : Bytes → Type 0
IsDigits = All (λ c. (b'0' ≤ c) × (c ≤ b'9'))

fixed-IsDigits : (f n : ℕ) (acc : Bytes) → IsDigits acc → IsDigits (fixed f n acc)
unfolding fixed
fixed-IsDigits zero n acc h = h
fixed-IsDigits (suc f) n acc h = fixed-IsDigits f (n / 10) _ ((omega arith, omega arith), h)

length-fixed : (f n : ℕ) (acc : Bytes) → length (fixed f n acc) ≡ f + length acc
unfolding fixed
length-fixed zero n acc = omega arith
length-fixed (suc f) n acc = omega (arith, length-fixed f (n / 10) ((b'0' + n % 10) ∷ acc))

-- A number below 10 ^ 20 in twenty digits.
unfoldable pub padded : ℕ → Bytes
unfolding format_int
padded n = replicate (20 - length (format_int n)) b'0' ++ format_int n

padded-fixed : (n : ℕ) → n < 10 ^ 20 → padded n ≡ fixed 20 n []
unfolding padded
padded-fixed n h = fixed-format_digits 20 n [] h

pub padded-IsDigits : (n : ℕ) → n < 10 ^ 20 → IsDigits (padded n)
padded-IsDigits n h = rw (padded-fixed n h) (fixed-IsDigits 20 n [] tt)

pub str_lt-padded : (m n : ℕ) → m < 10 ^ 20 → n < 10 ^ 20 → str_lt (padded m) (padded n) ≡ ltb m n
unfolding str_lt
str_lt-padded m n h k =
    ap₂ str_lt (padded-fixed m h) (padded-fixed n k) ∙ str_lt-fixed 20 m n [] [] h k ∙ ground arith

digits_value-scan : (s : Bytes) → 0 < length s → digits_value s ≡ scan s 0
unfolding digits_value
digits_value-scan [] h = absurd (omega arith)
digits_value-scan (c ∷ s) h = refl

parse_int-digits : (s : Bytes) → 0 < length s → IsDigits s → parse_int s ≡ positive (digits_value s)
unfolding parse_int
parse_int-digits [] h d = absurd (omega arith)
parse_int-digits (c ∷ s) h d = ground arith

-- ParseInt reads back a number that was padded to twenty digits.
pub parse_int-padded : (n : ℕ) → n < 2 ^ 63 → parse_int (padded n) ≡ some (pos n)
unfolding scan
parse_int-padded n h =
    let long : length (fixed 20 n []) ≡ 20 = length-fixed 20 n [] in
    let small : n < 10 ^ 20 = omega arith in
    ap parse_int (padded-fixed n small)
    ∙ parse_int-digits (fixed 20 n []) (omega arith) (fixed-IsDigits 20 n [] tt)
    ∙ ap positive (digits_value-scan (fixed 20 n []) (omega arith) ∙ scan-fixed 20 n [] small)
    ∙ ground arith

scan-format_digits :
    (f n : ℕ) (acc : Bytes) → n < 10 ^ f → scan (format_digits f n acc) 0 ≡ scan acc n
unfolding scan format_digits
scan-format_digits zero n acc h = ap (scan acc) (omega arith)
scan-format_digits (suc f) n acc h = elim (Bool-cases (n / 10 == 0)) [
  | inl last ↦ rw last (ground (arith, ap (scan acc) {x = 0 * 10 + (b'0' + n % 10 - b'0')} {y = n}))
  | inr more ↦ rw more (
      scan-format_digits f (n / 10) ((b'0' + n % 10) ∷ acc) (tenth-lt f n h)
      ∙ ground (arith, ap (scan acc) {x = n / 10 * 10 + (b'0' + n % 10 - b'0')} {y = n}))
]

format_digits-IsDigits : (f n : ℕ) (acc : Bytes) → IsDigits acc → IsDigits (format_digits f n acc)
unfolding format_digits
format_digits-IsDigits zero n acc h = h
format_digits-IsDigits (suc f) n acc h =
    let digit : IsDigits ((b'0' + n % 10) ∷ acc) = ((omega arith, omega arith), h) in
    elim (Bool-cases (n / 10 == 0)) [
      | inl last ↦ rw last digit
      | inr more ↦ rw more (format_digits-IsDigits f (n / 10) ((b'0' + n % 10) ∷ acc) digit)
    ]

length-format_digits : (f n : ℕ) (acc : Bytes) → length acc ≤ length (format_digits f n acc)
unfolding format_digits
length-format_digits zero n acc = omega arith
length-format_digits (suc f) n acc = elim (Bool-cases (n / 10 == 0)) [
  | inl last ↦ rw last (omega arith)
  | inr more ↦ rw more (omega (arith, length-format_digits f (n / 10) ((b'0' + n % 10) ∷ acc)))
]

scan-format_int : (n : ℕ) → n < 10 ^ 20 → scan (format_int n) 0 ≡ some n
unfolding format_int scan
scan-format_int n h = scan-format_digits 20 n [] h

pub format_int-IsDigits : (n : ℕ) → IsDigits (format_int n)
unfolding format_int
format_int-IsDigits n = format_digits-IsDigits 20 n [] tt

pub length-format_int : (n : ℕ) → 0 < length (format_int n)
unfolding format_int format_digits
length-format_int n = elim (Bool-cases (n / 10 == 0)) [
  | inl last ↦ rw last (omega arith)
  | inr more ↦ rw more (omega (arith, length-format_digits 19 (n / 10) ((b'0' + n % 10) ∷ [])))
]

-- ParseInt reads back what FormatInt prints of a number that is not negative.
pub parse_int-format_int : (n : ℕ) → n < 2 ^ 63 → parse_int (format_int n) ≡ some (pos n)
parse_int-format_int n h =
    let some_digit = length-format_int n in
    let small : n < 10 ^ 20 = omega arith in
    parse_int-digits (format_int n) some_digit (format_int-IsDigits n)
    ∙ ap positive (digits_value-scan (format_int n) some_digit ∙ scan-format_int n small)
    ∙ ground arith
