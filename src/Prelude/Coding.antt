-- ===== src/Prelude/Coding.antt =====
-- Numbers, times and flags as numbers of a text, for codecs that read back what they encode.
use cloudrig.Prelude.{ℕ, ◌≡◌, refl, Bool, true, false, Option, none, some, ◌==◌, if◌then◌else◌}
use cloudrig.Prelude.Int.{ℤ, pos, negsuc}

unfoldable pub int_code : ℤ → ℕ × ℕ
int_code (pos n) = (0, n)
int_code (negsuc n) = (1, n)

unfoldable pub int_of : ℕ × ℕ → ℤ
int_of (t, n) = if t == 0 then pos n else negsuc n

pub int_of-int_code : (i : ℤ) → int_of (int_code i) ≡ i
unfolding int_of int_code
int_of-int_code (pos n) = refl
int_of-int_code (negsuc n) = refl

unfoldable pub time_code : Option ℤ → ℕ × ℕ
time_code none = (2, 0)
time_code (some i) = int_code i

unfoldable pub time_of : ℕ × ℕ → Option ℤ
time_of (t, n) = if t == 2 then none else some (int_of (t, n))

pub time_of-time_code : (o : Option ℤ) → time_of (time_code o) ≡ o
unfolding time_of time_code int_of int_code
time_of-time_code none = refl
time_of-time_code (some (pos n)) = refl
time_of-time_code (some (negsuc n)) = refl

unfoldable pub flag_code : Bool → ℕ
flag_code true = 1
flag_code false = 0

unfoldable pub flag_of : ℕ → Bool
flag_of n = n == 1

pub flag_of-flag_code : (b : Bool) → flag_of (flag_code b) ≡ b
unfolding flag_of flag_code
flag_of-flag_code true = refl
flag_of-flag_code false = refl
