-- ===== src/Base64.antt =====
-- The unpadded URL alphabet of Go's `encoding/base64` (RawURLEncoding), which page tokens go by.
use cloudrig.Prelude.{
  ℕ, ◌+◌, ◌-◌, ◌*◌, ◌/◌, ◌%◌, ◌<◌, ◌≡◌, ◌≢◌, refl, Bool, true, ◌&&◌, ◌||◌, not, Option, none, some,
  [], ◌∷◌, ◌++◌, arith, ltb, leb, ◌==◌, if◌then◌else◌, select, All, select_every,
}
use cloudrig.Prelude.Bytes.{Bytes, IsBytes}

-- The character of a six-bit value.
unfoldable pub encode_char : ℕ → ℕ
encode_char i =
    if ltb i 26
    then i + 65
    else if ltb i 52
    then i + 71
    else if ltb i 62
    then i - 4
    else if i == 62
    then b'-'
    else b'_'

unfoldable pub decode_char : ℕ → Option ℕ
decode_char c =
    if leb b'A' c && leb c b'Z'
    then some (c - 65)
    else if leb b'a' c && leb c b'z'
    then some (c - 71)
    else if leb b'0' c && leb c b'9'
    then some (c + 4)
    else if c == b'-'
    then some 62
    else if c == b'_'
    then some 63
    else none

-- EncodeToString
unfoldable pub encode : Bytes → Bytes
unfolding encode_char
encode [] = []
encode (a ∷ []) = encode_char (a / 4) ∷ encode_char (a % 4 * 16) ∷ []
encode (a ∷ b ∷ []) =
    encode_char (a / 4) ∷ encode_char (a % 4 * 16 + b / 16) ∷ encode_char (b % 16 * 4) ∷ []
encode (a ∷ b ∷ c ∷ rest) =
    encode_char (a / 4)
    ∷ encode_char (a % 4 * 16 + b / 16)
    ∷ encode_char (b % 16 * 4 + c / 64)
    ∷ encode_char (c % 64)
    ∷ encode rest

infixl 5 ◌>>=◌
abbrev ◌>>=◌ {ℓ κ} : {A : Type ℓ} {B : Type κ} → Option A → (A → Option B) → Option B
none >>= f = none
some a >>= f = f a

-- The bytes of a group of four characters, of three and of two; bits to spare are not checked.
unfoldable pub quantum : ℕ → ℕ → ℕ → ℕ → Option Bytes
unfolding decode_char
quantum p q r s = do
  w ← decode_char p
  x ← decode_char q
  y ← decode_char r
  z ← decode_char s
  some ((w * 4 + x / 16) ∷ (x % 16 * 16 + y / 4) ∷ (y % 4 * 64 + z) ∷ [])

unfoldable pub last_three : ℕ → ℕ → ℕ → Option Bytes
unfolding decode_char
last_three p q r = do
  w ← decode_char p
  x ← decode_char q
  y ← decode_char r
  some ((w * 4 + x / 16) ∷ (x % 16 * 16 + y / 4) ∷ [])

unfoldable pub last_two : ℕ → ℕ → Option Bytes
unfolding decode_char
last_two p q = do w ← decode_char p; x ← decode_char q; some ((w * 4 + x / 16) ∷ [])

unfoldable pub decode_groups : Bytes → Option Bytes
unfolding quantum last_three last_two
decode_groups [] = some []
decode_groups (p ∷ []) = none
decode_groups (p ∷ q ∷ []) = last_two p q
decode_groups (p ∷ q ∷ r ∷ []) = last_three p q r
decode_groups (p ∷ q ∷ r ∷ s ∷ rest) =
    let tail = decode_groups rest in do group ← quantum p q r s; bytes ← tail; some (group ++ bytes)

unfoldable pub is_newline : ℕ → Bool
is_newline c = c == b'\n' || c == b'\r'

-- DecodeString, which skips line breaks.
unfoldable pub decode : Bytes → Option Bytes
unfolding decode_groups is_newline select
decode s = decode_groups (select (λ c. not (is_newline c)) s)

decode-encode_char : (i : ℕ) → i < 64 → decode_char (encode_char i) ≡ some i
unfolding decode_char encode_char
decode-encode_char i h = ground arith

encode_char-not_newline : (i : ℕ) → i < 64 → not (is_newline (encode_char i)) ≡ true
unfolding encode_char is_newline
encode_char-not_newline i h = ground arith

decode-encode-three :
    (a b c : ℕ)
    → a < 256
    → b < 256
    → c < 256
    → quantum
        (encode_char (a / 4))
        (encode_char (a % 4 * 16 + b / 16))
        (encode_char (b % 16 * 4 + c / 64))
        (encode_char (c % 64))
      ≡ some (a ∷ b ∷ c ∷ [])
unfolding quantum
decode-encode-three a b c ha hb hc = ground (
  arith,
  decode-encode_char (a / 4) (omega arith),
  decode-encode_char (a % 4 * 16 + b / 16) (omega arith),
  decode-encode_char (b % 16 * 4 + c / 64) (omega arith),
  decode-encode_char (c % 64) (omega arith),
)

encode-no_newlines : (s : Bytes) → IsBytes s → All (λ c. not (is_newline c) ≡ true) (encode s)
unfolding encode
encode-no_newlines [] h = tt
encode-no_newlines (a ∷ []) h = (
  encode_char-not_newline (a / 4) (omega arith),
  (encode_char-not_newline (a % 4 * 16) (omega arith), tt),
)
encode-no_newlines (a ∷ b ∷ []) h = (
  encode_char-not_newline (a / 4) (omega arith),
  (
    encode_char-not_newline (a % 4 * 16 + b / 16) (omega arith),
    (encode_char-not_newline (b % 16 * 4) (omega arith), tt),
  ),
)
encode-no_newlines (a ∷ b ∷ c ∷ s) h = (
  encode_char-not_newline (a / 4) (omega arith),
  (
    encode_char-not_newline (a % 4 * 16 + b / 16) (omega arith),
    (
      encode_char-not_newline (b % 16 * 4 + c / 64) (omega arith),
      (encode_char-not_newline (c % 64) (omega arith), encode-no_newlines s h.1.1.1),
    ),
  ),
)

decode_groups-encode : (s : Bytes) → IsBytes s → decode_groups (encode s) ≡ some s
unfolding decode_groups encode
decode_groups-encode [] h = refl
decode_groups-encode (a ∷ []) h =
    ground (
      arith,
      decode-encode_char (a / 4) (omega arith),
      decode-encode_char (a % 4 * 16) (omega arith),
    )
decode_groups-encode (a ∷ b ∷ []) h = ground (
  arith,
  decode-encode_char (a / 4) (omega arith),
  decode-encode_char (a % 4 * 16 + b / 16) (omega arith),
  decode-encode_char (b % 16 * 4) (omega arith),
)
decode_groups-encode (a ∷ b ∷ c ∷ s) h =
    rw (decode-encode-three a b c h.0 h.1.0 h.1.1.0, decode_groups-encode s h.1.1.1)

-- Decoding what was encoded gives the bytes back.
pub decode-encode : (s : Bytes) → IsBytes s → decode (encode s) ≡ some s
unfolding decode
decode-encode s h =
    rw (select_every (λ c. not (is_newline c)) (encode s) (encode-no_newlines s h))
      (decode_groups-encode s h)

-- Only the empty string encodes to the empty string.
pub encode-ne-nil : (s : Bytes) → s ≢ [] → encode s ≢ []
unfolding encode
encode-ne-nil [] h = absurd (h refl)
encode-ne-nil (a ∷ []) h = λ e. cc
encode-ne-nil (a ∷ b ∷ []) h = λ e. cc
encode-ne-nil (a ∷ b ∷ c ∷ s) h = λ e. cc
