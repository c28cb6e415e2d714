-- ===== src/Secrets.antt =====
-- services/secretmanager: secrets, the names of secrets and versions, and the keys they are stored
-- under (secretmanager.go). A secret is its name and its other fields; V is the values of fields.
pub mod Reading
pub mod Writing
pub mod Deletion
pub mod Names
pub mod Rotation
pub mod Destruction
mod Tests
use cloudrig.Prelude.{
  ℕ, suc, ◌-◌, Bool, true, false, not, ◌&&◌, ◌||◌, Option, none, some, List, [], ◌∷◌, ◌++◌, ◌==◌,
  length, replicate, if◌then◌else◌,
}
use cloudrig.Prelude.Int.{ℤ, pos, negsuc}
use cloudrig.Prelude.Bytes.{Bytes, codes, str_eq}
use cloudrig.Prelude.Decimal.{format_int}
use cloudrig.Gerr.{invalid_argument}
pub use cloudrig.Rpc.{Reply, ok, failed}
unfoldable pub use cloudrig.Rpc.{
  split_slash, join_slash, then_reply, or_fail, slash, onto_first, is_empty,
}

pub record Secret (V : Type 0) : Type 0 where
  pub name : Bytes
  pub fields : Bytes → Option V

pub data State : Type 0 where
  unspecified enabled disabled destroyed : State

pub record Version : Type 0 where
  pub name : Bytes
  pub state : State
  pub create_time : ℤ
  pub destroy_time : Option ℤ
  pub checksum_given : Bool

-- storedVersion: a nil payload is the empty one.
pub record Stored : Type 0 where
  pub version : Version
  pub payload : Bytes

-- What protobuf, encoding/json and hash/crc32 do for the service: the encodings, the values of the
-- fields that it sets, the descriptor's fields by either spelling, and the checksum.
pub record Codec (V : Type 0) : Type 0 where
  pub encode_secret : Secret V → Option Bytes
  pub decode_secret : Bytes → Option (Secret V)
  pub encode_version : Stored → Option Bytes
  pub decode_version : Bytes → Option Stored
  pub timestamp : ℤ → V
  pub automatic : V
  pub by_name : Bytes → Option Bytes
  pub by_json_name : Bytes → Option Bytes
  pub checksum : Bytes → ℤ

unfoldable pub parse_secret_parts : List Bytes → Reply (Bytes × Bytes)
parse_secret_parts (a ∷ project ∷ c ∷ secret ∷ []) =
    if str_eq a (codes "projects")
      && str_eq c (codes "secrets")
      && not (is_empty project)
      && not (is_empty secret)
    then ok (project, secret)
    else failed invalid_argument
parse_secret_parts other = failed invalid_argument

unfoldable pub parse_secret : Bytes → Reply (Bytes × Bytes)
parse_secret name = parse_secret_parts (split_slash name)

unfoldable pub parse_version_parts : List Bytes → Reply (Bytes × Bytes)
parse_version_parts (a ∷ b ∷ c ∷ d ∷ e ∷ version ∷ []) =
    let secret = join_slash (a ∷ b ∷ c ∷ d ∷ []) in
    if str_eq e (codes "versions") && not (is_empty version)
    then then_reply (parse_secret secret) (λ _. ok (secret, version))
    else failed invalid_argument
parse_version_parts other = failed invalid_argument

unfoldable pub parse_version : Bytes → Reply (Bytes × Bytes)
parse_version name = parse_version_parts (split_slash name)

unfoldable pub secret_key : Bytes → Bytes
secret_key name = codes "sm/s/" ++ name

-- A number in at least so many places, as %0*d prints it; the sign takes one.
abbrev pub zero_filled : ℕ → ℕ → Bytes
zero_filled width n = replicate (width - length (format_int n)) b'0' ++ format_int n

abbrev pub version_digits : ℕ
version_digits = 12

unfoldable pub version_number_text : ℤ → Bytes
version_number_text (pos n) = zero_filled version_digits n
version_number_text (negsuc n) = b'-' ∷ zero_filled (version_digits - 1) (suc n)

unfoldable pub version_prefix : Bytes → Bytes
version_prefix secret = codes "sm/v/" ++ (secret ++ slash ∷ [])

unfoldable pub version_key : Bytes → ℤ → Bytes
version_key secret n = codes "sm/v/" ++ (secret ++ slash ∷ version_number_text n)

abbrev pub latest_alias : Bytes
latest_alias = codes "latest"
