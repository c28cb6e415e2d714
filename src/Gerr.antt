-- ===== src/Gerr.antt =====
-- core/gerr: the error type that every service answers with, its codes (code.go), its builders
-- (gerr.go), its details (detail.go) and the JSON envelope that it renders as (json.go). A code is
-- a number that is not negative; strings are ASCII, where ToLower and ToUpper act.
pub mod Codes
pub mod Rendering
mod Tests
use cloudrig.Prelude.{
  ℕ, ◌+◌, ◌-◌, Bool, true, false, not, ◌&&◌, ◌||◌, Option, none, some, List, [], ◌∷◌, ◌++◌, map,
  ◌==◌, leb, if◌then◌else◌,
}
use cloudrig.Prelude.Bytes.{Bytes, codes, str_eq}

abbrev pub invalid_argument : ℕ
invalid_argument = 3

abbrev pub deadline_exceeded : ℕ
deadline_exceeded = 4

abbrev pub not_found : ℕ
not_found = 5

abbrev pub already_exists : ℕ
already_exists = 6

abbrev pub permission_denied : ℕ
permission_denied = 7

abbrev pub resource_exhausted : ℕ
resource_exhausted = 8

abbrev pub failed_precondition : ℕ
failed_precondition = 9

abbrev pub aborted : ℕ
aborted = 10

abbrev pub unimplemented : ℕ
unimplemented = 12

abbrev pub internal : ℕ
internal = 13

abbrev pub unavailable : ℕ
unavailable = 14

abbrev pub unauthenticated : ℕ
unauthenticated = 16

pub code_names : List (ℕ × Bytes)
code_names =
    (0, codes "OK")
    ∷ (1, codes "CANCELLED")
    ∷ (2, codes "UNKNOWN")
    ∷ (3, codes "INVALID_ARGUMENT")
    ∷ (4, codes "DEADLINE_EXCEEDED")
    ∷ (5, codes "NOT_FOUND")
    ∷ (6, codes "ALREADY_EXISTS")
    ∷ (7, codes "PERMISSION_DENIED")
    ∷ (8, codes "RESOURCE_EXHAUSTED")
    ∷ (9, codes "FAILED_PRECONDITION")
    ∷ (10, codes "ABORTED")
    ∷ (11, codes "OUT_OF_RANGE")
    ∷ (12, codes "UNIMPLEMENTED")
    ∷ (13, codes "INTERNAL")
    ∷ (14, codes "UNAVAILABLE")
    ∷ (15, codes "DATA_LOSS")
    ∷ (16, codes "UNAUTHENTICATED")
    ∷ []

unfoldable pub canonical_http : List (ℕ × ℕ)
canonical_http =
    (0, 200)
    ∷ (1, 499)
    ∷ (2, 500)
    ∷ (3, 400)
    ∷ (4, 504)
    ∷ (5, 404)
    ∷ (6, 409)
    ∷ (7, 403)
    ∷ (8, 429)
    ∷ (9, 400)
    ∷ (10, 409)
    ∷ (11, 400)
    ∷ (12, 501)
    ∷ (13, 500)
    ∷ (14, 503)
    ∷ (15, 500)
    ∷ (16, 401)
    ∷ []

-- m[code], or the given value if the map lacks it
unfoldable pub find_or {ℓ} : {A : Type ℓ} → A → ℕ → List (ℕ × A) → A
find_or d c [] = d
find_or d c ((k, v) ∷ m) = if k == c then v else find_or d c m

-- Code.String
pub code_string : ℕ → Bytes
unfolding find_or
code_string c = find_or (codes "UNKNOWN") c code_names

pub record FieldViolation : Type 0 where
  pub field : Bytes
  pub description : Bytes

pub record PreconditionViolation : Type 0 where
  pub type : Bytes
  pub subject : Bytes
  pub description : Bytes

pub data Detail : Type 0 where
  error_info : Bytes → Bytes → Detail
  bad_request : List FieldViolation → Detail
  precondition_failure : List PreconditionViolation → Detail

-- `status` is 0 until it is set.
pub record Error : Type 0 where
  pub code : ℕ
  pub message : Bytes
  pub reason : Bytes
  pub location : Bytes
  pub location_type : Bytes
  pub domain : Bytes
  pub details : List Detail
  pub status : ℕ

unfoldable pub new_error : ℕ → Bytes → Error
new_error code msg = record {
  code = code;
  message = msg;
  reason = [];
  location = [];
  location_type = [];
  domain = [];
  details = [];
  status = 0;
}

unfoldable pub with_http_status : ℕ → Error → Error
with_http_status status e = record e { status = status }

unfoldable pub with_reason : Bytes → Error → Error
with_reason reason e = record e { reason = reason }

pub with_location : Bytes → Bytes → Error → Error
with_location location location_type e = record e {
  location = location;
  location_type = location_type;
}

pub with_domain : Bytes → Error → Error
with_domain domain e = record e { domain = domain }

pub with_details : List Detail → Error → Error
with_details details e = record e { details = e.details ++ details }

-- (*Error).HTTPStatus
unfoldable pub http_status : Error → ℕ
http_status e = if not (e.status == 0) then e.status else find_or 500 e.code canonical_http

pub record EnvelopeEntry : Type 0 where
  pub message : Bytes
  pub domain : Bytes
  pub reason : Bytes
  pub location : Bytes
  pub location_type : Bytes

pub record EnvelopeError : Type 0 where
  pub code : ℕ
  pub message : Bytes
  pub errors : List EnvelopeEntry
  pub status : Bytes

unfoldable pub to_lower : ℕ → ℕ
to_lower c = if leb b'A' c && leb c b'Z' then c + 32 else c

unfoldable pub to_upper : ℕ → ℕ
to_upper c = if leb b'a' c && leb c b'z' then c - 32 else c

abbrev pub underscore : ℕ
underscore = b'_'

pub has_underscore : Bytes → Bool
has_underscore [] = false
has_underscore (c ∷ s) = c == underscore || has_underscore s

-- The loop of lowerCamel: whether a rune is not the first one, and whether `upper` is set.
pub camel : Bool → Bool → Bytes → Bytes
camel later upper [] = []
camel later upper (c ∷ s) =
    let raise = upper && later in
    let rest = camel true (if c == underscore then true else if raise then false else upper) s in
    if c == underscore then rest else if raise then to_upper c ∷ rest else c ∷ rest

pub lower_camel : Bytes → Bytes
lower_camel s = if not (has_underscore s) then s else camel false false (map to_lower s)

abbrev pub is_empty : Bytes → Bool
is_empty [] = true
is_empty (c ∷ s) = false

-- The reason and domain that the details leave: an ErrorInfo fills only what is missing.
pub fill_reason : Bytes → List Detail → Bytes
fill_reason reason [] = reason
fill_reason reason (error_info r d ∷ ds) =
    fill_reason (if is_empty reason then lower_camel r else reason) ds
fill_reason reason (bad_request v ∷ ds) = fill_reason reason ds
fill_reason reason (precondition_failure v ∷ ds) = fill_reason reason ds

pub fill_domain : Bytes → List Detail → Bytes
fill_domain domain [] = domain
fill_domain domain (error_info r d ∷ ds) = fill_domain (if is_empty domain then d else domain) ds
fill_domain domain (bad_request v ∷ ds) = fill_domain domain ds
fill_domain domain (precondition_failure v ∷ ds) = fill_domain domain ds

abbrev field_entry : Bytes → FieldViolation → EnvelopeEntry
field_entry domain v = record {
  message = v.description;
  domain = domain;
  reason = codes "invalid";
  location = v.field;
  location_type = codes "parameter";
}

abbrev precondition_entry : Bytes → PreconditionViolation → EnvelopeEntry
precondition_entry domain v = record {
  message = v.description;
  domain = domain;
  reason = lower_camel v.type;
  location = v.subject;
  location_type = [];
}

pub detail_entries : Bytes → List Detail → List EnvelopeEntry
detail_entries domain [] = []
detail_entries domain (error_info r d ∷ ds) = detail_entries domain ds
detail_entries domain (bad_request vs ∷ ds) =
    map (field_entry domain) vs ++ detail_entries domain ds
detail_entries domain (precondition_failure vs ∷ ds) =
    map (precondition_entry domain) vs ++ detail_entries domain ds

abbrev pub or_global : Bytes → Bytes
or_global [] = codes "global"
or_global (c ∷ s) = c ∷ s

-- (*Error).Envelope
pub envelope : Error → EnvelopeError
envelope e =
    let reason = fill_reason e.reason e.details in
    let domain = or_global (fill_domain e.domain e.details) in
    let primary : List EnvelopeEntry =
      if not (is_empty reason) || not (is_empty e.location)
      then record {
        message = e.message;
        domain = domain;
        reason = reason;
        location = e.location;
        location_type = e.location_type;
      }
        ∷ []
      else [] in
    record {
      code = http_status e;
      message = e.message;
      errors = primary ++ detail_entries domain e.details;
      status = code_string e.code;
    }
