-- ===== src/Resumable.antt =====
-- Resumable uploads: parseContentRange, resumableChunk and finalizeResumable of
-- services/storage/resumable.go. A session's file is its bytes. What io.Copy moves of a request's
-- body into the file, and whether it fails, is an argument; the file's other operations succeed.
-- TrimSpace acts on ASCII.
pub mod Assembling
mod Tests
use cloudrig.Prelude.{
  ℕ, zero, suc, ◌+◌, ◌-◌, Bool, true, false, not, ◌&&◌, ◌||◌, Option, none, some, List, [], ◌∷◌,
  ◌++◌, ◌==◌, leb, length, if◌then◌else◌,
}
use cloudrig.Prelude.Int.{ℤ, pos, negsuc, ltb_ℤ, eqb_ℤ, ◌+ℤ◌}
use cloudrig.Prelude.Bytes.{Bytes, codes, str_eq, cut_prefix, cut}
use cloudrig.Prelude.Decimal.{parse_int}

pub record ContentRange : Type 0 where
  pub start : ℤ
  pub end : ℤ
  pub total : ℤ
  pub query : Bool

abbrev pub is_blank : ℕ → Bool
is_blank c = c == 32 || (leb 9 c && leb c 13)

unfoldable pub trim_left : Bytes → Bytes
trim_left [] = []
trim_left (c ∷ s) = let rest = trim_left s in if is_blank c then rest else c ∷ s

abbrev pub no_bytes : Bytes → Bool
no_bytes [] = true
no_bytes (c ∷ s) = false

unfoldable pub trim_right : Bytes → Bytes
trim_right [] = []
trim_right (c ∷ s) = let rest = trim_right s in if no_bytes rest && is_blank c then [] else c ∷ rest

-- A number that is not negative.
abbrev pub counted : Option ℤ → Option ℕ
counted none = none
counted (some (pos n)) = some n
counted (some (negsuc n)) = none

-- The total that a header declares: -1 for `*`.
unfoldable pub total_of : Bytes → Option ℤ
total_of s =
    if str_eq s (codes "*")
    then some (negsuc 0)
    else elim (counted (parse_int s)) [ none ↦ none | some n ↦ some (pos n) ]

abbrev pub chunk_range : ℤ → Option ℕ → Option ℕ → Option ContentRange
chunk_range total none e = none
chunk_range total (some s) none = none
chunk_range total (some s) (some e) =
    some (record { start = pos s; end = pos e; total = total; query = false })

abbrev pub with_bounds : ℤ → Option (Bytes × Bytes) → Option ContentRange
with_bounds total none = none
with_bounds total (some (s, e)) = chunk_range total (counted (parse_int s)) (counted (parse_int e))

unfoldable pub with_total : Bytes → Option ℤ → Option ContentRange
with_total range none = none
with_total range (some total) =
    if str_eq range (codes "*")
    then some (record { start = pos 0; end = negsuc 0; total = total; query = true })
    else with_bounds total (cut (codes "-") range)

abbrev pub with_parts : Option (Bytes × Bytes) → Option ContentRange
with_parts none = none
with_parts (some (range, total)) = with_total range (total_of total)

abbrev pub with_spec : Option Bytes → Option ContentRange
with_spec none = none
with_spec (some spec) = with_parts (cut (codes "/") spec)

unfoldable pub parse_content_range : Bytes → Option ContentRange
parse_content_range [] =
    some (record { start = pos 0; end = negsuc 0; total = negsuc 0; query = false })
parse_content_range (c ∷ s) =
    with_spec (cut_prefix (codes "bytes ") (trim_right (trim_left (c ∷ s))))

pub record Session : Type 0 where
  pub file : Bytes
  pub offset : ℕ
  pub total : ℤ
  pub done : Bool

-- The answers: an error, the progress so far, or the content that goes to WriteObject.
pub data Reply : Type 0 where
  unknown_session bad_range copy_failed wrong_length already_completed : Reply
  incomplete : ℕ → Reply
  finalized : Bytes → Reply

-- finalizeResumable: a session that is finalized is closed, whether or not the object is written.
unfoldable pub finalize : Session → Reply × Option Session
finalize s = if s.done then (already_completed, some s) else (finalized s.file, none)

unfoldable pub answer : Session → Reply × Option Session
answer s =
    if not (ltb_ℤ s.total (pos 0)) && not (ltb_ℤ (pos s.offset) s.total)
    then finalize s
    else (incomplete s.offset, some s)

-- The session behind a copy of `body`, which may have failed.
unfoldable pub copied : ContentRange → Bytes → Bool → Session → Reply × Option Session
copied r body failed s =
    if failed
    then (copy_failed, some s)
    else if not (ltb_ℤ r.end (pos 0)) && not (eqb_ℤ (pos s.offset) (r.end +ℤ pos 1))
    then (wrong_length, some s)
    else answer s

abbrev pub declare : ℤ → Session → Session
declare total s = if ltb_ℤ total (pos 0) then s else record s { total = total }

abbrev pub append_body : Bytes → Session → Session
append_body body s = record s { file = s.file ++ body; offset = s.offset + length body }

unfoldable pub receive : ContentRange → Bytes → Bool → Session → Reply × Option Session
receive r body failed s =
    if r.query
    then answer s
    else if not (eqb_ℤ r.start (pos s.offset))
    then (incomplete s.offset, some s)
    else copied r body failed (append_body body s)

unfoldable pub resumable_chunk : Bytes → Bytes → Bool → Option Session → Reply × Option Session
resumable_chunk header body failed none = (unknown_session, none)
resumable_chunk header body failed (some s) = elim (parse_content_range header) [
  | none ↦ (bad_range, some s)
  | some r ↦ receive r body failed (declare r.total s)
]
