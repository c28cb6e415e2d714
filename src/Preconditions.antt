-- ===== src/Preconditions.antt =====
-- Preconditions of services/storage/object.go: the conditions on generations that gate an operation.
-- Of an object only its generation and metageneration are read. The errors are those of
-- preconditionFailed and notModified, less the names in their texts.
pub mod Deciding
mod Tests
use cloudrig.Prelude.{
  ℕ, Bool, true, false, not, ◌&&◌, ◌||◌, Option, none, some, ◌==◌, if◌then◌else◌,
}
use cloudrig.Prelude.Int.{ℤ, pos, eqb_ℤ}
use cloudrig.Prelude.Bytes.{Bytes, codes}
use cloudrig.Gerr.{aborted, failed_precondition, Error, new_error, with_http_status, with_reason}

pub record Preconditions : Type 0 where
  pub if_generation_match : Option ℤ
  pub if_generation_not_match : Option ℤ
  pub if_metageneration_match : Option ℤ
  pub if_metageneration_not_match : Option ℤ

abbrev pub is_given : Option ℤ → Bool
is_given none = false
is_given (some n) = true

unfoldable pub is_set : Preconditions → Bool
is_set p =
    is_given p.if_generation_match
    || is_given p.if_generation_not_match
    || is_given p.if_metageneration_match
    || is_given p.if_metageneration_not_match

pub record Version : Type 0 where
  pub generation : ℤ
  pub metageneration : ℤ

pub data Verdict : Type 0 where
  passed precondition_failed not_modified : Verdict

unfoldable pub error_of : Verdict → Option Error
error_of passed = none
error_of precondition_failed = some (
    with_reason (codes "conditionNotMet") (
      with_http_status 412 (
        new_error failed_precondition
          (codes "At least one of the pre-conditions you specified did not hold"))))
error_of not_modified = some (
    with_reason (codes "notModified")
      (with_http_status 304 (new_error aborted (codes "The conditional request failed"))))

unfoldable pub condition_held : Bool → Verdict
condition_held read = if read then not_modified else precondition_failed

-- The four conditions, each with what is checked after it.
unfoldable pub check_generation : Option ℤ → Option Version → Verdict → Verdict
check_generation none e next = next
check_generation (some want) none next =
    if not (eqb_ℤ want (pos 0)) then precondition_failed else next
check_generation (some want) (some v) next =
    if eqb_ℤ want (pos 0)
    then precondition_failed
    else if not (eqb_ℤ v.generation want)
    then precondition_failed
    else next

unfoldable pub check_generation_not : Bool → Option ℤ → Option Version → Verdict → Verdict
check_generation_not read none e next = next
check_generation_not read (some want) none next =
    if eqb_ℤ want (pos 0) then condition_held read else next
check_generation_not read (some want) (some v) next =
    if eqb_ℤ v.generation want then condition_held read else next

unfoldable pub check_metageneration : Option ℤ → Option Version → Verdict → Verdict
check_metageneration none e next = next
check_metageneration (some want) none next = precondition_failed
check_metageneration (some want) (some v) next =
    if not (eqb_ℤ v.metageneration want) then precondition_failed else next

unfoldable pub check_metageneration_not : Bool → Option ℤ → Option Version → Verdict → Verdict
check_metageneration_not read none e next = next
check_metageneration_not read (some want) none next = next
check_metageneration_not read (some want) (some v) next =
    if eqb_ℤ v.metageneration want then condition_held read else next

unfoldable pub check_preconditions : Preconditions → Option Version → Bool → Verdict
check_preconditions p e read = check_generation p.if_generation_match e (
    check_generation_not read p.if_generation_not_match e (
      check_metageneration p.if_metageneration_match e
        (check_metageneration_not read p.if_metageneration_not_match e passed)))
