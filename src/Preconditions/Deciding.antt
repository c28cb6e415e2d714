-- ===== src/Preconditions/Deciding.antt =====
-- What the preconditions of services/storage/object.go decide.
use cloudrig.Prelude.{◌≡◌, refl, arith, Bool, true, false, not, ◌&&◌, Option, none, some}
use cloudrig.Prelude.Int.{ℤ, pos, eqb_ℤ}
use cloudrig.Preconditions.{
  Preconditions, is_set, Version, Verdict, passed, precondition_failed, not_modified,
  condition_held, check_generation, check_generation_not, check_metageneration,
  check_metageneration_not, check_preconditions,
}

-- The generation of what is there: 0 where nothing is.
abbrev pub generation_of : Option Version → ℤ
generation_of none = pos 0
generation_of (some v) = v.generation

abbrev pub is_generation : Option ℤ → Option Version → Bool
is_generation none e = true
is_generation (some want) e = eqb_ℤ (generation_of e) want

abbrev pub is_not_generation : Option ℤ → Option Version → Bool
is_not_generation none e = true
is_not_generation (some want) e = not (eqb_ℤ (generation_of e) want)

abbrev pub is_metageneration : Option ℤ → Option Version → Bool
is_metageneration none e = true
is_metageneration (some want) none = false
is_metageneration (some want) (some v) = eqb_ℤ v.metageneration want

abbrev pub is_not_metageneration : Option ℤ → Option Version → Bool
is_not_metageneration none e = true
is_not_metageneration (some want) none = true
is_not_metageneration (some want) (some v) = not (eqb_ℤ v.metageneration want)

abbrev pub meets : Preconditions → Option Version → Bool
meets p e =
    is_generation p.if_generation_match e
    && is_not_generation p.if_generation_not_match e
    && is_metageneration p.if_metageneration_match e
    && is_not_metageneration p.if_metageneration_not_match e

abbrev pub has_passed : Verdict → Bool
has_passed passed = true
has_passed precondition_failed = false
has_passed not_modified = false

-- Versions that are there count from 1.
abbrev pub IsNumbered : Option Version → Type 0
IsNumbered none = Unit {0}
IsNumbered (some v) = eqb_ℤ v.generation (pos 0) ≡ false

passed-generation :
    (w : Option ℤ) (e : Option Version) (next : Verdict)
    → IsNumbered e
    → has_passed (check_generation w e next) ≡ (is_generation w e && has_passed next)
unfolding check_generation
passed-generation none e next h = refl
passed-generation (some want) none next h = ground arith
passed-generation (some want) (some v) next h = ground (arith, h)

passed-generation_not :
    (read : Bool) (w : Option ℤ) (e : Option Version) (next : Verdict)
    → has_passed (check_generation_not read w e next) ≡ (is_not_generation w e && has_passed next)
unfolding check_generation_not condition_held
passed-generation_not read none e next = refl
passed-generation_not read (some want) none next = ground arith
passed-generation_not read (some want) (some v) next = ground arith

passed-metageneration :
    (w : Option ℤ) (e : Option Version) (next : Verdict)
    → has_passed (check_metageneration w e next) ≡ (is_metageneration w e && has_passed next)
unfolding check_metageneration
passed-metageneration none e next = refl
passed-metageneration (some want) none next = refl
passed-metageneration (some want) (some v) next = ground arith

passed-metageneration_not :
    (read : Bool) (w : Option ℤ) (e : Option Version) (next : Verdict)
    → has_passed (check_metageneration_not read w e next)
      ≡ (is_not_metageneration w e && has_passed next)
unfolding check_metageneration_not condition_held
passed-metageneration_not read none e next = refl
passed-metageneration_not read (some want) none next = refl
passed-metageneration_not read (some want) (some v) next = ground arith

-- An operation passes just when each condition that is given holds of what is there, where nothing
-- counts as generation 0 and has no metageneration; versions that are there are not numbered 0.
pub check_preconditions-meets :
    (p : Preconditions) (e : Option Version) (read : Bool)
    → IsNumbered e
    → has_passed (check_preconditions p e read) ≡ meets p e
unfolding check_preconditions
check_preconditions-meets p e read h = ground (
  arith,
  passed-generation p.if_generation_match e
      (check_generation_not read p.if_generation_not_match e (
        check_metageneration p.if_metageneration_match e
          (check_metageneration_not read p.if_metageneration_not_match e passed)))
      h,
  passed-generation_not read p.if_generation_not_match e (
      check_metageneration p.if_metageneration_match e
        (check_metageneration_not read p.if_metageneration_not_match e passed)),
  passed-metageneration p.if_metageneration_match e
      (check_metageneration_not read p.if_metageneration_not_match e passed),
  passed-metageneration_not read p.if_metageneration_not_match e passed,
)

-- With no condition given every operation passes.
unset_passes :
    (p : Preconditions) (e : Option Version) (read : Bool)
    → is_set p ≡ false
    → check_preconditions p e read ≡ passed
unfolding is_set check_preconditions check_generation check_generation_not check_metageneration
    check_metageneration_not
unset_passes p e read h = ground arith
