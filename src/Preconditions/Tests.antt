-- ===== src/Preconditions/Tests.antt =====
-- Instances of the theorems on the preconditions of services/storage/object.go.
use cloudrig.Prelude.{◌≡◌, refl, false, Option, none, some}
use cloudrig.Prelude.Int.{pos}
use cloudrig.Preconditions.{Preconditions, Version, check_preconditions}
use cloudrig.Preconditions.Deciding.{meets, has_passed, check_preconditions-meets}

abbrev third : Option Version
third = some (record { generation = pos 3; metageneration = pos 1 })

abbrev only_third : Preconditions
only_third = record {
  if_generation_match = some (pos 3);
  if_generation_not_match = none;
  if_metageneration_match = none;
  if_metageneration_not_match = some (pos 2);
}

check_preconditions-meets_example :
    has_passed (check_preconditions only_third third false) ≡ meets only_third third
check_preconditions-meets_example = check_preconditions-meets only_third third false refl
