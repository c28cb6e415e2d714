-- ===== src/Resource/Tests.antt =====
-- Keys of concrete resources, and the theorems about them at inputs that meet their hypotheses.
use cloudrig.Prelude.{◌≡◌, refl, some, ◌∷◌, ◌++◌, arith}
use cloudrig.Prelude.Bytes.{codes}
use cloudrig.Prelude.Decimal.{padded, format_int}
use cloudrig.Prelude.Int.{pos}
use cloudrig.Resource.{object, parse_object, bucket_below}
use cloudrig.Resource.RoundTrip.{parse_object-object}

object_key :
    object (codes "p") (codes "b") (codes "a#b") 5
    ≡ codes "p/p/b/b/o/a#b" ++ (0 ∷ codes "00000000000000000005")
unfolding object bucket_below padded format_int
object_key = refl

parse_object-object_example :
    parse_object (object (codes "proj") (codes "bkt") (codes "a/b/o/c#5") 1735689600000000)
    ≡ some (codes "proj", codes "bkt", codes "a/b/o/c#5", pos 1735689600000000)
parse_object-object_example =
    parse_object-object (codes "proj") (codes "bkt") (codes "a/b/o/c#5") 1735689600000000
      (omega arith) (omega arith) (omega arith)
