-- ===== src/Resource.antt =====
-- core/resource/key.go: how resources are encoded as keys of the store. A generation is a number
-- that is not negative; the errors of ParseObject and ObjectName, which differ in their text only,
-- are `none`.
pub mod RoundTrip
mod Tests
use cloudrig.Prelude.{ℕ, Bool, Option, none, some, List, [], ◌∷◌, ◌++◌}
use cloudrig.Prelude.Bytes.{Bytes, codes, cut_prefix, cut, cut_last}
use cloudrig.Prelude.Decimal.{padded, parse_int}
use cloudrig.Prelude.Int.{ℤ}

unfoldable pub bucket_index : Bytes → Bytes
bucket_index bucket = codes "bx/" ++ bucket

unfoldable pub blob_refs : Bytes → Bytes
blob_refs sha = codes "rc/" ++ sha

-- The key of a bucket, in front of what stands below it.
unfoldable pub bucket_below : Bytes → Bytes → Bytes → Bytes
bucket_below project bucket rest = codes "p/" ++ (project ++ (codes "/b/" ++ (bucket ++ rest)))

unfoldable pub bucket_key : Bytes → Bytes → Bytes
unfolding bucket_below
bucket_key project bucket = bucket_below project bucket []

unfoldable pub bucket_prefix : Bytes → Bytes → Bytes
unfolding bucket_below
bucket_prefix project bucket = bucket_below project bucket (codes "/")

unfoldable pub project_prefix : Bytes → Bytes
project_prefix project = codes "p/" ++ (project ++ codes "/")

unfoldable pub buckets_prefix : Bytes → Bytes
buckets_prefix project = codes "p/" ++ (project ++ codes "/b/")

pub iam : Bytes → Bytes → Bytes → Bytes
iam project bucket [] = bucket_below project bucket (codes "/iam")
iam project bucket (c ∷ cs) = bucket_below project bucket (codes "/iam/o/" ++ (c ∷ cs))

unfoldable pub live : Bytes → Bytes → Bytes → Bytes
live project bucket object = bucket_below project bucket (codes "/live/" ++ object)

unfoldable pub live_prefix : Bytes → Bytes → Bytes
live_prefix project bucket = bucket_below project bucket (codes "/live/")

pub object_prefix : Bytes → Bytes → Bytes → Bytes
object_prefix project bucket object =
    bucket_below project bucket (codes "/o/" ++ (object ++ 0 ∷ []))

unfoldable pub object : Bytes → Bytes → Bytes → ℕ → Bytes
object project bucket name generation =
    bucket_below project bucket (codes "/o/" ++ (name ++ 0 ∷ padded generation))

infixl 5 ◌>>=◌
abbrev ◌>>=◌ {ℓ κ} : {A : Type ℓ} {B : Type κ} → Option A → (A → Option B) → Option B
none >>= f = none
some a >>= f = f a

-- ParseObject: the project, the bucket, the name and the generation.
pub parse_object : Bytes → Option (Bytes × Bytes × Bytes × ℤ)
parse_object key = do
  rest ← cut_prefix (codes "p/") key
  at_bucket ← cut (codes "/b/") rest
  at_object ← cut (codes "/o/") at_bucket.1
  at_generation ← cut_last 0 at_object.1
  generation ← parse_int at_generation.1
  some (at_bucket.0, at_object.0, at_generation.0, generation)

unfoldable pub object_name : Bytes → Bytes → Bytes → Option Bytes
object_name project bucket live_key = cut_prefix (live_prefix project bucket) live_key
