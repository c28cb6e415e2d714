-- ===== src/Storage/Naming/Tests.antt =====
-- Two creations of a bucket of one name, in two projects, while the clock moves on.
use cloudrig.Prelude.{◌+◌, ◌≡◌, ◌≢◌, refl, false, none, some, [], ◌∷◌}
use cloudrig.Prelude.Bytes.{Bytes, codes, str_eq}
use cloudrig.Resource.{bucket_key, bucket_index, bucket_below}
use cloudrig.Store.{new_memory}
use cloudrig.Store
use cloudrig.Storage.{Bucket, Codec, or_default}
use cloudrig.Storage.Program.{World, Others, run, returned, on_result}
use cloudrig.Storage.Buckets.{valid_bucket_name, has_byte, create_bucket}
use cloudrig.Storage.Naming.{name_given_once}

abbrev codec : Codec
codec = record {
  encode_object = λ o. some [];
  decode_object = λ s. none;
  encode_live = λ l. some [];
  decode_live = λ s. none;
  encode_bucket = λ b. some b.name;
  decode_bucket = λ s. none;
}

abbrev asked : Bytes → Bucket
asked project = record {
  name = codes "bkt";
  project = project;
  location = [];
  storage_class = [];
  versioning = false;
  metageneration = 0;
  created = 0;
  updated = 0;
}

abbrev world : World
world = record { kv = new_memory; now = 5; contents = λ b. false; is_stuck = λ b. false; told = [] }

-- The clock moves on before the first call.
abbrev ticking : Others
ticking = (λ w. record w { now = w.now + 1 }) ∷ []

abbrev made : Bucket
made = record (asked (codes "pr")) {
  location = codes "US";
  storage_class = codes "STANDARD";
  metageneration = 1;
  created = 6;
  updated = 6;
}

create_bucket_succeeds :
    (run (create_bucket codec (asked (codes "pr"))) ticking world).0 ≡ returned made
unfolding run create_bucket on_result valid_bucket_name has_byte or_default Store.put Store.write
    new_memory bucket_key bucket_index bucket_below str_eq
create_bucket_succeeds = refl

name_given_once_example :
    (run
      (create_bucket codec (asked (codes "q")))
      ticking
      (run (create_bucket codec (asked (codes "pr"))) ticking world).1).0
    ≢ returned made
name_given_once_example =
    name_given_once codec (asked (codes "pr")) (asked (codes "q")) made made ticking ticking world
      ((λ w p c. c), tt) ((λ w p c. c), tt) refl create_bucket_succeeds
