-- ===== src/Storage/Encoding.antt =====
-- A codec for services/storage that reads back what it encodes.
use cloudrig.Prelude.{
  ℕ, ◌+◌, ◌-◌, ◌≡◌, refl, sym, ap, ◌∙◌, arith, true, false, Option, none, some, List, [], ◌∷◌, ◌==◌,
  if◌then◌else◌,
}
use cloudrig.Prelude.Bytes.{Bytes, codes}
use cloudrig.Storage.{Object, Live, Bucket, Codec}
use cloudrig.Storage.Lookup.{ReadsBack}

-- A text behind which others follow: its bytes raised by one, and a zero.
unfoldable pub field : Bytes → Bytes → Bytes
field [] rest = 0 ∷ rest
field (c ∷ s) rest = (c + 1) ∷ field s rest

unfoldable pub push : ℕ → List Bytes → List Bytes
push c [] = []
push c (s ∷ ss) = (c ∷ s) ∷ ss

unfoldable pub fields : Bytes → List Bytes
fields [] = []
fields (c ∷ s) = let rest = fields s in if c == 0 then [] ∷ rest else push (c - 1) rest

unfoldable pub metadata_code : Option Bytes → Bytes
metadata_code none = []
metadata_code (some m) = 0 ∷ m

unfoldable pub metadata_of : Bytes → Option Bytes
metadata_of [] = none
metadata_of (c ∷ m) = some m

metadata_of-metadata_code : (m : Option Bytes) → metadata_of (metadata_code m) ≡ m
unfolding metadata_of metadata_code
metadata_of-metadata_code none = refl
metadata_of-metadata_code (some m) = refl

fields-field : (s rest : Bytes) → fields (field s rest) ≡ s ∷ fields rest
unfolding fields field push
fields-field [] rest = refl
fields-field (c ∷ s) rest =
    let same : c + 1 - 1 ≡ c = omega arith in
    let apart : c + 1 == 0 ≡ false = ground arith in
    rw apart (rw (fields-field s rest) (ap (λ k. (k ∷ s) ∷ fields rest) same))

unfoldable pub encode_object : Object → Bytes
encode_object o = field (o.generation ∷ o.metageneration ∷ o.size ∷ o.created ∷ o.updated ∷ []) (
    field o.bucket (
      field o.name (
        field o.content_type (
          field (metadata_code o.metadata)
            (field o.crc (field o.md5 (field o.etag (field o.blob []))))))))

unfoldable pub object_of : List Bytes → Option Object
object_of ((g ∷ m ∷ z ∷ c ∷ u ∷ []) ∷ b ∷ n ∷ t ∷ d ∷ crc ∷ md5 ∷ etag ∷ blob ∷ []) = some (record {
  bucket = b;
  name = n;
  generation = g;
  metageneration = m;
  size = z;
  content_type = t;
  metadata = metadata_of d;
  crc = crc;
  md5 = md5;
  etag = etag;
  blob = blob;
  created = c;
  updated = u;
})
object_of other = none

object_of-encode_object : (o : Object) → object_of (fields (encode_object o)) ≡ some o
unfolding object_of encode_object fields
object_of-encode_object o =
    rw
      (
        fields-field (o.generation ∷ o.metageneration ∷ o.size ∷ o.created ∷ o.updated ∷ []),
        fields-field o.bucket,
        fields-field o.name,
        fields-field o.content_type,
        fields-field (metadata_code o.metadata),
        fields-field o.crc,
        fields-field o.md5,
        fields-field o.etag,
        fields-field o.blob,
        metadata_of-metadata_code o.metadata,
      )
      refl

unfoldable pub encode_live : Live → Bytes
encode_live l = l.generation ∷ l.highest ∷ []

unfoldable pub live_of : Bytes → Option Live
live_of (g ∷ h ∷ []) = some (record { generation = g; highest = h })
live_of other = none

some_bytes : {a b : Bytes} → ◌≡◌ {A = Option Bytes} (some a) (some b) → a ≡ b
some_bytes h = cc

-- The one bucket of the tests.
abbrev pub stored_bucket : Bucket
stored_bucket = record {
  name = codes "bk";
  project = codes "pr";
  location = codes "US";
  storage_class = codes "STANDARD";
  versioning = true;
  metageneration = 1;
  created = 0;
  updated = 0;
}

abbrev pub codec : Codec
codec = record {
  encode_object = λ o. some (encode_object o);
  decode_object = λ s. object_of (fields s);
  encode_live = λ l. some (encode_live l);
  decode_live = live_of;
  encode_bucket = λ b. some [];
  decode_bucket = λ s. some stored_bucket;
}

pub codec-ReadsBack : ReadsBack codec
unfolding live_of encode_live
codec-ReadsBack = record {
  objects = λ o raw plain h.
      ap (λ s. object_of (fields s)) (sym (some_bytes h)) ∙ object_of-encode_object o;
  lives = λ l raw h. ap live_of (sym (some_bytes h));
}
