-- ===== src/Resource/RoundTrip.antt =====
-- The keys of core/resource/key.go are read back, sort by generation, and keep projects apart.
use cloudrig.Prelude.{ℕ, ◌≡◌, ◌<◌, ◌^◌, ◌∙◌, some, [], ◌∷◌, ◌++◌, append_assoc, arith, ltb, All-map}
use cloudrig.Prelude.Bytes.{
  Bytes, codes, Lacks, cut-append, cut_last-append, cut_prefix-append, has_prefix, str_lt, str_eq,
}
use cloudrig.Prelude.Bytes.Order.{str_lt-append, has_prefix-append_self, has_prefix-closed}
use cloudrig.Prelude.Decimal.{padded, parse_int-padded, padded-IsDigits, str_lt-padded}
use cloudrig.Prelude.Int.{pos}
use cloudrig.Resource.{
  object, parse_object, bucket_below, live, live_prefix, object_name, project_prefix, object_prefix,
}

-- A project or a bucket name has no slash.
abbrev pub IsSegment : Bytes → Type 0
IsSegment = Lacks b'/'

padded-Lacks : (n : ℕ) → n < 2 ^ 63 → Lacks 0 (padded n)
padded-Lacks n h = All-map (λ c d. omega arith) (padded n) (padded-IsDigits n (omega arith))

-- An object's key gives back its project, bucket, name and generation, whatever bytes the name
-- holds, if project and bucket hold no slash.
pub parse_object-object :
    (project bucket name : Bytes) (generation : ℕ)
    → IsSegment project
    → IsSegment bucket
    → generation < 2 ^ 63
    → parse_object (object project bucket name generation)
      ≡ some (project, bucket, name, pos generation)
unfolding parse_object object bucket_below
parse_object-object project bucket name generation p b g = rw (
  cut_prefix-append (codes "p/"),
  cut-append b'/' (b'b' ∷ b'/' ∷ []) project _ p,
  cut-append b'/' (b'o' ∷ b'/' ∷ []) bucket _ b,
  cut_last-append 0 name (padded generation) (padded-Lacks generation g),
  parse_int-padded generation g,
)

bucket_below-append :
    (project bucket rest more : Bytes)
    → bucket_below project bucket (rest ++ more) ≡ bucket_below project bucket rest ++ more
unfolding bucket_below
bucket_below-append project bucket rest more = simp append_assoc

-- The name is read back from its live pointer.
pub object_name-live :
    (project bucket name : Bytes)
    → object_name project bucket (live project bucket name) ≡ some name
unfolding object_name live live_prefix
object_name-live project bucket name =
    rw (bucket_below-append project bucket (codes "/live/") name)
      (cut_prefix-append (bucket_below project bucket (codes "/live/")) name)

-- The generations of one object sort in the order of their numbers.
pub str_lt-object :
    (project bucket name : Bytes) (g h : ℕ)
    → g < 10 ^ 20
    → h < 10 ^ 20
    → str_lt (object project bucket name g) (object project bucket name h) ≡ ltb g h
unfolding object bucket_below
str_lt-object project bucket name g h a b =
    str_lt-append (codes "p/") _ _
    ∙ str_lt-append project _ _
    ∙ str_lt-append (codes "/b/") _ _
    ∙ str_lt-append bucket _ _
    ∙ str_lt-append (codes "/o/") _ _
    ∙ str_lt-append name _ _
    ∙ str_lt-append (0 ∷ []) _ _
    ∙ str_lt-padded g h a b

-- The prefix of a project covers the keys below its own buckets and no other project's: a reset
-- by project leaves the others alone.
has_prefix-project_prefix :
    (project other bucket rest : Bytes)
    → IsSegment project
    → IsSegment other
    → has_prefix (project_prefix project) (bucket_below other bucket rest) ≡ str_eq project other
unfolding project_prefix bucket_below
has_prefix-project_prefix project other bucket rest h k =
    has_prefix-append_self (codes "p/") _ _
    ∙ has_prefix-closed b'/' project other (codes "b/" ++ (bucket ++ rest)) h k

-- The prefix of an object covers the keys of its own generations and no other object's of the
-- bucket; names hold no NUL.
has_prefix-object_prefix :
    (project bucket name other : Bytes) (g : ℕ)
    → Lacks 0 name
    → Lacks 0 other
    → has_prefix (object_prefix project bucket name) (object project bucket other g)
      ≡ str_eq name other
unfolding object_prefix object bucket_below
has_prefix-object_prefix project bucket name other g h k =
    has_prefix-append_self (codes "p/") _ _
    ∙ has_prefix-append_self project _ _
    ∙ has_prefix-append_self (codes "/b/") _ _
    ∙ has_prefix-append_self bucket _ _
    ∙ has_prefix-append_self (codes "/o/") _ _
    ∙ has_prefix-closed 0 name other (padded g) h k
