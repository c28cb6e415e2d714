-- ===== src/Storage/Publishing.antt =====
-- services/storage/object.go and blobref.go: how content is published as a new generation of an
-- object, and the counts of references to content.
use cloudrig.Prelude.{
  ℕ, zero, suc, ◌+◌, ◌/◌, Bool, true, false, not, ◌||◌, Option, none, some, [], ◌==◌, ltb, leb,
  length, if◌then◌else◌,
}
use cloudrig.Prelude.Int.{ℤ, pos, negsuc, ltb_ℤ, ◌+ℤ◌, pos_part}
use cloudrig.Prelude.Bytes.{Bytes, codes}
use cloudrig.Prelude.Decimal.{format_int, parse_int}
use cloudrig.Preconditions.{
  Preconditions, Verdict, passed, precondition_failed, not_modified, Version, check_preconditions,
  is_given,
}
use cloudrig.Resource
use cloudrig.Resource.{blob_refs}
use cloudrig.Store.{Result}
use cloudrig.Store
use cloudrig.Storage.{
  Failure, fault, race_lost, internal_error, bad_request, precondition_error, not_modified_error,
  contention, Object, Live, BlobRef, Codec, or_default, with_etag,
}
use cloudrig.Storage.Program.{
  Program, returns, fails, gets, puts, deletes, reads_clock, stores_content, drops_content, tells,
  on_result, ◌>>=◌, ◌>>◌,
}
use cloudrig.Storage.Buckets.{
  require, or_internal, read_value, written_or, deleted_or_absent, read_bucket,
}
use cloudrig.Gerr

-- What Get gives of a key that may be absent: a version of 0 then.
abbrev pub value_or_absent : Result (Bytes × ℕ) → Program (Bytes × ℕ)
value_or_absent (Result.ok e) = returns e
value_or_absent (Result.err Store.not_found) = returns ([], 0)
value_or_absent (Result.err e) = fails internal_error

abbrev pub number_or_zero : Option ℤ → ℤ
number_or_zero none = pos 0
number_or_zero (some n) = n

-- The count at a version; no entry counts 0, nor does a text that is no int64 (of one that is out of
-- range Atoi gives the nearest bound).
unfoldable pub count_of : Bytes × ℕ → ℤ
count_of (raw, version) = if version == 0 then pos 0 else number_or_zero (parse_int raw)

abbrev pub try_again : Program (Unit {0}) → Result ℕ → Program (Unit {0})
try_again again (Result.ok v) = returns tt
try_again again (Result.err Store.version_mismatch) = again
try_again again (Result.err e) = fails internal_error

-- Content without a reference is removed.
unfoldable pub remove_content : Bytes → Program (Unit {0})
remove_content sha = drops_content sha (λ gone. require gone internal_error)

abbrev pub cleared : Bytes → Program (Unit {0}) → Result (Unit {0}) → Program (Unit {0})
cleared sha again (Result.ok u) = remove_content sha
cleared sha again (Result.err Store.version_mismatch) = again
cleared sha again (Result.err Store.not_found) = remove_content sha
cleared sha again (Result.err e) = fails internal_error

abbrev pub counted : Bytes → Program (Unit {0}) → ℤ → ℕ → Program (Unit {0})
counted sha again count version =
    if ltb_ℤ (pos 0) count
    then puts (blob_refs sha) (format_int (pos_part count)) version (try_again again)
    else if not (version == 0)
    then deletes (blob_refs sha) version (cleared sha again)
    else remove_content sha

-- The loop of adjustRefs, with how many attempts it has left.
unfoldable pub adjust_refs : Bytes → ℤ → ℕ → Program (Unit {0})
adjust_refs sha delta zero = fails contention
adjust_refs sha delta (suc left) = gets (blob_refs sha) (λ r. do
  e ← value_or_absent r
  counted sha (adjust_refs sha delta left) (count_of e +ℤ delta) e.1)

unfoldable pub retain_blob : Bytes → Program (Unit {0})
retain_blob sha = if ltb 0 (length sha) then adjust_refs sha (pos 1) 64 else returns tt

unfoldable pub release_blob : Bytes → Program (Unit {0})
release_blob sha = if ltb 0 (length sha) then adjust_refs sha (negsuc 0) 64 else returns tt

-- Above every generation there has been, and the time in microseconds if that is.
unfoldable pub next_generation : ℕ → ℕ → ℕ
next_generation now highest =
    let candidate = now / 1000 in if leb candidate highest then highest + 1 else candidate

abbrev pub version_of : Object → Version
version_of o = record { generation = pos o.generation; metageneration = pos o.metageneration }

abbrev pub versions_of : Option Object → Option Version
versions_of none = none
versions_of (some o) = some (version_of o)

abbrev pub verdict : Verdict → Program (Unit {0})
verdict passed = returns tt
verdict precondition_failed = fails precondition_error
verdict not_modified = fails not_modified_error

unfoldable pub check : Preconditions → Option Object → Bool → Program (Unit {0})
check p existing read = verdict (check_preconditions p (versions_of existing) read)

pub record Write : Type 0 where
  pub bucket : Bytes
  pub name : Bytes
  pub content_type : Bytes
  pub metadata : Option Bytes
  pub preconditions : Preconditions

-- The metadata of what is written, but for its generation and etag.
abbrev pub described : Write → BlobRef → ℕ → Object
described w ref now = record {
  bucket = w.bucket;
  name = w.name;
  generation = 0;
  metageneration = 1;
  size = ref.size;
  content_type = or_default w.content_type (codes "application/octet-stream");
  metadata = w.metadata;
  crc = ref.crc;
  md5 = ref.md5;
  etag = [];
  blob = ref.sha;
  created = now;
  updated = now;
}

abbrev pub at_generation : Object → ℕ → Object
at_generation o g = with_etag (record o { generation = g })

abbrev pub is_missing : Failure → Bool
is_missing (fault code status) = code == Gerr.not_found
is_missing race_lost = false

-- A failure that says that something is not there is read as another one.
abbrev pub if_missing : {A : Type 0} → Program A → Failure → Program A
if_missing other f = if is_missing f then other else fails f

abbrev pub is_conditional : Write → Bool
is_conditional w =
    is_given w.preconditions.if_generation_match || is_given w.preconditions.if_metageneration_match

unfoldable pub drop_generation : Bytes → Object → Program (Unit {0})
drop_generation project o =
    deletes (Resource.object project o.bucket o.name o.generation) 0
      (λ r. do deleted_or_absent r; release_blob o.blob)

abbrev pub drop_existing : Bytes → Bool → Option Object → Program (Unit {0})
drop_existing project true existing = returns tt
drop_existing project false none = returns tt
drop_existing project false (some o) = drop_generation project o

module _ (codec : Codec) where
  abbrev pub live_read : Result (Bytes × ℕ) → Program (Live × ℕ)
  live_read (Result.ok e) = do l ← or_internal (codec.decode_live e.0); returns (l, e.1)
  live_read (Result.err Store.not_found) = returns (record { generation = 0; highest = 0 }, 0)
  live_read (Result.err e) = fails internal_error

  -- readLive; version 0 means that the object is not there.
  unfoldable pub read_live : Bytes → Bytes → Bytes → Program (Live × ℕ)
  read_live project bucket name = gets (Resource.live project bucket name) live_read

  unfoldable pub read_generation_version : Bytes → Bytes → Bytes → ℕ → Program (Object × ℕ)
  read_generation_version project bucket name g =
      gets (Resource.object project bucket name g)
        (λ r. do e ← read_value r; o ← or_internal (codec.decode_object e.0); returns (o, e.1))

  unfoldable pub read_generation : Bytes → Bytes → Bytes → ℕ → Program Object
  read_generation project bucket name g = do
    o ← read_generation_version project bucket name g
    returns o.0

  unfoldable pub cas_live : Bytes → Bytes → Bytes → Live → ℕ → Program (Unit {0})
  cas_live project bucket name l version = do
    b ← or_internal (codec.encode_live l)
    puts (Resource.live project bucket name) b version (written_or race_lost)

  unfoldable pub put_generation : Bytes → Object → Program (Unit {0})
  put_generation project o = do
    b ← or_internal (codec.encode_object o)
    puts (Resource.object project o.bucket o.name o.generation) b 0 (written_or race_lost)

  abbrev pub if_race : {A : Type 0} → Program A → Failure → Program A
  if_race other race_lost = other
  if_race other (fault code status) = fails (fault code status)

  -- The loop of claimGeneration, with how many generations are left to try.
  unfoldable pub claim_generation : Bytes → Object → ℕ → ℕ → Program ℕ
  claim_generation project o zero g = fails contention
  claim_generation project o (suc left) g =
      on_result (put_generation project (at_generation o g))
        (if_race (claim_generation project o left (g + 1))) (λ _. returns g)

  -- The object that is there, which a pointer that has moved may have taken with it.
  unfoldable pub read_existing : Bytes → Write → Live → ℕ → Program (Option Object)
  read_existing project w current version =
      if version == 0
      then returns none
      else on_result (read_generation project w.bucket w.name current.generation)
          (if_missing (fails race_lost)) (λ o. returns (some o))

  -- The pointer is moved; if it is not, the reference is given up, whether that succeeds or not.
  unfoldable pub move_live : Bytes → Object → ℕ → Program (Unit {0})
  move_live project o version =
      on_result
        (cas_live project o.bucket o.name
          (record { generation = o.generation; highest = o.generation }) version)
        (λ f. on_result (release_blob o.blob) (λ _. fails f) (λ _. fails f)) returns

  unfoldable pub publish : Bytes → Write → BlobRef → Bool → Program Object
  publish project w ref versioning = do
    l ← read_live project w.bucket w.name
    existing ← read_existing project w l.0 l.1
    check w.preconditions existing false
    reads_clock (λ now. do
      g ← claim_generation project (described w ref now) 1024 (next_generation now l.0.highest)
      let o = at_generation (described w ref now) g
      retain_blob ref.sha
      move_live project o l.1
      drop_existing project versioning existing
      tells (codes "google.storage.object.finalize") o (returns o))

  -- The loop of publishRef, with how many attempts are left after this one.
  unfoldable pub publish_attempts : Bytes → Write → BlobRef → Bool → ℕ → Program Object
  publish_attempts project w ref versioning zero =
      on_result (publish project w ref versioning)
        (if_race (fails (if is_conditional w then precondition_error else contention))) returns
  publish_attempts project w ref versioning (suc left) =
      on_result (publish project w ref versioning)
        (if_race (
          if is_conditional w
          then fails precondition_error
          else publish_attempts project w ref versioning left))
        returns

  unfoldable pub publish_ref : Bytes → Write → BlobRef → Program Object
  publish_ref project w ref = do
    b ← read_bucket codec project w.bucket
    publish_attempts project w ref b.0.versioning 63

  -- The content is what blobs.Put makes of the request's body, `none` if that fails.
  unfoldable pub write_object : Bytes → Write → Option BlobRef → Program Object
  write_object project w content = do
    read_bucket codec project w.bucket >>= λ _. returns tt
    require (ltb 0 (length w.name)) bad_request
    ref ← or_internal content
    stores_content ref.sha (publish_ref project w ref)
