-- ===== src/Storage/Objects.antt =====
-- services/storage/object.go and copy.go: the requests on objects that are there.
use cloudrig.Prelude.{
  ℕ, zero, suc, ◌+◌, Bool, true, false, not, ◌&&◌, Option, none, some, List, [], ◌∷◌, ◌==◌, ltb,
  length, if◌then◌else◌,
}
use cloudrig.Prelude.Bytes.{Bytes, codes}
use cloudrig.Preconditions.{Preconditions, is_set}
use cloudrig.Resource
use cloudrig.Store.{Result}
use cloudrig.Storage.{
  Failure, internal_error, bad_request, not_found_error, precondition_error, contention, Object,
  BlobRef, Codec, or_default, with_etag,
}
use cloudrig.Storage.Program.{
  Program, returns, fails, puts, deletes, reads_clock, opens_content, tells, on_result, ◌>>=◌, ◌>>◌,
}
use cloudrig.Storage.Buckets.{require, or_internal, mismatch_error, written_or, read_bucket}
use cloudrig.Storage.Publishing.{
  Write, check, is_missing, if_missing, drop_generation, read_live, read_generation,
  read_generation_version, publish_ref, write_object,
}

abbrev pub no_conditions : Preconditions
no_conditions = record {
  if_generation_match = none;
  if_generation_not_match = none;
  if_metageneration_match = none;
  if_metageneration_not_match = none;
}

-- Object{}
abbrev pub empty_object : Object
empty_object = record {
  bucket = [];
  name = [];
  generation = 0;
  metageneration = 0;
  size = 0;
  content_type = [];
  metadata = none;
  crc = [];
  md5 = [];
  etag = [];
  blob = [];
  created = 0;
  updated = 0;
}

-- With a condition the answer on a missing object is what checkPreconditions gives, an error or
-- nil, beside the empty object.
unfoldable pub absent_checked : Preconditions → Failure → Program Object
absent_checked p f =
    if is_set p && is_missing f then (check p none true >>= λ _. returns empty_object) else fails f

abbrev pub pointer_deleted : Result (Unit {0}) → Program (Unit {0})
pointer_deleted (Result.ok u) = returns tt
pointer_deleted (Result.err e) = fails (mismatch_error precondition_error e)

-- Metadata that is stated replaces what is there.
abbrev pub updated_object : Write → Object → ℕ → Object
updated_object patch o now = with_etag (record o {
  content_type = or_default patch.content_type o.content_type;
  metadata = elim patch.metadata [ none ↦ o.metadata | some m ↦ some m ];
  metageneration = o.metageneration + 1;
  updated = now;
})

pub record Source : Type 0 where
  pub bucket : Bytes
  pub name : Bytes
  pub generation : Option ℕ

-- What a copy takes over from the object that it copies.
abbrev pub inheriting : Write → Object → Write
inheriting w from = record w {
  content_type = or_default w.content_type from.content_type;
  metadata = elim w.metadata [ none ↦ from.metadata | some m ↦ some m ];
}

abbrev pub content_of : Object → BlobRef
content_of o = record { sha = o.blob; size = o.size; crc = o.crc; md5 = o.md5 }

module _ (codec : Codec) where
  -- The loop of resolveLive, with how many attempts are left; version 0 means that the object is
  -- not there.
  unfoldable pub resolve_live : Bytes → Bytes → Bytes → ℕ → Program (Option Object × ℕ)
  resolve_live project bucket name zero = fails contention
  resolve_live project bucket name (suc left) = do
    l ← read_live codec project bucket name
    elim (l.1 == 0) [
      | true ↦ returns (none, 0)
      | false ↦
          on_result (read_generation codec project bucket name l.0.generation)
            (if_missing (resolve_live project bucket name left)) (λ o. returns (some o, l.1))
    ]

  abbrev pub or_missing : Option Object × ℕ → Program (Object × ℕ)
  or_missing (none, version) = fails not_found_error
  or_missing (some o, version) = returns (o, version)

  abbrev pub chosen : Bytes → Bytes → Bytes → Option ℕ → Program Object
  chosen project bucket name none = do
    r ← resolve_live project bucket name 8
    o ← or_missing r
    returns o.0
  chosen project bucket name (some g) = read_generation codec project bucket name g

  unfoldable pub get_object_if : Bytes → Bytes → Bytes → Option ℕ → Preconditions → Program Object
  get_object_if project bucket name g p =
      on_result (chosen project bucket name g) (absent_checked p)
        (λ o. do check p (some o) true; returns o)

  unfoldable pub get_object : Bytes → Bytes → Bytes → Option ℕ → Program Object
  get_object project bucket name g = get_object_if project bucket name g no_conditions

  unfoldable pub open_object : Bytes → Bytes → Bytes → Option ℕ → Preconditions → Program Object
  open_object project bucket name g p = do
    o ← get_object_if project bucket name g p
    opens_content o.blob (λ there. do require there internal_error; returns o)

  unfoldable pub update_object : Bytes → Bytes → Bytes → Write → Program Object
  update_object project bucket name patch = do
    l ← read_live codec project bucket name
    require (not (l.1 == 0)) not_found_error
    e ←
        on_result (read_generation_version codec project bucket name l.0.generation)
          (if_missing (fails precondition_error)) returns
    check patch.preconditions (some e.0) false
    reads_clock (λ now.
        let o = updated_object patch e.0 now in
        do
          b ← or_internal (codec.encode_object o)
          puts (Resource.object project bucket name o.generation) b e.1 (λ r. do
            written_or precondition_error r
            tells (codes "google.storage.object.metadataUpdate") o (returns o)))

  abbrev pub deleted_generation : Bytes → Bool → Object → Program (Unit {0})
  deleted_generation project true o = tells (codes "google.storage.object.archive") o (returns tt)
  deleted_generation project false o = do
    drop_generation project o
    tells (codes "google.storage.object.delete") o (returns tt)

  unfoldable pub delete_object : Bytes → Bytes → Bytes → Preconditions → Program (Unit {0})
  delete_object project bucket name p = do
    r ← resolve_live project bucket name 8
    o ← or_missing r
    check p (some o.0) false
    b ← read_bucket codec project bucket
    deletes (Resource.live project bucket name) o.1
        (λ d. do pointer_deleted d; deleted_generation project b.0.versioning o.0)

  unfoldable pub copy_object : Bytes → Source → Write → Program Object
  copy_object project src dst = do
    from ← get_object project src.bucket src.name src.generation
    read_bucket codec project dst.bucket >>= λ _. returns tt
    publish_ref codec project (inheriting dst from) (content_of from)

  -- The objects of the sources, each opened.
  unfoldable pub open_sources : Bytes → Bytes → List Source → Program (List Object)
  open_sources project bucket [] = returns []
  open_sources project bucket (src ∷ srcs) = do
    o ← open_object project (or_default src.bucket bucket) src.name src.generation no_conditions
    os ← open_sources project bucket srcs
    returns (o ∷ os)

  -- What blobs.Put makes of the sources' content, one after another, is an argument.
  unfoldable pub compose_object :
      (List Object → Option BlobRef) → Bytes → List Source → Write → Program Object
  compose_object content project srcs dst = do
    require (ltb 0 (length srcs)) bad_request
    require (not (ltb 32 (length srcs))) bad_request
    read_bucket codec project dst.bucket >>= λ _. returns tt
    os ← open_sources project dst.bucket srcs
    write_object codec project
        (record dst {
          content_type = or_default dst.content_type (codes "application/octet-stream");
        })
        (content os)
