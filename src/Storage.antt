-- ===== src/Storage.antt =====
-- services/storage: buckets, objects and their generations over the store, the content files and
-- the clock (storage.go). The service holds no lock, so a request is a program: a tree of single
-- calls, between which other clients act. Instants are nanoseconds from 1970 on; a generation is an
-- int64 that is not negative, without the bound of 2 ^ 63.
pub mod Program
pub mod Buckets
pub mod Publishing
pub mod Objects
pub mod Listing
mod Scanning
pub mod Policies
mod Runs
mod Steps
mod Keys
mod Counting
mod Inverting
mod Claiming
mod Moving
mod Racing
mod Attempts
pub mod Publication
mod Filing
mod Losing
mod Reads
pub mod ReadingBack
mod Lookup
pub mod Absent
pub mod Deleting
mod Resolving
pub mod Soundness
pub mod Naming
mod NameClaims
mod Tests
mod Encoding
use cloudrig.Prelude.{ℕ, Bool, Option, none, some, List, [], ◌∷◌, ◌++◌, if◌then◌else◌}
use cloudrig.Prelude.Bytes.{Bytes, codes, str_eq}
use cloudrig.Prelude.Decimal.{format_int}
use cloudrig.Gerr.{invalid_argument, internal, aborted, failed_precondition, already_exists}
use cloudrig.Gerr

-- How a call fails: a gRPC code and an HTTP status, 0 where the code's own holds; or errRaceLost.
pub data Failure : Type 0 where
  fault : ℕ → ℕ → Failure
  race_lost : Failure

abbrev pub internal_error : Failure
internal_error = fault internal 0

abbrev pub bad_request : Failure
bad_request = fault invalid_argument 400

-- notFoundObject, and notFoundBucket
abbrev pub not_found_error : Failure
not_found_error = fault Gerr.not_found 404

abbrev pub precondition_error : Failure
precondition_error = fault failed_precondition 412

abbrev pub not_modified_error : Failure
not_modified_error = fault aborted 304

-- Too much contention, on an object, a reference count or its generations.
abbrev pub contention : Failure
contention = fault aborted 409

-- `conflict`
abbrev pub name_taken : Failure
name_taken = fault already_exists 409

-- Metadata is opaque; a nil map is `none`, and an empty one is `some []`.
pub record Object : Type 0 where
  pub bucket : Bytes
  pub name : Bytes
  pub generation : ℕ
  pub metageneration : ℕ
  pub size : ℕ
  pub content_type : Bytes
  pub metadata : Option Bytes
  pub crc : Bytes
  pub md5 : Bytes
  pub etag : Bytes
  pub blob : Bytes
  pub created : ℕ
  pub updated : ℕ

pub record Live : Type 0 where
  pub generation : ℕ
  pub highest : ℕ

pub record Bucket : Type 0 where
  pub name : Bytes
  pub project : Bytes
  pub location : Bytes
  pub storage_class : Bytes
  pub versioning : Bool
  pub metageneration : ℕ
  pub created : ℕ
  pub updated : ℕ

-- blob.Ref
pub record BlobRef : Type 0 where
  pub sha : Bytes
  pub size : ℕ
  pub crc : Bytes
  pub md5 : Bytes

-- How encoding/json encodes the records. It leaves out an empty map of metadata, `some []`, as it
-- does none, and puts U+FFFD for what is not UTF-8, so that such an object is not read back.
pub record Codec : Type 0 where
  pub encode_object : Object → Option Bytes
  pub decode_object : Bytes → Option Object
  pub encode_live : Live → Option Bytes
  pub decode_live : Bytes → Option Live
  pub encode_bucket : Bucket → Option Bytes
  pub decode_bucket : Bytes → Option Bucket

-- An event that the bus is given: its type, the object and the time.
pub record Event : Type 0 where
  pub kind : Bytes
  pub object : Object
  pub time : ℕ

unfoldable pub or_default : Bytes → Bytes → Bytes
or_default [] other = other
or_default (c ∷ s) other = c ∷ s

unfoldable pub etag_of : Object → Bytes
etag_of o =
    codes "CN"
    ++ (format_int o.generation ++ (codes "EA" ++ (format_int o.metageneration ++ codes "E=")))

abbrev pub with_etag : Object → Object
with_etag o = record o { etag = etag_of o }
