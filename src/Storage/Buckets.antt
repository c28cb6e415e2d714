-- ===== src/Storage/Buckets.antt =====
-- services/storage/bucket.go: the requests on buckets.
use cloudrig.Prelude.{
  ℕ, ◌+◌, Bool, true, false, not, ◌&&◌, ◌||◌, Option, none, some, List, [], ◌∷◌, ◌==◌, ltb, length,
  if◌then◌else◌,
}
use cloudrig.Prelude.Int.{ℤ, pos, eqb_ℤ}
use cloudrig.Prelude.Bytes.{Bytes, codes, cut_prefix, str_eq}
use cloudrig.Preconditions.{Preconditions}
use cloudrig.Resource.{bucket_index, bucket_key, buckets_prefix, live_prefix}
use cloudrig.Store.{Result, Kv}
use cloudrig.Store
use cloudrig.Storage.{
  Failure, internal_error, bad_request, not_found_error, precondition_error, name_taken, Bucket,
  Codec, or_default,
}
use cloudrig.Storage.Program.{
  Program, returns, fails, gets, puts, deletes, lists, reads_clock, ◌>>=◌, ◌>>◌,
}

unfoldable pub has_byte : ℕ → Bytes → Bool
has_byte b [] = false
has_byte b (c ∷ s) = let rest = has_byte b s in c == b || rest

-- A name of 3 to 222 bytes without a slash and without a zero byte.
unfoldable pub valid_bucket_name : Bytes → Bool
valid_bucket_name name =
    not (ltb (length name) 3 || ltb 222 (length name))
    && not (has_byte b'/' name)
    && not (has_byte 0 name)

abbrev pub require : Bool → Failure → Program (Unit {0})
require ok f = if ok then returns tt else fails f

abbrev pub or_internal : {A : Type 0} → Option A → Program A
or_internal none = fails internal_error
or_internal (some a) = returns a

-- What an error of the store is, if it is an absent key.
abbrev pub absent_error : Store.Error → Failure
absent_error Store.not_found = not_found_error
absent_error e = internal_error

-- What an error of the store is, if it is a version that is not the one given.
abbrev pub mismatch_error : Failure → Store.Error → Failure
mismatch_error f Store.version_mismatch = f
mismatch_error f e = internal_error

abbrev pub read_value : Result (Bytes × ℕ) → Program (Bytes × ℕ)
read_value (Result.ok e) = returns e
read_value (Result.err e) = fails (absent_error e)

abbrev pub written_or : Failure → Result ℕ → Program (Unit {0})
written_or f (Result.ok v) = returns tt
written_or f (Result.err e) = fails (mismatch_error f e)

-- A deletion that may find nothing.
abbrev pub deleted_or_absent : Result (Unit {0}) → Program (Unit {0})
deleted_or_absent (Result.ok u) = returns tt
deleted_or_absent (Result.err Store.not_found) = returns tt
deleted_or_absent (Result.err e) = fails internal_error

abbrev pub deleted_or_not_found : Result (Unit {0}) → Program (Unit {0})
deleted_or_not_found (Result.ok u) = returns tt
deleted_or_not_found (Result.err e) = fails (absent_error e)

abbrev pub page_or_internal : Result (List Kv × Bytes) → Program (List Kv)
page_or_internal (Result.ok (es, token)) = returns es
page_or_internal (Result.err e) = fails internal_error

-- The name is claimed in the index of all projects; the claim is given up if the metadata is not
-- stored.
abbrev pub stored_or_released : Bucket → Result ℕ → Program Bucket
stored_or_released b (Result.ok v) = returns b
stored_or_released b (Result.err e) = deletes (bucket_index b.name) 0 (λ r. fails internal_error)

unfoldable pub project_of : Bytes → Program Bytes
project_of bucket = gets (bucket_index bucket) (λ r. read_value r >>= λ e. returns e.0)

-- The loop of dropBucketClaims.
unfoldable pub drop_claims : Bytes → List Kv → Program (Unit {0})
drop_claims project [] = returns tt
drop_claims project (e ∷ es) =
    let rest = drop_claims project es in
    if not (str_eq e.val project)
    then rest
    else deletes e.key 0 (λ r. elim r [ Result.ok u ↦ rest | Result.err x ↦ fails internal_error ])

unfoldable pub drop_bucket_claims : Bytes → Program (Unit {0})
drop_bucket_claims project =
    lists (codes "bx/") 0 [] (λ r. page_or_internal r >>= drop_claims project)

abbrev pub is_nested : Bytes → Bytes → Bool
is_nested prefix key = elim (cut_prefix prefix key) [
  | none ↦ has_byte b'/' key
  | some rest ↦ has_byte b'/' rest
]

abbrev pub given_or {ℓ} : {A : Type ℓ} → Option A → A → A
given_or none a = a
given_or (some b) a = b

abbrev pub matches : Option ℤ → ℕ → Bool
matches none n = true
matches (some want) n = eqb_ℤ (pos n) want

abbrev pub differs : Option ℤ → ℕ → Bool
differs none n = true
differs (some want) n = not (eqb_ℤ (pos n) want)

pub record BucketPatch : Type 0 where
  pub storage_class : Bytes
  pub versioning : Option Bool
  pub preconditions : Preconditions

abbrev pub patched : BucketPatch → Bucket → ℕ → Bucket
patched p b now = record b {
  storage_class = or_default p.storage_class b.storage_class;
  versioning = given_or p.versioning b.versioning;
  metageneration = b.metageneration + 1;
  updated = now;
}

abbrev pub none_listed : List Kv → Bool
none_listed [] = true
none_listed (e ∷ es) = false

module _ (codec : Codec) where
  unfoldable pub read_bucket : Bytes → Bytes → Program (Bucket × ℕ)
  read_bucket project name =
      gets (bucket_key project name)
        (λ r. do e ← read_value r; b ← or_internal (codec.decode_bucket e.0); returns (b, e.1))

  unfoldable pub create_bucket : Bucket → Program Bucket
  create_bucket given = do
    require (valid_bucket_name given.name) bad_request
    require (ltb 0 (length given.project)) bad_request
    reads_clock (λ now.
        let b = record given {
          location = or_default given.location (codes "US");
          storage_class = or_default given.storage_class (codes "STANDARD");
          metageneration = 1;
          created = now;
          updated = now;
        } in
        do
          encoded ← or_internal (codec.encode_bucket b)
          puts (bucket_index b.name) b.project 0 (λ r. do
            written_or name_taken r
            puts (bucket_key b.project b.name) encoded 0 (stored_or_released b)))

  unfoldable pub get_bucket : Bytes → Bytes → Program Bucket
  get_bucket project name = do b ← read_bucket project name; returns b.0

  unfoldable pub decode_buckets : Bytes → List Kv → Program (List Bucket)
  decode_buckets prefix [] = returns []
  decode_buckets prefix (e ∷ es) =
      let rest = decode_buckets prefix es in
      if is_nested prefix e.key
      then rest
      else do b ← or_internal (codec.decode_bucket e.val); bs ← rest; returns (b ∷ bs)

  unfoldable pub list_buckets : Bytes → Program (List Bucket)
  list_buckets project =
      lists (buckets_prefix project) 0 []
        (λ r. page_or_internal r >>= decode_buckets (buckets_prefix project))

  unfoldable pub update_bucket : Bytes → Bytes → BucketPatch → Program Bucket
  update_bucket project name patch = do
    e ← read_bucket project name
    require (matches patch.preconditions.if_metageneration_match e.0.metageneration)
        precondition_error
    require (differs patch.preconditions.if_metageneration_not_match e.0.metageneration)
        precondition_error
    reads_clock (λ now.
        let b = patched patch e.0 now in
        do
          encoded ← or_internal (codec.encode_bucket b)
          puts (bucket_key project name) encoded e.1
              (λ r. do written_or precondition_error r; returns b))

  unfoldable pub delete_bucket : Bytes → Bytes → Program (Unit {0})
  delete_bucket project name = do
    read_bucket project name >>= λ _. returns tt
    lists (live_prefix project name) 1 [] (λ l. do
      es ← page_or_internal l
      require (none_listed es) name_taken
      deletes (bucket_key project name) 0
          (λ r. do deleted_or_not_found r; deletes (bucket_index name) 0 deleted_or_absent))
