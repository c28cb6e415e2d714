-- ===== src/Storage/Naming.antt =====
-- CreateBucket of services/storage/bucket.go among other clients.
mod Tests
use cloudrig.Prelude.{
  ℕ, ◌≡◌, ◌≢◌, refl, sym, ap, ◌∙◌, subst, arith, Bool, Bool-cases, Option, Option-cases, none, some,
  true, false, not, List, [], ◌∷◌, inl, inr, ◌⊎◌, ◌==◌, ltb, length, if◌then◌else◌,
}
use cloudrig.Prelude.Bytes.{Bytes, codes, str_eq, str_eq_refl}
use cloudrig.Resource.{bucket_index, bucket_key, bucket_below}
use cloudrig.Store.{Result, ok, err, Entry, Memory, version_mismatch}
use cloudrig.Store
use cloudrig.Store.Cas.{put_outcome, put_succeeded}
use cloudrig.Storage.{Failure, Bucket, Codec, bad_request, name_taken, internal_error, or_default}
use cloudrig.Storage.Program.{
  Program, returns, fails, puts, deletes, reads_clock, World, Ended, returned, failed, Others,
  before_call, later, run, on_result, ◌>>=◌,
}
use cloudrig.Storage.Buckets.{
  require, or_internal, written_or, valid_bucket_name, stored_or_released, create_bucket,
}
use cloudrig.Storage.Runs.{m-put_other}
use cloudrig.Storage.NameClaims.{
  IsClaimed, KeepsClaim, before_call-IsClaimed, later-KeepsClaim, claim_taken, claim-IsClaimed,
}

failed_returned : {x : Failure} {b : Bucket} → ◌≡◌ {A = Ended Bucket} (failed x) (returned b) → ⊥
failed_returned h = cc

-- A program behind a check that is run to a value is run.
require_passes :
    {A : Type 0} (t : Bool) (x : Failure) (m : Program A) (a : A) (env : Others) (w : World)
    → (run (require t x >>= λ _. m) env w).0 ≡ returned a
    → run (require t x >>= λ _. m) env w ≡ run m env w
unfolding run on_result
require_passes true x m a env w h = refl
require_passes false x m a env w h = cc

reads_clock_run :
    {A : Type 0} (env : Others) (w : World) (c : ℕ → Program A)
    → run (reads_clock c) env w ≡ run (c (before_call env w).now) (later env) (before_call env w)
unfolding run
reads_clock_run env w c = refl

module _ (codec : Codec) where
  -- The program behind the reading of the clock.
  claiming : Bucket → Option Bytes → Program Bucket
  claiming b enc = or_internal enc >>= λ raw. puts (bucket_index b.name) b.project 0 (λ r.
      written_or name_taken r >>= λ _.
      puts (bucket_key b.project b.name) raw 0 (stored_or_released b))

  claiming-IsClaimed :
      (b y : Bucket) (enc : Option Bytes) (env : Others) (w : World)
      → KeepsClaim b.name env
      → (run (claiming b enc) env w).0 ≡ returned y
      → IsClaimed b.name b.project (run (claiming b enc) env w).1
  unfolding claiming run on_result
  claiming-IsClaimed b y none env w k h = cc
  claiming-IsClaimed b y (some raw) env w k h =
      let u = before_call env w in
      let r = Store.put none (bucket_index b.name) b.project 0 u.kv in
      claim-IsClaimed raw b y r.0 (later env) (record u { kv = r.1 })
        (later-KeepsClaim b.name env k)
        (λ v e.
          let (_, _, there) = put_succeeded (bucket_index b.name) b.project 0 v u.kv e in
          (record { val = b.project; version = v }, there, refl))
        h

  claiming_taken :
      (p : Bytes) (b y : Bucket) (enc : Option Bytes) (env : Others) (w : World)
      → KeepsClaim b.name env
      → IsClaimed b.name p w
      → (run (claiming b enc) env w).0 ≡ returned y
      → ⊥
  unfolding claiming run on_result
  claiming_taken p b y none env w k c h = cc
  claiming_taken p b y (some raw) env w k c h = failed_returned (
      sym (
        claim_taken b.name p b.project
          (puts (bucket_key b.project b.name) raw 0 (stored_or_released b)) env w k c)
      ∙ h)

  -- What CreateBucket fills in.
  filled : Bucket → ℕ → Bucket
  filled given now = record given {
    location = or_default given.location (codes "US");
    storage_class = or_default given.storage_class (codes "STANDARD");
    metageneration = 1;
    created = now;
    updated = now;
  }

  -- A creation that succeeds has passed the checks, and is then what follows the reading of the clock.
  create_bucket_passes :
      (given b : Bucket) (env : Others) (w : World)
      → (run (create_bucket codec given) env w).0 ≡ returned b
      → run (create_bucket codec given) env w
        ≡ run
            (claiming
              (filled given (before_call env w).now)
              (codec.encode_bucket (filled given (before_call env w).now)))
            (later env)
            (before_call env w)
  unfolding create_bucket claiming filled
  create_bucket_passes given b env w h =
      let inner : Program Bucket =
        reads_clock (λ now. claiming (filled given now) (codec.encode_bucket (filled given now))) in
      let second = require (ltb 0 (length given.project)) bad_request >>= λ _. inner in
      let first_passed =
        require_passes (valid_bucket_name given.name) bad_request second b env w h in
      let second_passed =
        require_passes (ltb 0 (length given.project)) bad_request inner b env w
          (ap (λ r. r.0) (sym first_passed) ∙ h) in
      first_passed ∙ second_passed ∙ reads_clock_run env w _

  create_bucket-IsClaimed :
      (given b : Bucket) (env : Others) (w : World)
      → KeepsClaim given.name env
      → (run (create_bucket codec given) env w).0 ≡ returned b
      → IsClaimed given.name given.project (run (create_bucket codec given) env w).1
  unfolding filled
  create_bucket-IsClaimed given b env w k h =
      let u = before_call env w in
      let x = filled given u.now in
      let path = create_bucket_passes given b env w h in
      subst (λ (r : Ended Bucket × World × Others). IsClaimed given.name given.project r.1)
        (sym path)
        (claiming-IsClaimed x b (codec.encode_bucket x) (later env) u
          (later-KeepsClaim given.name env k) (ap (λ r. r.0) (sym path) ∙ h))

  create_bucket_taken :
      (p : Bytes) (given b : Bucket) (env : Others) (w : World)
      → KeepsClaim given.name env
      → IsClaimed given.name p w
      → (run (create_bucket codec given) env w).0 ≡ returned b
      → ⊥
  unfolding filled
  create_bucket_taken p given b env w k c h =
      let u = before_call env w in
      let x = filled given u.now in
      let path = create_bucket_passes given b env w h in
      claiming_taken p x b (codec.encode_bucket x) (later env) u (later-KeepsClaim given.name env k)
        (before_call-IsClaimed given.name p env w k c) (ap (λ r. r.0) (sym path) ∙ h)

  -- A bucket's name is given once: after a creation that succeeds, whatever other clients do before
  -- each of its calls, no creation of a bucket of that name succeeds, in any project and whatever
  -- they do before its calls, as long as they do not give up the claim on the name.
  pub name_given_once :
      (given other b b' : Bucket) (env env' : Others) (w : World)
      → KeepsClaim given.name env
      → KeepsClaim given.name env'
      → other.name ≡ given.name
      → (run (create_bucket codec given) env w).0 ≡ returned b
      → (run (create_bucket codec other) env' (run (create_bucket codec given) env w).1).0
        ≢ returned b'
  name_given_once given other b b' env env' w k k' same h h' =
      let claimed = create_bucket-IsClaimed given b env w k h in
      create_bucket_taken given.project other b' env' (run (create_bucket codec given) env w).1
        (subst (λ n. KeepsClaim n env') (sym same) k')
        (subst (λ n. IsClaimed n given.project (run (create_bucket codec given) env w).1) (sym same)
          claimed)
        h'
