-- ===== src/Storage/ReadingBack.antt =====
-- A write of services/storage/object.go and the reading behind it.
use cloudrig.Prelude.{
  ℕ, zero, suc, ◌+◌, ◌^◌, ◌<◌, ◌≡◌, sym, ap, ◌∙◌, subst, Bool, Option, none, some, true, false, inl,
  inr, ltb, length, if◌then◌else◌,
}
use cloudrig.Prelude.Bytes.{Bytes}
use cloudrig.Resource
use cloudrig.Store.{next_version, version_of}
use cloudrig.Storage.{race_lost, fault, precondition_error, bad_request, Codec, Object, BlobRef}
use cloudrig.Storage.Program.{returns, fails, World, ◌>>=◌, stores_content, set_content}
use cloudrig.Storage.Buckets.{require, or_internal, read_bucket, read_value}
use cloudrig.Storage.Publishing.{
  Write, publish, publish_attempts, publish_ref, write_object, is_conditional,
}
use cloudrig.Storage.Objects.{get_object}
use cloudrig.Storage.Runs.{Gives, fails_gives, bind_gives, on_result-Ends}
use cloudrig.Storage.Steps.{or_internal_gives, require_gives}
use cloudrig.Storage.Publication.{publish_gives}
use cloudrig.Storage.Losing.{IsVersioned, publish_loses}
use cloudrig.Storage.Reads.{Reads, bind-Reads, or_internal-Reads, read_value-Reads}
use cloudrig.Storage.Lookup.{
  ReadsBack, IsPlain, next_positive, given, run_unchanged, stores_content_gives,
  get_object-IsCurrent,
}
use cloudrig.Storage.Filing.{IsFiled, Published, at_world}

module _ (codec : Codec) where
  pub read_bucket-Reads : (p b : Bytes) → Reads (read_bucket codec p b)
  unfolding read_bucket
  read_bucket-Reads p b = λ r. bind-Reads (read_value r) _ (read_value-Reads r) (λ e.
      bind-Reads (or_internal (codec.decode_bucket e.0)) _
        (or_internal-Reads (codec.decode_bucket e.0)) (λ o. tt))

  publish_attempts_gives :
      (p : Bytes) (x : Write) (ref : BlobRef) (versioning : Bool) (left : ℕ) (o : Object)
      (w w' : World)
      → IsFiled codec p x.bucket x.name w
      → IsVersioned codec p x.bucket x.name w
      → Gives (publish_attempts codec p x ref versioning left) w o w'
      → Published codec p x ref w o w'
  unfolding publish_attempts
  publish_attempts_gives p x ref versioning zero o w w' filed versioned h =
      elim (on_result-Ends w w' (publish codec p x ref versioning) _ returns h) [
        | inl (a, u, d, k) ↦
            publish_gives codec p x ref versioning o w w' filed
              (given (publish codec p x ref versioning) a o w u w' d k)
        | inr (fault code status, u, d, k) ↦ absurd (fails_gives u w' (fault code status) k)
        | inr (race_lost, u, d, k) ↦ absurd (fails_gives u w' _ k)
      ]
  publish_attempts_gives p x ref versioning (suc left) o w w' filed versioned h =
      elim (on_result-Ends w w' (publish codec p x ref versioning) _ returns h) [
        | inl (a, u, d, k) ↦
            publish_gives codec p x ref versioning o w w' filed
              (given (publish codec p x ref versioning) a o w u w' d k)
        | inr (fault code status, u, d, k) ↦ absurd (fails_gives u w' (fault code status) k)
        | inr (race_lost, u, d, k) ↦
            elim (is_conditional x)
                as (λ t.
                  Gives
                    (if t
                      then fails precondition_error
                      else publish_attempts codec p x ref versioning left)
                    u o w'
                  → Published codec p x ref w o w') [
                    | true ↦ λ k. absurd (fails_gives u w' precondition_error k)
                    | false ↦ λ k.
                        publish_attempts_gives p x ref versioning left o w w' filed versioned (
                          at_world (publish_attempts codec p x ref versioning left) o w u w'
                            (sym (publish_loses codec p x ref versioning w u versioned d)) k)
                  ]
              k
      ]

  -- A write that goes through has published the content that it was given.
  pub write_object_gives :
      (p : Bytes) (x : Write) (content : Option BlobRef) (o : Object) (w w' : World)
      → IsFiled codec p x.bucket x.name w
      → IsVersioned codec p x.bucket x.name w
      → Gives (write_object codec p x content) w o w'
      → (ref : BlobRef) × (content ≡ some ref) × Published codec p x ref w o w'
  unfolding write_object publish_ref
  write_object_gives p x content o w w' filed versioned h =
      let (_, w1, d1, k1) =
        bind_gives w w' (read_bucket codec p x.bucket >>= λ _. returns tt) _ h in
      let s1 =
        run_unchanged (read_bucket codec p x.bucket >>= λ _. returns tt) tt w w1
          (bind-Reads (read_bucket codec p x.bucket) _ (read_bucket-Reads p x.bucket) (λ _. tt))
          d1 in
      let (_, w2, d2, k2) = bind_gives w1 w' (require (ltb 0 (length x.name)) bad_request) _ k1 in
      let (named, s2) = require_gives (ltb 0 (length x.name)) bad_request w1 w2 d2 in
      let (ref, w3, d3, k3) = bind_gives w2 w' (or_internal content) _ k2 in
      let (given_ref, s3) = or_internal_gives content ref w2 w3 d3 in
      let u = set_content ref.sha true w in
      let k4 = stores_content_gives ref.sha (publish_ref codec p x ref) o w w' (
        at_world (stores_content ref.sha (publish_ref codec p x ref)) o w w3 w' (s1 ∙ s2 ∙ s3)
          k3) in
      let (b, w5, d5, k5) = bind_gives u w' (read_bucket codec p x.bucket) _ k4 in
      let s5 =
        run_unchanged (read_bucket codec p x.bucket) b u w5 (read_bucket-Reads p x.bucket) d5 in
      (
        ref,
        given_ref,
        publish_attempts_gives p x ref b.0.versioning 63 o u w' filed versioned
            (at_world (publish_attempts codec p x ref b.0.versioning 63) o u w5 w' s5 k5),
      )

  -- An object that was written, by a request that runs alone and goes through, is what its name gives
  -- then. It has the content and the metadata that the request gave it, at a generation that was free
  -- and lies above the highest that its pointer had seen. The object that the write returns has only
  -- ASCII in its texts and no empty map as its metadata, and the codec reads back such an object, and
  -- a pointer, from what it encodes; a pointer that was there had a version other than 0, below the
  -- last one, and the generation that it named, if that was there, held the object of that name and
  -- generation.
  pub write_then_get :
      (p : Bytes) (x : Write) (content : Option BlobRef) (o : Object) (w w' : World)
      → ReadsBack codec
      → IsPlain o
      → IsFiled codec p x.bucket x.name w
      → IsVersioned codec p x.bucket x.name w
      → version_of (w.kv.m (Resource.live p x.bucket x.name)) + 1 < 2 ^ 64
      → Gives (write_object codec p x content) w o w'
      → Gives (get_object codec p x.bucket x.name none) w' o w'
        × ((ref : BlobRef) × (content ≡ some ref) × Published codec p x ref w o w')
  write_then_get p x content o w w' reads plain filed versioned bound h =
      let (ref, e, pub') = write_object_gives p x content o w w' filed versioned h in
      let (same, _, _, current) = pub' in
      let got =
        get_object-IsCurrent codec p o (next_version (w.kv.m (Resource.live p x.bucket x.name))) w'
          reads plain (next_positive (w.kv.m (Resource.live p x.bucket x.name)) bound) current in
      (
        subst (λ n. Gives (get_object codec p x.bucket n none) w' o w') (ap (λ o. o.name) same)
            (subst (λ b. Gives (get_object codec p b o.name none) w' o w') (ap (λ o. o.bucket) same)
              got),
        (ref, e, pub'),
      )
