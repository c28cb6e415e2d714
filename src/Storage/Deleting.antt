-- ===== src/Storage/Deleting.antt =====
-- DeleteObject of services/storage/object.go, for a request that runs alone, and the readings behind
-- it.
use cloudrig.Prelude.{
  ℕ, ◌≡◌, refl, sym, ap, ◌∙◌, subst, Bool, Option, none, some, true, false, inl, inr,
}
use cloudrig.Prelude.Bytes.{Bytes, str_eq_refl}
use cloudrig.Preconditions.{Preconditions, passed, check_preconditions, is_set}
use cloudrig.Resource
use cloudrig.Resource.{bucket_key}
use cloudrig.Store.{Entry}
use cloudrig.Storage.{Codec, Object, Live, Bucket, not_found_error}
use cloudrig.Storage.Program.{World, run, on_result}
use cloudrig.Storage.Buckets.{read_bucket, or_internal}
use cloudrig.Storage.Publishing.{check, drop_generation, versions_of}
use cloudrig.Storage.Objects.{
  resolve_live, delete_object, deleted_generation, get_object, no_conditions, or_missing,
}
use cloudrig.Storage.Runs.{Gives, Breaks, fails_gives, bind_gives, Leaves}
use cloudrig.Storage.Steps.{returns_gives, or_internal_gives, gets_gives}
use cloudrig.Storage.Keys.{str_eq-object-live, str_eq-live-object, str_eq-blob_refs-live}
use cloudrig.Storage.Counting.{bind-Leaves}
use cloudrig.Storage.Inverting.{Decodes}
use cloudrig.Storage.Moving.{check_gives, drop_generation-Leaves}
use cloudrig.Storage.Absent.{get_absent}
use cloudrig.Storage.Lookup.{get_object-Decodes}
use cloudrig.Storage.Resolving.{delete_gives, resolve_live_gives}
use cloudrig.Storage.Filing.{IsFiled, kept}

module _ (codec : Codec) where
  or_missing_gives :
      (e : Option Object) (v : ℕ) (o : Object) (u : ℕ) (w w' : World)
      → Gives (or_missing codec (e, v)) w (o, u) w'
      → (e ≡ some o) × (w ≡ w')
  or_missing_gives none v o u w w' h = absurd (fails_gives w w' not_found_error h)
  or_missing_gives (some x) v o u w w' h =
      let (a, s) = returns_gives (x, v) (o, u) w w' h in (ap (λ r. some (r.0)) a, s)

  read_bucket_gives :
      (p b : Bytes) (x : Bucket) (v : ℕ) (w w' : World)
      → Gives (read_bucket codec p b) w (x, v) w'
      → (w ≡ w') × Decodes codec.decode_bucket (bucket_key p b) x v w
  unfolding read_bucket on_result
  read_bucket_gives p b x v w w' g = elim (gets_gives (x, v) (bucket_key p b) _ w w' g) [
    | inl (e, k) ↦ absurd (fails_gives w w' _ k)
    | inr (e, m, k) ↦
        let (o', u, d, r) = bind_gives w w' (or_internal (codec.decode_bucket e.val)) _ k in
        let (eq, s) = or_internal_gives (codec.decode_bucket e.val) o' w u d in
        let (a, s') = returns_gives (o', e.version) (x, v) u w' r in
        (s ∙ s', (e, m, eq ∙ ap (λ x. some (x.0)) a, ap (λ x. x.1) a))
  ]

  deleted_generation-Leaves :
      (p b n : Bytes) (versioning : Bool) (o : Object)
      → o.bucket ≡ b
      → Leaves (Resource.live p b n) (deleted_generation codec p versioning o)
  deleted_generation-Leaves p b n true o e = tt
  deleted_generation-Leaves p b n false o e =
      bind-Leaves (Resource.live p b n) (drop_generation p o) _
        (drop_generation-Leaves (Resource.live p b n) p o
          (rw e (str_eq-object-live p b o.name n o.generation))
          (str_eq-blob_refs-live o.blob p b n))
        (λ _. tt)

  archived_kept :
      (p b n : Bytes) (o : Object) (e : Entry) (w w' : World) (versioning : Bool)
      → versioning ≡ true
      → Gives (deleted_generation codec p versioning o) w tt w'
      → w.kv.m (Resource.object p b n o.generation) ≡ some e
      → codec.decode_object e.val ≡ some o
      → Gives (get_object codec p b n (some o.generation)) w' o w'
  unfolding run
  archived_kept p b n o e w w' false on g at dec = cc
  archived_kept p b n o e w w' true on g at dec =
      let kv : w'.kv ≡ w.kv = sym (ap (λ r. r.1.kv) g) in
      get_object-Decodes codec p b n o.generation o e.version w'
        (e, ap (λ s. s.m (Resource.object p b n o.generation)) kv ∙ at, dec, refl)

  -- After a deletion that goes through, by a request that runs alone, the object is not found by its
  -- name, and the conditions held of the one that was there, the one of the generation that the
  -- pointer named. In a bucket with versioning that one is still found by its generation. The
  -- generation that the pointer named, if that was there, held the object of that name and generation.
  pub delete_then_get :
      (p b n : Bytes) (pre : Preconditions) (w w' : World)
      → IsFiled codec p b n w
      → Gives (delete_object codec p b n pre) w tt w'
      → Breaks (get_object codec p b n none) w' not_found_error w'
        × ((o : Object) × (v : ℕ) × Decodes codec.decode_object
              (Resource.object p b n o.generation)
              o
              v
              w
            × ((l : Live) × (r : ℕ) × Decodes codec.decode_live (Resource.live p b n) l r w
                × (o.generation ≡ l.generation))
            × (check_preconditions pre (versions_of (some o)) false ≡ passed)
            × ((bucket : Bucket) × (u : ℕ) × Decodes codec.decode_bucket (bucket_key p b) bucket u w
                × (bucket.versioning ≡ true
                    → Gives (get_object codec p b n (some o.generation)) w' o w')))
  unfolding delete_object get_object is_set
  delete_then_get p b n pre w w' filed h =
      let ((e, v), w1, d1, k1) = bind_gives w w' (resolve_live codec p b n 8) _ h in
      let (s1, there) = resolve_live_gives codec p b n 8 e v w w1 d1 in
      let ((o, v'), w2, d2, k2) = bind_gives w1 w' (or_missing codec (e, v)) _ k1 in
      let (found, s2) = or_missing_gives e v o v' w1 w2 d2 in
      let (_, w3, d3, k3) = bind_gives w2 w' (check pre (some o) false) _ k2 in
      let (held, s3) = check_gives pre (some o) false w2 w3 d3 in
      let ((bucket, u), w4, d4, k4) = bind_gives w3 w' (read_bucket codec p b) _ k3 in
      let (s4, read) = read_bucket_gives p b bucket u w3 w4 d4 in
      let (w5, unlinked, k5) = delete_gives tt (Resource.live p b n) v' _ w4 w' k4 in
      let s = s1 ∙ s2 ∙ s3 ∙ s4 in
      let (l, r, i, pointer, d) = there o found in
      let (same_bucket, same_name, same) = filed l r o i pointer d in
      let (entry, at, dec, ver) =
        subst (λ g. Decodes codec.decode_object (Resource.object p b n g) o i w) (sym same) d in
      let at5 : w5.kv.m (Resource.object p b n o.generation) ≡ some entry =
        unlinked (Resource.object p b n o.generation)
        ∙ rw (str_eq-live-object p b n n o.generation)
            (ap (λ x. x.kv.m (Resource.object p b n o.generation)) (sym s) ∙ at) in
      let gone : w'.kv.m (Resource.live p b n) ≡ none =
        kept (Resource.live p b n) (deleted_generation codec p bucket.versioning o) w5 w' k5
          (deleted_generation-Leaves p b n bucket.versioning o same_bucket)
        ∙ unlinked (Resource.live p b n)
        ∙ rw (str_eq_refl (Resource.live p b n)) refl in
      (
        get_absent codec p b n no_conditions w' gone,
        (
          o,
          i,
          (entry, at, dec, ver),
          (l, r, pointer, same),
          held,
          (
            bucket,
            u,
            subst (λ x. Decodes codec.decode_bucket (bucket_key p b) bucket u x)
                (sym (s1 ∙ s2 ∙ s3)) read,
            λ on. archived_kept p b n o entry w5 w' bucket.versioning on k5 at5 dec,
          ),
        ),
      )
