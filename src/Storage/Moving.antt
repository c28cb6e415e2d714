-- ===== src/Storage/Moving.antt =====
-- The last steps of a write of services/storage/object.go, for a request that runs alone: the
-- pointer is moved, and what was there is dropped.
use cloudrig.Prelude.{
  ℕ, ◌≡◌, refl, ap, ◌∙◌, subst, Bool, Option, none, some, true, false, [], inl, inr, ◌==◌,
  if◌then◌else◌, ◌≢◌, arith,
}
use cloudrig.Prelude.Bytes.{Bytes, str_eq}
use cloudrig.Preconditions.{
  Preconditions, passed, precondition_failed, not_modified, check_preconditions,
}
use cloudrig.Resource
use cloudrig.Resource.{blob_refs}
use cloudrig.Store.{Result, ok, err, not_found, version_mismatch, invalid_page_token, ctx_done}
use cloudrig.Storage.{
  Failure, race_lost, precondition_error, not_modified_error, Codec, Object, Live,
}
use cloudrig.Storage.Program.{returns, fails, World, returned, on_result}
use cloudrig.Storage.Buckets.{or_internal, deleted_or_absent}
use cloudrig.Storage.Publishing.{
  Write, verdict, check, versions_of, cas_live, move_live, release_blob, drop_generation,
  drop_existing, read_existing, read_generation, if_missing, is_missing,
}
use cloudrig.Storage.Runs.{Gives, fails_gives, on_result-Ends, Leaves, on_result-Leaves}
use cloudrig.Storage.Steps.{returns_gives, Written}
use cloudrig.Storage.Counting.{bind-Leaves, release_blob-Leaves}
use cloudrig.Storage.Inverting.{Decodes, read_generation_gives, cas_live_gives}
use cloudrig.Storage.Claiming.{or_internal-Leaves, written_or-Leaves}

pub check_gives :
    (p : Preconditions) (e : Option Object) (read : Bool) (w w' : World)
    → Gives (check p e read) w tt w'
    → (check_preconditions p (versions_of e) read ≡ passed) × (w ≡ w')
unfolding check
check_gives p e read w w' g =
    elim (check_preconditions p (versions_of e) read)
        as (λ x. Gives (verdict x) w tt w' → (x ≡ passed) × (w ≡ w')) [
          | passed ↦ λ g. (refl, (returns_gives tt tt w w' g).1)
          | precondition_failed ↦ λ g. absurd (fails_gives w w' precondition_error g)
          | not_modified ↦ λ g. absurd (fails_gives w w' not_modified_error g)
        ]
      g

deleted_or_absent-Leaves : (j : Bytes) (r : Result (Unit {0})) → Leaves j (deleted_or_absent r)
deleted_or_absent-Leaves j (ok u) = tt
deleted_or_absent-Leaves j (err not_found) = tt
deleted_or_absent-Leaves j (err version_mismatch) = tt
deleted_or_absent-Leaves j (err invalid_page_token) = tt
deleted_or_absent-Leaves j (err ctx_done) = tt

-- What is dropped leaves a key alone that is neither that generation's nor the count's.
pub drop_generation-Leaves :
    (j p : Bytes) (o : Object)
    → str_eq (Resource.object p o.bucket o.name o.generation) j ≡ false
    → str_eq (blob_refs o.blob) j ≡ false
    → Leaves j (drop_generation p o)
unfolding drop_generation
drop_generation-Leaves j p o ne nr = (
  ne,
  λ r.
      bind-Leaves j (deleted_or_absent r) _ (deleted_or_absent-Leaves j r)
        (λ _. release_blob-Leaves j o.blob nr),
)

pub drop_existing-Leaves :
    (j p : Bytes) (versioning : Bool) (e : Option Object)
    → ((o : Object) → e ≡ some o → Leaves j (drop_generation p o))
    → Leaves j (drop_existing p versioning e)
drop_existing-Leaves j p true e l = tt
drop_existing-Leaves j p false none l = tt
drop_existing-Leaves j p false (some o) l = l o refl

none_differs : {o : Object} → ◌≡◌ {A = Option Object} none (some o) → ⊥
none_differs h = cc

some_object : {o x : Object} → ◌≡◌ {A = Option Object} (some o) (some x) → o ≡ x
some_object h = cc

pub not_zero : (r : ℕ) → r == 0 ≡ false → r ≢ 0
not_zero r h z = ground arith

module _ (codec : Codec) where
  pub move_live_gives :
      (p : Bytes) (o : Object) (v : ℕ) (w w' : World)
      → Gives (move_live codec p o v) w tt w'
      → (raw : Bytes) × (codec.encode_live
            (record { generation = o.generation; highest = o.generation })
          ≡ some raw)
        × Written (Resource.live p o.bucket o.name) raw v w w'
  unfolding move_live
  move_live_gives p o v w w' g =
      elim (on_result-Ends w w' (cas_live codec p o.bucket o.name _ v) _ returns g) [
        | inl (a, u, d, k) ↦
            cas_live_gives codec p o.bucket o.name _ v w w'
              (d ∙ ap (λ x. (returned tt, x, [])) (returns_gives a tt u w' k).1)
        | inr (f, u, d, k) ↦
            elim (on_result-Ends u w' (release_blob o.blob) (λ _. fails f) (λ _. fails f) k) [
              | inl (a, t, e, r) ↦ absurd (fails_gives t w' f r)
              | inr (x, t, e, r) ↦ absurd (fails_gives t w' f r)
            ]
      ]

  pub move_live-Leaves :
      (j p : Bytes) (o : Object) (v : ℕ)
      → str_eq (Resource.live p o.bucket o.name) j ≡ false
      → str_eq (blob_refs o.blob) j ≡ false
      → Leaves j (move_live codec p o v)
  unfolding move_live cas_live
  move_live-Leaves j p o v ne nr =
      on_result-Leaves j
        (cas_live codec p o.bucket o.name
          (record { generation = o.generation; highest = o.generation }) v)
        _ returns
        (bind-Leaves j
          (or_internal
            (codec.encode_live (record { generation = o.generation; highest = o.generation })))
          _
          (or_internal-Leaves j
            (codec.encode_live (record { generation = o.generation; highest = o.generation })))
          (λ raw. (ne, written_or-Leaves j race_lost)))
        (λ f.
          on_result-Leaves j (release_blob o.blob) (λ _. fails f) (λ _. fails f)
            (release_blob-Leaves j o.blob nr) (λ x. tt) (λ a. tt))
        (λ a. tt)

  if_missing_gives :
      {A : Type 0} {a : A} {w' : World} (f : Failure) (u : World)
      → Gives {A = A} (if_missing (fails race_lost) f) u a w'
      → ⊥
  if_missing_gives {A} {a} {w'} f u g =
      elim (is_missing f)
          as (λ t. Gives {A = A} (if t then fails race_lost else fails f) u a w' → ⊥) [
            | true ↦ fails_gives u w' race_lost
            | false ↦ fails_gives u w' f
          ]
        g

  -- The object that is replaced is the one that the pointer names, and there is a pointer.
  abbrev pub Replaced : Bytes → Write → Live → ℕ → Option Object → World → Type 0
  Replaced p x l v e w =
      (o : Object)
      → e ≡ some o
      → (v ≢ 0)
        × ((n : ℕ) × Decodes codec.decode_object (Resource.object p x.bucket x.name l.generation) o
              n w)

  named_by_pointer :
      (p : Bytes) (x : Write) (l : Live) (v : ℕ) (e : Option Object) (w w' : World)
      → v ≢ 0
      → Gives
          (on_result
            (read_generation codec p x.bucket x.name l.generation)
            (if_missing (fails race_lost))
            (λ o. returns (some o)))
          w
          e
          w'
      → (w ≡ w') × Replaced p x l v e w
  named_by_pointer p x l v e w w' pos g =
      let key = Resource.object p x.bucket x.name l.generation in
      elim (on_result-Ends w w' (read_generation codec p x.bucket x.name l.generation) _ _ g) [
        | inl (o, u, d, k) ↦
            let (found, s) = returns_gives (some o) e u w' k in
            let (s0, there) = read_generation_gives codec p x.bucket x.name l.generation o w u d in
            (
              s0 ∙ s,
              λ o' h. (
                pos,
                subst (λ y. (n : ℕ) × Decodes codec.decode_object key y n w)
                    (some_object (found ∙ h)) there,
              ),
            )
        | inr (f, u, d, k) ↦ absurd (if_missing_gives f u k)
      ]

  pub read_existing_gives :
      (p : Bytes) (x : Write) (l : Live) (v : ℕ) (e : Option Object) (w w' : World)
      → Gives (read_existing codec p x l v) w e w'
      → (w ≡ w') × Replaced p x l v e w
  unfolding read_existing
  read_existing_gives p x l v e w w' g =
      elim (v == 0)
          as (λ t.
            v == 0 ≡ t
            → Gives
                (if t
                  then returns none
                  else on_result (read_generation codec p x.bucket x.name l.generation)
                      (if_missing (fails race_lost)) (λ o. returns (some o)))
                w e w'
            → (w ≡ w') × Replaced p x l v e w) [
              | true ↦ λ z g.
                  let (nothing, s) = returns_gives none e w w' g in
                  (s, λ o h. absurd (none_differs (nothing ∙ h)))
              | false ↦ λ z g. named_by_pointer p x l v e w w' (not_zero v z) g
            ]
        refl g
