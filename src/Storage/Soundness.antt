-- ===== src/Storage/Soundness.antt =====
-- What the requests of services/storage/object.go rely on: an object's pointer and the generation
-- that it names.
use cloudrig.Prelude.{ℕ, ◌+◌, ◌^◌, ◌<◌, ◌≡◌, ◌≢◌, sym, ap, ◌∙◌, subst, Option, some}
use cloudrig.Prelude.Bytes.{Bytes}
use cloudrig.Resource
use cloudrig.Store.{Entry, version_of, next_version}
use cloudrig.Storage.{Codec, Object, BlobRef}
use cloudrig.Storage.Program.{World}
use cloudrig.Storage.Publishing.{Write, write_object}
use cloudrig.Storage.Runs.{Gives}
use cloudrig.Storage.Losing.{IsVersioned}
use cloudrig.Storage.ReadingBack.{write_object_gives}
use cloudrig.Storage.Lookup.{next_positive, IsPlain, ReadsBack}
use cloudrig.Storage.Filing.{IsFiled, IsCurrent}

some_entry : {e e' : Entry} → ◌≡◌ {A = Option Entry} (some e) (some e') → e ≡ e'
some_entry h = cc

some_value : {A : Type 0} {a b : A} → ◌≡◌ {A = Option A} (some a) (some b) → a ≡ b
some_value h = cc

module _ (codec : Codec) where
  -- The pointer, if it is there, has a version, and the generation that it names, if that is there,
  -- holds the object of that name and generation.
  abbrev pub IsSound : Bytes → Bytes → Bytes → World → Type 0
  IsSound p b n w = IsFiled codec p b n w × IsVersioned codec p b n w

  IsCurrent-IsSound :
      (p : Bytes) (o : Object) (v : ℕ) (w : World)
      → ReadsBack codec
      → IsPlain o
      → v ≢ 0
      → IsCurrent codec p o v w
      → IsSound p o.bucket o.name w
  IsCurrent-IsSound p o v w reads plain pos ((raw, u, enc, there), (raw', enc', there')) = (
    λ l k o' i (e, at, dec, r) (e', at', dec', r').
        let pointer : l ≡ record { generation = o.generation; highest = o.generation } =
          some_value (
            sym dec
            ∙ ap (λ x. codec.decode_live x.val) (some_entry (sym at ∙ there'))
            ∙ reads.lives _ raw' enc') in
        let at_o : w.kv.m (Resource.object p o.bucket o.name o.generation) ≡ some e' =
          ap (λ x. w.kv.m (Resource.object p o.bucket o.name x.generation)) (sym pointer) ∙ at' in
        let same : o' ≡ o = some_value (
          sym dec'
          ∙ ap (λ x. codec.decode_object x.val) (some_entry (sym at_o ∙ there))
          ∙ reads.objects o raw plain enc) in
        (
          ap (λ x. x.bucket) same,
          ap (λ x. x.name) same,
          ap (λ x. x.generation) same ∙ sym (ap (λ x. x.generation) pointer),
        ),
    λ e at z. pos (sym (ap (λ x. x.version) (some_entry (sym at ∙ there'))) ∙ z),
  )

  pub write_object-IsSound :
      (p : Bytes) (x : Write) (content : Option BlobRef) (o : Object) (w w' : World)
      → ReadsBack codec
      → IsPlain o
      → IsSound p x.bucket x.name w
      → version_of (w.kv.m (Resource.live p x.bucket x.name)) + 1 < 2 ^ 64
      → Gives (write_object codec p x content) w o w'
      → IsSound p x.bucket x.name w'
  write_object-IsSound p x content o w w' reads plain (filed, versioned) bound h =
      let (ref, e, (same, _, _, current)) =
        write_object_gives codec p x content o w w' filed versioned h in
      let sound =
        IsCurrent-IsSound p o (next_version (w.kv.m (Resource.live p x.bucket x.name))) w' reads
          plain (next_positive (w.kv.m (Resource.live p x.bucket x.name)) bound) current in
      subst (λ n. IsSound p x.bucket n w') (ap (λ o. o.name) same)
        (subst (λ b. IsSound p b o.name w') (ap (λ o. o.bucket) same) sound)
