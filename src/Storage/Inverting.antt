-- ===== src/Storage/Inverting.antt =====
-- What the readings and the claims of services/storage/object.go say when they go through, for a
-- request that runs alone.
use cloudrig.Prelude.{ℕ, ◌≡◌, sym, ap, ◌∙◌, Option, none, some, [], inl, inr, ◌⊎◌}
use cloudrig.Prelude.Bytes.{Bytes}
use cloudrig.Resource
use cloudrig.Store.{Entry}
use cloudrig.Storage.{race_lost, Codec, Object, Live}
use cloudrig.Storage.Program.{puts, World, run, on_result}
use cloudrig.Storage.Buckets.{or_internal, written_or}
use cloudrig.Storage.Publishing.{
  live_read, read_live, read_generation_version, read_generation, cas_live, put_generation,
}
use cloudrig.Storage.Runs.{Gives, fails_gives, bind_gives}
use cloudrig.Storage.Steps.{returns_gives, or_internal_gives, gets_gives, Written, put_gives}

-- The value of an entry is decoded.
abbrev pub Decodes : {A : Type 0} → (Bytes → Option A) → Bytes → A → ℕ → World → Type 0
Decodes decode k a v w =
    (e : Entry) × (w.kv.m k ≡ some e) × (decode e.val ≡ some a) × (e.version ≡ v)

module _ (codec : Codec) where
  pub read_live_gives :
      (p b n : Bytes) (l : Live) (v : ℕ) (w w' : World)
      → Gives (read_live codec p b n) w (l, v) w'
      → (w ≡ w')
        × (((w.kv.m (Resource.live p b n) ≡ none) × (v ≡ 0))
            ⊎ Decodes codec.decode_live (Resource.live p b n) l v w)
  unfolding read_live on_result
  read_live_gives p b n l v w w' g =
      elim (gets_gives (l, v) (Resource.live p b n) (live_read codec) w w' g) [
        | inl (e, k) ↦
            let (a, s) = returns_gives _ (l, v) w w' k in (s, inl (e, sym (ap (λ x. x.1) a)))
        | inr (e, m, k) ↦
            let (l', u, d, r) = bind_gives w w' (or_internal (codec.decode_live e.val)) _ k in
            let (eq, s) = or_internal_gives (codec.decode_live e.val) l' w u d in
            let (a, s') = returns_gives (l', e.version) (l, v) u w' r in
            (s ∙ s', inr (e, m, eq ∙ ap (λ x. some (x.0)) a, ap (λ x. x.1) a))
      ]

  read_generation_version_gives :
      (p b n : Bytes) (i : ℕ) (o : Object) (v : ℕ) (w w' : World)
      → Gives (read_generation_version codec p b n i) w (o, v) w'
      → (w ≡ w') × Decodes codec.decode_object (Resource.object p b n i) o v w
  unfolding read_generation_version on_result
  read_generation_version_gives p b n i o v w w' g =
      elim (gets_gives (o, v) (Resource.object p b n i) _ w w' g) [
        | inl (e, k) ↦ absurd (fails_gives w w' _ k)
        | inr (e, m, k) ↦
            let (o', u, d, r) = bind_gives w w' (or_internal (codec.decode_object e.val)) _ k in
            let (eq, s) = or_internal_gives (codec.decode_object e.val) o' w u d in
            let (a, s') = returns_gives (o', e.version) (o, v) u w' r in
            (s ∙ s', (e, m, eq ∙ ap (λ x. some (x.0)) a, ap (λ x. x.1) a))
      ]

  pub read_generation_gives :
      (p b n : Bytes) (i : ℕ) (o : Object) (w w' : World)
      → Gives (read_generation codec p b n i) w o w'
      → (w ≡ w') × ((v : ℕ) × Decodes codec.decode_object (Resource.object p b n i) o v w)
  unfolding read_generation
  read_generation_gives p b n i o w w' g =
      let (r, u, d, k) = bind_gives w w' (read_generation_version codec p b n i) _ g in
      let (s, (e, m, eq, ev)) = read_generation_version_gives p b n i r.0 r.1 w u d in
      let (a, s') = returns_gives r.0 o u w' k in (s ∙ s', (r.1, (e, m, eq ∙ ap some a, ev)))

  pub put_generation_gives :
      (p : Bytes) (o : Object) (w w' : World)
      → Gives (put_generation codec p o) w tt w'
      → (raw : Bytes) × (codec.encode_object o ≡ some raw)
        × Written (Resource.object p o.bucket o.name o.generation) raw 0 w w'
  unfolding put_generation
  put_generation_gives p o w w' g =
      let (raw, u, d, k) = bind_gives w w' (or_internal (codec.encode_object o)) _ g in
      let (eq, s) = or_internal_gives (codec.encode_object o) raw w u d in
      (
        raw,
        eq,
        put_gives race_lost (Resource.object p o.bucket o.name o.generation) raw 0 w w' (
            ap
              (λ x.
                run
                  (puts (Resource.object p o.bucket o.name o.generation) raw 0
                    (written_or race_lost))
                  [] x)
              s
            ∙ k),
      )

  pub cas_live_gives :
      (p b n : Bytes) (l : Live) (v : ℕ) (w w' : World)
      → Gives (cas_live codec p b n l v) w tt w'
      → (raw : Bytes) × (codec.encode_live l ≡ some raw) × Written (Resource.live p b n) raw v w w'
  unfolding cas_live
  cas_live_gives p b n l v w w' g =
      let (raw, u, d, k) = bind_gives w w' (or_internal (codec.encode_live l)) _ g in
      let (eq, s) = or_internal_gives (codec.encode_live l) raw w u d in
      (
        raw,
        eq,
        put_gives race_lost (Resource.live p b n) raw v w w'
            (ap (λ x. run (puts (Resource.live p b n) raw v (written_or race_lost)) [] x) s ∙ k),
      )
