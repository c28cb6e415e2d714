-- ===== src/Storage/Publication.antt =====
-- What a write of services/storage/object.go leaves in the store when it goes through, for a request
-- that runs alone.
use cloudrig.Prelude.{
  ℕ, ◌≤◌, ◌<◌, ◌≡◌, refl, sym, ap, ◌∙◌, subst, arith, Bool, Option, none, some, false, inl, inr,
  ◌⊎◌,
}
use cloudrig.Prelude.Bytes.{Bytes, codes, str_eq_refl}
use cloudrig.Resource
use cloudrig.Store.{next_version}
use cloudrig.Storage.{Codec, Object, Live, BlobRef}
use cloudrig.Storage.Program.{returns, World, ◌>>=◌, tells}
use cloudrig.Storage.Publishing.{
  Write, described, at_generation, check, read_live, read_existing, claim_generation,
  next_generation, retain_blob, move_live, drop_existing, publish,
}
use cloudrig.Storage.Runs.{Gives, bind_gives}
use cloudrig.Storage.Keys.{
  str_eq-object-live, str_eq-live-object, str_eq-blob_refs-live, str_eq-blob_refs-object,
}
use cloudrig.Storage.Counting.{retain_blob-Leaves}
use cloudrig.Storage.Inverting.{Decodes, read_live_gives}
use cloudrig.Storage.Claiming.{claim_generation_gives, claim_generation-Leaves}
use cloudrig.Storage.Moving.{
  Replaced, check_gives, move_live_gives, move_live-Leaves, read_existing_gives,
}
use cloudrig.Storage.Filing.{
  next_generation-lt, kept, none_entry, some_entry, some_live, tells_gives, reads_clock_gives,
  at_world, IsFiled, Published, dropped-Leaves,
}

module _ (codec : Codec) where
  above_highest :
      (p b n : Bytes) (l : Live) (v g : ℕ) (w : World)
      → ((w.kv.m (Resource.live p b n) ≡ none) × (v ≡ 0))
        ⊎ Decodes codec.decode_live (Resource.live p b n) l v w
      → next_generation w.now l.highest ≤ g
      → (k : Live) (u : ℕ) → Decodes codec.decode_live (Resource.live p b n) k u w
      → k.highest < g
  above_highest p b n l v g w (inl (absent, z)) le k u (e, there, r, q) =
      absurd (none_entry (sym absent ∙ there))
  above_highest p b n l v g w (inr (e, there, d, r)) le k u (e', there', d', r') =
      let same : e ≡ e' = some_entry (sym there ∙ there') in
      let read : l ≡ k = some_live (sym d ∙ ap (λ x. codec.decode_live x.val) same ∙ d') in
      let high = next_generation-lt w.now l.highest in subst (λ x. x.highest < g) read (omega arith)

  existing_filed :
      (p : Bytes) (x : Write) (l : Live) (v : ℕ) (e : Option Object) (w : World)
      → IsFiled codec p x.bucket x.name w
      → ((w.kv.m (Resource.live p x.bucket x.name) ≡ none) × (v ≡ 0))
        ⊎ Decodes codec.decode_live (Resource.live p x.bucket x.name) l v w
      → Replaced codec p x l v e w
      → (o : Object) → e ≡ some o
      → (o.bucket ≡ x.bucket) × (o.name ≡ x.name) × (o.generation ≡ l.generation)
  existing_filed p x l v e w filed (inl (absent, z)) there o h = absurd ((there o h).0 z)
  existing_filed p x l v e w filed (inr d) there o h =
      let (pos, (n, r)) = there o h in filed l v o n d r

  -- The part of a write behind the reading.
  written_gives :
      (p : Bytes) (x : Write) (ref : BlobRef) (versioning : Bool) (l : Live) (v : ℕ)
      (e : Option Object) (o : Object) (w w' : World)
      → IsFiled codec p x.bucket x.name w
      → ((w.kv.m (Resource.live p x.bucket x.name) ≡ none) × (v ≡ 0))
        ⊎ Decodes codec.decode_live (Resource.live p x.bucket x.name) l v w
      → Replaced codec p x l v e w
      → Gives
          (claim_generation codec p (described x ref w.now) 1024 (next_generation w.now l.highest)
            >>= λ g.
                let o = at_generation (described x ref w.now) g in
                retain_blob ref.sha >>= λ _. move_live codec p o v >>= λ _.
                drop_existing p versioning e >>= λ _.
                tells (codes "google.storage.object.finalize") o (returns o))
          w
          o
          w'
      → Published codec p x ref w o w'
  written_gives p x ref versioning l v e o w w' filed read there h =
      let (g, w1, claimed, h1) =
        bind_gives w w'
          (claim_generation codec p (described x ref w.now) 1024 (next_generation w.now l.highest))
          _ h in
      let (le, (absent, (raw, u, enc, stored))) =
        claim_generation_gives codec p (described x ref w.now) 1024 _ g w w1 claimed in
      let (_, w2, retained, h2) = bind_gives w1 w' (retain_blob ref.sha) _ h1 in
      let (_, w3, moved, h3) =
        bind_gives w2 w' (move_live codec p (at_generation (described x ref w.now) g) v) _ h2 in
      let (_, w4, dropped, h4) = bind_gives w3 w' (drop_existing p versioning e) _ h3 in
      let key = Resource.object p x.bucket x.name g in
      let pointer = Resource.live p x.bucket x.name in
      let (spares_key, spares_pointer) =
        dropped-Leaves codec p x g l.generation versioning e w
          (existing_filed p x l v e w filed read there) (λ o h. (there o h).1) absent in
      let (raw', enc', (met, put)) =
        move_live_gives codec p (at_generation (described x ref w.now) g) v w2 w3 moved in
      let before : w2.kv.m pointer ≡ w.kv.m pointer =
        kept pointer (retain_blob ref.sha) w1 w2 retained
          (retain_blob-Leaves pointer ref.sha (str_eq-blob_refs-live ref.sha p x.bucket x.name))
        ∙ kept pointer
            (claim_generation codec p (described x ref w.now) 1024
              (next_generation w.now l.highest))
            w w1 claimed
            (claim_generation-Leaves codec pointer p (described x ref w.now) 1024 _
              (str_eq-object-live p x.bucket x.name x.name)) in
      let at_key : w4.kv.m key ≡ some (record { val = raw; version = u }) =
        kept key (drop_existing p versioning e) w3 w4 dropped spares_key
        ∙ kept key (move_live codec p (at_generation (described x ref w.now) g) v) w2 w3 moved (
            move_live-Leaves codec key p (at_generation (described x ref w.now) g) v
              (str_eq-live-object p x.bucket x.name x.name g)
              (str_eq-blob_refs-object ref.sha p x.bucket x.name g))
        ∙ kept key (retain_blob ref.sha) w1 w2 retained
            (retain_blob-Leaves key ref.sha (str_eq-blob_refs-object ref.sha p x.bucket x.name g))
        ∙ stored in
      let at_pointer : w4.kv.m pointer
          ≡ some (record { val = raw'; version = next_version (w.kv.m pointer) }) =
        kept pointer (drop_existing p versioning e) w3 w4 dropped spares_pointer
        ∙ put pointer
        ∙ rw (str_eq_refl pointer)
            (ap (λ r. some (record { val = raw'; version = next_version r })) before) in
      let (same, kv) =
        tells_gives (codes "google.storage.object.finalize")
          (at_generation (described x ref w.now) g) o w4 w' h4 in
      subst (λ o. Published codec p x ref w o w') same
        (
          refl,
          above_highest p x.bucket x.name l v g w read le,
          absent,
          (
            (raw, u, enc, ap (λ m. m.m key) kv ∙ at_key),
            (raw', enc', ap (λ m. m.m pointer) kv ∙ at_pointer),
          ),
        )

  -- A write that goes through publishes what it was given.
  pub publish_gives :
      (p : Bytes) (x : Write) (ref : BlobRef) (versioning : Bool) (o : Object) (w w' : World)
      → IsFiled codec p x.bucket x.name w
      → Gives (publish codec p x ref versioning) w o w'
      → Published codec p x ref w o w'
  unfolding publish
  publish_gives p x ref versioning o w w' filed h =
      let ((l, v), w1, d1, k1) = bind_gives w w' (read_live codec p x.bucket x.name) _ h in
      let (s1, read) = read_live_gives codec p x.bucket x.name l v w w1 d1 in
      let (e, w2, d2, k2) = bind_gives w1 w' (read_existing codec p x l v) _ k1 in
      let (s2, there) = read_existing_gives codec p x l v e w1 w2 d2 in
      let (_, w3, d3, k3) = bind_gives w2 w' (check x.preconditions e false) _ k2 in
      let (held, s3) = check_gives x.preconditions e false w2 w3 d3 in
      written_gives p x ref versioning l v e o w w' filed read
        (subst (Replaced codec p x l v e) (sym s1) there)
        (reads_clock_gives o w w' _ (at_world _ o w w3 w' (s1 ∙ s2 ∙ s3) k3))
