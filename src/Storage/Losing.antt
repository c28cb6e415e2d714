-- ===== src/Storage/Losing.antt =====
-- publish of services/storage/object.go, for a request that runs alone: the attempts that lose the
-- race.
use cloudrig.Prelude.{
  ℕ, ◌≡◌, ◌≢◌, sym, ap, ◌∙◌, Bool, Option, none, some, true, false, [], inl, inr, ◌⊎◌, ◌==◌,
  if◌then◌else◌,
}
use cloudrig.Prelude.Bytes.{Bytes, codes}
use cloudrig.Resource
use cloudrig.Store.{
  Result, ok, err, Entry, not_found, version_mismatch, invalid_page_token, ctx_done,
}
use cloudrig.Store.Cas.{Meets}
use cloudrig.Storage.{Failure, race_lost, Codec, Object, Live, BlobRef}
use cloudrig.Storage.Program.{
  Program, returns, fails, reads_clock, tells, World, run, on_result, ◌>>=◌,
}
use cloudrig.Storage.Buckets.{or_internal, read_value}
use cloudrig.Storage.Publishing.{
  Write, described, at_generation, live_read, read_live, read_generation_version, read_generation,
  read_existing, if_missing, is_missing, check, next_generation, retain_blob, claim_generation,
  move_live, drop_existing, publish,
}
use cloudrig.Storage.Runs.{Breaks, bind-Breaks, on_result-Ends}
use cloudrig.Storage.Keys.{str_eq-object-live, str_eq-blob_refs-live}
use cloudrig.Storage.Counting.{retain_blob-Leaves}
use cloudrig.Storage.Inverting.{Decodes, read_live_gives}
use cloudrig.Storage.Claiming.{claim_generation-Leaves}
use cloudrig.Storage.Moving.{check_gives, read_existing_gives}
use cloudrig.Storage.Racing.{NeverLoses, run-NeverLoses, bind-NeverLoses}
use cloudrig.Storage.Attempts.{
  or_internal-NeverLoses, check-NeverLoses, claim_generation-NeverLoses, retain_blob-NeverLoses,
  drop_existing-NeverLoses, move_live_unbroken, returns-Breaks,
}
use cloudrig.Storage.Reads.{Reads, run-Reads, bind-Reads, or_internal-Reads, read_value-Reads}
use cloudrig.Storage.Filing.{kept}

fails_world : {A : Type 0} (f x : Failure) (w w' : World) → Breaks {A = A} (fails f) w x w' → w ≡ w'
unfolding run
fails_world f x w w' g = cc

reads_clock-Breaks :
    {A : Type 0} (x : Failure) (w w' : World) (c : ℕ → Program A)
    → Breaks (reads_clock c) w x w'
    → Breaks (c w.now) w x w'
unfolding run
reads_clock-Breaks x w w' c g = g

at_world-Breaks :
    {A : Type 0} (m : Program A) (x : Failure) (w u w' : World)
    → w ≡ u
    → Breaks m u x w'
    → Breaks m w x w'
at_world-Breaks m x w u w' s g = ap (run m []) s ∙ g

module _ (codec : Codec) where
  live_read-NeverLoses : (r : Result (Bytes × ℕ)) → NeverLoses (live_read codec r)
  live_read-NeverLoses (ok e) =
      bind-NeverLoses (or_internal (codec.decode_live e.0)) _
        (or_internal-NeverLoses (codec.decode_live e.0)) (λ l. tt)
  live_read-NeverLoses (err not_found) = tt
  live_read-NeverLoses (err version_mismatch) = tt
  live_read-NeverLoses (err invalid_page_token) = tt
  live_read-NeverLoses (err ctx_done) = tt

  read_live-NeverLoses : (p b n : Bytes) → NeverLoses (read_live codec p b n)
  unfolding read_live
  read_live-NeverLoses p b n = live_read-NeverLoses

  pub read_generation-Reads : (p b n : Bytes) (g : ℕ) → Reads (read_generation codec p b n g)
  unfolding read_generation read_generation_version on_result
  read_generation-Reads p b n g = λ r.
      bind-Reads
        (read_value r >>= λ e. or_internal (codec.decode_object e.0) >>= λ o. returns (o, e.1))
        (λ o. returns o.0)
        (bind-Reads (read_value r) _ (read_value-Reads r) (λ e.
          bind-Reads (or_internal (codec.decode_object e.0)) _
            (or_internal-Reads (codec.decode_object e.0)) (λ o. tt)))
        (λ o. tt)

  read_existing-Breaks :
      (p : Bytes) (x : Write) (l : Live) (v : ℕ) (f : Failure) (w w' : World)
      → Breaks (read_existing codec p x l v) w f w'
      → w' ≡ w
  unfolding read_existing run
  read_existing-Breaks p x l v f w w' g =
      elim (v == 0)
          as (λ t.
            Breaks
              (if t
                then returns none
                else on_result (read_generation codec p x.bucket x.name l.generation)
                    (if_missing (fails race_lost)) (λ o. returns (some o)))
              w f w'
            → w' ≡ w) [
              | true ↦ λ g. absurd (returns-Breaks none f w w' g)
              | false ↦ λ g.
                  elim (on_result-Ends w w' (read_generation codec p x.bucket x.name l.generation) _
                    _ g) [
                      | inl (o, u, d, k) ↦ absurd (returns-Breaks (some o) f u w' k)
                      | inr (y, u, d, k) ↦
                          let same : u ≡ w' =
                            elim (is_missing y)
                                as (λ t.
                                  Breaks {A = Option Object}
                                    (if t then fails race_lost else fails y) u f w'
                                  → u ≡ w') [
                                    | true ↦ fails_world race_lost f u w'
                                    | false ↦ fails_world y f u w'
                                  ]
                              k in
                          sym same
                          ∙ sym (ap (λ r. r.1) d)
                          ∙ run-Reads (read_generation codec p x.bucket x.name l.generation) w
                              (read_generation-Reads p x.bucket x.name l.generation)
                    ]
            ]
        g

  -- A pointer that is there has a version.
  abbrev pub IsVersioned : Bytes → Bytes → Bytes → World → Type 0
  IsVersioned p b n w = (e : Entry) → w.kv.m (Resource.live p b n) ≡ some e → e.version ≢ 0

  read-Meets :
      (p : Bytes) (x : Write) (l : Live) (v : ℕ) (w : World)
      → IsVersioned p x.bucket x.name w
      → ((w.kv.m (Resource.live p x.bucket x.name) ≡ none) × (v ≡ 0))
        ⊎ Decodes codec.decode_live (Resource.live p x.bucket x.name) l v w
      → Meets v (w.kv.m (Resource.live p x.bucket x.name))
  read-Meets p x l v w versioned (inl (absent, z)) = rw absent z
  read-Meets p x l v w versioned (inr (e, there, d, r)) =
      rw there ((λ z. versioned e there (r ∙ z)), r)

  -- What follows the reading does not lose the race.
  written_keeps :
      (p : Bytes) (x : Write) (ref : BlobRef) (versioning : Bool) (l : Live) (v : ℕ)
      (e : Option Object) (w w' : World)
      → IsVersioned p x.bucket x.name w
      → ((w.kv.m (Resource.live p x.bucket x.name) ≡ none) × (v ≡ 0))
        ⊎ Decodes codec.decode_live (Resource.live p x.bucket x.name) l v w
      → Breaks
          (claim_generation codec p (described x ref w.now) 1024 (next_generation w.now l.highest)
            >>= λ g.
                let o = at_generation (described x ref w.now) g in
                retain_blob ref.sha >>= λ _. move_live codec p o v >>= λ _.
                drop_existing p versioning e >>= λ _.
                tells (codes "google.storage.object.finalize") o (returns o))
          w
          race_lost
          w'
      → ⊥
  written_keeps p x ref versioning l v e w w' versioned read h =
      let claim =
        claim_generation codec p (described x ref w.now) 1024 (next_generation w.now l.highest) in
      let pointer = Resource.live p x.bucket x.name in
      elim (bind-Breaks race_lost w w' claim _ h) [
        | inl b ↦
            run-NeverLoses claim w w'
              (claim_generation-NeverLoses codec p (described x ref w.now) 1024 _) b
        | inr (g, w1, claimed, h1) ↦ elim (bind-Breaks race_lost w1 w' (retain_blob ref.sha) _ h1) [
          | inl b ↦ run-NeverLoses (retain_blob ref.sha) w1 w' (retain_blob-NeverLoses ref.sha) b
          | inr (_, w2, retained, h2) ↦
              let o = at_generation (described x ref w.now) g in
              let before : w2.kv.m pointer ≡ w.kv.m pointer =
                kept pointer (retain_blob ref.sha) w1 w2 retained (
                  retain_blob-Leaves pointer ref.sha
                    (str_eq-blob_refs-live ref.sha p x.bucket x.name))
                ∙ kept pointer claim w w1 claimed (
                    claim_generation-Leaves codec pointer p (described x ref w.now) 1024 _
                      (str_eq-object-live p x.bucket x.name x.name)) in
              elim (bind-Breaks race_lost w2 w' (move_live codec p o v) _ h2) [
                | inl b ↦
                    move_live_unbroken codec p o v w2 w'
                      (rw before (read-Meets p x l v w versioned read)) b
                | inr (_, w3, moved, h3) ↦
                    elim (bind-Breaks race_lost w3 w' (drop_existing p versioning e) _ h3) [
                      | inl b ↦
                          run-NeverLoses (drop_existing p versioning e) w3 w'
                            (drop_existing-NeverLoses p versioning e) b
                      | inr (_, w4, dropped, h4) ↦
                          run-NeverLoses
                            (tells (codes "google.storage.object.finalize") o (returns o)) w4 w' tt
                            h4
                    ]
              ]
        ]
      ]

  pub publish_loses :
      (p : Bytes) (x : Write) (ref : BlobRef) (versioning : Bool) (w w' : World)
      → IsVersioned p x.bucket x.name w
      → Breaks (publish codec p x ref versioning) w race_lost w'
      → w' ≡ w
  unfolding publish
  publish_loses p x ref versioning w w' versioned h =
      elim (bind-Breaks race_lost w w' (read_live codec p x.bucket x.name) _ h) [
        | inl b ↦ absurd (
            run-NeverLoses (read_live codec p x.bucket x.name) w w'
              (read_live-NeverLoses p x.bucket x.name) b)
        | inr ((l, v), w1, d1, k1) ↦
            let (s1, read) = read_live_gives codec p x.bucket x.name l v w w1 d1 in
            elim (bind-Breaks race_lost w1 w' (read_existing codec p x l v) _ k1) [
              | inl b ↦ read_existing-Breaks p x l v race_lost w1 w' b ∙ sym s1
              | inr (e, w2, d2, k2) ↦
                  let (s2, there) = read_existing_gives codec p x l v e w1 w2 d2 in
                  elim (bind-Breaks race_lost w2 w' (check x.preconditions e false) _ k2) [
                    | inl b ↦ absurd (
                        run-NeverLoses (check x.preconditions e false) w2 w'
                          (check-NeverLoses x.preconditions e false) b)
                    | inr (_, w3, d3, k3) ↦
                        let (held, s3) = check_gives x.preconditions e false w2 w3 d3 in
                        absurd (
                          written_keeps p x ref versioning l v e w w' versioned read (
                            reads_clock-Breaks race_lost w w' _
                              (at_world-Breaks _ race_lost w w3 w' (s1 ∙ s2 ∙ s3) k3)))
                  ]
            ]
      ]
