-- ===== src/Storage/Claiming.antt =====
-- claimGeneration, putGeneration and casLive of services/storage/object.go, for a request that runs
-- alone: which generation is claimed, and which keys the parts of a write leave alone.
use cloudrig.Prelude.{
  ℕ, zero, suc, ◌+◌, ◌≤◌, ◌≡◌, refl, sym, ap, ◌∙◌, subst, arith, Option, none, some, false, [], inl,
  inr,
}
use cloudrig.Prelude.Bytes.{Bytes, str_eq, str_eq_refl}
use cloudrig.Resource
use cloudrig.Store.{Result, ok, err, Entry, next_version}
use cloudrig.Store.Cas.{Meets}
use cloudrig.Storage.{Failure, race_lost, fault, contention, Codec, Object}
use cloudrig.Storage.Program.{Program, World, returned, run}
use cloudrig.Storage.Buckets.{or_internal, written_or}
use cloudrig.Storage.Publishing.{put_generation, if_race, at_generation, claim_generation}
use cloudrig.Storage.Runs.{
  Gives, Breaks, fails_gives, bind-Breaks, on_result-Ends, Leaves, on_result-Leaves,
}
use cloudrig.Storage.Steps.{returns_gives, or_internal_gives, put-Breaks}
use cloudrig.Storage.Counting.{bind-Leaves}
use cloudrig.Storage.Inverting.{put_generation_gives}

or_internal-Breaks :
    {A : Type 0} (o : Option A) (x : Failure) (w w' : World)
    → Breaks (or_internal o) w x w'
    → w ≡ w'
unfolding run
or_internal-Breaks none x w w' g = cc
or_internal-Breaks (some a) x w w' g = cc

Meets-none : (e : Option Entry) → Meets 0 e → e ≡ none
Meets-none none h = refl
Meets-none (some e) h = absurd (h.0 refl)

pub or_internal-Leaves : {A : Type 0} (j : Bytes) (o : Option A) → Leaves j (or_internal o)
or_internal-Leaves j none = tt
or_internal-Leaves j (some a) = tt

pub written_or-Leaves : (j : Bytes) (f : Failure) (r : Result ℕ) → Leaves j (written_or f r)
written_or-Leaves j f (ok v) = tt
written_or-Leaves j f (err e) = tt

module _ (codec : Codec) where
  put_generation-Breaks :
      (p : Bytes) (o : Object) (x : Failure) (w w' : World)
      → Breaks (put_generation codec p o) w x w'
      → w'.kv ≡ w.kv
  unfolding put_generation
  put_generation-Breaks p o x w w' g =
      let key = Resource.object p o.bucket o.name o.generation in
      elim (bind-Breaks x w w' (or_internal (codec.encode_object o)) _ g) [
        | inl b ↦ ap (λ u. u.kv) (sym (or_internal-Breaks (codec.encode_object o) x w w' b))
        | inr (raw, u, d, k) ↦
            put-Breaks race_lost x key raw 0 u w' k
            ∙ ap (λ u. u.kv) (sym (or_internal_gives (codec.encode_object o) raw w u d).1)
      ]

  -- The generation had no entry, and now holds the object.
  abbrev pub Claimed : Bytes → Object → ℕ → World → World → Type 0
  Claimed p o n w w' =
      (w.kv.m (Resource.object p o.bucket o.name n) ≡ none)
      × ((raw : Bytes) × (v : ℕ) × (codec.encode_object (at_generation o n) ≡ some raw)
          × (w'.kv.m (Resource.object p o.bucket o.name n)
              ≡ some (record { val = raw; version = v })))

  put_generation-Claimed :
      (p : Bytes) (o : Object) (n : ℕ) (w w' : World)
      → Gives (put_generation codec p (at_generation o n)) w tt w'
      → Claimed p o n w w'
  put_generation-Claimed p o n w w' g =
      let key = Resource.object p o.bucket o.name n in
      let (raw, enc, (met, m)) = put_generation_gives codec p (at_generation o n) w w' g in
      (
        Meets-none (w.kv.m key) met,
        (raw, next_version (w.kv.m key), enc, m key ∙ rw (str_eq_refl key) refl),
      )

  -- A generation that is claimed is not below the one that the search starts at.
  pub claim_generation_gives :
      (p : Bytes) (o : Object) (left g n : ℕ) (w w' : World)
      → Gives (claim_generation codec p o left g) w n w'
      → (g ≤ n) × Claimed p o n w w'
  unfolding claim_generation
  claim_generation_gives p o zero g n w w' h = absurd (fails_gives w w' contention h)
  claim_generation_gives p o (suc left) g n w w' h =
      elim (on_result-Ends w w' (put_generation codec p (at_generation o g)) _ _ h) [
        | inl (a, u, d, k) ↦
            let (same, world) = returns_gives g n u w' k in
            subst (λ i. (g ≤ i) × Claimed p o i w w') same
              (
                omega arith,
                put_generation-Claimed p o g w w' (d ∙ ap (λ v. (returned tt, v, [])) world),
              )
        | inr (fault code status, u, d, k) ↦ absurd (fails_gives u w' (fault code status) k)
        | inr (race_lost, u, d, k) ↦
            let (le, (absent, stored)) = claim_generation_gives p o left (g + 1) n u w' k in
            (
              omega arith,
              (
                ap (λ s. s.m (Resource.object p o.bucket o.name n))
                      (sym (put_generation-Breaks p (at_generation o g) race_lost w u d))
                    ∙ absent,
                stored,
              ),
            )
      ]

  put_generation-Leaves :
      (j p : Bytes) (o : Object)
      → str_eq (Resource.object p o.bucket o.name o.generation) j ≡ false
      → Leaves j (put_generation codec p o)
  unfolding put_generation
  put_generation-Leaves j p o ne =
      bind-Leaves j (or_internal (codec.encode_object o)) _
        (or_internal-Leaves j (codec.encode_object o)) (λ raw. (ne, written_or-Leaves j race_lost))

  if_race-Leaves :
      {A : Type 0} (j : Bytes) (other : Program A)
      → Leaves j other
      → (f : Failure) → Leaves j (if_race codec other f)
  if_race-Leaves j other l (fault code status) = tt
  if_race-Leaves j other l race_lost = l

  pub claim_generation-Leaves :
      (j p : Bytes) (o : Object) (left g : ℕ)
      → ((n : ℕ) → str_eq (Resource.object p o.bucket o.name n) j ≡ false)
      → Leaves j (claim_generation codec p o left g)
  unfolding claim_generation
  claim_generation-Leaves j p o zero g ne = tt
  claim_generation-Leaves j p o (suc left) g ne =
      on_result-Leaves j (put_generation codec p (at_generation o g)) _ _
        (put_generation-Leaves j p (at_generation o g) (ne g))
        (if_race-Leaves j _ (claim_generation-Leaves j p o left (g + 1) ne)) (λ a. tt)
