-- ===== src/Storage/Attempts.antt =====
-- The parts of publish of services/storage/object.go, by whether they can end with a lost race, and
-- the moving of the pointer, for a request that runs alone.
use cloudrig.Prelude.{
  ℕ, zero, suc, ◌+◌, ◌≡◌, ap, ◌∙◌, subst, Bool, Bool-cases, Option, none, some, true, false, [],
  inl, inr, ◌==◌, ltb, length,
}
use cloudrig.Prelude.Int.{ℤ, pos, ltb_ℤ}
use cloudrig.Prelude.Bytes.{Bytes}
use cloudrig.Preconditions.{
  Preconditions, passed, precondition_failed, not_modified, check_preconditions,
}
use cloudrig.Resource
use cloudrig.Store.{
  Result, ok, err, Entry, not_found, version_mismatch, invalid_page_token, ctx_done,
}
use cloudrig.Store
use cloudrig.Store.Cas.{Meets, put_outcome}
use cloudrig.Storage.{Failure, race_lost, fault, internal_error, Codec, Object, Live}
use cloudrig.Storage.Program.{Program, returns, fails, puts, World, failed, run}
use cloudrig.Storage.Buckets.{require, or_internal, written_or, deleted_or_absent}
use cloudrig.Storage.Publishing.{
  verdict, check, versions_of, value_or_absent, try_again, cleared, counted, remove_content,
  adjust_refs, retain_blob, release_blob, put_generation, claim_generation, at_generation, if_race,
  cas_live, move_live, drop_generation, drop_existing,
}
use cloudrig.Storage.Runs.{Breaks, bind-Breaks, on_result-Ends}
use cloudrig.Storage.Steps.{or_internal_gives}
use cloudrig.Storage.Racing.{NeverLoses, run-NeverLoses, on_result-NeverLoses, bind-NeverLoses}

require-NeverLoses : (b : Bool) → NeverLoses (require b internal_error)
require-NeverLoses true = tt
require-NeverLoses false = tt

pub or_internal-NeverLoses : {A : Type 0} (o : Option A) → NeverLoses (or_internal o)
or_internal-NeverLoses none = tt
or_internal-NeverLoses (some a) = tt

value_or_absent-NeverLoses : (r : Result (Bytes × ℕ)) → NeverLoses (value_or_absent r)
value_or_absent-NeverLoses (ok e) = tt
value_or_absent-NeverLoses (err not_found) = tt
value_or_absent-NeverLoses (err version_mismatch) = tt
value_or_absent-NeverLoses (err invalid_page_token) = tt
value_or_absent-NeverLoses (err ctx_done) = tt

remove_content-NeverLoses : (sha : Bytes) → NeverLoses (remove_content sha)
unfolding remove_content
remove_content-NeverLoses sha = λ r. require-NeverLoses r

module _ (again : Program (Unit {0})) (l : NeverLoses again) where
  try_again-NeverLoses : (r : Result ℕ) → NeverLoses (try_again again r)
  try_again-NeverLoses (ok v) = tt
  try_again-NeverLoses (err not_found) = tt
  try_again-NeverLoses (err version_mismatch) = l
  try_again-NeverLoses (err invalid_page_token) = tt
  try_again-NeverLoses (err ctx_done) = tt

  cleared-NeverLoses : (sha : Bytes) (r : Result (Unit {0})) → NeverLoses (cleared sha again r)
  cleared-NeverLoses sha (ok u) = remove_content-NeverLoses sha
  cleared-NeverLoses sha (err not_found) = remove_content-NeverLoses sha
  cleared-NeverLoses sha (err version_mismatch) = l
  cleared-NeverLoses sha (err invalid_page_token) = tt
  cleared-NeverLoses sha (err ctx_done) = tt

  counted-NeverLoses :
      (sha : Bytes) (count : ℤ) (version : ℕ) → NeverLoses (counted sha again count version)
  counted-NeverLoses sha count version = elim (Bool-cases (ltb_ℤ (pos 0) count)) [
    | inl c ↦ rw c try_again-NeverLoses
    | inr c ↦ elim (Bool-cases (version == 0)) [
      | inl d ↦ rw (c, d) (remove_content-NeverLoses sha)
      | inr d ↦ rw (c, d) (cleared-NeverLoses sha)
    ]
  ]

adjust_refs-NeverLoses : (sha : Bytes) (delta : ℤ) (n : ℕ) → NeverLoses (adjust_refs sha delta n)
unfolding adjust_refs
adjust_refs-NeverLoses sha delta zero = tt
adjust_refs-NeverLoses sha delta (suc n) = λ r.
    bind-NeverLoses (value_or_absent r) _ (value_or_absent-NeverLoses r) (λ e.
      counted-NeverLoses (adjust_refs sha delta n) (adjust_refs-NeverLoses sha delta n) sha _ e.1)

pub retain_blob-NeverLoses : (sha : Bytes) → NeverLoses (retain_blob sha)
unfolding retain_blob
retain_blob-NeverLoses sha = elim (Bool-cases (ltb 0 (length sha))) [
  | inl c ↦ rw c (adjust_refs-NeverLoses sha _ 64)
  | inr c ↦ rw c tt
]

release_blob-NeverLoses : (sha : Bytes) → NeverLoses (release_blob sha)
unfolding release_blob
release_blob-NeverLoses sha = elim (Bool-cases (ltb 0 (length sha))) [
  | inl c ↦ rw c (adjust_refs-NeverLoses sha _ 64)
  | inr c ↦ rw c tt
]

deleted_or_absent-NeverLoses : (r : Result (Unit {0})) → NeverLoses (deleted_or_absent r)
deleted_or_absent-NeverLoses (ok u) = tt
deleted_or_absent-NeverLoses (err not_found) = tt
deleted_or_absent-NeverLoses (err version_mismatch) = tt
deleted_or_absent-NeverLoses (err invalid_page_token) = tt
deleted_or_absent-NeverLoses (err ctx_done) = tt

pub drop_existing-NeverLoses :
    (p : Bytes) (versioning : Bool) (e : Option Object) → NeverLoses (drop_existing p versioning e)
unfolding drop_generation
drop_existing-NeverLoses p true e = tt
drop_existing-NeverLoses p false none = tt
drop_existing-NeverLoses p false (some o) = λ r.
    bind-NeverLoses (deleted_or_absent r) _ (deleted_or_absent-NeverLoses r)
      (λ _. release_blob-NeverLoses o.blob)

pub check-NeverLoses :
    (p : Preconditions) (e : Option Object) (read : Bool) → NeverLoses (check p e read)
unfolding check
check-NeverLoses p e read =
    elim (check_preconditions p (versions_of e) read) as (λ v. NeverLoses (verdict v)) [
      | passed ↦ tt
      | precondition_failed ↦ tt
      | not_modified ↦ tt
    ]

-- A write that meets its condition is not refused.
put_met_unbroken :
    (x : Failure) (k b : Bytes) (n : ℕ) (w w' : World)
    → Meets n (w.kv.m k)
    → Breaks (puts k b n (written_or race_lost)) w x w'
    → ⊥
unfolding run
put_met_unbroken x k b n w w' met g = elim (put_outcome k b n w.kv) [
  | inl (p, r, m) ↦
      let ended =
        subst
          (λ x'.
            run (written_or race_lost x') [] (record w { kv = (Store.put none k b n w.kv).1 })
            ≡ (failed x, w', []))
          r g in
      cc
  | inr (p, r) ↦ absurd (p met)
]

pub returns-Breaks :
    {A : Type 0} (a : A) (x : Failure) (w w' : World) → Breaks (returns a) w x w' → ⊥
unfolding run
returns-Breaks a x w w' g = cc

fails-Breaks : (f x : Failure) (w w' : World) → Breaks {A = Unit {0}} (fails f) w x w' → f ≡ x
unfolding run
fails-Breaks f x w w' g = cc

module _ (codec : Codec) where
  handled :
      {A : Type 0} (other : Program A)
      → NeverLoses other
      → (f : Failure) → NeverLoses (if_race codec other f)
  handled other l (fault code status) = tt
  handled other l race_lost = l

  pub claim_generation-NeverLoses :
      (p : Bytes) (o : Object) (left g : ℕ) → NeverLoses (claim_generation codec p o left g)
  unfolding claim_generation
  claim_generation-NeverLoses p o zero g = tt
  claim_generation-NeverLoses p o (suc left) g =
      on_result-NeverLoses (put_generation codec p (at_generation o g)) _ _
        (handled (claim_generation codec p o left (g + 1))
          (claim_generation-NeverLoses p o left (g + 1)))
        (λ _. tt)

  -- At the version that was read, moving the pointer is not refused.
  cas_live_unbroken :
      (p b n : Bytes) (l : Live) (v : ℕ) (w w' : World)
      → Meets v (w.kv.m (Resource.live p b n))
      → Breaks (cas_live codec p b n l v) w race_lost w'
      → ⊥
  unfolding cas_live
  cas_live_unbroken p b n l v w w' met g =
      elim (bind-Breaks race_lost w w' (or_internal (codec.encode_live l)) _ g) [
        | inl h ↦
            run-NeverLoses (or_internal (codec.encode_live l)) w w'
              (or_internal-NeverLoses (codec.encode_live l)) h
        | inr (raw, u, d, k) ↦
            put_met_unbroken race_lost (Resource.live p b n) raw v u w'
              (subst (λ s. Meets v (s.kv.m (Resource.live p b n)))
                (or_internal_gives (codec.encode_live l) raw w u d).1 met)
              k
      ]

  pub move_live_unbroken :
      (p : Bytes) (o : Object) (v : ℕ) (w w' : World)
      → Meets v (w.kv.m (Resource.live p o.bucket o.name))
      → Breaks (move_live codec p o v) w race_lost w'
      → ⊥
  unfolding move_live
  move_live_unbroken p o v w w' met g =
      elim (on_result-Ends w w' (cas_live codec p o.bucket o.name _ v) _ returns g) [
        | inl (a, u, d, k) ↦ returns-Breaks a race_lost u w' k
        | inr (f, u, d, k) ↦
            let same : f ≡ race_lost =
              elim (on_result-Ends u w' (release_blob o.blob) (λ _. fails f) (λ _. fails f) k) [
                | inl (a, t, e, r) ↦ fails-Breaks f race_lost t w' r
                | inr (x, t, e, r) ↦ fails-Breaks f race_lost t w' r
              ] in
            cas_live_unbroken p o.bucket o.name _ v w u met (d ∙ ap (λ x. (failed x, u, [])) same)
      ]
