-- ===== src/Storage/Steps.antt =====
-- What the single steps of the programs of services/storage say when they go through.
use cloudrig.Prelude.{
  ℕ, ◌≡◌, refl, sym, ap, ◌∙◌, subst, Bool, Option, Option-cases, none, some, true, false, [], inl,
  inr, ◌⊎◌, if◌then◌else◌,
}
use cloudrig.Prelude.Bytes.{Bytes, str_eq}
use cloudrig.Store.{
  Result, ok, err, Entry, Memory, next_version, version_of, found, not_found, version_mismatch,
}
use cloudrig.Store
use cloudrig.Store.Cas.{Meets, put_outcome}
use cloudrig.Storage.{Failure}
use cloudrig.Storage.Program.{Program, returns, gets, puts, World, returned, failed, run}
use cloudrig.Storage.Buckets.{or_internal, written_or, require}
use cloudrig.Storage.Runs.{Gives, Breaks, fails_gives}

pub returns_gives :
    {A : Type 0} (a b : A) (w w' : World) → Gives (returns a) w b w' → (a ≡ b) × (w ≡ w')
unfolding run
returns_gives a b w w' g = (cc, cc)

pub or_internal_gives :
    {A : Type 0} (o : Option A) (a : A) (w w' : World)
    → Gives (or_internal o) w a w'
    → (o ≡ some a) × (w ≡ w')
or_internal_gives none a w w' g = absurd (fails_gives w w' _ g)
or_internal_gives (some b) a w w' g = let (e, s) = returns_gives b a w w' g in (ap some e, s)

pub require_gives :
    (ok : Bool) (f : Failure) (w w' : World) → Gives (require ok f) w tt w' → (ok ≡ true) × (w ≡ w')
require_gives true f w w' g = (refl, (returns_gives tt tt w w' g).1)
require_gives false f w w' g = absurd (fails_gives w w' f g)

-- A read finds the entry or nothing.
pub gets_gives :
    {A : Type 0} (a : A) (k : Bytes) (c : Result (Bytes × ℕ) → Program A) (w w' : World)
    → Gives (gets k c) w a w'
    → ((w.kv.m k ≡ none) × Gives (c (err not_found)) w a w')
      ⊎ ((e : Entry) × (w.kv.m k ≡ some e) × Gives (c (ok (e.val, e.version))) w a w')
unfolding run Store.get found
gets_gives a k c w w' g = elim (Option-cases (w.kv.m k)) [
  | inl e ↦ inl (e, subst (λ x. run (c (found x)) [] w ≡ (returned a, w', [])) e g)
  | inr (x, e) ↦ inr (x, e, subst (λ x. run (c (found x)) [] w ≡ (returned a, w', [])) e g)
]

-- The entry that a write leaves, at a version above the one that was there.
abbrev pub Written : Bytes → Bytes → ℕ → World → World → Type 0
Written k b n w w' =
    Meets n (w.kv.m k)
    × ((j : Bytes)
        → w'.kv.m j ≡ (
            if str_eq k j
            then some (record { val = b; version = next_version (w.kv.m k) })
            else w.kv.m j))

-- A write that may fail, with a failure of its own for a version that is not the one given.
pub put_gives :
    (f : Failure) (k b : Bytes) (n : ℕ) (w w' : World)
    → Gives (puts k b n (written_or f)) w tt w'
    → Written k b n w w'
unfolding run
put_gives f k b n w w' g = elim (put_outcome k b n w.kv) [
  | inl (p, r, m) ↦
      let gone : Gives (returns tt) (record w { kv = (Store.put none k b n w.kv).1 }) tt w' =
        subst
          (λ x.
            run (written_or f x) [] (record w { kv = (Store.put none k b n w.kv).1 })
            ≡ (returned tt, w', []))
          r g in
      (p, λ j. ap (λ u. u.kv.m j) (sym (returns_gives tt tt _ w' gone).1) ∙ m j)
  | inr (p, r) ↦ absurd (
      fails_gives (record w { kv = (Store.put none k b n w.kv).1 }) w' f
        (subst
          (λ x.
            run (written_or f x) [] (record w { kv = (Store.put none k b n w.kv).1 })
            ≡ (returned tt, w', []))
          (ap (λ x. x.0) r) g))
]

-- A write that fails leaves the store as it was.
pub put-Breaks :
    (f x : Failure) (k b : Bytes) (n : ℕ) (w w' : World)
    → Breaks (puts k b n (written_or f)) w x w'
    → w'.kv ≡ w.kv
unfolding run
put-Breaks f x k b n w w' g = elim (put_outcome k b n w.kv) [
  | inl (p, r, m) ↦
      let ended =
        subst
          (λ x'.
            run (written_or f x') [] (record w { kv = (Store.put none k b n w.kv).1 })
            ≡ (failed x, w', []))
          r g in
      cc
  | inr (p, r) ↦
      let ended =
        subst
          (λ x'.
            run (written_or f x') [] (record w { kv = (Store.put none k b n w.kv).1 })
            ≡ (failed x, w', []))
          (ap (λ x. x.0) r) g in
      let world : record w { kv = (Store.put none k b n w.kv).1 } ≡ w' = cc in
      ap (λ u. u.kv) (sym world) ∙ ap (λ x. x.1) r
]
