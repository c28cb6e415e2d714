-- ===== src/Storage/Resolving.antt =====
-- resolveLive of services/storage/object.go, and the deletion of a pointer, for a request that runs
-- alone.
use cloudrig.Prelude.{
  ℕ, zero, suc, ◌≡◌, refl, sym, ap, ◌∙◌, subst, arith, Option, none, some, Option-cases, true,
  false, [], inl, inr, ◌⊎◌, ◌==◌, if◌then◌else◌,
}
use cloudrig.Prelude.Bytes.{Bytes, str_eq}
use cloudrig.Resource
use cloudrig.Resource.{bucket_key}
use cloudrig.Store.{
  Result, ok, err, Entry, not_found, version_mismatch, invalid_page_token, ctx_done,
}
use cloudrig.Store
use cloudrig.Store.Cas.{delete_outcome}
use cloudrig.Storage.{Codec, Object, precondition_error, contention, Live}
use cloudrig.Storage.Program.{
  Program, returns, fails, deletes, World, returned, run, on_result, ◌>>=◌,
}
use cloudrig.Storage.Buckets.{mismatch_error}
use cloudrig.Storage.Publishing.{if_missing, is_missing, read_live, read_generation}
use cloudrig.Storage.Objects.{resolve_live, pointer_deleted}
use cloudrig.Storage.Runs.{Gives, fails_gives, bind_gives, on_result-Ends}
use cloudrig.Storage.Steps.{returns_gives}
use cloudrig.Storage.Inverting.{Decodes, read_live_gives, read_generation_gives}
use cloudrig.Storage.Moving.{not_zero}
use cloudrig.Storage.Losing.{read_generation-Reads}
use cloudrig.Storage.Reads.{run-Reads}
use cloudrig.Storage.Filing.{at_world}

none_found : {o : Object} → ◌≡◌ {A = Option Object} none (some o) → ⊥
none_found h = cc

some_found : {o o' : Object} → ◌≡◌ {A = Option Object} (some o) (some o') → o ≡ o'
some_found h = cc

-- The pointer was there at the version given, and is gone; nothing else has changed.
abbrev pub Unlinked : Bytes → World → World → Type 0
Unlinked k w w' = (j : Bytes) → w'.kv.m j ≡ (if str_eq k j then none else w.kv.m j)

delete_absent :
    (k : Bytes) (n : ℕ) (s : Store.Memory)
    → s.m k ≡ none
    → Store.delete none k n s ≡ (err not_found, s)
unfolding Store.delete
delete_absent k n s h = ground arith

delete_cases :
    (k : Bytes) (n : ℕ) (s : Store.Memory)
    → (((Store.delete none k n s).0 ≡ ok tt)
        × ((j : Bytes) → (Store.delete none k n s).1.m j ≡ (if str_eq k j then none else s.m j)))
      ⊎ ((e : Store.Error) × ((Store.delete none k n s).0 ≡ err e))
delete_cases k n s = elim (Option-cases (s.m k)) [
  | inl e ↦ inr (not_found, ap (λ r. r.0) (delete_absent k n s e))
  | inr (e, there) ↦ elim (delete_outcome k n s e there) [
    | inl (_, r, m) ↦ inl (r, m)
    | inr (_, _, r) ↦ inr (version_mismatch, ap (λ r. r.0) r)
  ]
]

pub delete_gives :
    {A : Type 0} (a : A) (k : Bytes) (n : ℕ) (c : Program A) (w w' : World)
    → Gives (deletes k n (λ r. pointer_deleted r >>= λ _. c)) w a w'
    → (u : World) × Unlinked k w u × Gives c u a w'
unfolding run on_result
delete_gives {A} a k n c w w' g =
    let u : World = record w { kv = (Store.delete none k n w.kv).1 } in
    let after =
      λ (x : Result (Unit {0})). run (pointer_deleted x >>= λ _. c) [] u ≡ (returned a, w', []) in
    elim (delete_cases k n w.kv) [
      | inl (r, m) ↦ (u, m, subst after r g)
      | inr (e, r) ↦
          absurd (fails_gives u w' (mismatch_error precondition_error e) (subst after r g))
    ]

module _ (codec : Codec) where
  -- The pointer is there, and the generation that it names is read.
  abbrev pub Found : Bytes → Bytes → Bytes → Option Object → World → Type 0
  Found p b n e w =
      (o : Object)
      → e ≡ some o
      → (l : Live) × (v : ℕ) × (u : ℕ) × Decodes codec.decode_live (Resource.live p b n) l v w
        × Decodes codec.decode_object (Resource.object p b n l.generation) o u w

  -- One attempt reads the pointer, and then what it names or, if that is gone, the pointer again.
  resolved_by :
      (p b n : Bytes) (l : Live) (v : ℕ) (e : Option Object) (r : ℕ) (w w' : World)
      (again : Program (Option Object × ℕ))
      → Decodes codec.decode_live (Resource.live p b n) l v w
      → (Gives again w (e, r) w' → (w ≡ w') × Found p b n e w)
      → Gives
          (on_result
            (read_generation codec p b n l.generation)
            (if_missing again)
            (λ o. returns (some o, v)))
          w
          (e, r)
          w'
      → (w ≡ w') × Found p b n e w
  resolved_by p b n l v e r w w' again pointer rest g =
      let reads = read_generation codec p b n l.generation in
      elim (on_result-Ends w w' reads (if_missing again) _ g) [
        | inl (o, t, d, k) ↦
            let (s, (u, there)) = read_generation_gives codec p b n l.generation o w t d in
            let (a, s') = returns_gives (some o, v) (e, r) t w' k in
            (
              s ∙ s',
              λ o' q. (
                l,
                v,
                u,
                pointer,
                subst (λ y. Decodes codec.decode_object (Resource.object p b n l.generation) y u w)
                    (some_found (ap (λ x. x.0) a ∙ q)) there,
              ),
            )
        | inr (f, t, d, k) ↦
            let same : w ≡ t =
              sym (run-Reads reads w (read_generation-Reads codec p b n l.generation))
              ∙ ap (λ x. x.1) d in
            elim (is_missing f)
                as (λ q.
                  Gives (if q then again else fails f) t (e, r) w' → (w ≡ w') × Found p b n e w) [
                    | true ↦ λ k. rest (at_world again (e, r) w t w' same k)
                    | false ↦ λ k. absurd (fails_gives t w' f k)
                  ]
              k
      ]

  pub resolve_live_gives :
      (p b n : Bytes) (left : ℕ) (e : Option Object) (v : ℕ) (w w' : World)
      → Gives (resolve_live codec p b n left) w (e, v) w'
      → (w ≡ w') × Found p b n e w
  unfolding resolve_live
  resolve_live_gives p b n zero e v w w' h = absurd (fails_gives w w' contention h)
  resolve_live_gives p b n (suc left) e v w w' h =
      let ((l, r), u, d, k) = bind_gives w w' (read_live codec p b n) _ h in
      let (s, read) = read_live_gives codec p b n l r w u d in
      let again = resolve_live codec p b n left in
      elim (r == 0)
          as (λ t.
            r == 0 ≡ t
            → Gives
                (elim t [
                  | true ↦ returns (none, 0)
                  | false ↦
                      on_result (read_generation codec p b n l.generation) (if_missing again)
                        (λ o. returns (some o, r))
                ])
                w (e, v) w'
            → (w ≡ w') × Found p b n e w) [
              | true ↦ λ z k.
                  let (a, t) = returns_gives _ (e, v) w w' k in
                  (t, λ o q. absurd (none_found (ap (λ x. x.0) a ∙ q)))
              | false ↦ λ z k. elim read [
                | inl (absent, zero_read) ↦ absurd (not_zero r z zero_read)
                | inr pointer ↦
                    resolved_by p b n l r e v w w' again pointer
                      (resolve_live_gives p b n left e v w w') k
              ]
            ]
        refl (at_world _ (e, v) w u w' s k)
