-- ===== src/Storage/Listing/Ending.antt =====
-- The loop of ListObjects of services/storage/list.go over the pages of the store, for a request that
-- runs alone.
use cloudrig.Prelude.{
  ℕ, zero, suc, ◌<◌, ◌≡◌, refl, sym, ap, ◌∙◌, subst, arith, Option, Option-cases, none, some, false,
  List, [], ◌∷◌, ◌++◌, All, inl, inr, ◌==◌, length, if◌then◌else◌,
}
use cloudrig.Prelude.Bytes.{Bytes}
use cloudrig.Resource.{live_prefix}
use cloudrig.Store.{Memory, Result, ok, err, Kv, list}
use cloudrig.Store.Listing.{under}
use cloudrig.Store.Invariant.{IsValid}
use cloudrig.Store.Paging.{collect, collect-under, follow, IsNamed}
use cloudrig.Storage.{race_lost, Codec}
use cloudrig.Storage.Program.{Program, returns, World, run, on_result, ◌>>=◌}
use cloudrig.Storage.Buckets.{read_bucket}
use cloudrig.Storage.Listing.{
  ListRequest, ListResult, Scan, goes_on, stops, sorted_prefixes, page_or_bad, scan_entries,
  scan_pages, list_objects,
}
use cloudrig.Storage.Runs.{Breaks, bind-Breaks}
use cloudrig.Storage.Racing.{run-NeverLoses}
use cloudrig.Storage.Attempts.{returns-Breaks}
use cloudrig.Storage.Reads.{bind-Reads}
use cloudrig.Storage.ReadingBack.{read_bucket-Reads}
use cloudrig.Storage.Lookup.{run_unchanged}
use cloudrig.Storage.Scanning.{read_bucket-NeverLoses, scan_entries-NeverLoses, scan_entries-Reads}

suc_not_zero : (n : ℕ) → suc n == 0 ≡ false
suc_not_zero n = ground arith

none_differs : {xs : List Kv} → ◌≡◌ {A = Option (List Kv)} none (some xs) → ⊥
none_differs h = cc

module _ (codec : Codec) (p : Bytes) (req : ListRequest) where
  -- The rest of the loop ends, if its pages can be collected with the fuel that is left.
  abbrev Ending : ℕ → Memory → Type 0
  Ending fuel s =
      (token : Bytes) (r : ListResult) (xs : List Kv) (w w' : World)
      → w.kv ≡ s
      → collect fuel (live_prefix p req.bucket ++ req.prefix) 512 token s ≡ some xs
      → Breaks (scan_pages codec p req fuel token r) w race_lost w'
      → ⊥

  abbrev next_pages : ℕ → Bytes → Scan → Program ListResult
  next_pages fuel token (stops r) = returns (sorted_prefixes r)
  next_pages fuel token (goes_on r) =
      if length token == 0 then returns (sorted_prefixes r) else scan_pages codec p req fuel token r

  next_pages_end :
      (fuel : ℕ) (token : Bytes) (scan : Scan) (es xs : List Kv) (w w' : World)
      → Ending fuel w.kv
      → follow
          (ok (es, token))
          (λ t. collect fuel (live_prefix p req.bucket ++ req.prefix) 512 t w.kv)
        ≡ some xs
      → Breaks (next_pages fuel token scan) w race_lost w'
      → ⊥
  next_pages_end fuel token (stops r) es xs w w' rest f h =
      returns-Breaks (sorted_prefixes r) race_lost w w' h
  next_pages_end fuel [] (goes_on r) es xs w w' rest f h =
      returns-Breaks (sorted_prefixes r) race_lost w w' h
  next_pages_end fuel (c ∷ cs) (goes_on r) es xs w w' rest f h =
      elim (Option-cases
        (collect fuel (live_prefix p req.bucket ++ req.prefix) 512 (c ∷ cs) w.kv)) [
          | inl e ↦ none_differs (
              subst
                (λ (o : Option (List Kv)).
                  elim o [ none ↦ none | some ys ↦ some (es ++ ys) ] ≡ some xs)
                e f)
          | inr (ys, e) ↦ rest (c ∷ cs) r ys w w' refl e (
              subst
                (λ t.
                  Breaks
                    (if t
                      then returns (sorted_prefixes r)
                      else scan_pages codec p req fuel (c ∷ cs) r)
                    w race_lost w')
                (suc_not_zero (length cs)) h)
        ]

  after_page :
      (fuel : ℕ) (page : Result (List Kv × Bytes)) (r : ListResult) (xs : List Kv) (w w' : World)
      → Ending fuel w.kv
      → follow page (λ t. collect fuel (live_prefix p req.bucket ++ req.prefix) 512 t w.kv)
        ≡ some xs
      → Breaks
          (page_or_bad page >>= λ pg. scan_entries codec p req pg.0 r >>= next_pages fuel pg.1)
          w
          race_lost
          w'
      → ⊥
  unfolding on_result
  after_page fuel (err e) r xs w w' rest f h = none_differs f
  after_page fuel (ok (es, token)) r xs w w' rest f h =
      let entries = scan_entries codec p req es r in
      elim (bind-Breaks race_lost w w' entries (next_pages fuel token) h) [
        | inl b ↦ run-NeverLoses entries w w' (scan_entries-NeverLoses codec p req es r) b
        | inr (scan, u, d, k) ↦
            let same : w ≡ u =
              run_unchanged entries scan w u (scan_entries-Reads codec p req es r) d in
            next_pages_end fuel token scan es xs w w' rest f
              (subst (λ v. Breaks (next_pages fuel token scan) v race_lost w') (sym same) k)
      ]

  scan_pages_end : (fuel : ℕ) (s : Memory) → Ending fuel s
  unfolding scan_pages run collect
  scan_pages_end zero s token r xs w w' same f h = none_differs f
  scan_pages_end (suc fuel) s token r xs w w' same f h =
      after_page fuel (list none (live_prefix p req.bucket ++ req.prefix) 512 token w.kv) r xs w w'
        (scan_pages_end fuel w.kv)
        (subst
          (λ m.
            follow (list none (live_prefix p req.bucket ++ req.prefix) 512 token m)
              (λ t. collect fuel (live_prefix p req.bucket ++ req.prefix) 512 t m)
            ≡ some xs)
          (sym same) f)
        h

  -- A listing from the start, by a request that runs alone in a valid store without an empty key, does
  -- not use up its fuel, if that is more than the entries under the prefix.
  pub list_objects_total :
      (fuel : ℕ) (w w' : World)
      → IsValid w.kv
      → All IsNamed w.kv.keys
      → req.page_token ≡ []
      → length (under (live_prefix p req.bucket ++ req.prefix) w.kv) < fuel
      → ¬ Breaks (list_objects codec fuel p req) w race_lost w'
  unfolding list_objects
  list_objects_total fuel w w' valid named first enough h =
      elim (bind-Breaks race_lost w w' (read_bucket codec p req.bucket >>= λ _. returns tt) _ h) [
        | inl b ↦
            run-NeverLoses (read_bucket codec p req.bucket >>= λ _. returns tt) w w'
              (read_bucket-NeverLoses codec p req req.bucket) b
        | inr (_, u, d, k) ↦
            let same : w ≡ u =
              run_unchanged (read_bucket codec p req.bucket >>= λ _. returns tt) tt w u
                (bind-Reads (read_bucket codec p req.bucket) _
                  (read_bucket-Reads codec p req.bucket) (λ _. tt))
                d in
            scan_pages_end fuel w.kv req.page_token
              (record { objects = []; prefixes = []; next_page_token = [] })
              (under (live_prefix p req.bucket ++ req.prefix) w.kv) u w' (ap (λ x. x.kv) (sym same))
              (ap (λ t. collect fuel (live_prefix p req.bucket ++ req.prefix) 512 t w.kv) first
                ∙ collect-under fuel (live_prefix p req.bucket ++ req.prefix) 511 w.kv valid named
                    enough)
              k
      ]
