-- ===== src/Storage/Listing.antt =====
-- services/storage/list.go: a page of a bucket's live objects. The loop over the store's pages
-- takes fuel, one for each page.
mod Tests
pub mod Ending
use cloudrig.Prelude.{
  ℕ, zero, suc, ◌+◌, Bool, true, false, ◌||◌, Option, none, some, List, [], ◌∷◌, ◌++◌, ◌==◌, leb,
  length, if◌then◌else◌,
}
use cloudrig.Prelude.Bytes.{Bytes, str_eq, str_lt, cut, cut_prefix}
use cloudrig.Resource.{live_prefix, object_name}
use cloudrig.Rpc.{sort_by}
use cloudrig.Store.{Kv, Result, encode_token}
use cloudrig.Storage.{race_lost, bad_request, Object, Codec}
use cloudrig.Storage.Program.{Program, returns, fails, lists, on_result, ◌>>=◌, ◌>>◌}
use cloudrig.Storage.Buckets.{or_internal, read_bucket}
use cloudrig.Storage.Publishing.{if_missing, read_generation}

pub record ListRequest : Type 0 where
  pub bucket : Bytes
  pub prefix : Bytes
  pub delimiter : Bytes
  pub max_results : ℕ
  pub page_token : Bytes

pub record ListResult : Type 0 where
  pub objects : List Object
  pub prefixes : List Bytes
  pub next_page_token : Bytes

abbrev pub trim_prefix : Bytes → Bytes → Bytes
trim_prefix prefix name = elim (cut_prefix prefix name) [ none ↦ name | some rest ↦ rest ]

-- The prefix that a name collapses into, if any.
unfoldable pub rollup_of : Bytes → Bytes → Bytes → Option Bytes
rollup_of name prefix [] = none
rollup_of name prefix (d ∷ ds) = elim (cut (d ∷ ds) (trim_prefix prefix name)) [
  | none ↦ none
  | some (before, after) ↦ some (prefix ++ (before ++ d ∷ ds))
]

unfoldable pub is_seen : Bytes → List Bytes → Bool
is_seen p [] = false
is_seen p (q ∷ qs) = let rest = is_seen p qs in str_eq p q || rest

abbrev pub with_rollup : Bytes → ListResult → ListResult
with_rollup p r = record r { prefixes = r.prefixes ++ p ∷ [] }

abbrev pub with_object : Object → ListResult → ListResult
with_object o r = record r { objects = r.objects ++ o ∷ [] }

-- The result so far, which has reached the limit at a key or goes on.
pub data Scan : Type 0 where
  goes_on stops : ListResult → Scan

abbrev pub limit_of : ListRequest → ℕ
limit_of req = if req.max_results == 0 then 1000 else req.max_results

abbrev pub is_full : ListRequest → ListResult → Bool
is_full req r = leb (limit_of req) (length r.objects + length r.prefixes)

abbrev pub with_token : Bytes → ListResult → ListResult
with_token key r = record r { next_page_token = encode_token key }

abbrev pub sorted_prefixes : ListResult → ListResult
sorted_prefixes r = record r { prefixes = sort_by str_lt r.prefixes }

abbrev pub page_or_bad : Result (List Kv × Bytes) → Program (List Kv × Bytes)
page_or_bad (Result.ok page) = returns page
page_or_bad (Result.err e) = fails bad_request

module _ (codec : Codec) where
  unfoldable pub object_for : Bytes → Bytes → Bytes → Bytes → Program Object
  object_for project bucket name pointer = do
    l ← or_internal (codec.decode_live pointer)
    read_generation codec project bucket name l.generation

  -- The loop over the entries of a page of the store.
  unfoldable pub scan_entries : Bytes → ListRequest → List Kv → ListResult → Program Scan
  scan_entries project req [] r = returns (goes_on r)
  scan_entries project req (e ∷ es) r = do
    name ← or_internal (object_name project req.bucket e.key)
    elim (rollup_of name req.prefix req.delimiter) [
      | some p ↦ elim (is_seen p r.prefixes) [
        | true ↦ scan_entries project req es r
        | false ↦ elim (is_full req (with_rollup p r)) [
          | true ↦ returns (stops (with_token e.key (with_rollup p r)))
          | false ↦ scan_entries project req es (with_rollup p r)
        ]
      ]
      | none ↦
          on_result (object_for project req.bucket name e.val)
            (if_missing (scan_entries project req es r))
            (λ o. elim (is_full req (with_object o r)) [
              | true ↦ returns (stops (with_token e.key (with_object o r)))
              | false ↦ scan_entries project req es (with_object o r)
            ])
    ]

  -- The loop over the pages of the store; race_lost, which nothing else in it gives, where the fuel is
  -- over.
  unfoldable pub scan_pages : Bytes → ListRequest → ℕ → Bytes → ListResult → Program ListResult
  scan_pages project req zero token r = fails race_lost
  scan_pages project req (suc fuel) token r =
      lists (live_prefix project req.bucket ++ req.prefix) 512 token (λ l. do
        page ← page_or_bad l
        scan ← scan_entries project req page.0 r
        elim scan [
          | stops r' ↦ returns (sorted_prefixes r')
          | goes_on r' ↦
              if length page.1 == 0
              then returns (sorted_prefixes r')
              else scan_pages project req fuel page.1 r'
        ])

  unfoldable pub list_objects : ℕ → Bytes → ListRequest → Program ListResult
  list_objects fuel project req = do
    read_bucket codec project req.bucket >>= λ _. returns tt
    scan_pages project req fuel req.page_token
        (record { objects = []; prefixes = []; next_page_token = [] })
