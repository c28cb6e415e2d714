-- ===== src/Storage/Scanning.antt =====
-- The loop of services/storage/list.go over the entries of a page: its calls and its failures.
use cloudrig.Prelude.{ℕ, Bool, Bool-cases, Option-cases, true, false, List, [], ◌∷◌, inl, inr}
use cloudrig.Prelude.Bytes.{Bytes}
use cloudrig.Resource.{object_name}
use cloudrig.Store.{Result, ok, err, not_found, version_mismatch, invalid_page_token, ctx_done, Kv}
use cloudrig.Storage.{Failure, fault, Codec}
use cloudrig.Storage.Program.{Program, returns, ◌>>=◌}
use cloudrig.Storage.Buckets.{or_internal, read_bucket, read_value}
use cloudrig.Storage.Publishing.{if_missing, is_missing, read_generation, read_generation_version}
use cloudrig.Storage.Listing.{
  ListRequest, ListResult, rollup_of, is_seen, is_full, with_rollup, with_object, object_for,
  scan_entries,
}
use cloudrig.Storage.Racing.{NeverLoses, handled-NeverLoses, bind-NeverLoses}
use cloudrig.Storage.Attempts.{or_internal-NeverLoses}
use cloudrig.Storage.Reads.{Reads, on_result-Reads, bind-Reads, or_internal-Reads}
use cloudrig.Storage.Losing.{read_generation-Reads}

if_missing-NeverLoses :
    {A : Type 0} (other : Program A) (code status : ℕ)
    → NeverLoses other
    → NeverLoses (if_missing other (fault code status))
if_missing-NeverLoses other code status l = elim (Bool-cases (is_missing (fault code status))) [
  | inl c ↦ rw c l
  | inr c ↦ rw c tt
]

either-NeverLoses :
    {A : Type 0} (t : Bool) (x y : Program A)
    → NeverLoses x
    → NeverLoses y
    → NeverLoses (elim t [ true ↦ x | false ↦ y ])
either-NeverLoses true x y l k = l
either-NeverLoses false x y l k = k

read_value-NeverLoses : (r : Result (Bytes × ℕ)) → NeverLoses (read_value r)
read_value-NeverLoses (ok e) = tt
read_value-NeverLoses (err not_found) = tt
read_value-NeverLoses (err version_mismatch) = tt
read_value-NeverLoses (err invalid_page_token) = tt
read_value-NeverLoses (err ctx_done) = tt

if_missing-Reads :
    {A : Type 0} (other : Program A) (f : Failure) → Reads other → Reads (if_missing other f)
if_missing-Reads other f l = elim (Bool-cases (is_missing f)) [ inl c ↦ rw c l | inr c ↦ rw c tt ]

either-Reads :
    {A : Type 0} (t : Bool) (x y : Program A)
    → Reads x
    → Reads y
    → Reads (elim t [ true ↦ x | false ↦ y ])
either-Reads true x y l k = l
either-Reads false x y l k = k

module _ (codec : Codec) (p : Bytes) (req : ListRequest) where
  object_for-NeverLoses :
      (name pointer : Bytes) → NeverLoses (object_for codec p req.bucket name pointer)
  unfolding object_for read_generation read_generation_version
  object_for-NeverLoses name pointer =
      bind-NeverLoses (or_internal (codec.decode_live pointer)) _
        (or_internal-NeverLoses (codec.decode_live pointer))
        (λ l.
          bind-NeverLoses (read_generation_version codec p req.bucket name l.generation) _
            (λ r. bind-NeverLoses (read_value r) _ (read_value-NeverLoses r) (λ e.
              bind-NeverLoses (or_internal (codec.decode_object e.0)) _
                (or_internal-NeverLoses (codec.decode_object e.0)) (λ o. tt)))
            (λ o. tt))

  pub read_bucket-NeverLoses : (b : Bytes) → NeverLoses (read_bucket codec p b >>= λ _. returns tt)
  unfolding read_bucket
  read_bucket-NeverLoses b =
      bind-NeverLoses (read_bucket codec p b) _
        (λ r. bind-NeverLoses (read_value r) _ (read_value-NeverLoses r) (λ e.
          bind-NeverLoses (or_internal (codec.decode_bucket e.0)) _
            (or_internal-NeverLoses (codec.decode_bucket e.0)) (λ x. tt)))
        (λ _. tt)

  pub scan_entries-NeverLoses :
      (es : List Kv) (r : ListResult) → NeverLoses (scan_entries codec p req es r)
  unfolding scan_entries
  scan_entries-NeverLoses [] r = tt
  scan_entries-NeverLoses (e ∷ es) r =
      bind-NeverLoses (or_internal (object_name p req.bucket e.key)) _
        (or_internal-NeverLoses (object_name p req.bucket e.key))
        (λ name. elim (Option-cases (rollup_of name req.prefix req.delimiter)) [
          | inl c ↦ rw c (
              handled-NeverLoses (object_for codec p req.bucket name e.val) _ _
                (object_for-NeverLoses name e.val)
                (λ code status.
                  if_missing-NeverLoses (scan_entries codec p req es r) code status
                    (scan_entries-NeverLoses es r))
                (λ o.
                  either-NeverLoses (is_full req (with_object o r)) _ _ tt
                    (scan_entries-NeverLoses es (with_object o r))))
          | inr (q, c) ↦ rw c (
              either-NeverLoses (is_seen q r.prefixes) _ _ (scan_entries-NeverLoses es r) (
                either-NeverLoses (is_full req (with_rollup q r)) _ _ tt
                  (scan_entries-NeverLoses es (with_rollup q r))))
        ])

  pub scan_entries-Reads : (es : List Kv) (r : ListResult) → Reads (scan_entries codec p req es r)
  unfolding scan_entries object_for
  scan_entries-Reads [] r = tt
  scan_entries-Reads (e ∷ es) r =
      bind-Reads (or_internal (object_name p req.bucket e.key)) _
        (or_internal-Reads (object_name p req.bucket e.key))
        (λ name. elim (Option-cases (rollup_of name req.prefix req.delimiter)) [
          | inl c ↦ rw c (
              on_result-Reads (object_for codec p req.bucket name e.val) _ _
                (bind-Reads (or_internal (codec.decode_live e.val)) _
                  (or_internal-Reads (codec.decode_live e.val))
                  (λ l. read_generation-Reads codec p req.bucket name l.generation))
                (λ f. if_missing-Reads (scan_entries codec p req es r) f (scan_entries-Reads es r))
                (λ o.
                  either-Reads (is_full req (with_object o r)) _ _ tt
                    (scan_entries-Reads es (with_object o r))))
          | inr (q, c) ↦ rw c (
              either-Reads (is_seen q r.prefixes) _ _ (scan_entries-Reads es r) (
                either-Reads (is_full req (with_rollup q r)) _ _ tt
                  (scan_entries-Reads es (with_rollup q r))))
        ])
