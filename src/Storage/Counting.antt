-- ===== src/Storage/Counting.antt =====
-- The keys that the programs of services/storage/blobref.go write.
use cloudrig.Prelude.{ℕ, zero, suc, ◌≡◌, Bool, Bool-cases, true, false, inl, inr, ltb, length, ◌==◌}
use cloudrig.Prelude.Int.{ℤ, pos, ltb_ℤ}
use cloudrig.Prelude.Bytes.{Bytes, str_eq}
use cloudrig.Resource.{blob_refs}
use cloudrig.Store.{Result, ok, err, not_found, version_mismatch, invalid_page_token, ctx_done}
use cloudrig.Storage.{Failure}
use cloudrig.Storage.Program.{Program, fails, ◌>>=◌}
use cloudrig.Storage.Buckets.{require}
use cloudrig.Storage.Publishing.{
  value_or_absent, try_again, cleared, counted, remove_content, adjust_refs, retain_blob,
  release_blob,
}
use cloudrig.Storage.Runs.{Leaves, on_result-Leaves}

require-Leaves : (j : Bytes) (b : Bool) (f : Failure) → Leaves j (require b f)
require-Leaves j true f = tt
require-Leaves j false f = tt

pub bind-Leaves :
    {A B : Type 0} (j : Bytes) (m : Program A) (f : A → Program B)
    → Leaves j m
    → ((a : A) → Leaves j (f a))
    → Leaves j (m >>= f)
bind-Leaves j m f l lf = on_result-Leaves j m fails f l (λ x. tt) lf

value_or_absent-Leaves : (j : Bytes) (r : Result (Bytes × ℕ)) → Leaves j (value_or_absent r)
value_or_absent-Leaves j (ok e) = tt
value_or_absent-Leaves j (err not_found) = tt
value_or_absent-Leaves j (err version_mismatch) = tt
value_or_absent-Leaves j (err invalid_page_token) = tt
value_or_absent-Leaves j (err ctx_done) = tt

remove_content-Leaves : (j sha : Bytes) → Leaves j (remove_content sha)
unfolding remove_content
remove_content-Leaves j sha = λ r. require-Leaves j r _

module _ (j : Bytes) (again : Program (Unit {0})) (l : Leaves j again) where
  try_again-Leaves : (r : Result ℕ) → Leaves j (try_again again r)
  try_again-Leaves (ok v) = tt
  try_again-Leaves (err not_found) = tt
  try_again-Leaves (err version_mismatch) = l
  try_again-Leaves (err invalid_page_token) = tt
  try_again-Leaves (err ctx_done) = tt

  cleared-Leaves : (sha : Bytes) (r : Result (Unit {0})) → Leaves j (cleared sha again r)
  cleared-Leaves sha (ok u) = remove_content-Leaves j sha
  cleared-Leaves sha (err not_found) = remove_content-Leaves j sha
  cleared-Leaves sha (err version_mismatch) = l
  cleared-Leaves sha (err invalid_page_token) = tt
  cleared-Leaves sha (err ctx_done) = tt

  counted-Leaves :
      (sha : Bytes) (count : ℤ) (version : ℕ)
      → str_eq (blob_refs sha) j ≡ false
      → Leaves j (counted sha again count version)
  counted-Leaves sha count version ne = elim (Bool-cases (ltb_ℤ (pos 0) count)) [
    | inl c ↦ rw c (ne, try_again-Leaves)
    | inr c ↦ elim (Bool-cases (version == 0)) [
      | inl d ↦ rw (c, d) (remove_content-Leaves j sha)
      | inr d ↦ rw (c, d) (ne, cleared-Leaves sha)
    ]
  ]

adjust_refs-Leaves :
    (j sha : Bytes) (delta : ℤ) (n : ℕ)
    → str_eq (blob_refs sha) j ≡ false
    → Leaves j (adjust_refs sha delta n)
unfolding adjust_refs
adjust_refs-Leaves j sha delta zero ne = tt
adjust_refs-Leaves j sha delta (suc n) ne = λ r.
    bind-Leaves j (value_or_absent r) _ (value_or_absent-Leaves j r) (λ e.
      counted-Leaves j (adjust_refs sha delta n) (adjust_refs-Leaves j sha delta n ne) sha _ e.1 ne)

-- Neither taking nor giving up a reference writes another key than the count's.
pub retain_blob-Leaves :
    (j sha : Bytes) → str_eq (blob_refs sha) j ≡ false → Leaves j (retain_blob sha)
unfolding retain_blob
retain_blob-Leaves j sha ne = elim (Bool-cases (ltb 0 (length sha))) [
  | inl c ↦ rw c (adjust_refs-Leaves j sha _ 64 ne)
  | inr c ↦ rw c tt
]

pub release_blob-Leaves :
    (j sha : Bytes) → str_eq (blob_refs sha) j ≡ false → Leaves j (release_blob sha)
unfolding release_blob
release_blob-Leaves j sha ne = elim (Bool-cases (ltb 0 (length sha))) [
  | inl c ↦ rw c (adjust_refs-Leaves j sha _ 64 ne)
  | inr c ↦ rw c tt
]
