-- ===== src/Storage/Keys.antt =====
-- The keys of services/storage that differ: those of an object's pointer, of its generations and of
-- the counts of references.
use cloudrig.Prelude.{ℕ, ◌≡◌, ◌∙◌, refl, false, [], ◌∷◌, ◌++◌, arith}
use cloudrig.Prelude.Bytes.{Bytes, codes, str_eq}
use cloudrig.Resource.{bucket_below, live, object, blob_refs}

str_eq-append_self : (p s t : Bytes) → str_eq (p ++ s) (p ++ t) ≡ str_eq s t
unfolding str_eq
str_eq-append_self [] s t = refl
str_eq-append_self (c ∷ p) s t = ground (arith, str_eq-append_self p s t)

str_eq-bucket_below :
    (p b s t : Bytes) → str_eq (bucket_below p b s) (bucket_below p b t) ≡ str_eq s t
unfolding bucket_below
str_eq-bucket_below p b s t =
    str_eq-append_self (codes "p/") _ _
    ∙ str_eq-append_self p _ _
    ∙ str_eq-append_self (codes "/b/") _ _
    ∙ str_eq-append_self b s t

pub str_eq-object-live : (p b n m : Bytes) (g : ℕ) → str_eq (object p b n g) (live p b m) ≡ false
unfolding object live str_eq
str_eq-object-live p b n m g = str_eq-bucket_below p b _ _

pub str_eq-live-object : (p b n m : Bytes) (g : ℕ) → str_eq (live p b m) (object p b n g) ≡ false
unfolding object live str_eq
str_eq-live-object p b n m g = str_eq-bucket_below p b _ _

pub str_eq-blob_refs-live : (sha p b n : Bytes) → str_eq (blob_refs sha) (live p b n) ≡ false
unfolding blob_refs live bucket_below str_eq
str_eq-blob_refs-live sha p b n = refl

pub str_eq-blob_refs-object :
    (sha p b n : Bytes) (g : ℕ) → str_eq (blob_refs sha) (object p b n g) ≡ false
unfolding blob_refs object bucket_below str_eq
str_eq-blob_refs-object sha p b n g = refl
