-- ===== src/Storage/Policies.antt =====
-- services/storage/iam.go: the policies that are stored for buckets and objects.
use cloudrig.Prelude.{ℕ, suc, ◌+◌, ◌%◌, Option, List, [], ◌∷◌, ◌++◌, ◌==◌, length, if◌then◌else◌}
use cloudrig.Prelude.Bytes.{Bytes, codes}
use cloudrig.Resource.{iam}
use cloudrig.Store.{Result}
use cloudrig.Store
use cloudrig.Storage.{internal_error, precondition_error, Codec}
use cloudrig.Storage.Program.{Program, returns, fails, gets, puts, ◌>>=◌, ◌>>◌}
use cloudrig.Storage.Buckets.{or_internal, written_or, read_bucket}
use cloudrig.Storage.Publishing.{value_or_absent}

pub record Binding : Type 0 where
  pub role : Bytes
  pub members : List Bytes

pub record Policy : Type 0 where
  pub kind : Bytes
  pub resource_id : Bytes
  pub version : ℕ
  pub etag : Bytes
  pub bindings : List Binding

pub record PolicyCodec : Type 0 where
  pub encode_policy : Policy → Option Bytes
  pub decode_policy : Bytes → Option Policy

abbrev pub object_id : Bytes → Bytes
object_id [] = []
object_id (c ∷ s) = codes "/objects/" ++ (c ∷ s)

unfoldable pub empty_policy : Bytes → Bytes → Policy
empty_policy bucket object = record {
  kind = codes "storage#policy";
  resource_id = codes "projects/_/buckets/" ++ (bucket ++ object_id object);
  version = 1;
  etag = codes "CAE=";
  bindings = [];
}

unfoldable pub weight : List Binding → ℕ
weight [] = 0
weight (b ∷ bs) = suc (length b.members) + weight bs

unfoldable pub etag_for : List Binding → Bytes
etag_for bs = codes "CA" ++ (b'A' + weight bs % 26) ∷ codes "="

-- The policy as it is stored.
abbrev pub filed : Bytes → Bytes → Policy → Policy
filed bucket object p =
    let base = empty_policy bucket object in
    record {
      kind = base.kind;
      resource_id = base.resource_id;
      version = if p.version == 0 then 1 else p.version;
      etag = etag_for p.bindings;
      bindings = p.bindings;
    }

module _ (codec : Codec) (policies : PolicyCodec) where
  abbrev pub policy_read : Bytes → Bytes → Result (Bytes × ℕ) → Program Policy
  policy_read bucket object (Result.ok e) = or_internal (policies.decode_policy e.0)
  policy_read bucket object (Result.err Store.not_found) = returns (empty_policy bucket object)
  policy_read bucket object (Result.err e) = fails internal_error

  unfoldable pub get_iam_policy : Bytes → Bytes → Bytes → Program Policy
  get_iam_policy project bucket object = do
    read_bucket codec project bucket >>= λ _. returns tt
    gets (iam project bucket object) (policy_read bucket object)

  unfoldable pub set_iam_policy : Bytes → Bytes → Bytes → Policy → Program Policy
  set_iam_policy project bucket object given = do
    read_bucket codec project bucket >>= λ _. returns tt
    let p = filed bucket object given
    b ← or_internal (policies.encode_policy p)
    gets (iam project bucket object) (λ r. do
      e ← value_or_absent r
      puts (iam project bucket object) b e.1 (λ w. do written_or precondition_error w; returns p))
