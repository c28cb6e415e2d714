-- ===== src/Secrets/Reading.antt =====
-- The requests of services/secretmanager that read: secretmanager.go and rpc.go. Each takes the
-- store as it is; the context of a request is live.
use cloudrig.Prelude.{
  ℕ, Bool, true, false, not, Option, none, some, List, [], ◌∷◌, ◌++◌, if◌then◌else◌,
}
use cloudrig.Prelude.Int.{ℤ}
use cloudrig.Prelude.Bytes.{Bytes, codes, str_eq, str_lt, cut_last}
use cloudrig.Prelude.Decimal.{parse_int}
use cloudrig.Gerr.{invalid_argument, internal, failed_precondition}
use cloudrig.Gerr
use cloudrig.Store.{Memory, Kv, Result, Error}
use cloudrig.Store
unfoldable pub use cloudrig.Rpc.{read_page, insert_by, sort_by}
use cloudrig.Secrets.{
  Secret, State, unspecified, enabled, disabled, destroyed, Version, Stored, Reply, ok, failed,
  Codec, then_reply, or_fail, slash, parse_secret, parse_version, secret_key, version_prefix,
  version_key, latest_alias,
}

-- A read of the store: what is not found fails with NotFound, any other error with Internal.
unfoldable pub read_entry : Result (Bytes × ℕ) → Reply (Bytes × ℕ)
read_entry (Result.ok e) = ok e
read_entry (Result.err Error.not_found) = failed Gerr.not_found
read_entry (Result.err Error.version_mismatch) = failed internal
read_entry (Result.err Error.invalid_page_token) = failed internal
read_entry (Result.err Error.ctx_done) = failed internal

unfoldable pub is_enabled : State → Bool
is_enabled unspecified = false
is_enabled enabled = true
is_enabled disabled = false
is_enabled destroyed = false

-- The text behind the last slash, or all of it.
unfoldable pub behind_slash : Bytes → Bytes
behind_slash s = elim (cut_last slash s) [ none ↦ s | some (a, b) ↦ b ]

-- versionNumber
unfoldable pub version_number : Bytes → Reply ℤ
version_number name = or_fail internal (parse_int (behind_slash name))

module _ {V : Type 0} (codec : Codec V) where
  unfoldable pub get_secret : Bytes → Memory → Reply (Secret V)
  get_secret name s =
      then_reply (read_entry (Store.get none (secret_key name) s))
        (λ e. or_fail internal (codec.decode_secret e.0))

  -- GetSecret
  unfoldable pub get_secret_request : Bytes → Memory → Reply (Secret V)
  get_secret_request name s = then_reply (parse_secret name) (λ _. get_secret name s)

  unfoldable pub decode_secrets : List Kv → Reply (List (Secret V))
  decode_secrets [] = ok []
  decode_secrets (e ∷ es) =
      then_reply (or_fail internal (codec.decode_secret e.val))
        (λ x. then_reply (decode_secrets es) (λ xs. ok (x ∷ xs)))

  unfoldable pub list_secrets : Bytes → Memory → Reply (List (Secret V))
  list_secrets parent s =
      then_reply
        (read_page (Store.list none (codes "sm/s/" ++ (parent ++ codes "/secrets/")) 0 [] s))
        (λ es.
          then_reply (decode_secrets es)
            (λ xs. ok (sort_by (λ (x y : Secret V). str_lt x.name y.name) xs)))

  unfoldable pub decode_versions : List Kv → Reply (List Version)
  decode_versions [] = ok []
  decode_versions (e ∷ es) =
      then_reply (or_fail internal (codec.decode_version e.val))
        (λ x. then_reply (decode_versions es) (λ xs. ok (x.version ∷ xs)))

  -- Oldest first.
  unfoldable pub versions : Bytes → Memory → Reply (List Version)
  versions secret s =
      then_reply (read_page (Store.list none (version_prefix secret) 0 [] s))
        (λ es. decode_versions es)

  abbrev pub enabled_only : Option Stored → Option Stored
  enabled_only none = none
  enabled_only (some v) = if is_enabled v.version.state then some v else none

  -- The loop of `latest`, which goes from the last entry back.
  unfoldable pub newest_enabled : List Kv → Option Stored
  newest_enabled [] = none
  newest_enabled (e ∷ es) = elim (newest_enabled es) [
    | some v ↦ some v
    | none ↦ enabled_only (codec.decode_version e.val)
  ]

  unfoldable pub latest : Bytes → Memory → Reply Stored
  latest secret s =
      then_reply (read_page (Store.list none (version_prefix secret) 0 [] s))
        (λ es. or_fail Gerr.not_found (newest_enabled es))

  unfoldable pub resolve : Bytes → Bytes → Memory → Reply Stored
  resolve secret version s =
      if str_eq version latest_alias
      then latest secret s
      else then_reply (or_fail invalid_argument (parse_int version)) (λ n.
        then_reply (read_entry (Store.get none (version_key secret n) s))
          (λ e. or_fail internal (codec.decode_version e.0)))

  -- AccessSecretVersion: the name and the value.
  unfoldable pub access_secret_version : Bytes → Memory → Reply (Bytes × Bytes)
  access_secret_version name s = then_reply (parse_version name) (λ p.
      then_reply (resolve p.0 p.1 s) (λ v.
        if not (is_enabled v.version.state)
        then failed failed_precondition
        else ok (v.version.name, v.payload)))

  unfoldable pub get_secret_version : Bytes → Memory → Reply Version
  get_secret_version name s =
      then_reply (parse_version name) (λ p. then_reply (resolve p.0 p.1 s) (λ v. ok v.version))

  unfoldable pub list_secret_versions : Bytes → Memory → Reply (List Version)
  list_secret_versions parent s = then_reply (get_secret parent s) (λ _.
      then_reply (versions parent s)
        (λ vs. ok (sort_by (λ (x y : Version). str_lt y.name x.name) vs)))
