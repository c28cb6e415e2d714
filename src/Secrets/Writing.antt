-- ===== src/Secrets/Writing.antt =====
-- The requests of services/secretmanager that write: rpc.go, state.go and update.go. Each holds the
-- service's lock for its whole run, or reads and writes one entry at the version that it has read,
-- so each is one step on the store. The time of a request is an argument.
use cloudrig.Prelude.{
  ℕ, suc, ◌-◌, ◌^◌, Bool, true, false, not, ◌||◌, Option, none, some, List, [], ◌∷◌, ◌++◌, ◌==◌,
  if◌then◌else◌,
}
use cloudrig.Prelude.Int.{ℤ, pos, negsuc, ◌+ℤ◌, eqb_ℤ}
use cloudrig.Prelude.Bytes.{Bytes, codes, str_eq, cut_prefix}
use cloudrig.Prelude.Decimal.{format_int, parse_int}
use cloudrig.Gerr.{invalid_argument, internal, failed_precondition, already_exists, aborted}
use cloudrig.Gerr
use cloudrig.Store.{Memory, Kv, Result, Error, last_key}
use cloudrig.Store
use cloudrig.Secrets.{
  Secret, State, unspecified, enabled, disabled, destroyed, Version, Stored, Reply, ok, failed,
  Codec, then_reply, or_fail, slash, is_empty, parse_secret, parse_version, secret_key,
  version_prefix, version_key,
}
use cloudrig.Secrets.Reading.{read_page, behind_slash, version_number, get_secret, resolve}

-- A request that writes: what it answers and the store that it leaves.
abbrev pub Step : Type 0 → Type 0
Step A = Reply A × Memory

abbrev pub after {ℓ} : {A : Type ℓ} {B : Type 0} → Memory → Reply A → (A → Step B) → Step B
after s (ok a) f = f a
after s (failed c) f = (failed c, s)

unfoldable pub has_slash : Bytes → Bool
has_slash [] = false
has_slash (c ∷ s) = c == slash || has_slash s

-- strings.TrimPrefix
abbrev pub trim_prefix : Bytes → Bytes → Bytes
trim_prefix p s = elim (cut_prefix p s) [ none ↦ s | some r ↦ r ]

abbrev pub with_field : {V : Type 0} → Bytes → Option V → Secret V → Secret V
with_field f v x = record x { fields = λ g. if str_eq f g then v else x.fields g }

abbrev pub default_field : {V : Type 0} → Bytes → V → Secret V → Secret V
default_field f v x = elim (x.fields f) [ none ↦ with_field f (some v) x | some w ↦ x ]

-- The answers to a failed Put of a new secret.
unfoldable pub created : {A : Type 0} → A → Result ℕ × Memory → Step A
created x (Result.ok v, s) = (ok x, s)
created x (Result.err Error.version_mismatch, s) = (failed already_exists, s)
created x (Result.err Error.not_found, s) = (failed internal, s)
created x (Result.err Error.invalid_page_token, s) = (failed internal, s)
created x (Result.err Error.ctx_done, s) = (failed internal, s)

unfoldable pub deleted : ℕ → Result (Unit {0}) × Memory → Step (Unit {0})
deleted code (Result.ok v, s) = (ok tt, s)
deleted code (Result.err e, s) = (failed code, s)

abbrev pub then_step : {A B : Type 0} → Step A → (A → Memory → Step B) → Step B
then_step (ok a, s) f = f a s
then_step (failed c, s) f = (failed c, s)

-- The loop of DeleteSecret over the versions.
unfoldable pub delete_entries : List Kv → Memory → Step (Unit {0})
delete_entries [] s = (ok tt, s)
delete_entries (e ∷ es) s =
    then_step (deleted internal (Store.delete none e.key 0 s)) (λ _ s'. delete_entries es s')

-- n + 1 on int64
abbrev pub next_int64 : ℤ → ℤ
next_int64 n = if eqb_ℤ n (pos (2 ^ 63 - 1)) then negsuc (2 ^ 63 - 1) else n +ℤ pos 1

-- One past the number of the last key, if there is one.
unfoldable pub number_after : List Kv → Reply ℤ
number_after [] = ok (pos 1)
number_after (e ∷ es) =
    then_reply (or_fail internal (parse_int (behind_slash (last_key (e ∷ es)))))
      (λ n. ok (next_int64 n))

unfoldable pub next_version : Bytes → Memory → Reply ℤ
next_version secret s =
    then_reply (read_page (Store.list none (version_prefix secret) 0 [] s)) number_after

-- What putVersion answers: a version that is there already was written by another.
unfoldable pub put_answer : Result (Bytes × ℕ) → Result ℕ × Memory → Step (Unit {0})
put_answer there (Result.ok v, s) = (ok tt, s)
put_answer (Result.ok e') (Result.err e, s) = (failed aborted, s)
put_answer (Result.err e') (Result.err e, s) = (failed internal, s)

unfoldable pub state_text : ℤ → Bytes
state_text n = elim n [ pos k ↦ format_int k | negsuc k ↦ b'-' ∷ format_int (suc k) ]

unfoldable pub replaced : {A : Type 0} → A → Result ℕ × Memory → Step A
replaced x (Result.ok v, s) = (ok x, s)
replaced x (Result.err e, s) = (failed aborted, s)

unfoldable pub is_destroyed : State → Bool
is_destroyed unspecified = false
is_destroyed enabled = false
is_destroyed disabled = false
is_destroyed destroyed = true

-- What setState makes of a version: one that is destroyed loses its value.
unfoldable pub moved : State → ℤ → Stored → Stored
moved want now v =
    if is_destroyed want
    then record {
      version = record (v.version) { state = want; destroy_time = some now };
      payload = [];
    }
    else record v { version = record (v.version) { state = want } }

module _ {V : Type 0} (codec : Codec V) where
  -- What CreateSecret stores for a request.
  unfoldable pub new_secret : Bytes → Bytes → Option (Secret V) → ℤ → Secret V
  new_secret parent secret_id given now =
      let base = elim given as (λ x. Secret V) [
        | none ↦ record { name = []; fields = λ f. none }
        | some x ↦ x
      ] in
      default_field (codes "replication") codec.automatic (
        with_field (codes "create_time") (some (codec.timestamp now))
          (record base { name = parent ++ (codes "/secrets/" ++ secret_id) }))

  unfoldable pub store_secret : Secret V → Memory → Step (Secret V)
  store_secret x s =
      after s (or_fail internal (codec.encode_secret x))
        (λ b. created x (Store.put none (secret_key x.name) b 0 s))

  unfoldable pub create_secret : Bytes → Bytes → Option (Secret V) → ℤ → Memory → Step (Secret V)
  create_secret parent secret_id given now s =
      let project = trim_prefix (codes "projects/") parent in
      if is_empty project || has_slash project || is_empty secret_id
      then (failed invalid_argument, s)
      else store_secret (new_secret parent secret_id given now) s

  unfoldable pub delete_secret : Bytes → Memory → Step (Unit {0})
  delete_secret name s = after s (parse_secret name) (λ _. after s (get_secret codec name s) (λ _.
      after s (read_page (Store.list none (version_prefix name) 0 [] s)) (λ es.
        then_step (delete_entries es s)
          (λ _ s'. deleted Gerr.not_found (Store.delete none (secret_key name) 0 s')))))

  unfoldable pub put_version : Bytes → ℤ → Stored → Memory → Step (Unit {0})
  put_version secret n v s = after s (or_fail internal (codec.encode_version v)) (λ b.
      put_answer (Store.get none (version_key secret n) s)
        (Store.put none (version_key secret n) b 0 s))

  -- A new version, enabled; `given` is the checksum that the client has sent with the value.
  unfoldable pub new_version : Bytes → ℤ → Bytes → Option ℤ → ℤ → Stored
  new_version secret n payload given now = record {
    version = record {
      name = secret ++ (codes "/versions/" ++ state_text n);
      state = enabled;
      create_time = now;
      destroy_time = none;
      checksum_given = elim given [ none ↦ false | some c ↦ true ];
    };
    payload = payload;
  }

  unfoldable pub is_corrupt : Bytes → Option ℤ → Bool
  is_corrupt payload none = false
  is_corrupt payload (some c) = not (eqb_ℤ c (codec.checksum payload))

  unfoldable pub add_secret_version : Bytes → Bytes → Option ℤ → ℤ → Memory → Step Version
  add_secret_version parent payload given now s = after s (parse_secret parent) (λ _.
      if is_corrupt payload given
      then (failed invalid_argument, s)
      else after s (get_secret codec parent s) (λ _. after s (next_version parent s) (λ n.
        then_step (put_version parent n (new_version parent n payload given now) s)
          (λ _ s'. (ok (new_version parent n payload given now).version, s')))))

  -- replaceVersion, at the version of the entry that the store holds.
  unfoldable pub replace_version : Bytes → ℤ → Stored → Memory → Step (Unit {0})
  replace_version secret n v s = after s (or_fail internal (codec.encode_version v)) (λ b.
      elim (Store.get none (version_key secret n) s) [
        | Result.err e ↦ (failed Gerr.not_found, s)
        | Result.ok (x, current) ↦ replaced tt (Store.put none (version_key secret n) b current s)
      ])

  unfoldable pub set_state : Bytes → State → ℤ → Memory → Step Version
  set_state name want now s = after s (parse_version name) (λ p.
      after s (resolve codec p.0 p.1 s) (λ v.
        if is_destroyed v.version.state
        then (failed failed_precondition, s)
        else after s (version_number (moved want now v).version.name) (λ n.
          then_step (replace_version p.0 n (moved want now v) s)
            (λ _ s'. (ok (moved want now v).version, s')))))

  -- The field that a path of an update mask names, by either spelling.
  unfoldable pub field_of : Bytes → Option Bytes
  field_of path = elim (codec.by_name path) [ some f ↦ some f | none ↦ codec.by_json_name path ]

  -- The loop of applyMask: a field that is not set in the request is cleared.
  unfoldable pub apply_paths : List Bytes → Secret V → Secret V → Reply (Secret V)
  apply_paths [] src dst = ok dst
  apply_paths (path ∷ paths) src dst =
      if str_eq path (codes "name")
      then failed invalid_argument
      else then_reply (or_fail invalid_argument (field_of path))
          (λ f. apply_paths paths src (with_field f (src.fields f) dst))

  unfoldable pub apply_mask : List Bytes → Secret V → Secret V → Reply (Secret V)
  apply_mask [] src dst = failed invalid_argument
  apply_mask (path ∷ paths) src dst = apply_paths (path ∷ paths) src dst

  -- One step here, as if no other request came between the read and the write, which hold no lock
  -- together; the write is at the version that was read.
  unfoldable pub update_secret : Secret V → List Bytes → Memory → Step (Secret V)
  update_secret src mask s = after s (parse_secret src.name) (λ _.
      elim (Store.get none (secret_key src.name) s) [
        | Result.err e ↦ (failed Gerr.not_found, s)
        | Result.ok (raw, version) ↦
            after s (or_fail internal (codec.decode_secret raw)) (λ current.
              after s (apply_mask mask src current) (λ x.
                after s (or_fail internal (codec.encode_secret x))
                  (λ b. replaced x (Store.put none (secret_key src.name) b version s))))
      ])
