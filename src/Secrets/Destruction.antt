-- ===== src/Secrets/Destruction.antt =====
-- setState of services/secretmanager/state.go: a version that was destroyed does not come back.
use cloudrig.Prelude.{ℕ, ◌≡◌, refl, sym, subst, ap, ◌∙◌, false, none, some, []}
use cloudrig.Prelude.Int.{ℤ}
use cloudrig.Prelude.Bytes.{Bytes, str_eq}
use cloudrig.Prelude.Decimal.{parse_int}
use cloudrig.Gerr.{internal, failed_precondition}
use cloudrig.Store.{Memory, Result}
use cloudrig.Store
use cloudrig.Store.Cas.{put_succeeded}
use cloudrig.Secrets.{
  State, destroyed, Version, Stored, ok, failed, Codec, or_fail, parse_version, version_key,
  latest_alias,
}
use cloudrig.Secrets.Reading.{resolve, is_enabled, access_secret_version, version_number}
use cloudrig.Secrets.Rotation.{
  after_ok, then_step_ok, unless_ok, or_fail_ok, reply_value, Holds, ReadsBack, resolve_held,
}
use cloudrig.Secrets.Writing.{Step, moved, is_destroyed, replaced, replace_version, set_state}

replaced_ok :
    {A : Type 0} {y : A} {s' : Memory} (x : A) (r : Result ℕ × Memory)
    → replaced x r ≡ (ok y, s')
    → (w : ℕ) × (r.0 ≡ Result.ok w) × (r.1 ≡ s')
unfolding replaced
replaced_ok x (Result.ok w, s) h = (w, refl, ap (λ t. t.1) h)
replaced_ok x (Result.err e, s) h = cc

replace_at_ok :
    (key b : Bytes) (c : ℕ) (s s' : Memory) (r : Result (Bytes × ℕ))
    → (elim r as (λ x. Step (Unit {0})) [
      | Result.err e ↦ (failed c, s)
      | Result.ok (x, current) ↦ replaced tt (Store.put none key b current s)
    ])
      ≡ (ok tt, s')
    → Holds key b s'
replace_at_ok key b c s s' (Result.err e) h = cc
replace_at_ok key b c s s' (Result.ok (x, current)) h =
    let (w, put, same) = replaced_ok tt (Store.put none key b current s) h in
    let (met, _, there) = put_succeeded key b current w s put in
    (record { val = b; version = w }, ap (λ t. t.m key) (sym same) ∙ there, refl)

module _ {V : Type 0} (codec : Codec V) where
  replace_version_ok :
      (secret : Bytes) (n : ℤ) (v : Stored) (s s' : Memory)
      → replace_version codec secret n v s ≡ (ok tt, s')
      → (b : Bytes) × (codec.encode_version v ≡ some b) × Holds (version_key secret n) b s'
  unfolding replace_version
  replace_version_ok secret n v s s' h =
      let (b, e, at) = after_ok s (or_fail internal (codec.encode_version v)) _ h in
      (
        b,
        or_fail_ok internal (codec.encode_version v) e,
        replace_at_ok (version_key secret n) b _ s s' (Store.get none (version_key secret n) s) at,
      )

  -- The parts that a change of state that has succeeded went through.
  abbrev pub Went : State → ℤ → Memory → Memory → Bytes × Bytes → Type 0
  Went want now s s' p =
      (v : Stored) × (n : ℤ) × (resolve codec p.0 p.1 s ≡ ok v)
      × (version_number (moved want now v).version.name ≡ ok n)
      × (replace_version codec p.0 n (moved want now v) s ≡ (ok tt, s'))

  set_state_ok :
      (name : Bytes) (want : State) (now : ℤ) (s s' : Memory) (p : Bytes × Bytes) {x : Version}
      → parse_version name ≡ ok p
      → set_state codec name want now s ≡ (ok x, s')
      → Went want now s s' p
  unfolding set_state
  set_state_ok name want now s s' p named h =
      let (p', named', h₁) = after_ok s (parse_version name) _ h in
      let (v, resolved, h₂) = after_ok s (resolve codec p'.0 p'.1 s) _ h₁ in
      let (open_still, h₃) = unless_ok failed_precondition s (is_destroyed v.version.state) _ h₂ in
      let (n, number, h₄) = after_ok s (version_number (moved want now v).version.name) _ h₃ in
      let (u, s₁, stored, h₅) =
        then_step_ok (replace_version codec p'.0 n (moved want now v) s) _ h₄ in
      subst (Went want now s s') (reply_value (sym named' ∙ named))
        (v, n, resolved, number, stored ∙ ap (λ r. (ok tt, r.1)) h₅)

  destroyed_refuses :
      (name secret text : Bytes) (v : Stored) (s : Memory)
      → parse_version name ≡ ok (secret, text)
      → resolve codec secret text s ≡ ok v
      → v.version.state ≡ destroyed
      → (access_secret_version codec name s ≡ failed failed_precondition)
        × ((later : State) (t : ℤ)
            → set_state codec name later t s ≡ (failed failed_precondition, s))
  unfolding access_secret_version set_state is_enabled is_destroyed
  destroyed_refuses name secret text v s named resolved e =
      (rw named (rw resolved (rw e refl)), λ later t. rw named (rw resolved (rw e refl)))

  -- Once a version has been destroyed by its number, its value is gone from the store, it cannot be
  -- accessed, and no later change of its state succeeds or changes the store, if what is encoded
  -- reads back and the version's own name ends in its number.
  pub destroyed_for_good :
      (name secret text : Bytes) (n now : ℤ) (s s' : Memory) {x : Version}
      → ReadsBack codec
      → parse_version name ≡ ok (secret, text)
      → str_eq text latest_alias ≡ false
      → parse_int text ≡ some n
      → ((v : Stored) → resolve codec secret text s ≡ ok v → version_number v.version.name ≡ ok n)
      → set_state codec name destroyed now s ≡ (ok x, s')
      → ((w : Stored) → resolve codec secret text s' ≡ ok w → w.payload ≡ [])
        × (access_secret_version codec name s' ≡ failed failed_precondition)
        × ((later : State) (t : ℤ)
            → set_state codec name later t s' ≡ (failed failed_precondition, s'))
  unfolding moved is_destroyed
  destroyed_for_good name secret text n now s s' back named other number filed h =
      let (v, m, resolved, number', stored) =
        set_state_ok name destroyed now s s' (secret, text) named h in
      let same : m ≡ n = reply_value (sym number' ∙ filed v resolved) in
      let w = moved destroyed now v in
      let (b, encoded, held) = replace_version_ok secret m w s s' stored in
      let found : resolve codec secret text s' ≡ ok w =
        resolve_held codec secret text b n w s' other number
          (subst (λ k. Holds (version_key secret k) b s') same held) (back w b encoded) in
      let (refused, final) = destroyed_refuses name secret text w s' named found refl in
      ((λ r e. ap (λ y. y.payload) (reply_value (sym e ∙ found))), refused, final)
