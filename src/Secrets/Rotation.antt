-- ===== src/Secrets/Rotation.antt =====
-- The life of a version of services/secretmanager: it is added, read, and destroyed for good.
use cloudrig.Prelude.{
  ℕ, ◌≡◌, ◌<◌, refl, sym, ap, ◌∙◌, arith, Bool, true, false, Option, none, some, [], ◌∷◌, ◌++◌, ◌^◌,
  All-map, inl, inr, if◌then◌else◌, length,
}
use cloudrig.Prelude.Int.{ℤ, pos}
use cloudrig.Prelude.Bytes.{Bytes, codes, str_eq, str_eq_refl, Lacks}
use cloudrig.Prelude.Decimal.{
  format_int, parse_int, parse_int-format_int, format_int-IsDigits, length-format_int, IsDigits,
}
use cloudrig.Gerr.{invalid_argument, internal}
use cloudrig.Store.{Memory, Entry, Result, Error, next_version}
use cloudrig.Store
use cloudrig.Store.Cas.{put_outcome, Meets}
use cloudrig.Secrets.{
  Version, Stored, Reply, ok, failed, Codec, or_fail, slash, is_empty, parse_secret, version_key,
  latest_alias,
}
use cloudrig.Secrets.Names.{parse_version-name}
use cloudrig.Secrets.Reading.{read_entry, resolve, is_enabled, access_secret_version, get_secret}
use cloudrig.Secrets.Writing.{
  Step, after, then_step, put_answer, put_version, new_version, is_corrupt, add_secret_version,
  moved, is_destroyed, replaced, replace_version, set_state, state_text,
}
use cloudrig.Secrets.Writing

-- A step that has succeeded went through each of its parts.
pub after_ok :
    {A B : Type 0} {y : B} {s' : Memory} (s : Memory) (r : Reply A) (f : A → Step B)
    → after s r f ≡ (ok y, s')
    → (a : A) × (r ≡ ok a) × (f a ≡ (ok y, s'))
after_ok s (ok a) f h = (a, refl, h)
after_ok s (failed c) f h = cc

pub then_step_ok :
    {A B : Type 0} {y : B} {s' : Memory} (r : Step A) (f : A → Memory → Step B)
    → then_step r f ≡ (ok y, s')
    → (a : A) × (s₁ : Memory) × (r ≡ (ok a, s₁)) × (f a s₁ ≡ (ok y, s'))
then_step_ok (ok a, s) f h = (a, s, refl, h)
then_step_ok (failed c, s) f h = cc

pub unless_ok :
    {B : Type 0} {y : B} {s' : Memory} (c : ℕ) (s : Memory) (b : Bool) (r : Step B)
    → (if b then (failed c, s) else r) ≡ (ok y, s')
    → (b ≡ false) × (r ≡ (ok y, s'))
unless_ok c s true r h = cc
unless_ok c s false r h = (refl, h)

pub or_fail_ok : {A : Type 0} {a : A} (c : ℕ) (o : Option A) → or_fail c o ≡ ok a → o ≡ some a
or_fail_ok c none h = cc
or_fail_ok c (some a) h = ground arith

step_value : {A : Type 0} {a b : A} {s t : Memory} → ◌≡◌ {A = Step A} (ok a, s) (ok b, t) → a ≡ b
step_value h = cc

pub reply_value : {A : Type 0} {a b : A} → ◌≡◌ {A = Reply A} (ok a) (ok b) → a ≡ b
reply_value h = cc

put_answer_ok :
    {s' : Memory} (there : Result (Bytes × ℕ)) (r : Result ℕ × Memory)
    → put_answer there r ≡ (ok tt, s')
    → (w : ℕ) × (r ≡ (Result.ok w, s'))
unfolding put_answer
put_answer_ok there (Result.ok w, s) h = (w, ground arith)
put_answer_ok (Result.ok e) (Result.err e', s) h = cc
put_answer_ok (Result.err e) (Result.err e', s) h = cc

-- The store differs in one entry, and that was not there before.
abbrev pub IsAdded : Bytes → Bytes → Memory → Memory → Type 0
IsAdded key b s s' =
    (s.m key ≡ none)
    × ((j : Bytes)
        → s'.m j ≡ (if str_eq key j then some (record { val = b; version = 1 }) else s.m j))

Meets-absent : (e : Option Entry) → Meets 0 e → e ≡ none
Meets-absent none p = refl
Meets-absent (some e) p = absurd (p.0 refl)

put_new :
    (key b : Bytes) (s s' : Memory) (w : ℕ)
    → Store.put none key b 0 s ≡ (Result.ok w, s')
    → IsAdded key b s s'
put_new key b s s' w h = elim (put_outcome key b 0 s) [
  | inl (p, r, t) ↦
      let absent = Meets-absent (s.m key) p in
      (
        absent,
        λ j.
            ap (λ x. x.1.m j) (sym h)
            ∙ t j
            ∙ ap
                (λ e.
                  if str_eq key j
                  then some (record { val = b; version = next_version e })
                  else s.m j)
                absent,
      )
  | inr (p, r) ↦ cc
]

-- The state in which an entry reads as a value.
abbrev pub Holds : Bytes → Bytes → Memory → Type 0
Holds key b s = (e : Entry) × (s.m key ≡ some e) × (e.val ≡ b)

get_held :
    (key b : Bytes) (s : Memory)
    → Holds key b s
    → (n : ℕ) × (read_entry (Store.get none key s) ≡ ok (b, n))
unfolding read_entry Store.get Store.found
get_held key b s (e, there, same) = (e.version, rw there (rw same refl))

digits_Lacks : (n : ℕ) → Lacks slash (format_int n)
digits_Lacks n = All-map (λ c d. omega arith) (format_int n) (format_int-IsDigits n)

not_latest : (s : Bytes) → IsDigits s → str_eq s latest_alias ≡ false
unfolding str_eq
not_latest [] h = refl
not_latest (c ∷ s) h = ground (arith, h.0)

not_empty : (s : Bytes) → 0 < length s → is_empty s ≡ false
not_empty [] h = absurd (omega arith)
not_empty (c ∷ s) h = refl

module _ {V : Type 0} (codec : Codec V) where
  -- A version that was encoded is decoded as it was.
  abbrev pub ReadsBack : Type 0
  ReadsBack =
      (v : Stored) (b : Bytes) → codec.encode_version v ≡ some b → codec.decode_version b ≡ some v

  pub resolve_held :
      (secret text b : Bytes) (n : ℤ) (v : Stored) (s : Memory)
      → str_eq text latest_alias ≡ false
      → parse_int text ≡ some n
      → Holds (version_key secret n) b s
      → codec.decode_version b ≡ some v
      → resolve codec secret text s ≡ ok v
  unfolding resolve
  resolve_held secret text b n v s other number held read =
      let (w, e) = get_held (version_key secret n) b s held in
      rw other (rw number (rw e (rw read refl)))

  put_version_ok :
      (secret : Bytes) (n : ℤ) (v : Stored) (s s' : Memory)
      → put_version codec secret n v s ≡ (ok tt, s')
      → (b : Bytes) × (codec.encode_version v ≡ some b) × IsAdded (version_key secret n) b s s'
  unfolding put_version
  put_version_ok secret n v s s' h =
      let (b, e, put) = after_ok s (or_fail internal (codec.encode_version v)) _ h in
      let (w, r) = put_answer_ok (Store.get none (version_key secret n) s) _ put in
      (b, or_fail_ok internal (codec.encode_version v) e, put_new (version_key secret n) b s s' w r)

  -- The parts that an addition that has succeeded went through.
  add_ok :
      (parent payload : Bytes) (given : Option ℤ) (now : ℤ) {x : Version} (s s' : Memory)
      → add_secret_version codec parent payload given now s ≡ (ok x, s')
      → (p : Bytes × Bytes) × (n : ℤ) × (parse_secret parent ≡ ok p)
        × (Writing.next_version parent s ≡ ok n)
        × (put_version codec parent n (new_version codec parent n payload given now) s
            ≡ (ok tt, s'))
        × (x ≡ (new_version codec parent n payload given now).version)
  unfolding add_secret_version
  add_ok parent payload given now {x} s s' h =
      let (p, named, h₁) = after_ok s (parse_secret parent) _ h in
      let (sound, h₂) = unless_ok invalid_argument s (is_corrupt codec payload given) _ h₁ in
      let (secret, there, h₃) = after_ok s (get_secret codec parent s) _ h₂ in
      let (n, number, h₄) = after_ok s (Writing.next_version parent s) _ h₃ in
      let v = new_version codec parent n payload given now in
      let (u, s₁, stored, h₅) = then_step_ok (put_version codec parent n v s) _ h₄ in
      let same : s₁ ≡ s' = ap (λ r. r.1) h₅ in
      (p, n, named, number, stored ∙ ap (λ t. (ok tt, t)) same, sym (step_value h₅))

  -- What is added under a number is a new entry, every other entry is as it was, and the version
  -- that is returned gives access to the value.
  abbrev pub IsAccessible : Bytes → ℕ → Bytes → Version → Memory → Memory → Type 0
  IsAccessible parent k payload x s s' =
      (s.m (version_key parent (pos k)) ≡ none)
      × ((j : Bytes) → str_eq (version_key parent (pos k)) j ≡ false → s'.m j ≡ s.m j)
      × (access_secret_version codec x.name s' ≡ ok (x.name, payload))

  access_added :
      (parent payload b : Bytes) (given : Option ℤ) (now : ℤ) (k : ℕ) (s s' : Memory)
      {p : Bytes × Bytes}
      → k < 2 ^ 63
      → ReadsBack
      → parse_secret parent ≡ ok p
      → codec.encode_version (new_version codec parent (pos k) payload given now) ≡ some b
      → IsAdded (version_key parent (pos k)) b s s'
      → access_secret_version codec (parent ++ (codes "/versions/" ++ format_int k)) s'
        ≡ ok (parent ++ (codes "/versions/" ++ format_int k), payload)
  unfolding access_secret_version new_version is_enabled state_text
  access_added parent payload b given now k s s' small back named encoded added =
      let key = version_key parent (pos k) in
      let v = new_version codec parent (pos k) payload given now in
      let held : Holds key b s' =
        (record { val = b; version = 1 }, ground (arith, added.1 key, str_eq_refl key), refl) in
      rw
        (parse_version-name parent (format_int k) named (digits_Lacks k)
          (not_empty (format_int k) (length-format_int k)))
        (rw
          (resolve_held parent (format_int k) b (pos k) v s'
            (not_latest (format_int k) (format_int-IsDigits k)) (parse_int-format_int k small) held
            (back v b encoded))
          refl)

  -- A version that was added is a new entry under its number, every other entry is as it was, and
  -- its name gives access to the value that was added, if what is encoded reads back.
  pub add_then_access :
      (parent payload : Bytes) (given : Option ℤ) (now : ℤ) (k : ℕ) (s s' : Memory) {x : Version}
      → ReadsBack
      → k < 2 ^ 63
      → Writing.next_version parent s ≡ ok (pos k)
      → add_secret_version codec parent payload given now s ≡ (ok x, s')
      → IsAccessible parent k payload x s s'
  unfolding new_version state_text
  add_then_access parent payload given now k s s' {x} back small number h =
      let (p, n, named, number', stored, reply) = add_ok parent payload given now s s' h in
      let same : n ≡ pos k = reply_value (sym number' ∙ number) in
      let stored' : put_version codec parent (pos k)
            (new_version codec parent (pos k) payload given now) s
          ≡ (ok tt, s') =
        ap (λ m. put_version codec parent m (new_version codec parent m payload given now) s)
          (sym same)
        ∙ stored in
      let (b, encoded, added) =
        put_version_ok parent (pos k) (new_version codec parent (pos k) payload given now) s s'
          stored' in
      let name : x.name ≡ parent ++ (codes "/versions/" ++ format_int k) =
        ap (λ v. v.name)
          (reply ∙ ap (λ m. (new_version codec parent m payload given now).version) same) in
      (
        added.0,
        (λ j e. ground (arith, added.1 j)),
        ap (λ t. access_secret_version codec t s') name
            ∙ access_added parent payload b given now k s s' small back named encoded added
            ∙ ap (λ t. ok (t, payload)) (sym name),
      )
