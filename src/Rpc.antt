-- ===== src/Rpc.antt =====
-- What the gRPC services share: replies, reads of the store, and names of resources. A failure is
-- its gRPC code, less the text.
use cloudrig.Prelude.{
  ℕ, Bool, Option, none, some, List, [], ◌∷◌, ◌++◌, ◌==◌, true, false, if◌then◌else◌,
}
use cloudrig.Prelude.Bytes.{Bytes}
use cloudrig.Gerr.{internal}
use cloudrig.Store.{Kv, Result}

pub data Reply {ℓ} (A : Type ℓ) : Type ℓ where
  ok : A → Reply A
  failed : ℕ → Reply A

abbrev pub then_reply {ℓ κ} : {A : Type ℓ} {B : Type κ} → Reply A → (A → Reply B) → Reply B
then_reply (ok a) f = f a
then_reply (failed c) f = failed c

-- An absent value is a failure with a code.
abbrev pub or_fail {ℓ} : {A : Type ℓ} → ℕ → Option A → Reply A
or_fail c none = failed c
or_fail c (some a) = ok a

-- What a request on a service with a state leaves: its reply, and the state after it.
abbrev pub Outcome : Type 0 → Type 0 → Type 0
Outcome S A = Reply A × S

-- A request goes on only from a reply that is not a failure.
abbrev pub proceed {ℓ} : {A : Type ℓ} {B S : Type 0} → S → Reply A → (A → Outcome S B) → Outcome S B
proceed s (ok a) f = f a
proceed s (failed c) f = (failed c, s)

unfoldable pub read_page : Result (List Kv × Bytes) → Reply (List Kv)
read_page (Result.ok (entries, token)) = ok entries
read_page (Result.err e) = failed internal

-- An element in front of the first one that does not come before it: sort.Slice on names, which
-- differ.
unfoldable pub insert_by {ℓ} : {A : Type ℓ} → (A → A → Bool) → A → List A → List A
insert_by less x [] = x ∷ []
insert_by less x (y ∷ ys) =
    let rest = insert_by less x ys in if less y x then y ∷ rest else x ∷ y ∷ ys

unfoldable pub sort_by {ℓ} : {A : Type ℓ} → (A → A → Bool) → List A → List A
sort_by less [] = []
sort_by less (x ∷ xs) = insert_by less x (sort_by less xs)

abbrev pub slash : ℕ
slash = b'/'

abbrev pub onto_first : ℕ → List Bytes → List Bytes
onto_first c [] = (c ∷ []) ∷ []
onto_first c (p ∷ ps) = (c ∷ p) ∷ ps

-- strings.Split(s, "/")
unfoldable pub split_slash : Bytes → List Bytes
split_slash [] = [] ∷ []
split_slash (c ∷ s) =
    let rest = split_slash s in if c == slash then [] ∷ rest else onto_first c rest

abbrev pub is_empty : Bytes → Bool
is_empty [] = true
is_empty (c ∷ s) = false

-- strings.Join(parts, "/")
unfoldable pub join_slash : List Bytes → Bytes
join_slash [] = []
join_slash (p ∷ []) = p
join_slash (p ∷ q ∷ ps) = p ++ slash ∷ join_slash (q ∷ ps)
