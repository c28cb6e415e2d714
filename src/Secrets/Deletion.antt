-- ===== src/Secrets/Deletion.antt =====
-- DeleteSecret of services/secretmanager/rpc.go: what a deletion removes.
use cloudrig.Prelude.{
  ℕ, ◌≡◌, refl, ap, ◌∙◌, arith, true, false, ◌&&◌, ◌||◌, Option, none, List, [], ◌∷◌, map, All,
  Option-cases, inl, inr, if◌then◌else◌,
}
use cloudrig.Prelude.Bytes.{Bytes, str_eq, str_lt, has_prefix, str_eq_iff, str_eq_refl}
use cloudrig.Prelude.Bytes.Order.{str_lt_irrefl}
use cloudrig.Gerr.{internal}
use cloudrig.Gerr
use cloudrig.Store.{Memory, Entry, Kv, Result, Error, Table, kv_of, is_some}
use cloudrig.Store
use cloudrig.Store.Keys.{IsSorted, contains, contains-select, select-IsSorted}
use cloudrig.Store.Cas.{delete_outcome}
use cloudrig.Store.Invariant.{IsValid}
use cloudrig.Store.Listing.{under-map, list_first, page, key-entry_kv, with_prefix}
use cloudrig.Secrets.{Secret, ok, failed, Codec, parse_secret, secret_key, version_prefix}
use cloudrig.Secrets.Reading.{read_entry, read_page, get_secret}
use cloudrig.Secrets.Writing.{Step, then_step, deleted, delete_entries, delete_secret}

delete_present :
    (key : Bytes) (s : Memory)
    → is_some (s.m key) ≡ true
    → ((Store.delete none key 0 s).0 ≡ Result.ok tt)
      × ((j : Bytes) → (Store.delete none key 0 s).1.m j ≡ (if str_eq key j then none else s.m j))
delete_present key s h = elim (Option-cases (s.m key)) [
  | inl absent ↦ ground (arith, absent)
  | inr (e, there) ↦ elim (delete_outcome key 0 s e there) [
    | inl (a, b, c) ↦ (b, c)
    | inr (a, b, c) ↦ absurd (a refl)
  ]
]

then_deleted :
    (code : ℕ) (r : Result (Unit {0}) × Memory) (f : Unit {0} → Memory → Step (Unit {0}))
    → r.0 ≡ Result.ok tt
    → then_step (deleted code r) f ≡ f tt r.1
unfolding deleted
then_deleted code (Result.ok u, s) f h = refl
then_deleted code (Result.err e, s) f h = cc

abbrev Removes : List Bytes → Memory → Step (Unit {0}) → Type 0
Removes ks s r = (r.0 ≡ ok tt) × ((j : Bytes) → r.1.m j ≡ (if contains j ks then none else s.m j))

Removes-step :
    (k j : Bytes) (ks : List Bytes) (m m' : Option Entry)
    → m' ≡ (if str_eq k j then none else m)
    → (if contains j ks then none else m') ≡ (if contains j (k ∷ ks) then none else m)
unfolding contains
Removes-step k j ks m m' e = ground (arith, e, str_eq_iff k j, str_eq_iff j k)

still_there :
    (k : Bytes) (ks : List Bytes) (m m' : Table)
    → ((j : Bytes) → m' j ≡ (if str_eq k j then none else m j))
    → All (λ j. str_lt k j ≡ true) ks
    → All (λ j. is_some (m j) ≡ true) ks
    → All (λ j. is_some (m' j) ≡ true) ks
still_there k [] m m' e above here = tt
still_there k (j ∷ ks) m m' e above here = (
  ground (arith, e j, str_eq_iff k j, str_lt_irrefl k, ap (str_lt k) {x = k} {y = j}),
  still_there k ks m m' e above.1 here.1,
)

-- Entries that are there, in the order of their keys, are all deleted, and nothing else is.
delete_entries-Removes :
    (m : Table) (ks : List Bytes) (s : Memory)
    → IsSorted ks
    → All (λ k. is_some (s.m k) ≡ true) ks
    → Removes ks s (delete_entries (map (kv_of m) ks) s)
unfolding delete_entries contains
delete_entries-Removes m [] s h k = (refl, λ j. refl)
delete_entries-Removes m (k ∷ ks) s h here =
    let (gone, table) = delete_present k s here.0 in
    let rest = (Store.delete none k 0 s).1 in
    let there : All (λ j. is_some (rest.m j) ≡ true) ks =
      still_there k ks s.m rest.m table h.0 here.1 in
    let (o, t) = delete_entries-Removes m ks rest h.1 there in
    let e =
      then_deleted internal (Store.delete none k 0 s) (λ _ s'. delete_entries (map (kv_of m) ks) s')
        gone in
    rw (key-entry_kv k (m k))
      (rw e (o, λ j. t j ∙ Removes-step k j ks (s.m j) (rest.m j) (table j)))

-- What a deletion of a secret does: it succeeds, its own entry and those of its versions are gone,
-- and every other entry is as it was.
abbrev pub IsDeleted : Bytes → Memory → Step (Unit {0}) → Type 0
IsDeleted name s r =
    (r.0 ≡ ok tt)
    × ((j : Bytes)
        → r.1.m j ≡ (
            if str_eq (secret_key name) j || has_prefix (version_prefix name) j
            then none
            else s.m j))

list_whole :
    (prefix : Bytes) (s : Memory)
    → IsValid s
    → read_page (Store.list none prefix 0 [] s) ≡ ok (map (kv_of s.m) (with_prefix prefix s.keys))
unfolding read_page page
list_whole prefix s v = ap read_page (list_first prefix 0 s v) ∙ ap ok (under-map prefix s)

get_absent :
    (key : Bytes) (s : Memory) → s.m key ≡ none → Store.get none key s ≡ Result.err Error.not_found
unfolding Store.get Store.found
get_absent key s e = rw e refl

get_secret-present :
    {V : Type 0} (codec : Codec V) (name : Bytes) (s : Memory) (x : Secret V)
    → get_secret codec name s ≡ ok x
    → is_some (s.m (secret_key name)) ≡ true
unfolding get_secret read_entry
get_secret-present codec name s x h = elim (Option-cases (s.m (secret_key name))) [
  | inl absent ↦ ground (arith, get_absent (secret_key name) s absent)
  | inr (e, there) ↦ rw there refl
]

contains-every :
    (P : Bytes → Type 0) (ks : List Bytes) → ((k : Bytes) → contains k ks ≡ true → P k) → All P ks
unfolding contains
contains-every P [] h = tt
contains-every P (k ∷ ks) h =
    (h k (ground (arith, str_eq_refl k)), contains-every P ks (λ j e. h j (ground arith)))

-- Under the prefix of a secret's versions there is no secret.
has_prefix-secret_key :
    (name other : Bytes) → has_prefix (version_prefix name) (secret_key other) ≡ false
unfolding has_prefix version_prefix secret_key
has_prefix-secret_key name other = refl

then_answer :
    (code : ℕ) (r : Result (Unit {0}) × Memory) → r.0 ≡ Result.ok tt → deleted code r ≡ (ok tt, r.1)
unfolding deleted
then_answer code (Result.ok u, s) h = refl
then_answer code (Result.err e, s) h = cc

delete_parent :
    (name : Bytes) (ks : List Bytes) (s : Memory) (r : Step (Unit {0}))
    → Removes ks s r
    → ((j : Bytes) → contains j ks ≡ is_some (s.m j) && has_prefix (version_prefix name) j)
    → is_some (s.m (secret_key name)) ≡ true
    → IsDeleted name s
        (then_step r (λ _ s'. deleted Gerr.not_found (Store.delete none (secret_key name) 0 s')))
delete_parent name ks s (failed c, s') h k here = cc
delete_parent name ks s (ok u, s') h k here =
    let key = secret_key name in
    let apart = has_prefix-secret_key name name in
    let there : is_some (s'.m key) ≡ true = ground (arith, h.1 key, k key, apart) in
    let (gone, table) = delete_present key s' there in
    rw (then_answer Gerr.not_found (Store.delete none key 0 s') gone)
      (refl, λ j. ground (arith, table j, h.1 j, k j))

-- Deleting a secret that can be read succeeds. Its entry and those of all its versions are gone, so
-- that a secret created under the name adopts none, and every other entry is as it was.
pub delete_secret_total :
    {V : Type 0} (codec : Codec V) (name : Bytes) (s : Memory) {p : Bytes × Bytes} {x : Secret V}
    → IsValid s
    → parse_secret name ≡ ok p
    → get_secret codec name s ≡ ok x
    → IsDeleted name s (delete_secret codec name s)
unfolding delete_secret
delete_secret_total codec name s {p} {x} v named there =
    let prefix = version_prefix name in
    let ks = with_prefix prefix s.keys in
    let named_by : (j : Bytes) → contains j ks ≡ is_some (s.m j) && has_prefix prefix j = λ j.
      contains-select (has_prefix prefix) j s.keys
      ∙ ap (λ b. b && has_prefix prefix j) (v.present j) in
    let every : All (λ k. is_some (s.m k) ≡ true) ks =
      contains-every (λ k. is_some (s.m k) ≡ true) ks (λ k e. ground (arith, named_by k, e)) in
    rw named (
      rw there (
        rw (list_whole prefix s v) (
          delete_parent name ks s (delete_entries (map (kv_of s.m) ks) s)
            (delete_entries-Removes s.m ks s (select-IsSorted (has_prefix prefix) s.keys v.sorted)
              every)
            named_by (get_secret-present codec name s x there))))
