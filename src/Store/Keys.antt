-- ===== src/Store/Keys.antt =====
-- The sorted slice of keys of store/memory.go: what `insertKey` and `removeKey` do to it.
use cloudrig.Prelude.{
  All-select, ◌&&◌, sym, select_every, ◌≡◌, refl, ap, Bool, true, false, not, ◌||◌, List, [], ◌∷◌,
  arith, if◌then◌else◌, drop, search_index, select, All, All-map, Bool-cases, inl, inr,
}
use cloudrig.Prelude.Bytes.{Bytes, str_eq, str_lt, str_eq_iff}
use cloudrig.Prelude.Bytes.Order.{str_lt_irrefl, str_lt_trans, str_lt_total, str_lt_asym}
use cloudrig.Store.{start, insert_key, remove_key, search_strings}

-- The keys rise strictly.
abbrev pub IsSorted : List Bytes → Type 0
IsSorted [] = Unit
IsSorted (k ∷ ks) = All (λ j. str_lt k j ≡ true) ks × IsSorted ks

unfoldable pub contains : Bytes → List Bytes → Bool
contains k [] = false
contains k (j ∷ js) = str_eq k j || contains k js

pub insert_key-cons :
    (key k : Bytes) (ks : List Bytes)
    → insert_key key (k ∷ ks) ≡ (if str_lt k key then k ∷ insert_key key ks else key ∷ k ∷ ks)
unfolding insert_key search_index
insert_key-cons key k ks = ground arith

pub insert_key-nil : (key : Bytes) → insert_key key [] ≡ key ∷ []
unfolding insert_key search_index
insert_key-nil key = refl

pub contains-insert_key :
    (key j : Bytes) (ks : List Bytes)
    → contains j (insert_key key ks) ≡ str_eq j key || contains j ks
unfolding contains
contains-insert_key key j [] = rw insert_key-nil
contains-insert_key key j (k ∷ ks) =
    rw insert_key-cons (ground (arith, contains-insert_key key j ks))

All-insert_key {κ} :
    (P : Bytes → Type κ) (key : Bytes) (ks : List Bytes)
    → P key
    → All P ks
    → All P (insert_key key ks)
All-insert_key P key [] p h = rw insert_key-nil (p, tt)
All-insert_key P key (k ∷ ks) p h =
    rw insert_key-cons (ground (arith, All-insert_key P key ks p h.1))

-- A key that is not above `key` and differs from it is below it, and so on along the list.
above :
    (key k : Bytes) (ks : List Bytes)
    → str_lt key k ≡ true
    → All (λ j. str_lt k j ≡ true) ks
    → All (λ j. str_lt key j ≡ true) ks
above key k ks h = All-map (λ j. str_lt_trans key k j h) ks

pub insert_key-IsSorted :
    (key : Bytes) (ks : List Bytes)
    → contains key ks ≡ false
    → IsSorted ks
    → IsSorted (insert_key key ks)
unfolding contains
insert_key-IsSorted key [] c h = rw insert_key-nil (tt, tt)
insert_key-IsSorted key (k ∷ ks) c h = rw insert_key-cons (elim (Bool-cases (str_lt k key)) [
  | inl lt ↦ rw lt (
    All-insert_key (λ j. str_lt k j ≡ true) key ks lt h.0,
    insert_key-IsSorted key ks (ground arith) h.1,
  )
  | inr ge ↦
      let lt : str_lt key k ≡ true = ground (arith, str_lt_total key k) in
      rw ge ((lt, above key k ks lt h.0), h)
])

pub remove_key-cons :
    (key k : Bytes) (ks : List Bytes)
    → remove_key key (k ∷ ks)
      ≡ (if str_lt k key then k ∷ remove_key key ks else if str_eq k key then ks else k ∷ ks)
unfolding remove_key search_index
remove_key-cons key k ks = elim (Bool-cases (str_lt k key)) [
  | inl lt ↦ rw lt (ground arith)
  | inr ge ↦ rw ge (ground arith)
]

pub remove_key-nil : (key : Bytes) → remove_key key [] ≡ []
unfolding remove_key search_index
remove_key-nil key = refl

All-remove_key {κ} :
    (P : Bytes → Type κ) (key : Bytes) (ks : List Bytes) → All P ks → All P (remove_key key ks)
unfolding remove_key
All-remove_key P key [] h = h
All-remove_key P key (k ∷ ks) h = rw remove_key-cons (ground (arith, All-remove_key P key ks h.1))

pub remove_key-IsSorted :
    (key : Bytes) (ks : List Bytes) → IsSorted ks → IsSorted (remove_key key ks)
unfolding remove_key
remove_key-IsSorted key [] h = h
remove_key-IsSorted key (k ∷ ks) h = rw remove_key-cons (
    ground
      (arith, remove_key-IsSorted key ks h.1, All-remove_key (λ j. str_lt k j ≡ true) key ks h.0))

-- Below all keys of a list, a key is not among them.
pub contains_below :
    (key : Bytes) (ks : List Bytes) → All (λ j. str_lt key j ≡ true) ks → contains key ks ≡ false
unfolding contains
contains_below key [] h = refl
contains_below key (k ∷ ks) h =
    ground (arith, contains_below key ks h.1, str_eq_iff key k, str_lt_irrefl key)

absent :
    (key k : Bytes) (ks : List Bytes)
    → str_lt key k ≡ true
    → All (λ j. str_lt k j ≡ true) ks
    → contains key ks ≡ false
absent key k ks lt h = contains_below key ks (above key k ks lt h)

contains-congr : (key j : Bytes) (ks : List Bytes) → key ≡ j → contains key ks ≡ contains j ks
contains-congr key j ks e = rw e

pub contains-remove_key :
    (key j : Bytes) (ks : List Bytes)
    → IsSorted ks
    → contains j (remove_key key ks) ≡ (if str_eq key j then false else contains j ks)
unfolding contains
contains-remove_key key j [] h = rw remove_key-nil (ground arith)
contains-remove_key key j (k ∷ ks) h = rw remove_key-cons (
    ground (
      arith,
      contains-remove_key key j ks h.1,
      contains-congr key j ks,
      contains-congr key k ks,
      str_eq_iff key j,
      str_eq_iff k key,
      str_eq_iff j k,
      str_lt_irrefl key,
      str_lt_total k key,
      str_lt_total k key,
      contains_below k ks h.0,
      λ (lt : str_lt key k ≡ true). absent key k ks lt h.0,
    ))

not_below :
    (key k : Bytes) (ks : List Bytes)
    → str_lt k key ≡ false
    → All (λ j. str_lt k j ≡ true) ks
    → All (λ j. not (str_lt j key) ≡ true) ks
not_below key k ks ge = All-map (λ j lt. ground (arith, str_lt_trans k j key lt)) ks

-- The keys not below a given one are those from the index that the search finds.
pub drop-search :
    (key : Bytes) (ks : List Bytes)
    → IsSorted ks
    → drop (search_strings ks key) ks ≡ select (λ k. not (str_lt k key)) ks
unfolding search_index select
drop-search key [] h = refl
drop-search key (k ∷ ks) h = elim (Bool-cases (str_lt k key)) [
  | inl lt ↦ rw lt (drop-search key ks h.1)
  | inr ge ↦ rw ge (ap (◌∷◌ k) (sym (select_every _ ks (not_below key k ks ge h.0))))
]

above_le :
    (key k : Bytes) (ks : List Bytes)
    → str_lt k key ≡ false
    → All (λ j. str_lt k j ≡ true) ks
    → All (λ j. str_lt key j ≡ true) ks
above_le key k ks ge =
    All-map (λ j lt. ground (arith, str_lt_trans key k j, str_lt_total k key, str_eq_iff k key)) ks

-- A listing that resumes after a key goes on with the keys above it.
pub start-resumed :
    (key : Bytes) (ks : List Bytes)
    → IsSorted ks
    → start true key ks ≡ select (λ k. str_lt key k) ks
unfolding start search_index select
start-resumed key [] h = refl
start-resumed key (k ∷ ks) h = elim (Bool-cases (str_lt k key)) [
  | inl lt ↦ rw lt (ground (arith, start-resumed key ks h.1, str_lt_asym k key lt))
  | inr ge ↦ rw ge (
      ground (
        arith,
        select_every (λ j. str_lt key j) ks (above_le key k ks ge h.0),
        str_lt_irrefl key,
        str_eq_iff k key,
        str_lt_total k key,
      ))
]

pub contains-select :
    (p : Bytes → Bool) (j : Bytes) (ks : List Bytes)
    → contains j (select p ks) ≡ contains j ks && p j
unfolding contains select
contains-select p j [] = refl
contains-select p j (k ∷ ks) =
    ground (arith, contains-select p j ks, str_eq_iff j k, ap p {x = j} {y = k})

pub select-IsSorted : (p : Bytes → Bool) (ks : List Bytes) → IsSorted ks → IsSorted (select p ks)
unfolding select
select-IsSorted p [] h = tt
select-IsSorted p (k ∷ ks) h =
    ground (arith, select-IsSorted p ks h.1, All-select p (λ j. str_lt k j ≡ true) ks h.0)
