-- ===== src/Store/Restoring.antt =====
-- `Snapshot` and `Restore` of store/memory.go.
use cloudrig.Prelude.{
  ◌≡◌, refl, sym, ◌∙◌, ap, ap₂, Bool, true, false, ◌||◌, Option, none, some, List, [], ◌∷◌, ◌++◌,
  arith, if◌then◌else◌, All, map, append_assoc, append-nil, fun_ext,
}
use cloudrig.Prelude.Bytes.{Bytes, str_lt, str_eq_iff, str_eq_refl}
use cloudrig.Prelude.Bytes.Order.{str_lt_asym}
use cloudrig.Store.{
  Entry, Kv, Table, Memory, is_some, kv_of, entry_kv, insert_key, snapshot, sort_strings,
  restore_loop, restore,
}
use cloudrig.Store.Keys.{
  IsSorted, contains, insert_key-IsSorted, contains-insert_key, insert_key-cons, insert_key-nil,
}
use cloudrig.Store.Listing.{key-entry_kv}
use cloudrig.Store.Invariant.{IsValid}

abbrev pub keys_of : List Kv → List Bytes
keys_of = map (λ kv. kv.key)

-- No key occurs twice.
abbrev pub Distinct : List Bytes → Type 0
Distinct [] = Unit
Distinct (k ∷ ks) = (contains k ks ≡ false) × Distinct ks

contains-sort_strings : (j : Bytes) (ks : List Bytes) → contains j (sort_strings ks) ≡ contains j ks
unfolding contains sort_strings
contains-sort_strings j [] = refl
contains-sort_strings j (k ∷ ks) =
    rw (contains-insert_key k j (sort_strings ks), contains-sort_strings j ks)

sort_strings-IsSorted : (ks : List Bytes) → Distinct ks → IsSorted (sort_strings ks)
unfolding sort_strings
sort_strings-IsSorted [] h = tt
sort_strings-IsSorted (k ∷ ks) h =
    insert_key-IsSorted k (sort_strings ks) (contains-sort_strings k ks ∙ h.0)
      (sort_strings-IsSorted ks h.1)

insert_key_first :
    (k : Bytes) (ks : List Bytes) → All (λ j. str_lt k j ≡ true) ks → insert_key k ks ≡ k ∷ ks
insert_key_first k [] h = insert_key-nil k
insert_key_first k (j ∷ ks) h = rw (insert_key-cons, str_lt_asym k j h.0)

sort_strings_sorted : (ks : List Bytes) → IsSorted ks → sort_strings ks ≡ ks
unfolding sort_strings
sort_strings_sorted [] h = refl
sort_strings_sorted (k ∷ ks) h = rw (sort_strings_sorted ks h.1) (insert_key_first k ks h.0)

restore_loop-keys :
    (es : List Kv) (m : Table) (acc : List Bytes) → (restore_loop es m acc).1 ≡ acc ++ keys_of es
unfolding restore_loop
restore_loop-keys [] m acc = sym (append-nil acc)
restore_loop-keys (e ∷ es) m acc =
    restore_loop-keys es _ (acc ++ e.key ∷ []) ∙ append_assoc acc (e.key ∷ []) (keys_of es)

restore_loop-present :
    (es : List Kv) (m : Table) (acc : List Bytes) (j : Bytes)
    → is_some ((restore_loop es m acc).0 j) ≡ contains j (keys_of es) || is_some (m j)
unfolding restore_loop contains
restore_loop-present [] m acc j = refl
restore_loop-present (e ∷ es) m acc j =
    restore_loop-present es _ (acc ++ e.key ∷ []) j
    ∙ ground (arith, str_eq_iff e.key j, str_eq_iff j e.key)

-- Restoring entries with distinct keys, in whatever order, gives a valid store.
pub restore-IsValid : (es : List Kv) (s : Memory) → Distinct (keys_of es) → IsValid (restore es s)
unfolding restore
restore-IsValid es s h = record {
  sorted = rw restore_loop-keys (sort_strings-IsSorted (keys_of es) h);
  present = λ j. rw (restore_loop-keys, contains-sort_strings, restore_loop-present) (ground arith);
}

entry_of_kv :
    (k : Bytes) (e : Option Entry)
    → is_some e ≡ true
    → some (record { val = (entry_kv k e).val; version = (entry_kv k e).version }) ≡ e
entry_of_kv k none h = cc
entry_of_kv k (some e) h = refl

-- The entry of a key that the walked keys hold is the one in the table that was walked.
restore_loop-kv_of :
    (from : Table) (ks : List Bytes) (m : Table) (acc : List Bytes) (j : Bytes)
    → ((k : Bytes) → contains k ks ≡ true → is_some (from k) ≡ true)
    → (restore_loop (map (kv_of from) ks) m acc).0 j ≡ (if contains j ks then from j else m j)
unfolding restore_loop contains
restore_loop-kv_of from [] m acc j h = refl
restore_loop-kv_of from (k ∷ ks) m acc j h =
    restore_loop-kv_of from ks _ (acc ++ (kv_of from k).key ∷ []) j (λ i c. h i (ground arith))
    ∙ rw (key-entry_kv k (from k), entry_of_kv k (from k) (h k (ground (arith, str_eq_refl k))))
        (ground (arith, str_eq_iff k j, str_eq_iff j k, ap from {x = k} {y = j}))

keys_of-snapshot : (m : Table) (ks : List Bytes) → keys_of (map (kv_of m) ks) ≡ ks
keys_of-snapshot m [] = refl
keys_of-snapshot m (k ∷ ks) = ap₂ ◌∷◌ (key-entry_kv k (m k)) (keys_of-snapshot m ks)

restored_table : (b : Bool) (e : Option Entry) → b ≡ is_some e → (if b then e else none) ≡ e
restored_table b e h = ground arith

-- Restoring a snapshot gives the store that it was taken of, versions included, whatever the
-- store held before.
pub restore-snapshot : (s old : Memory) → IsValid s → restore (snapshot s) old ≡ s
unfolding restore snapshot
restore-snapshot s old v = λ i. record { m = table i; keys = keys i }
  where
    table : (restore_loop (map (kv_of s.m) s.keys) (λ k. none) []).0 ≡ s.m
    table = fun_ext λ j.
        restore_loop-kv_of s.m s.keys (λ k. none) [] j (λ k c. sym (v.present k) ∙ c)
        ∙ restored_table (contains j s.keys) (s.m j) (v.present j)

    keys : sort_strings (restore_loop (map (kv_of s.m) s.keys) (λ k. none) []).1 ≡ s.keys
    keys =
        ap sort_strings (restore_loop-keys _ _ [] ∙ keys_of-snapshot s.m s.keys)
        ∙ sort_strings_sorted s.keys v.sorted
