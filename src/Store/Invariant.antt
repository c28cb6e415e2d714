-- ===== src/Store/Invariant.antt =====
-- The invariant of store/memory.go: the slice of keys is sorted, without repetition, and holds
-- just the keys of the map. Every operation keeps it.
use cloudrig.Prelude.{
  ℕ, ◌≡◌, refl, ap, not, ◌&&◌, Option, none, some, List, [], ◌∷◌, arith, if◌then◌else◌, select,
}
use cloudrig.Prelude.Bytes.{Bytes, has_prefix, str_eq_iff}
use cloudrig.Store.Keys.{
  IsSorted, contains, insert_key-IsSorted, contains-insert_key, remove_key-IsSorted,
  contains-remove_key, contains-select, select-IsSorted,
}
use cloudrig.Store.{
  Error, Entry, Table, Memory, new_memory, is_some, update, insert_key, remove_key, write, put,
  delete, drop_prefix, reset,
}

pub record IsValid (s : Memory) : Type 0 where
  pub sorted : IsSorted s.keys
  pub present : (k : Bytes) → contains k s.keys ≡ is_some (s.m k)

pub new_memory-IsValid : IsValid new_memory
unfolding new_memory contains
new_memory-IsValid = record { sorted = tt; present = λ k. refl }

write-IsSorted :
    (key : Bytes) (e : Option Entry) (keys : List Bytes)
    → IsSorted keys
    → contains key keys ≡ is_some e
    → IsSorted (if not (is_some e) then insert_key key keys else keys)
write-IsSorted key none keys h c = insert_key-IsSorted key keys c h
write-IsSorted key (some e) keys h c = h

write-present :
    (key j : Bytes) (e : Option Entry) (keys : List Bytes) (m : Table) (new : Entry)
    → ((k : Bytes) → contains k keys ≡ is_some (m k))
    → m key ≡ e
    → contains j (if not (is_some e) then insert_key key keys else keys)
      ≡ is_some (update key (some new) m j)
write-present key j none keys m new c h =
    rw contains-insert_key (ground (arith, c j, str_eq_iff key j, str_eq_iff j key))
write-present key j (some e) keys m new c h =
    ground (arith, c j, c key, str_eq_iff key j, ap (λ k. contains k keys) {x = key} {y = j})

write-IsValid : (key val : Bytes) (s : Memory) → IsValid s → IsValid (write key val (s.m key) s)
unfolding write
write-IsValid key val s v = record {
  sorted = write-IsSorted key (s.m key) s.keys v.sorted (v.present key);
  present = λ j. write-present key j (s.m key) s.keys s.m _ v.present refl;
}

-- A conditional write keeps the invariant, whether it succeeds or not.
pub put-IsValid :
    (ctx : Option Error) (key val : Bytes) (if_version : ℕ) (s : Memory)
    → IsValid s
    → IsValid (put ctx key val if_version s).1
unfolding put
put-IsValid (some e) key val n s v = v
put-IsValid none key val n s v = ground (arith, write-IsValid key val s v)

pub delete-IsValid :
    (ctx : Option Error) (key : Bytes) (if_version : ℕ) (s : Memory)
    → IsValid s
    → IsValid (delete ctx key if_version s).1
unfolding delete
delete-IsValid (some e) key n s v = v
delete-IsValid none key n s v = ground (arith, removed)
  where
    removed : IsValid (record { m = update key none s.m; keys = remove_key key s.keys })
    removed = record {
      sorted = remove_key-IsSorted key s.keys v.sorted;
      present = λ j. rw (contains-remove_key key j s.keys v.sorted) (ground (arith, v.present j));
    }

pub drop_prefix-keys :
    (p : Bytes) (ks : List Bytes) (m : Table)
    → (drop_prefix p ks m).0 ≡ select (λ k. not (has_prefix p k)) ks
unfolding drop_prefix select
drop_prefix-keys p [] m = refl
drop_prefix-keys p (k ∷ ks) m =
    ground (arith, drop_prefix-keys p ks (if has_prefix p k then update k none m else m))

pub drop_prefix-table :
    (p : Bytes) (ks : List Bytes) (m : Table) (j : Bytes)
    → (drop_prefix p ks m).1 j ≡ (if contains j ks && has_prefix p j then none else m j)
unfolding drop_prefix contains
drop_prefix-table p [] m j = refl
drop_prefix-table p (k ∷ ks) m j = ground (
  arith,
  drop_prefix-table p ks (if has_prefix p k then update k none m else m) j,
  str_eq_iff k j,
  str_eq_iff j k,
  ap (has_prefix p) {x = j} {y = k},
)

pub reset-IsValid :
    (ctx : Option Error) (prefix : Bytes) (s : Memory) → IsValid s → IsValid (reset ctx prefix s).1
unfolding reset
reset-IsValid (some e) p s v = v
reset-IsValid none [] s v = new_memory-IsValid
reset-IsValid none (c ∷ cs) s v = record {
  sorted = rw drop_prefix-keys (select-IsSorted (λ k. not (has_prefix (c ∷ cs) k)) s.keys v.sorted);
  present =
      λ j. rw (drop_prefix-keys, contains-select, drop_prefix-table) (ground (arith, v.present j));
}

-- A reset removes the entries under its prefix and no other.
pub m-reset :
    (prefix j : Bytes) (s : Memory)
    → IsValid s
    → (reset none prefix s).1.m j ≡ (if has_prefix prefix j then none else s.m j)
unfolding reset new_memory has_prefix
m-reset [] j s v = refl
m-reset (c ∷ cs) j s v = rw drop_prefix-table (ground (arith, v.present j))
