-- ===== src/Store.antt =====
-- store/store.go and store/memory.go: the versioned compare-and-swap map, held under one lock, so
-- that each operation is one step from a state to a result and a state. `m` is the Go map as a
-- function, `keys` the slice that `List` walks. What `ctx.Err()` returns is the first argument. A
-- nil slice is the empty list, and a limit of 0 stands for each limit that is not positive.

pub mod Keys
pub mod Invariant
pub mod Cas
pub mod Listing
pub mod Paging
pub mod Restoring
mod Tests
use cloudrig.Prelude.{
  ℕ, ◌+◌, ◌%◌, ◌^◌, Bool, true, false, not, ◌&&◌, Option, none, some, List, [], ◌∷◌, ◌++◌, map, ltb,
  ◌==◌, if◌then◌else◌, take, drop, length, get_elem?, search_index, suc, select,
}
use cloudrig.Prelude.Bytes.{Bytes, str_eq, str_lt, has_prefix}
use cloudrig.Base64.{encode, decode}

pub data Error : Type 0 where
  not_found version_mismatch invalid_page_token ctx_done : Error

pub data Result {ℓ} (A : Type ℓ) : Type ℓ where
  ok : A → Result A
  err : Error → Result A

pub record Entry : Type 0 where
  pub val : Bytes
  pub version : ℕ

pub record Kv : Type 0 where
  pub key : Bytes
  pub val : Bytes
  pub version : ℕ

abbrev pub Table : Type 0
Table = Bytes → Option Entry

pub record Memory : Type 0 where
  pub m : Table
  pub keys : List Bytes

unfoldable pub new_memory : Memory
new_memory = record { m = λ k. none; keys = [] }

abbrev pub is_some {ℓ} : {A : Type ℓ} → Option A → Bool
is_some none = false
is_some (some a) = true

-- m[k] = v, and delete(m, k) for `none`
abbrev pub update : Bytes → Option Entry → Table → Table
update k v m j = if str_eq k j then v else m j

-- The version of the zero entry that a Go map returns for an absent key is 0.
abbrev pub version_of : Option Entry → ℕ
version_of none = 0
version_of (some e) = e.version

unfoldable pub encode_token : Bytes → Bytes
encode_token key = encode key

unfoldable pub decode_or_fail : Option Bytes → Result Bytes
decode_or_fail none = err invalid_page_token
decode_or_fail (some b) = ok b

unfoldable pub decode_token : Bytes → Result Bytes
decode_token tok = decode_or_fail (decode tok)

-- `sort.SearchStrings` on the sorted keys
abbrev pub search_strings : List Bytes → Bytes → ℕ
search_strings keys key = search_index (λ k. not (str_lt k key)) keys

unfoldable pub insert_key : Bytes → List Bytes → List Bytes
insert_key key keys = let i = search_strings keys key in take i keys ++ (key ∷ drop i keys)

unfoldable pub key_at : Bytes → Option Bytes → Bool
key_at key none = false
key_at key (some k) = str_eq k key

unfoldable pub remove_key : Bytes → List Bytes → List Bytes
unfolding key_at
remove_key key keys =
    let i = search_strings keys key in
    if key_at key (get_elem? keys i) then take i keys ++ drop (suc i) keys else keys

unfoldable pub found : Option Entry → Result (Bytes × ℕ)
found none = err not_found
found (some e) = ok (e.val, e.version)

unfoldable pub get : Option Error → Bytes → Memory → Result (Bytes × ℕ)
get (some e) key s = err e
get none key s = found (s.m key)

abbrev pub next_version : Option Entry → ℕ
next_version e = (version_of e + 1) % 2 ^ 64

unfoldable pub write : Bytes → Bytes → Option Entry → Memory → Memory
write key val e s = record {
  m = update key (some (record { val = val; version = next_version e })) s.m;
  keys = if not (is_some e) then insert_key key s.keys else s.keys;
}

unfoldable pub put : Option Error → Bytes → Bytes → ℕ → Memory → Result ℕ × Memory
put (some e) key val if_version s = (err e, s)
put none key val if_version s =
    let e = s.m key in
    if if_version == 0 && is_some e
    then (err version_mismatch, s)
    else if not (if_version == 0) && not (is_some e)
    then (err version_mismatch, s)
    else if not (if_version == 0) && not (version_of e == if_version)
    then (err version_mismatch, s)
    else (ok (next_version e), write key val e s)

unfoldable pub delete : Option Error → Bytes → ℕ → Memory → Result (Unit {0}) × Memory
delete (some e) key if_version s = (err e, s)
delete none key if_version s =
    let e = s.m key in
    if not (is_some e)
    then (err not_found, s)
    else if not (if_version == 0) && not (version_of e == if_version)
    then (err version_mismatch, s)
    else (ok tt, record { m = update key none s.m; keys = remove_key key s.keys })

-- The `KV` of a key; a key without an entry reads as the zero entry.
abbrev pub entry_kv : Bytes → Option Entry → Kv
entry_kv k none = record { key = k; val = []; version = 0 }
entry_kv k (some e) = record { key = k; val = e.val; version = e.version }

abbrev pub kv_of : Table → Bytes → Kv
kv_of m k = entry_kv k (m k)

-- out[len(out)-1].Key
abbrev pub last_key : List Kv → Bytes
last_key [] = []
last_key (x ∷ []) = x.key
last_key (x ∷ y ∷ xs) = last_key (y ∷ xs)

-- The loop of `List` over the keys from index `i` on.
unfoldable pub scan : Table → Bytes → ℕ → List Kv → List Bytes → List Kv × Bytes
scan m prefix limit out [] = (out, [])
scan m prefix limit out (k ∷ ks) =
    let rest = scan m prefix limit (out ++ kv_of m k ∷ []) ks in
    if not (has_prefix prefix k)
    then (out, [])
    else if ltb 0 limit && length out == limit
    then (out, encode_token (last_key out))
    else rest

-- The keys from the index at which a listing starts: past `after` itself if a token named it.
unfoldable pub start : Bool → Bytes → List Bytes → List Bytes
unfolding key_at
start resumed after keys =
    let i = search_strings keys after in
    if resumed && key_at after (get_elem? keys i) then drop (suc i) keys else drop i keys

unfoldable pub list_after : Memory → Bytes → ℕ → Result Bytes → Result (List Kv × Bytes)
list_after s prefix limit (err e) = err e
list_after s prefix limit (ok decoded) =
    if not (has_prefix prefix decoded)
    then err invalid_page_token
    else ok (scan s.m prefix limit [] (start true decoded s.keys))

unfoldable pub list : Option Error → Bytes → ℕ → Bytes → Memory → Result (List Kv × Bytes)
list (some e) prefix limit page_token s = err e
list none prefix limit [] s = ok (scan s.m prefix limit [] (start false prefix s.keys))
list none prefix limit (c ∷ cs) s = list_after s prefix limit (decode_token (c ∷ cs))

-- The loop of `Reset`: the keys kept, and the map without the others.
pub drop_prefix : Bytes → List Bytes → Table → List Bytes × Table
drop_prefix p [] m = ([], m)
drop_prefix p (k ∷ ks) m =
    let rest = drop_prefix p ks (if has_prefix p k then update k none m else m) in
    (if has_prefix p k then rest.0 else k ∷ rest.0, rest.1)

pub reset : Option Error → Bytes → Memory → Result (Unit {0}) × Memory
reset (some e) prefix s = (err e, s)
reset none [] s = (ok tt, new_memory)
reset none (c ∷ cs) s =
    let kept = drop_prefix (c ∷ cs) s.keys s.m in (ok tt, record { m = kept.1; keys = kept.0 })

unfoldable pub snapshot : Memory → List Kv
snapshot s = map (kv_of s.m) s.keys

-- `sort.Strings`
pub sort_strings : List Bytes → List Bytes
sort_strings [] = []
sort_strings (k ∷ ks) = insert_key k (sort_strings ks)

-- The loop of `Restore`: a later entry for a key replaces an earlier one.
pub restore_loop : List Kv → Table → List Bytes → Table × List Bytes
restore_loop [] m keys = (m, keys)
restore_loop (e ∷ es) m keys =
    restore_loop es (update e.key (some (record { val = e.val; version = e.version })) m)
      (keys ++ e.key ∷ [])

pub restore : List Kv → Memory → Memory
restore entries s =
    let (m, keys) = restore_loop entries (λ k. none) [] in
    record { m = m; keys = sort_strings keys }
