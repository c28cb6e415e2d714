-- ===== src/Store/Listing.antt =====
-- One page of `List` of store/memory.go against its specification: the entries under the prefix
-- in key order, those past the token, cut at the limit.
use cloudrig.Prelude.{
  ℕ, ◌≤◌, ◌<◌, ◌≤◌, ◌<◌, ◌≡◌, ◌≢◌, refl, sym, ◌∙◌, ap, Bool, true, false, not, ◌&&◌, Option, none,
  some, List, [], ◌∷◌, ◌++◌, ◌⊎◌, fun_ext, select-All, arith, if◌then◌else◌, Bool-cases, inl, inr,
  length, take, select, All, All-map, ltb, ◌==◌, map, append_assoc, append-nil, select_none,
  select-select, select-map, take-append, length-append, select_comm,
}
use cloudrig.Prelude.Bytes.{Bytes, IsBytes, str_lt, has_prefix}
use cloudrig.Prelude.Bytes.Order.{prefix_not_lt, prefix_interval, str_lt_trans}
use cloudrig.Base64.{encode-ne-nil, decode-encode}
use cloudrig.Store.{
  ok, Kv, Table, Memory, kv_of, last_key, scan, start, list, list_after, decode_token,
  decode_or_fail, encode_token, snapshot, Entry, entry_kv,
}
use cloudrig.Store.Keys.{IsSorted, drop-search, start-resumed, select-IsSorted}
use cloudrig.Store.Invariant.{IsValid}

-- The entries under a prefix, in key order.
abbrev pub under : Bytes → Memory → List Kv
under prefix s = select (λ kv. has_prefix prefix kv.key) (snapshot s)

-- Those among some entries whose keys lie above a given key.
abbrev pub past : Bytes → List Kv → List Kv
past key = select (λ kv. str_lt key kv.key)

-- A page: all entries with no token if they fit the limit, else the first ones with a token that
-- names the last of them. A limit of 0 is none.
unfoldable pub page : ℕ → List Kv → List Kv × Bytes
page limit xs =
    if ltb 0 limit && ltb limit (length xs)
    then (take limit xs, encode_token (last_key (take limit xs)))
    else (xs, [])

-- Once a key lies above the prefix without having it, no later one has it.
prefix_ended :
    (p k : Bytes) (ks : List Bytes)
    → str_lt k p ≡ false
    → has_prefix p k ≡ false
    → All (λ j. str_lt k j ≡ true) ks
    → All (λ j. has_prefix p j ≡ false) ks
prefix_ended p k ks ge out = All-map (λ j lt. prefix_interval p k j ge out lt) ks

none_below :
    (p k : Bytes) (ks : List Bytes)
    → str_lt k p ≡ false
    → All (λ j. str_lt k j ≡ true) ks
    → All (λ j. str_lt j p ≡ false) ks
none_below p k ks ge = All-map (λ j lt. ground (arith, str_lt_trans k j p)) ks

-- The keys with the prefix come first among those not below it.
abbrev pub with_prefix : Bytes → List Bytes → List Bytes
with_prefix p = select (λ k. has_prefix p k)

-- The loop, from `out` on: it stops with a token when the page is full and an entry is left.
cut : ℕ → List Kv → List Kv → List Kv × Bytes
cut limit out [] = (out, [])
cut limit out (x ∷ xs) =
    let rest = cut limit (out ++ x ∷ []) xs in
    if ltb 0 limit && length out == limit then (out, encode_token (last_key out)) else rest

scan-cut :
    (m : Table) (p : Bytes) (limit : ℕ) (out : List Kv) (ks : List Bytes)
    → IsSorted ks
    → All (λ j. str_lt j p ≡ false) ks
    → scan m p limit out ks ≡ cut limit out (map (kv_of m) (with_prefix p ks))
unfolding scan cut select
scan-cut m p limit out [] h a = refl
scan-cut m p limit out (k ∷ ks) h a = elim (Bool-cases (has_prefix p k)) [
  | inl in_range ↦
      rw in_range (ground (arith, scan-cut m p limit (out ++ kv_of m k ∷ []) ks h.1 a.1))
  | inr ended ↦ rw ended (rw (select_none _ ks (prefix_ended p k ks a.0 ended h.0)) refl)
]

cut-page :
    (limit : ℕ) (out xs : List Kv)
    → (limit ≡ 0) ⊎ (length out ≤ limit)
    → cut limit out xs ≡ page limit (out ++ xs)
unfolding cut page
cut-page limit out [] h = rw append-nil (ground arith)
cut-page limit out (x ∷ xs) h = elim (Bool-cases (ltb 0 limit && length out == limit)) [
  | inl full ↦ rw full (ground (arith, length-append out (x ∷ xs), take-append limit out (x ∷ xs)))
  | inr room ↦ rw room (
      cut-page limit (out ++ x ∷ []) xs (ground (arith, length-append out (x ∷ [])))
      ∙ ap (page limit) (append_assoc out (x ∷ []) xs))
]

pub key-entry_kv : (k : Bytes) (e : Option Entry) → (entry_kv k e).key ≡ k
key-entry_kv k none = refl
key-entry_kv k (some e) = refl

pub select-kv_of :
    (q : Bytes → Bool) (m : Table) (ks : List Bytes)
    → select (λ kv. q kv.key) (map (kv_of m) ks) ≡ map (kv_of m) (select q ks)
select-kv_of q m ks =
    select-map (kv_of m) (λ kv. q kv.key) ks
    ∙ ap (λ (r : Bytes → Bool). map (kv_of m) (select r ks))
        (fun_ext λ k. ap q (key-entry_kv k (m k)))

pub under-map : (p : Bytes) (s : Memory) → under p s ≡ map (kv_of s.m) (with_prefix p s.keys)
unfolding snapshot
under-map p s = select-kv_of (has_prefix p) s.m s.keys

-- The loop over sorted keys, none of them below the prefix, gives the first page.
scan-page :
    (s : Memory) (p : Bytes) (limit : ℕ) (ks : List Bytes)
    → IsSorted ks
    → All (λ j. str_lt j p ≡ false) ks
    → scan s.m p limit [] ks ≡ page limit (map (kv_of s.m) (with_prefix p ks))
scan-page s p limit ks h a = scan-cut s.m p limit [] ks h a ∙ cut-page limit [] _ (ground arith)

not-true : (b : Bool) → not b ≡ true → b ≡ false
not-true b h = ground arith

-- The first page of a listing is the first page of the entries under the prefix.
pub list_first :
    (prefix : Bytes) (limit : ℕ) (s : Memory)
    → IsValid s
    → list none prefix limit [] s ≡ ok (page limit (under prefix s))
unfolding list start
list_first prefix limit s v =
    let from_prefix = select (λ k. not (str_lt k prefix)) s.keys in
    ap ok (
      ap (scan s.m prefix limit []) (drop-search prefix s.keys v.sorted)
      ∙ scan-page s prefix limit from_prefix (select-IsSorted _ s.keys v.sorted)
          (All-map (λ j. not-true (str_lt j prefix)) from_prefix (select-All _ s.keys))
      ∙ ap (λ ks. page limit (map (kv_of s.m) ks))
          (select-select _ _ (λ k h. ground (arith, prefix_not_lt prefix k h)) s.keys)
      ∙ ap (page limit) (sym (under-map prefix s)))

list-token :
    (prefix : Bytes) (limit : ℕ) (token : Bytes) (s : Memory)
    → token ≢ []
    → list none prefix limit token s ≡ list_after s prefix limit (decode_token token)
unfolding list
list-token prefix limit [] s h = absurd (h refl)
list-token prefix limit (c ∷ cs) s h = refl

pub encode_token-ne-nil : (key : Bytes) → key ≢ [] → encode_token key ≢ []
unfolding encode_token
encode_token-ne-nil key h = encode-ne-nil key h

decode-encode_token : (key : Bytes) → IsBytes key → decode_token (encode_token key) ≡ ok key
unfolding decode_token encode_token decode_or_fail
decode-encode_token key h = ap decode_or_fail (decode-encode key h)

-- A later page, by the token that names `key`, is the first page of the entries past `key`.
pub list_next :
    (prefix key : Bytes) (limit : ℕ) (s : Memory)
    → IsValid s
    → key ≢ []
    → IsBytes key
    → has_prefix prefix key ≡ true
    → list none prefix limit (encode_token key) s ≡ ok (page limit (past key (under prefix s)))
unfolding list_after
list_next prefix key limit s v nonempty bytes p =
    let above_key = select (λ k. str_lt key k) s.keys in
    list-token prefix limit (encode_token key) s (encode_token-ne-nil key nonempty)
    ∙ rw (decode-encode_token key bytes, p)
        (ap ok (
          ap (scan s.m prefix limit []) (start-resumed key s.keys v.sorted)
          ∙ scan-page s prefix limit above_key (select-IsSorted _ s.keys v.sorted) (
              All-map
                (λ j lt. ground (arith, prefix_not_lt prefix key p, str_lt_trans key j prefix lt))
                above_key (select-All _ s.keys))
          ∙ ap (λ ks. page limit (map (kv_of s.m) ks)) (select_comm _ _ s.keys)
          ∙ ap (page limit) (
              sym (
                ap (past key) (under-map prefix s)
                ∙ select-kv_of (str_lt key) s.m (with_prefix prefix s.keys)))))

pub page_fits : (limit : ℕ) (xs : List Kv) → length xs ≤ limit → page limit xs ≡ (xs, [])
unfolding page
page_fits limit xs h = ground arith

pub page_more :
    (limit : ℕ) (xs : List Kv)
    → 0 < limit
    → limit < length xs
    → page limit xs ≡ (take limit xs, encode_token (last_key (take limit xs)))
unfolding page
page_more limit xs h k = ground arith
