-- ===== src/Store/Paging.antt =====
-- A client that follows the page tokens of `List` of store/memory.go until none is left, as the
-- loop over `exhausted` in services/storage/list.go does.
use cloudrig.Prelude.{
  ℕ, zero, suc, ◌<◌, ◌≡◌, ◌≢◌, refl, sym, ◌∙◌, ap, true, Option, none, some, List, [], ◌∷◌, ◌++◌,
  arith, Bool-cases, inl, inr, length, take, drop, select, All, All-select, ltb, map, append_assoc,
  select_every, take-append-drop, select-All, length-drop,
}
use cloudrig.Prelude.Bytes.{Bytes, IsBytes, str_lt, has_prefix}
use cloudrig.Prelude.Bytes.Order.{str_lt_irrefl, str_lt_asym}
use cloudrig.Store.{Result, ok, err, Kv, Table, Memory, kv_of, last_key, list, encode_token}
use cloudrig.Store.Keys.{IsSorted, select-IsSorted}
use cloudrig.Store.Invariant.{IsValid}
use cloudrig.Store.Listing.{
  under, past, under-map, key-entry_kv, page, page_fits, page_more, list_first, list_next,
  encode_token-ne-nil,
}

abbrev pub follow : Result (List Kv × Bytes) → (Bytes → Option (List Kv)) → Option (List Kv)
follow (err e) next = none
follow (ok (xs, [])) next = some xs
follow (ok (xs, c ∷ cs)) next = elim (next (c ∷ cs)) [ none ↦ none | some ys ↦ some (xs ++ ys) ]

-- `none` if a page fails or the fuel runs out.
unfoldable pub collect : ℕ → Bytes → ℕ → Bytes → Memory → Option (List Kv)
collect zero prefix limit token s = none
collect (suc fuel) prefix limit token s =
    follow (list none prefix limit token s) (λ t. collect fuel prefix limit t s)

-- A key that a page token can name.
abbrev pub IsNamed : Bytes → Type 0
IsNamed k = (k ≢ []) × IsBytes k

abbrev Rising : List Kv → Type 0
Rising [] = Unit
Rising (x ∷ xs) = All (λ y. str_lt x.key y.key ≡ true) xs × Rising xs

last_key-All {κ} :
    (P : Bytes → Type κ) (x : Kv) (xs ys : List Kv)
    → All (λ kv. P kv.key) ((x ∷ xs) ++ ys)
    → P (last_key (x ∷ xs))
last_key-All P x [] ys h = h.0
last_key-All P x (y ∷ xs) ys h = last_key-All P y xs ys h.1

past-append :
    (x : Kv) (xs ys : List Kv)
    → Rising ((x ∷ xs) ++ ys)
    → past (last_key (x ∷ xs)) ((x ∷ xs) ++ ys) ≡ ys
unfolding select
past-append x [] ys h = rw (str_lt_irrefl x.key) (select_every _ ys h.0)
past-append x (y ∷ xs) ys h =
    rw (str_lt_asym x.key _ (last_key-All (λ k. str_lt x.key k ≡ true) y xs ys h.0))
      (past-append y xs ys h.1)

last_key-append :
    (xs : List Kv) (y : Kv) (ys : List Kv) → last_key (xs ++ y ∷ ys) ≡ last_key (y ∷ ys)
last_key-append [] y ys = refl
last_key-append (x ∷ []) y ys = refl
last_key-append (x ∷ z ∷ xs) y ys = last_key-append (z ∷ xs) y ys

follow-token :
    (xs ys : List Kv) (token : Bytes) (next : Bytes → Option (List Kv))
    → token ≢ []
    → next token ≡ some ys
    → follow (ok (xs, token)) next ≡ some (xs ++ ys)
follow-token xs ys [] next h e = absurd (h refl)
follow-token xs ys (c ∷ cs) next h e = ground arith

module _ (prefix : Bytes) (limit : ℕ) (s : Memory) (valid : IsValid s) where
  next_page :
      (x : Kv) (xs ys : List Kv)
      → under prefix s ≡ (x ∷ xs) ++ ys
      → Rising (under prefix s)
      → All (λ kv. IsNamed kv.key × (has_prefix prefix kv.key ≡ true)) (under prefix s)
      → list none prefix (suc limit) (encode_token (last_key (x ∷ xs))) s ≡ ok (page (suc limit) ys)
  next_page x xs ys e rising named =
      let here =
        last_key-All (λ k. IsNamed k × (has_prefix prefix k ≡ true)) x xs ys (rw e at named) in
      list_next prefix (last_key (x ∷ xs)) (suc limit) s valid here.0.0 here.0.1 here.1
      ∙ ap (λ kvs. ok (page (suc limit) kvs))
          (ap (past (last_key (x ∷ xs))) e ∙ past-append x xs ys (rw e at rising))

  collect_rest :
      (fuel : ℕ) (x : Kv) (xs ys : List Kv)
      → under prefix s ≡ (x ∷ xs) ++ ys
      → Rising (under prefix s)
      → All (λ kv. IsNamed kv.key × (has_prefix prefix kv.key ≡ true)) (under prefix s)
      → length ys < fuel
      → collect fuel prefix (suc limit) (encode_token (last_key (x ∷ xs))) s ≡ some ys
  unfolding collect
  collect_rest zero x xs ys e rising named h = absurd (omega arith)
  collect_rest (suc fuel) x xs [] e rising named h =
      rw (next_page x xs [] e rising named, page_fits (suc limit) [] (omega arith))
  collect_rest (suc fuel) x xs (y ∷ ys) e rising named h =
      rw (next_page x xs (y ∷ ys) e rising named) (elim (Bool-cases (ltb limit (length ys))) [
        | inl more ↦ rw (page_more (suc limit) (y ∷ ys) (omega arith) (ground arith)) (
            follow-token (y ∷ take limit ys) (drop limit ys) _ _
              (encode_token-ne-nil _ (named_last.0.0))
              (ap (λ k. collect fuel prefix (suc limit) (encode_token k) s)
                  (sym (last_key-append (x ∷ xs) y (take limit ys)))
                ∙ collect_rest fuel x (xs ++ y ∷ take limit ys) (drop limit ys) split rising named
                    (omega (arith, length-drop limit ys)))
            ∙ ap (λ r. some (y ∷ r)) (take-append-drop limit ys))
        | inr fits ↦ rw (page_fits (suc limit) (y ∷ ys) (ground arith))
      ])
    where
      split : under prefix s ≡ (x ∷ (xs ++ y ∷ take limit ys)) ++ drop limit ys
      split =
          e
          ∙ ap (λ r. (x ∷ xs) ++ y ∷ r) (sym (take-append-drop limit ys))
          ∙ sym (append_assoc (x ∷ xs) (y ∷ take limit ys) (drop limit ys))

      named_last :
          IsNamed (last_key (y ∷ take limit ys))
          × (has_prefix prefix (last_key (y ∷ take limit ys)) ≡ true)
      named_last = rw (sym (last_key-append (x ∷ xs) y (take limit ys))) (
          last_key-All (λ k. IsNamed k × (has_prefix prefix k ≡ true)) x (xs ++ y ∷ take limit ys)
            (drop limit ys) (rw split at named))

All-kv_of {κ} :
    (P : Bytes → Type κ) (m : Table) (ks : List Bytes)
    → All P ks
    → All (λ kv. P kv.key) (map (kv_of m) ks)
All-kv_of P m [] h = tt
All-kv_of P m (k ∷ ks) h = (rw (key-entry_kv k (m k)) h.0, All-kv_of P m ks h.1)

Rising-kv_of : (m : Table) (ks : List Bytes) → IsSorted ks → Rising (map (kv_of m) ks)
Rising-kv_of m [] h = tt
Rising-kv_of m (k ∷ ks) h =
    (rw (key-entry_kv k (m k)) (All-kv_of (λ j. str_lt k j ≡ true) m ks h.0), Rising-kv_of m ks h.1)

Rising-under : (prefix : Bytes) (s : Memory) → IsValid s → Rising (under prefix s)
Rising-under prefix s v =
    rw under-map (Rising-kv_of s.m _ (select-IsSorted (has_prefix prefix) s.keys v.sorted))

All-and {κ μ} :
    (P : Bytes → Type κ) (Q : Bytes → Type μ) (ks : List Bytes)
    → All P ks
    → All Q ks
    → All (λ k. P k × Q k) ks
All-and P Q [] h k = tt
All-and P Q (x ∷ ks) h k = ((h.0, k.0), All-and P Q ks h.1 k.1)

IsNamed-under :
    (prefix : Bytes) (s : Memory)
    → All IsNamed s.keys
    → All (λ kv. IsNamed kv.key × (has_prefix prefix kv.key ≡ true)) (under prefix s)
IsNamed-under prefix s named = rw under-map (
    All-kv_of (λ k. IsNamed k × (has_prefix prefix k ≡ true)) s.m _
      (All-and IsNamed (λ k. has_prefix prefix k ≡ true) _
        (All-select (has_prefix prefix) IsNamed s.keys named)
        (select-All (has_prefix prefix) s.keys)))

collect_from_start :
    (fuel : ℕ) (prefix : Bytes) (limit : ℕ) (s : Memory) (us : List Kv)
    → under prefix s ≡ us
    → IsValid s
    → All IsNamed s.keys
    → length us < fuel
    → collect fuel prefix (suc limit) [] s ≡ some us
unfolding collect
collect_from_start zero prefix limit s us e v named h = absurd (omega arith)
collect_from_start (suc fuel) prefix limit s [] e v named h =
    rw (list_first prefix (suc limit) s v, e, page_fits (suc limit) [] (omega arith))
collect_from_start (suc fuel) prefix limit s (y ∷ ys) e v named h =
    rw (list_first prefix (suc limit) s v, e)
      (elim (Bool-cases (ltb limit (length ys))) [
        | inl more ↦ rw (page_more (suc limit) (y ∷ ys) (omega arith) (ground arith)) (
            follow-token (y ∷ take limit ys) (drop limit ys) _ _
              (encode_token-ne-nil _ named_last.0.0)
              (collect_rest prefix limit s v fuel y (take limit ys) (drop limit ys) split
                (Rising-under prefix s v) (IsNamed-under prefix s named)
                (omega (arith, length-drop limit ys)))
            ∙ ap (λ r. some (y ∷ r)) (take-append-drop limit ys))
        | inr fits ↦ rw (page_fits (suc limit) (y ∷ ys) (ground arith))
      ])
  where
    split : under prefix s ≡ (y ∷ take limit ys) ++ drop limit ys
    split = e ∙ ap (◌∷◌ y) (sym (take-append-drop limit ys))

    named_last :
        IsNamed (last_key (y ∷ take limit ys))
        × (has_prefix prefix (last_key (y ∷ take limit ys)) ≡ true)
    named_last =
        last_key-All (λ k. IsNamed k × (has_prefix prefix k ≡ true)) y (take limit ys)
          (drop limit ys) (rw split at (IsNamed-under prefix s named))

-- Following the page tokens with any positive limit gives every entry under the prefix once, in
-- key order, whatever the limit, in at most one call more than there are entries; the store is valid,
-- and its keys are bytes and none is empty.
pub collect-under :
    (fuel : ℕ) (prefix : Bytes) (limit : ℕ) (s : Memory)
    → IsValid s
    → All IsNamed s.keys
    → length (under prefix s) < fuel
    → collect fuel prefix (suc limit) [] s ≡ some (under prefix s)
collect-under fuel prefix limit s v named h =
    collect_from_start fuel prefix limit s (under prefix s) refl v named h
