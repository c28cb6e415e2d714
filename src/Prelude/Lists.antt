-- ===== src/Prelude/Lists.antt =====
-- Lists measured and indexed by native numbers, under the library's names; predicates over their
-- elements, and the selection of elements by a Boolean test.
use Prim.Native.Nat.{ℕ, zero, suc, ◌+◌, ◌-◌, ◌≤◌, min}
use mathlib.Core.Path.{◌≡◌, refl, ap}
use mathlib.Core.Bool.{Bool, true, false}
use mathlib.Core.List.{List, [], ◌∷◌, ◌++◌, map}
use mathlib.Core.Option.{Option, none, some}
use native.Mathlib.Omega.{arith}
use cloudrig.Prelude.Tests.{if◌then◌else◌}

module _ {ℓ} {A : Type ℓ} where
  abbrev pub length : List A → ℕ
  length [] = 0
  length (x ∷ xs) = suc (length xs)

  abbrev pub get_elem? : List A → ℕ → Option A
  get_elem? [] i = none
  get_elem? (x ∷ xs) zero = some x
  get_elem? (x ∷ xs) (suc i) = get_elem? xs i

  abbrev pub take : ℕ → List A → List A
  take zero xs = []
  take (suc n) [] = []
  take (suc n) (x ∷ xs) = x ∷ take n xs

  abbrev pub drop : ℕ → List A → List A
  drop zero xs = xs
  drop (suc n) [] = []
  drop (suc n) (x ∷ xs) = drop n xs

  abbrev pub replicate : ℕ → A → List A
  replicate zero a = []
  replicate (suc n) a = a ∷ replicate n a

  pub length-append : (xs ys : List A) → length (xs ++ ys) ≡ length xs + length ys
  length-append [] ys = omega arith
  length-append (x ∷ xs) ys = omega (arith, length-append xs ys)

  pub take-append-drop : (n : ℕ) (xs : List A) → take n xs ++ drop n xs ≡ xs
  take-append-drop zero xs = refl
  take-append-drop (suc n) [] = refl
  take-append-drop (suc n) (x ∷ xs) = ap (◌∷◌ x) (take-append-drop n xs)

  pub length-take : (n : ℕ) (xs : List A) → length (take n xs) ≡ min n (length xs)
  length-take zero xs = omega arith
  length-take (suc n) [] = omega arith
  length-take (suc n) (x ∷ xs) = omega (arith, length-take n xs)

  pub length-drop : (n : ℕ) (xs : List A) → length (drop n xs) ≡ length xs - n
  length-drop zero xs = omega arith
  length-drop (suc n) [] = omega arith
  length-drop (suc n) (x ∷ xs) = omega (arith, length-drop n xs)

  pub length-replicate : (n : ℕ) (a : A) → length (replicate n a) ≡ n
  length-replicate zero a = refl
  length-replicate (suc n) a = ap suc (length-replicate n a)

-- Every element satisfies the predicate.
module _ {ℓ κ} {A : Type ℓ} (P : A → Type κ) where
  abbrev pub All : List A → Type κ
  All [] = Unit
  All (x ∷ xs) = P x × All xs

  pub All-append : (xs ys : List A) → All xs → All ys → All (xs ++ ys)
  All-append [] ys hx hy = hy
  All-append (x ∷ xs) ys hx hy = (hx.0, All-append xs ys hx.1 hy)

pub All-map {ℓ κ μ} :
    {A : Type ℓ} {P : A → Type κ} {Q : A → Type μ} (f : (x : A) → P x → Q x) (xs : List A)
    → All P xs
    → All Q xs
All-map f [] h = tt
All-map f (x ∷ xs) h = (f x h.0, All-map f xs h.1)

-- The elements that pass a test, in order.
module _ {ℓ} {A : Type ℓ} (p : A → Bool) where
  unfoldable pub select : List A → List A
  select [] = []
  select (x ∷ xs) = let rest = select xs in if p x then x ∷ rest else rest

  -- The first index at which the test holds, or the length: what `sort.Search` returns on a list
  -- where the test, once true, stays true.
  unfoldable pub search_index : List A → ℕ
  search_index [] = 0
  search_index (x ∷ xs) = let rest = search_index xs in if p x then 0 else suc rest

  pub search_index-le : (xs : List A) → search_index xs ≤ length xs
  unfolding search_index
  search_index-le [] = omega arith
  search_index-le (x ∷ xs) = ground (arith, search_index-le xs)

  pub select-append : (xs ys : List A) → select (xs ++ ys) ≡ select xs ++ select ys
  unfolding select
  select-append [] ys = refl
  select-append (x ∷ xs) ys = ground (arith, select-append xs ys)

  pub All-select {κ} : (P : A → Type κ) (xs : List A) → All P xs → All P (select xs)
  unfolding select
  All-select P [] h = tt
  All-select P (x ∷ xs) h = ground (arith, All-select P xs h.1)

  pub select_every : (xs : List A) → All (λ x. p x ≡ true) xs → select xs ≡ xs
  unfolding select
  select_every [] h = refl
  select_every (x ∷ xs) h = ground (arith, select_every xs h.1)

  pub select_none : (xs : List A) → All (λ x. p x ≡ false) xs → select xs ≡ []
  unfolding select
  select_none [] h = refl
  select_none (x ∷ xs) h = ground (arith, select_none xs h.1)

module _ {ℓ} {A : Type ℓ} (p q : A → Bool) where
  -- Selecting by a stronger test after a weaker one.
  pub select-select :
      ((x : A) → q x ≡ true → p x ≡ true) → (xs : List A) → select q (select p xs) ≡ select q xs
  unfolding select
  select-select h [] = refl
  select-select h (x ∷ xs) = ground (arith, select-select h xs, h x)

  pub select_comm : (xs : List A) → select q (select p xs) ≡ select p (select q xs)
  unfolding select
  select_comm [] = refl
  select_comm (x ∷ xs) = ground (arith, select_comm xs)

pub select-map {ℓ κ} :
    {A : Type ℓ} {B : Type κ} (f : A → B) (p : B → Bool) (xs : List A)
    → select p (map f xs) ≡ map f (select (λ x. p (f x)) xs)
unfolding select
select-map f p [] = refl
select-map f p (x ∷ xs) = ground (arith, select-map f p xs)

pub take_whole {ℓ} : {A : Type ℓ} (n : ℕ) (xs : List A) → length xs ≤ n → take n xs ≡ xs
take_whole zero [] h = refl
take_whole zero (x ∷ xs) h = absurd (omega arith)
take_whole (suc n) [] h = refl
take_whole (suc n) (x ∷ xs) h = ap (◌∷◌ x) (take_whole n xs (omega arith))

pub take-append {ℓ} : {A : Type ℓ} (n : ℕ) (xs ys : List A) → length xs ≡ n → take n (xs ++ ys) ≡ xs
take-append zero [] ys h = refl
take-append zero (x ∷ xs) ys h = absurd (omega arith)
take-append (suc n) [] ys h = absurd (omega arith)
take-append (suc n) (x ∷ xs) ys h = ap (◌∷◌ x) (take-append n xs ys (omega arith))

pub select-All {ℓ} : {A : Type ℓ} (p : A → Bool) (xs : List A) → All (λ x. p x ≡ true) (select p xs)
unfolding select
select-All p [] = tt
select-All p (x ∷ xs) = ground (arith, select-All p xs)

pub drop-append_self {ℓ} :
    {A : Type ℓ} (n : ℕ) (xs ys : List A) → length xs ≡ n → drop n (xs ++ ys) ≡ ys
drop-append_self zero [] ys h = refl
drop-append_self zero (x ∷ xs) ys h = absurd (omega arith)
drop-append_self (suc n) [] ys h = absurd (omega arith)
drop-append_self (suc n) (x ∷ xs) ys h = drop-append_self n xs ys (omega arith)
