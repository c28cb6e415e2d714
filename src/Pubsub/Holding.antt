-- ===== src/Pubsub/Holding.antt =====
-- The leases of services/pubsub by their ack ids, which end in the number of the delivery.
use cloudrig.Prelude.{
  ℕ, ◌^◌, ◌≤◌, ◌<◌, ◌≡◌, refl, sym, ap, ◌∙◌, arith, Bool, Bool-cases, inl, inr, true, false, ◌&&◌,
  Option, none, some, List, [], ◌∷◌, ◌++◌, All-map, if◌then◌else◌,
}
use cloudrig.Prelude.Int.{ℤ, pos}
use cloudrig.Prelude.Bytes.{Bytes, str_eq, str_eq_iff, cut_last, cut_last-append, Lacks}
use cloudrig.Prelude.Decimal.{format_int, parse_int, parse_int-format_int, format_int-IsDigits}
use cloudrig.Pubsub.{Lease}
use cloudrig.Pubsub.Leases.{is_lease, lease_of, drop_lease}

-- The number at the end of an ack id.
pub ack_number : Bytes → Option ℤ
ack_number ack = elim (cut_last b'-' ack) [ none ↦ none | some (id, n) ↦ parse_int n ]

digits_Lacks : (n : ℕ) → Lacks b'-' (format_int n)
digits_Lacks n = All-map (λ c d. omega arith) (format_int n) (format_int-IsDigits n)

pub ack_number-ack :
    (id : Bytes) (n : ℕ) → n < 2 ^ 63 → ack_number (id ++ b'-' ∷ format_int n) ≡ some (pos n)
unfolding ack_number
ack_number-ack id n h =
    rw (cut_last-append b'-' id (format_int n) (digits_Lacks n), ack_number)
      (parse_int-format_int n h)

-- Each lease is numbered by a delivery up to `d`, and is the only one of its ids.
abbrev pub Fits : ℕ → List Lease → Type 0
Fits d [] = Unit
Fits d (l ∷ ls) =
    ((k : ℕ) × (ack_number l.ack ≡ some (pos k)) × (k ≤ d))
    × (lease_of l.sub l.ack ls ≡ none)
    × Fits d ls

some_number : {m n : ℕ} → ◌≡◌ {A = Option ℤ} (some (pos m)) (some (pos n)) → m ≡ n
some_number h = cc

pub Fits-mono : (d e : ℕ) (ls : List Lease) → d ≤ e → Fits d ls → Fits e ls
Fits-mono d e [] h f = tt
Fits-mono d e (l ∷ ls) h ((k, n, b), u, f) = ((k, n, omega arith), u, Fits-mono d e ls h f)

lease_of-drop_lease-none :
    (s a t b : Bytes) (ls : List Lease)
    → lease_of s a ls ≡ none
    → lease_of s a (drop_lease t b ls) ≡ none
unfolding lease_of drop_lease
lease_of-drop_lease-none s a t b [] h = refl
lease_of-drop_lease-none s a t b (l ∷ ls) h = elim (Bool-cases (is_lease s a l)) [
  | inl c ↦ ground arith
  | inr c ↦ ground (arith, lease_of-drop_lease-none s a t b ls (ground arith))
]

-- A lease that has been dropped is not there.
pub lease_of-drop_lease : (s a : Bytes) (ls : List Lease) → lease_of s a (drop_lease s a ls) ≡ none
unfolding lease_of drop_lease
lease_of-drop_lease s a [] = refl
lease_of-drop_lease s a (l ∷ ls) = ground (arith, lease_of-drop_lease s a ls)

pub drop_lease-Fits :
    (d : ℕ) (s a : Bytes) (ls : List Lease) → Fits d ls → Fits d (drop_lease s a ls)
unfolding drop_lease
drop_lease-Fits d s a [] f = tt
drop_lease-Fits d s a (l ∷ ls) (n, u, f) = elim (Bool-cases (is_lease s a l)) [
  | inl c ↦ rw c (drop_lease-Fits d s a ls f)
  | inr c ↦ rw c (n, lease_of-drop_lease-none l.sub l.ack s a ls u, drop_lease-Fits d s a ls f)
]

pub fresh_none :
    (d n : ℕ) (sub id : Bytes) (ls : List Lease)
    → d < n
    → n < 2 ^ 63
    → Fits d ls
    → lease_of sub (id ++ b'-' ∷ format_int n) ls ≡ none
unfolding lease_of
fresh_none d n sub id [] h w f = refl
fresh_none d n sub id (l ∷ ls) h w ((k, e, b), u, f) =
    elim (Bool-cases (str_eq l.ack (id ++ b'-' ∷ format_int n))) [
      | inl c ↦
          let same = (str_eq_iff l.ack (id ++ b'-' ∷ format_int n)).0 c in
          absurd (
            omega (
              arith,
              some_number {m = k} {n = n} (sym e ∙ (ap ack_number same ∙ ack_number-ack id n w)),
            ))
      | inr c ↦ ground (arith, fresh_none d n sub id ls h w f)
    ]

pub found_here :
    (b : Bool) (m l : Lease) (rest : Option Lease)
    → b ≡ true
    → (if b then some m else rest) ≡ some l
    → m ≡ l
found_here true m l rest c h = cc
found_here false m l rest c h = cc

both_true : (a b : Bool) → (a && b) ≡ true → (a ≡ true) × (b ≡ true)
both_true true b h = (refl, h)
both_true false b h = cc

-- A lease that is found under its own ids.
pub found_ids :
    (s a : Bytes) (l : Lease) (ls : List Lease)
    → lease_of s a ls ≡ some l
    → (l.sub ≡ s) × (l.ack ≡ a)
unfolding lease_of
found_ids s a l [] h = cc
found_ids s a l (m ∷ ls) h = elim (Bool-cases (is_lease s a m)) [
  | inl c ↦
      let same = found_here (is_lease s a m) m l (lease_of s a ls) c h in
      let (e, f) = both_true (str_eq m.sub s) (str_eq m.ack a) c in
      (
        ap (λ x. x.sub) (sym same) ∙ (str_eq_iff m.sub s).0 e,
        ap (λ x. x.ack) (sym same) ∙ (str_eq_iff m.ack a).0 f,
      )
  | inr c ↦ found_ids s a l ls (ground arith)
]

pub found_number :
    (d : ℕ) (s a : Bytes) (l : Lease) (ls : List Lease)
    → Fits d ls
    → lease_of s a ls ≡ some l
    → (k : ℕ) × (ack_number l.ack ≡ some (pos k)) × (k ≤ d)
unfolding lease_of
found_number d s a l [] f h = cc
found_number d s a l (m ∷ ls) (n, u, f) h = elim (Bool-cases (is_lease s a m)) [
  | inl c ↦
      let (k, e, b) = n in
      (
        k,
        ap (λ x. ack_number x.ack) (sym (found_here (is_lease s a m) m l (lease_of s a ls) c h))
            ∙ e,
        b,
      )
  | inr c ↦ found_number d s a l ls f (ground arith)
]
