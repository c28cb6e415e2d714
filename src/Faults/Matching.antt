-- ===== src/Faults/Matching.antt =====
-- Which rule of core/faults/faults.go a request falls to, and what a snapshot keeps of the rules.
use cloudrig.Prelude.{
  ℕ, ◌≡◌, refl, sym, ◌+◌, ◌||◌, ◌∙◌, append-nil, append_assoc, ap, ap₂, Bool, true, false, ◌⊎◌,
  Option, none, some, List, suc, zero, leb, ◌&&◌, Bool-cases, inl, inr, [], ◌∷◌, ◌++◌, map, arith,
  ◌==◌, if◌then◌else◌, All, All-append,
}
use cloudrig.Prelude.Int.{ℤ, pos, negsuc, ◌-ℤ◌, ltb_ℤ}
use cloudrig.Prelude.Bytes.{Bytes}
use cloudrig.Gerr.{find_or, canonical_http}
use cloudrig.Faults.{
  Rates, Rule, Live, matches, arm, add, spend, claim, match, snapshot, kept_rule, rearm,
  restore_rules, clear, code_for,
}

-- A rate has no more failures to give, after as many requests as the rule has seen with this one.
abbrev pub is_gated : {R : Type 0} → Rates R → Live R → Bool
is_gated rates l =
    rates.is_positive l.rule.rate && leb (rates.quota (l.seen + 1) l.rule.rate) l.failed

count_cases :
    (left : ℤ)
    → ((left ≡ pos 1) ⊎ ((n : ℕ) × (left ≡ pos (suc (suc n))))) ⊎ (ltb_ℤ (pos 0) left ≡ false)
count_cases (pos zero) = inr refl
count_cases (pos (suc zero)) = inl (inl refl)
count_cases (pos (suc (suc n))) = inl (inr (n, refl))
count_cases (negsuc n) = inr (ground arith)

-- What a rule makes of a request that it matches, and what stays of the rule.
pub data Decides {R : Type 0} (rates : Rates R) (l : Live R)
    : Option (Rule R) → List (Live R) → Type 0 where
  passes : is_gated rates l ≡ true → Decides rates l none (record l { seen = l.seen + 1 } ∷ [])
  fails_last : is_gated rates l ≡ false → l.left ≡ pos 1 → Decides rates l (some l.rule) []
  fails_counted :
      (n : ℕ)
      → is_gated rates l ≡ false
      → l.left ≡ pos (suc (suc n))
      → Decides rates l
          (some l.rule)
          (record l { left = pos (suc n); seen = l.seen + 1; failed = l.failed + 1 } ∷ [])
  fails_uncounted :
      is_gated rates l ≡ false
      → ltb_ℤ (pos 0) l.left ≡ false
      → Decides rates l (some l.rule) (record l { seen = l.seen + 1; failed = l.failed + 1 } ∷ [])

claim-Decides :
    {R : Type 0} (rates : Rates R) (l : Live R) (rest : List (Live R))
    → (r : Option (Rule R)) × (left : List (Live R)) × Decides rates l r left
      × (claim rates l rest ≡ (r, left ++ rest))
unfolding claim spend ◌-ℤ◌
claim-Decides rates l rest = elim (Bool-cases (is_gated rates l)) [
  | inl gated ↦ (none, _, passes gated, ground arith)
  | inr due ↦ elim (count_cases l.left) [
    | inl (inl last) ↦ (some l.rule, [], fails_last due last, ground arith)
    | inl (inr (n, more)) ↦ (some l.rule, _, fails_counted n due more, ground arith)
    | inr never ↦ (some l.rule, _, fails_uncounted due never, ground arith)
  ]
]

module _ {R : Type 0} (rates : Rates R) (method path : Bytes) where
  -- A request that no rule matches passes and changes nothing.
  pub match-none :
      (rules : List (Live R))
      → All (λ l. matches l.rule method path ≡ false) rules
      → match rates method path rules ≡ (none, rules)
  unfolding match
  match-none [] h = refl
  match-none (l ∷ rest) h = ground (arith, match-none rest h.1)

  match-claim :
      (before : List (Live R)) (l : Live R) (rest : List (Live R))
      → All (λ x. matches x.rule method path ≡ false) before
      → matches l.rule method path ≡ true
      → match rates method path (before ++ (l ∷ rest))
        ≡ ((claim rates l rest).0, before ++ (claim rates l rest).1)
  unfolding match
  match-claim [] l rest h m = rw m
  match-claim (x ∷ before) l rest h m = ground (arith, match-claim before l rest h.1 m)

  -- The first rule that matches a request decides it alone: the request passes where the rule has a
  -- rate and has failed its quota, and is given that rule where not, which takes one of its firings,
  -- if they are counted. The rule goes with the last of them; the rules before it and after it stay
  -- as they are.
  pub match_first :
      (before : List (Live R)) (l : Live R) (rest : List (Live R))
      → All (λ x. matches x.rule method path ≡ false) before
      → matches l.rule method path ≡ true
      → (r : Option (Rule R)) × (left : List (Live R)) × Decides rates l r left
        × (match rates method path (before ++ (l ∷ rest)) ≡ (r, before ++ (left ++ rest)))
  match_first before l rest h m =
      let (r, left, d, e) = claim-Decides rates l rest in
      (r, left, d, match-claim before l rest h m ∙ ap (λ o. (o.0, before ++ o.1)) e)

module _ {R : Type 0} where
  -- A rule has firings left, or none are counted.
  abbrev pub IsArmed : Live R → Type 0
  IsArmed l =
      ((l.left ≡ negsuc 0) × (ltb_ℤ (pos 0) l.rule.count ≡ false)) ⊎ (ltb_ℤ (pos 0) l.left ≡ true)

  arm-IsArmed : (r : Rule R) → IsArmed (arm r)
  unfolding arm
  arm-IsArmed r = ground arith

  pub add-IsArmed :
      (r : Rule R) (rules : List (Live R)) → All IsArmed rules → All IsArmed (add r rules)
  unfolding add
  add-IsArmed r rules h = All-append IsArmed rules (arm r ∷ []) h (arm-IsArmed r, tt)

  spend-IsArmed :
      (l : Live R) (rest : List (Live R))
      → IsArmed l
      → All IsArmed rest
      → All IsArmed (spend l rest)
  unfolding spend ◌-ℤ◌
  spend-IsArmed l rest h k = ground arith

  claim-IsArmed :
      (rates : Rates R) (l : Live R) (rest : List (Live R))
      → IsArmed l
      → All IsArmed rest
      → All IsArmed (claim rates l rest).1
  unfolding claim
  claim-IsArmed rates l rest h k =
      ground (arith, spend-IsArmed (record l { seen = l.seen + 1; failed = l.failed + 1 }) rest h k)

  pub match-IsArmed :
      (rates : Rates R) (method path : Bytes) (rules : List (Live R))
      → All IsArmed rules
      → All IsArmed (match rates method path rules).1
  unfolding match
  match-IsArmed rates method path [] h = tt
  match-IsArmed rates method path (l ∷ rest) h =
      ground (arith, match-IsArmed rates method path rest h.1, claim-IsArmed rates l rest h.0 h.1)

  abbrev pub lefts : List (Live R) → List ℤ
  lefts = map (λ l. l.left)

  rearm-append : (rs : List (Rule R)) (rules : List (Live R)) → rearm rs rules ≡ rules ++ map arm rs
  unfolding rearm add
  rearm-append [] rules = sym (append-nil rules)
  rearm-append (r ∷ rs) rules =
      rearm-append rs (rules ++ arm r ∷ []) ∙ append_assoc rules (arm r ∷ []) (map arm rs)

  left-arm : (l : Live R) (r : Rule R) → r ≡ kept_rule l → IsArmed l → (arm r).left ≡ l.left
  unfolding arm kept_rule
  left-arm l r e h = ground arith

  lefts-snapshot :
      (rules : List (Live R)) → All IsArmed rules → lefts (map arm (snapshot rules)) ≡ lefts rules
  unfolding snapshot
  lefts-snapshot [] h = refl
  lefts-snapshot (l ∷ rest) h =
      ap₂ ◌∷◌ (left-arm l (kept_rule l) refl h.0) (unfold snapshot in lefts-snapshot rest h.1)

  -- Rules that are restored from a snapshot have as many firings left as the rules that it was
  -- taken of.
  pub lefts-rearm :
      (rules old : List (Live R))
      → All IsArmed rules
      → lefts (restore_rules (snapshot rules) old) ≡ lefts rules
  unfolding restore_rules clear
  lefts-rearm rules old h = ap lefts (rearm-append (snapshot rules) []) ∙ lefts-snapshot rules h

abbrev pub is_coded : ℕ → Bool
is_coded s =
    s == 400
    || s == 401
    || s == 403
    || s == 404
    || s == 409
    || s == 429
    || s == 500
    || s == 501
    || s == 504

-- The code that is derived from a status renders as that status again, and as 503 for a status
-- that has none.
canonical_http-code_for :
    (s : ℕ) → find_or 500 (code_for s) canonical_http ≡ (if is_coded s then s else 503)
unfolding code_for find_or canonical_http
canonical_http-code_for s = ground arith
