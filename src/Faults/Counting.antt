-- ===== src/Faults/Counting.antt =====
-- How often a rule of core/faults/faults.go fails the requests that it matches.
use cloudrig.Prelude.{
  ℕ, zero, suc, ◌+◌, ◌≤◌, ◌≡◌, ◌≢◌, ◌⊎◌, refl, ◌∙◌, ap, ap₂, Bool, true, false, inl, inr, Option,
  none, some, List, [], ◌∷◌, arith, leb, if◌then◌else◌, All, length, leb→le, Bool-cases,
}
use cloudrig.Prelude.Int.{ℤ, pos, negsuc, ◌-ℤ◌}
use cloudrig.Prelude.Bytes.{Bytes}
use cloudrig.Faults.{Rates, Rule, Live, matches, fails_request, spend, claim, match}

-- A request, by its method and path.
abbrev pub Request : Type 0
Request = Bytes × Bytes

-- Whether the server fails the request that Match has answered; a rule may only delay it.
abbrev pub is_failed : {R : Type 0} → Option (Rule R) → Bool
is_failed none = false
is_failed (some r) = fails_request r

-- A rule that does not merely delay: it has a status or a code, or no latency.
abbrev pub IsFailing : {R : Type 0} → Rule R → Type 0
IsFailing r = (r.status ≢ 0) ⊎ (r.code ≢ 0) ⊎ (r.latency ≡ 0)

fails_request-IsFailing : {R : Type 0} (r : Rule R) → IsFailing r → fails_request r ≡ true
unfolding fails_request
fails_request-IsFailing r h = ground arith

-- The first `n` requests are failed, and no other.
abbrev pub first_fail : ℕ → List Request → List Bool
first_fail n [] = []
first_fail zero (q ∷ qs) = false ∷ first_fail zero qs
first_fail (suc n) (q ∷ qs) = true ∷ first_fail n qs

-- How many requests of a sequence are failed.
abbrev pub failures : List Bool → ℕ
failures [] = 0
failures (b ∷ bs) = (if b then 1 else 0) + failures bs

module _ {R : Type 0} (rates : Rates R) where
  -- Whether each request of a sequence is failed.
  pub verdicts : List Request → List (Live R) → List Bool
  verdicts [] rules = []
  verdicts (q ∷ qs) rules =
      let (r, rules') = match rates q.0 q.1 rules in is_failed r ∷ verdicts qs rules'

  verdicts_disarmed : (qs : List Request) → verdicts qs [] ≡ first_fail zero qs
  unfolding verdicts match
  verdicts_disarmed [] = refl
  verdicts_disarmed (q ∷ qs) = ap (◌∷◌ false) (verdicts_disarmed qs)

  match_single :
      (q : Request) (l : Live R)
      → matches l.rule q.0 q.1 ≡ true
      → match rates q.0 q.1 (l ∷ []) ≡ claim rates l []
  unfolding match
  match_single q l m = rw m

  verdicts_step :
      (q : Request) (qs : List Request) (l : Live R) (r : Option (Rule R)) (rest : List (Live R))
      → matches l.rule q.0 q.1 ≡ true
      → claim rates l [] ≡ (r, rest)
      → verdicts (q ∷ qs) (l ∷ []) ≡ is_failed r ∷ verdicts qs rest
  unfolding verdicts
  verdicts_step q qs l r rest m e =
      ap (λ o. is_failed o.0 ∷ verdicts qs o.1) (match_single q l m ∙ e)

  -- The rule after it has failed one more request.
  abbrev spent : Live R → ℤ → Live R
  spent l left = record l { left = left; seen = l.seen + 1; failed = l.failed + 1 }

  claim_last :
      (l : Live R)
      → l.left ≡ pos 1
      → rates.is_positive l.rule.rate ≡ false
      → claim rates l [] ≡ (some l.rule, [])
  unfolding claim spend ◌-ℤ◌
  claim_last l e r = ground arith

  claim_more :
      (l : Live R) (n : ℕ)
      → l.left ≡ pos (suc (suc n))
      → rates.is_positive l.rule.rate ≡ false
      → claim rates l [] ≡ (some l.rule, spent l (pos (suc n)) ∷ [])
  unfolding claim spend ◌-ℤ◌
  claim_more l n e r = ground arith

  -- Where the only rule armed has a count and no rate and does not merely delay, the requests that
  -- it matches fail first, as many as the count has left, and no later one does.
  pub verdicts_counted :
      (qs : List Request) (l : Live R) (n : ℕ)
      → l.left ≡ pos (suc n)
      → rates.is_positive l.rule.rate ≡ false
      → IsFailing l.rule
      → All (λ q. matches l.rule q.0 q.1 ≡ true) qs
      → verdicts qs (l ∷ []) ≡ first_fail (suc n) qs
  verdicts_counted [] l n e r f h = unfold verdicts in refl
  verdicts_counted (q ∷ qs) l zero e r f h =
      verdicts_step q qs l _ [] h.0 (claim_last l e r)
      ∙ ap₂ ◌∷◌ (fails_request-IsFailing l.rule f) (verdicts_disarmed qs)
  verdicts_counted (q ∷ qs) l (suc n) e r f h =
      verdicts_step q qs l _ _ h.0 (claim_more l n e r)
      ∙ ap₂ ◌∷◌ (fails_request-IsFailing l.rule f)
          (verdicts_counted qs (spent l (pos (suc n))) n refl r f h.1)

  claim_rated :
      (l : Live R)
      → l.left ≡ negsuc 0
      → rates.is_positive l.rule.rate ≡ true
      → claim rates l [] ≡ (
          if leb (rates.quota (l.seen + 1) l.rule.rate) l.failed
          then (none, record l { seen = l.seen + 1 } ∷ [])
          else (some l.rule, spent l l.left ∷ []))
  unfolding claim spend
  claim_rated l e r = ground arith

  quota-congr :
      (l : Live R) (m n : ℕ) → m ≡ n → rates.quota m l.rule.rate ≡ rates.quota n l.rule.rate
  quota-congr l m n e = rw e

  -- Where the only rule armed has a rate but no count and does not merely delay, and its quota never
  -- falls and grows by at most one with each request, the rule has failed exactly its quota of the
  -- requests that it has seen, after any number of requests that it matches, if it had so before.
  pub failures_rated :
      (qs : List Request) (l : Live R)
      → l.left ≡ negsuc 0
      → rates.is_positive l.rule.rate ≡ true
      → IsFailing l.rule
      → All (λ q. matches l.rule q.0 q.1 ≡ true) qs
      → ((n : ℕ) → rates.quota n l.rule.rate ≤ rates.quota (n + 1) l.rule.rate)
      → ((n : ℕ) → rates.quota (n + 1) l.rule.rate ≤ rates.quota n l.rule.rate + 1)
      → l.failed ≡ rates.quota l.seen l.rule.rate
      → l.failed + failures (verdicts qs (l ∷ [])) ≡ rates.quota (l.seen + length qs) l.rule.rate
  failures_rated [] l e r f h up step now =
      unfold verdicts in omega (arith, quota-congr l (l.seen + 0) l.seen (omega arith), now)
  failures_rated (q ∷ qs) l e r f h up step now =
      elim (Bool-cases (leb (rates.quota (l.seen + 1) l.rule.rate) l.failed)) [
        | inl passes ↦
            let next = record l { seen = l.seen + 1 } in
            let rest =
              failures_rated qs next e r f h.1 up step
                (omega (arith, up l.seen, leb→le _ _ passes)) in
            rw (verdicts_step q qs l none (next ∷ []) h.0 (claim_rated l e r ∙ rw passes))
              (omega (arith, rest, shift))
        | inr fails ↦
            let next = spent l l.left in
            let rest =
              failures_rated qs next e r f h.1 up step (ground (arith, up l.seen, step l.seen)) in
            rw (verdicts_step q qs l (some l.rule) (next ∷ []) h.0 (claim_rated l e r ∙ rw fails))
              (rw (fails_request-IsFailing l.rule f) (omega (arith, rest, shift)))
      ]
    where
      shift :
          rates.quota (l.seen + 1 + length qs) l.rule.rate
          ≡ rates.quota (l.seen + suc (length qs)) l.rule.rate
      shift = quota-congr l (l.seen + 1 + length qs) (l.seen + suc (length qs)) (omega arith)
