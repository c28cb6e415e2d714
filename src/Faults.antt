-- ===== src/Faults.antt =====
-- core/faults/faults.go: the rules that inject failures into responses. A rule's method is matched
-- by ASCII case folding. A rate and its two uses are a parameter: whether it is positive, and
-- `quota n r`, the whole part of n times r in floating point.
pub mod Matching
pub mod Counting
mod Tests
use cloudrig.Prelude.{
  ℕ, ◌+◌, Bool, true, false, not, ◌&&◌, ◌||◌, Option, none, some, List, [], ◌∷◌, ◌++◌, map, ◌==◌,
  leb, if◌then◌else◌, length,
}
use cloudrig.Prelude.Int.{ℤ, pos, negsuc, ◌-ℤ◌, ltb_ℤ, eqb_ℤ}
use cloudrig.Prelude.Bytes.{Bytes, str_eq, has_prefix, codes}
use cloudrig.Gerr.{to_lower, new_error, with_http_status, Error}

-- float64 as the rate gate uses it.
pub record Rates (R : Type 0) : Type 0 where
  pub is_positive : R → Bool
  pub quota : ℕ → R → ℕ

-- strings.EqualFold over ASCII
pub equal_fold : Bytes → Bytes → Bool
equal_fold s t = str_eq (map to_lower s) (map to_lower t)

abbrev pub is_empty : Bytes → Bool
is_empty [] = true
is_empty (c ∷ s) = false

-- strings.TrimSuffix(s, "*") where s ends in "*", and `none` where it does not.
pub cut_star : Bytes → Option Bytes
cut_star [] = none
cut_star (c ∷ []) = if c == b'*' then some [] else none
cut_star (c ∷ d ∷ s) = elim (cut_star (d ∷ s)) [ none ↦ none | some r ↦ some (c ∷ r) ]

pub path_matches : Bytes → Bytes → Bool
path_matches pattern path =
    if is_empty pattern
    then true
    else elim (cut_star pattern) [ some p ↦ has_prefix p path | none ↦ str_eq pattern path ]

-- codeFor
pub code_for : ℕ → ℕ
code_for status =
    if status == 400
    then 3
    else if status == 401
    then 16
    else if status == 403
    then 7
    else if status == 404
    then 5
    else if status == 409
    then 10
    else if status == 429
    then 8
    else if status == 500
    then 13
    else if status == 501
    then 12
    else if status == 504
    then 4
    else 14

-- Count may be negative, which is as good as zero. Statuses, codes and latencies are not.
pub record Rule (R : Type 0) : Type 0 where
  pub method : Bytes
  pub path : Bytes
  pub status : ℕ
  pub code : ℕ
  pub message : Bytes
  pub latency : ℕ
  pub count : ℤ
  pub rate : R

-- `left` is -1 where the firings are unlimited.
pub record Live (R : Type 0) : Type 0 where
  pub rule : Rule R
  pub left : ℤ
  pub seen : ℕ
  pub failed : ℕ

module _ {R : Type 0} where
  pub matches : Rule R → Bytes → Bytes → Bool
  matches r method path =
      if not (is_empty r.method) && not (equal_fold r.method method)
      then false
      else path_matches r.path path

  pub rule_status : Rule R → ℕ
  rule_status r = if r.status == 0 then 503 else r.status

  pub rule_message : Rule R → Bytes
  rule_message r = if is_empty r.message then codes "injected fault" else r.message

  pub rule_code : Rule R → ℕ
  rule_code r = if not (r.code == 0) then r.code else code_for (rule_status r)

  pub fails_request : Rule R → Bool
  fails_request r = not (r.status == 0) || not (r.code == 0) || r.latency == 0

  pub rule_err : Rule R → Error
  rule_err r = with_http_status (rule_status r) (new_error (rule_code r) (rule_message r))

  -- A new `live`: a count that is not positive has no limit.
  pub arm : Rule R → Live R
  arm r = record {
    rule = r;
    left = if ltb_ℤ (pos 0) r.count then r.count else negsuc 0;
    seen = 0;
    failed = 0;
  }

  pub add : Rule R → List (Live R) → List (Live R)
  add r rules = rules ++ arm r ∷ []

  pub clear : List (Live R) → List (Live R)
  clear rules = []

  pub set_len : List (Live R) → ℕ
  set_len rules = length rules

  -- What is left of a rule that has just failed a request: it goes when that was its last.
  pub spend : Live R → List (Live R) → List (Live R)
  spend l rest =
      if ltb_ℤ (pos 0) l.left
      then (if eqb_ℤ (l.left -ℤ pos 1) (pos 0)
          then rest
          else record l { left = l.left -ℤ pos 1 } ∷ rest)
      else l ∷ rest

  -- Match at the first rule that claims the request.
  pub claim : Rates R → Live R → List (Live R) → Option (Rule R) × List (Live R)
  claim rates l rest =
      let seen = record l { seen = l.seen + 1 } in
      if rates.is_positive l.rule.rate && leb (rates.quota (l.seen + 1) l.rule.rate) l.failed
      then (none, seen ∷ rest)
      else (some l.rule, spend (record seen { failed = l.failed + 1 }) rest)

  pub match : Rates R → Bytes → Bytes → List (Live R) → Option (Rule R) × List (Live R)
  match rates method path [] = (none, [])
  match rates method path (l ∷ rest) =
      let later = match rates method path rest in
      if not (matches l.rule method path) then (later.0, l ∷ later.1) else claim rates l rest

  -- The rule with its count set to the firings that are left.
  pub kept_rule : Live R → Rule R
  kept_rule l = if ltb_ℤ (pos 0) l.left then record l.rule { count = l.left } else l.rule

  pub snapshot : List (Live R) → List (Rule R)
  snapshot rules = map kept_rule rules

  -- The rules that a restore of the emulator's state arms, after it has cleared the old ones.
  pub rearm : List (Rule R) → List (Live R) → List (Live R)
  rearm [] rules = rules
  rearm (r ∷ rs) rules = rearm rs (add r rules)

  pub restore_rules : List (Rule R) → List (Live R) → List (Live R)
  restore_rules rs rules = rearm rs (clear rules)

  pub armed_rules : List (Live R) → List (Rule R)
  armed_rules rules = map (λ l. l.rule) rules
