-- ===== src/Faults/Tests.antt =====
-- Fault rules on concrete requests, and the theorems about them at inputs that meet their
-- hypotheses. A rate here is a fraction.
use cloudrig.Prelude.{ℕ, ◌+◌, ◌*◌, ◌/◌, ◌≡◌, refl, inr, ◌++◌, Option, List, [], ◌∷◌, arith, ltb}
use cloudrig.Prelude.Int.{pos}
use cloudrig.Prelude.Bytes.{codes, str_eq, has_prefix}
use cloudrig.Gerr.{to_lower}
use cloudrig.Faults.{Rates, Rule, arm, match, Live, matches, equal_fold, path_matches, cut_star}
use cloudrig.Faults.Matching.{match_first, Decides}
use cloudrig.Faults.Counting.{
  Request, verdicts, first_fail, verdicts_counted, failures, failures_rated,
}

-- Tenths
abbrev tenths : Rates ℕ
tenths = record { is_positive = λ r. ltb 0 r; quota = λ n r. n * r / 10 }

abbrev twice : Rule ℕ
twice = record {
  method = codes "get";
  path = codes "/storage/v1/*";
  status = 0;
  code = 0;
  message = [];
  latency = 0;
  count = pos 2;
  rate = 0;
}

abbrev fifth : Rule ℕ
fifth = record twice { count = pos 0; rate = 2 }

abbrev request : Request
request = (codes "GET", codes "/storage/v1/b")

abbrev requests : List Request
requests = request ∷ request ∷ request ∷ []

verdicts_counted_example : verdicts tenths requests (arm twice ∷ []) ≡ first_fail 2 requests
unfolding arm matches equal_fold path_matches cut_star to_lower str_eq has_prefix
verdicts_counted_example =
    verdicts_counted tenths requests (arm twice) 1 refl refl (inr (inr refl))
      (refl, (refl, (refl, tt)))

failures_rated_example : 0 + failures (verdicts tenths requests (arm fifth ∷ [])) ≡ 3 * 2 / 10
unfolding arm matches equal_fold path_matches cut_star to_lower str_eq has_prefix
failures_rated_example =
    failures_rated tenths requests (arm fifth) refl refl (inr (inr refl)) (refl, (refl, (refl, tt)))
      (λ n. omega arith) (λ n. omega arith) refl

abbrev other : Rule ℕ
other = record twice { method = codes "PUT" }

match_first_example :
    (r : Option (Rule ℕ)) × (left : List (Live ℕ)) × Decides tenths (arm twice) r left
    × (match tenths (codes "GET") (codes "/storage/v1/b") (arm other ∷ arm twice ∷ arm other ∷ [])
        ≡ (r, arm other ∷ (left ++ (arm other ∷ []))))
unfolding arm matches equal_fold path_matches cut_star to_lower str_eq has_prefix
match_first_example =
    match_first tenths (codes "GET") (codes "/storage/v1/b") (arm other ∷ []) (arm twice)
      (arm other ∷ []) (refl, tt) refl
