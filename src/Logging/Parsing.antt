-- ===== src/Logging/Parsing.antt =====
-- The parser of services/cloudlogging/filter.go ends, and what it leaves of the tokens.
use cloudrig.Prelude.{
  ltb, ℕ, zero, suc, ◌+◌, ◌-◌, ◌≤◌, ◌<◌, ◌≡◌, arith, not, ◌&&◌, ◌||◌, Option, none, some, List, [],
  ◌∷◌, ◌++◌, length, if◌then◌else◌,
}
use cloudrig.Prelude.Bytes.{Bytes, codes}
use cloudrig.Prelude.Int.{ℤ}
use cloudrig.Logging.Tokens.{
  word, op, string, Token, Lexed, lexed, unterminated, starved, lparen, rparen, is_kind, tokenize,
}
use cloudrig.Logging.Total.{Ends, tokenize-Ends, if-either}
use cloudrig.Logging.Parser.{
  Parsed, parsed, invalid, out_of_fuel, then_parse, comparison, Parser, Predicate, keyword,
  strip_minus, negated, conjunction, or_else, or_loop, or, and_loop, and, closing, accepted,
  simple_term, primary, unary_body, unary, whole, max_filter_length, parse_tokens, parse_filter,
}

-- A result with at most so many tokens left, or an error.
abbrev pub Within : ℕ → Parsed Predicate → Type 0
Within n (parsed a rest) = length rest ≤ n
Within n invalid = Unit {0}
Within n out_of_fuel = ⊥

Within-weak : (m n : ℕ) (p : Parsed Predicate) → m ≤ n → Within m p → Within n p
Within-weak m n (parsed a rest) le h = omega arith
Within-weak m n invalid le h = tt
Within-weak m n out_of_fuel le h = h

then_parse-Within :
    (m n : ℕ) (p : Parsed Predicate) (f : Predicate → List Token → Parsed Predicate)
    → Within m p
    → ((a : Predicate) (rest : List Token) → length rest ≤ m → Within n (f a rest))
    → Within n (then_parse p f)
then_parse-Within m n (parsed a rest) f h k = k a rest h
then_parse-Within m n invalid f h k = tt
then_parse-Within m n out_of_fuel f h k = h

-- What a parser of terms promises: of tokens that it accepts it takes at least one.
abbrev pub Takes : Parser → Type 0
Takes u = (toks : List Token) → Within (length toks - 1) (u toks)

-- A keyword, if it is there, is one token.
keyword-cases :
    (P : Option (List Token) → Type 0) (kw : Bytes) (toks : List Token)
    → P none
    → ((rest : List Token) → length rest + 1 ≡ length toks → P (some rest))
    → P (keyword kw toks)
unfolding keyword
keyword-cases P kw [] a b = a
keyword-cases P kw (t ∷ rest) a b = if-either P _ _ _ (b rest (omega arith)) a

conjunction-Within :
    (preds : List Predicate) (toks : List Token) (n : ℕ)
    → length toks ≤ n
    → Within n (conjunction preds toks)
conjunction-Within [] toks n h = tt
conjunction-Within (p ∷ ps) toks n h = h

module _ (u : Parser) (takes : Takes u) where
  or_loop-Within :
      (f : ℕ) (left : Predicate) (toks : List Token)
      → length toks < f
      → Within (length toks) (or_loop u f left toks)
  unfolding or_loop
  or_loop-Within zero left toks h = omega arith
  or_loop-Within (suc f) left toks h =
      keyword-cases
        (λ k. Within (length toks) (elim k [
          | none ↦ parsed left toks
          | some rest ↦
              then_parse (u rest) (λ right rest'. or_loop u f (λ e. left e || right e) rest')
        ]))
        (codes "OR") toks (omega arith)
        (λ rest e.
          then_parse-Within (length rest - 1) (length toks) (u rest) _ (takes rest)
            (λ right rest' le.
              Within-weak (length rest') (length toks) _ (omega arith)
                (or_loop-Within f _ rest' (omega arith))))

  or-Within : (toks : List Token) → Within (length toks - 1) (or u toks)
  unfolding or
  or-Within toks =
      then_parse-Within (length toks - 1) (length toks - 1) (u toks) _ (takes toks) (λ left rest le.
        Within-weak (length rest) (length toks - 1) _ le
          (or_loop-Within (suc (length rest)) left rest (omega arith)))

  and_loop-Within :
      (f : ℕ) (preds : List Predicate) (toks : List Token)
      → length toks < f
      → Within (length toks) (and_loop u f preds toks)
  unfolding and_loop
  and_loop-Within zero preds toks h = omega arith
  and_loop-Within (suc f) [] [] h = tt
  and_loop-Within (suc f) (p ∷ ps) [] h = omega arith
  and_loop-Within (suc f) preds (t ∷ rest) h =
      let next : (pred : Predicate) (rest' : List Token)
          → length rest' ≤ length rest
          → Within (length (t ∷ rest)) (and_loop u f (preds ++ pred ∷ []) rest') =
        λ pred rest' le.
          Within-weak (length rest') (length (t ∷ rest)) _ (omega arith)
            (and_loop-Within f _ rest' (omega arith)) in
      if-either (Within (length (t ∷ rest))) (is_kind rparen t) _ _
        (conjunction-Within preds (t ∷ rest) (length (t ∷ rest)) (omega arith))
        (keyword-cases
          (λ k. Within (length (t ∷ rest)) (
            then_parse (or u (or_else k (t ∷ rest)))
              (λ pred rest'. and_loop u f (preds ++ pred ∷ []) rest')))
          (codes "AND") (t ∷ rest)
          (then_parse-Within (length rest) (length (t ∷ rest)) (or u (t ∷ rest)) _
            (Within-weak (length (t ∷ rest) - 1) (length rest) _ (omega arith)
              (or-Within (t ∷ rest)))
            next)
          (λ toks e.
            then_parse-Within (length rest) (length (t ∷ rest)) (or u toks) _
              (Within-weak (length toks - 1) (length rest) _ (omega arith) (or-Within toks)) next))

  and-Within : (toks : List Token) → Within (length toks) (and u toks)
  unfolding and
  and-Within toks = and_loop-Within (suc (length toks)) [] toks (omega arith)

closing-Within : (p : Predicate) (toks : List Token) → Within (length toks) (closing p toks)
closing-Within p [] = tt
closing-Within p (t ∷ rest) =
    if-either (Within (length (t ∷ rest))) (not (is_kind rparen t)) _ _ tt (omega arith)

accepted-Within :
    (p : Option Predicate) (toks : List Token) → Within (length toks) (accepted p toks)
accepted-Within none toks = tt
accepted-Within (some p) toks = omega arith

negated-Within : (n : ℕ) (p : Parsed Predicate) → Within n p → Within n (negated p)
negated-Within n (parsed p rest) h = h
negated-Within n invalid h = tt
negated-Within n out_of_fuel h = h

whole-Within :
    {m : ℕ} (p : Predicate) (toks : List Token) → length toks ≤ m → Within 0 (whole p toks)
whole-Within p [] le = omega arith
whole-Within p (t ∷ toks) le = tt

strip_minus-cases :
    (P : Option (List Token) → Type 0) (toks : List Token)
    → P none
    → ((toks' : List Token) → length toks' ≡ length toks → P (some toks'))
    → P (strip_minus toks)
unfolding strip_minus
strip_minus-cases P [] a b = a
strip_minus-cases P (t ∷ rest) a b = if-either P _ _ _ (b _ (omega arith)) a

module _ (parse_time : Bytes → Option ℤ) where
  simple_term-Within :
      (t : Token) (toks : List Token) → Within (length toks) (simple_term parse_time t toks)
  unfolding simple_term
  simple_term-Within t [] = tt
  simple_term-Within t (o ∷ []) = tt
  simple_term-Within t (o ∷ val ∷ rest) =
      let n = length (o ∷ val ∷ rest) in
      let p = comparison parse_time t.text o.text val.text in
      let value = not (is_kind op o) || (not (is_kind word val) && not (is_kind string val)) in
      let read =
        Within-weak (length rest) n (accepted p rest) (omega arith) (accepted-Within p rest) in
      let checked = if value then invalid else accepted p rest in
      if-either (Within n) (not (is_kind word t)) invalid checked tt
        (if-either (Within n) value invalid (accepted p rest) tt read)

  primary-Takes : (u : Parser) → Takes u → Takes (primary parse_time u)
  unfolding primary
  primary-Takes u takes [] = tt
  primary-Takes u takes (t ∷ rest) =
      Within-weak (length rest) (length (t ∷ rest) - 1) _ (omega arith) (
        if-either (Within (length rest)) (is_kind lparen t) _ _
          (then_parse-Within (length rest) (length rest) (and u rest) _ (and-Within u takes rest)
            (λ p toks le. Within-weak (length toks) (length rest) _ le (closing-Within p toks)))
          (simple_term-Within t rest))

  unary_body-Takes : (u : Parser) → Takes u → Takes (unary_body parse_time u)
  unfolding unary_body
  unary_body-Takes u takes toks =
      let n = length toks - 1 in
      keyword-cases
        (λ k. Within n (elim k [
          | some rest ↦ negated (u rest)
          | none ↦ elim (strip_minus toks) [
            | some toks' ↦ negated (u toks')
            | none ↦ primary parse_time u toks
          ]
        ]))
        (codes "NOT") toks
        (strip_minus-cases
          (λ k.
            Within n (elim k [ some toks' ↦ negated (u toks') | none ↦ primary parse_time u toks ]))
          toks (primary-Takes u takes toks)
          (λ toks' e.
            negated-Within n (u toks')
              (Within-weak (length toks' - 1) n _ (omega arith) (takes toks'))))
        (λ rest e.
          negated-Within n (u rest) (Within-weak (length rest - 1) n _ (omega arith) (takes rest)))

  pub unary-Takes : (room : ℕ) → Takes (unary parse_time room)
  unfolding unary
  unary-Takes zero toks = tt
  unary-Takes (suc room) toks =
      unary_body-Takes (λ ts. unary parse_time room ts) (λ ts. unary-Takes room ts) toks

  parse_tokens-Ends : (l : Lexed (List Token)) → Ends l → Within 0 (parse_tokens parse_time l)
  unfolding parse_tokens
  parse_tokens-Ends starved h = h
  parse_tokens-Ends unterminated h = tt
  parse_tokens-Ends (lexed []) h = omega arith
  parse_tokens-Ends (lexed (t ∷ toks)) h =
      let u = unary parse_time 64 in
      then_parse-Within (length (t ∷ toks)) 0 (and u (t ∷ toks)) whole
        (and-Within u (unary-Takes 64) (t ∷ toks)) whole-Within

  -- Every filter is either refused or read to its end: the fuel of the loops, for the bytes and for
  -- the tokens that are left, is enough, and the limit on nesting bounds the recursion.
  pub parse_filter_total : (s : Bytes) → Within 0 (parse_filter parse_time s)
  unfolding parse_filter
  parse_filter_total s =
      if-either (Within 0) (ltb max_filter_length (length s)) invalid
        (parse_tokens parse_time (tokenize s)) tt (parse_tokens-Ends (tokenize s) (tokenize-Ends s))
