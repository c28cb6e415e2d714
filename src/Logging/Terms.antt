-- ===== src/Logging/Terms.antt =====
-- The terms of services/cloudlogging/filter.go, on top of what `unary` reads a level down.
use cloudrig.Prelude.{
  suc, ◌≡◌, refl, ◌∙◌, ap, arith, true, not, ◌&&◌, ◌||◌, Option, none, some, List, ◌∷◌, length,
}
use cloudrig.Prelude.Bytes.{Bytes, codes, str_eq}
use cloudrig.Prelude.Int.{ℤ}
use cloudrig.Logging.Tokens.{Token, word, string, op, is_kind}
use cloudrig.Logging.Parser.{
  parsed, comparison, Parser, Predicate, keyword, strip_minus, and, simple_term, primary,
  unary_body,
}
use cloudrig.Logging.Query.{
  Query, keyword_token, open_paren, close_paren, print, IsField, IsBegin, length-print,
}
use cloudrig.Logging.Loops.{
  or_single, or_pair, and_loop_one_closed, and_loop_two_closed, keyword-begin, holds_every_one,
  holds_every_two,
}

pub field-keyword :
    (f : Token) (rest : List Token) → IsField f → keyword (codes "NOT") (f ∷ rest) ≡ none
unfolding keyword
field-keyword f rest h = ground arith

pub field-strip : (f : Token) (rest : List Token) → IsField f → strip_minus (f ∷ rest) ≡ none
unfolding strip_minus
field-strip f rest h = ground arith

module _ (pt : Bytes → Option ℤ) (u : Parser) where
  pub primary-test :
      (f o v : Token) (rest : List Token) (p : Predicate)
      → IsField f
      → is_kind op o ≡ true
      → (is_kind word v || is_kind string v) ≡ true
      → comparison pt f.text o.text v.text ≡ some p
      → primary pt u (f ∷ o ∷ v ∷ rest) ≡ parsed p rest
  unfolding primary simple_term
  primary-test f o v rest p h k l e = ground (arith, e)

  pub unary_body-test :
      (f o v : Token) (rest : List Token) (p : Predicate)
      → IsField f
      → is_kind op o ≡ true
      → (is_kind word v || is_kind string v) ≡ true
      → comparison pt f.text o.text v.text ≡ some p
      → unary_body pt u (f ∷ o ∷ v ∷ rest) ≡ parsed p rest
  unfolding unary_body
  unary_body-test f o v rest p h k l e =
      rw (field-keyword f (o ∷ v ∷ rest) h, unary_body)
        (rw (field-strip f (o ∷ v ∷ rest) h) (primary-test f o v rest p h k l e))

  pub unary_body-negation :
      (toks rest : List Token) (p : Predicate)
      → u toks ≡ parsed p rest
      → unary_body pt u (keyword_token (codes "NOT") ∷ toks) ≡ parsed (λ e. not (p e)) rest
  unfolding unary_body keyword str_eq
  unary_body-negation toks rest p e = rw e refl

  pub unary_body-group :
      (toks rest : List Token) (p : Predicate)
      → and u toks ≡ parsed p (close_paren ∷ rest)
      → unary_body pt u (open_paren ∷ toks) ≡ parsed p rest
  unfolding unary_body keyword strip_minus primary
  unary_body-group toks rest p e = rw e refl

  pub and-both :
      (a b : Query) (rest : List Token) (p q : Predicate)
      → IsBegin (print a (print b (close_paren ∷ rest)))
      → IsBegin (print b (close_paren ∷ rest))
      → u (print a (print b (close_paren ∷ rest))) ≡ parsed p (print b (close_paren ∷ rest))
      → u (print b (close_paren ∷ rest)) ≡ parsed q (close_paren ∷ rest)
      → and u (print a (print b (close_paren ∷ rest)))
        ≡ parsed (λ e. p e && q e) (close_paren ∷ rest)
  unfolding and keyword
  and-both a b rest p q ba bb e f =
      let more = print b (close_paren ∷ rest) in
      and_loop_two_closed u (suc (length (print a more))) (print a more) more rest p q
        (omega (arith, length-print a more, length-print b (close_paren ∷ rest))) ba bb
        (or_single u (print a more) more p e (keyword-begin more bb))
        (or_single u more (close_paren ∷ rest) q f refl)
      ∙ ap (λ r. parsed r (close_paren ∷ rest)) (holds_every_two p q)

  pub and-either :
      (a b : Query) (rest : List Token) (p q : Predicate)
      → IsBegin (print a (keyword_token (codes "OR") ∷ print b (close_paren ∷ rest)))
      → u (print a (keyword_token (codes "OR") ∷ print b (close_paren ∷ rest)))
        ≡ parsed p (keyword_token (codes "OR") ∷ print b (close_paren ∷ rest))
      → u (print b (close_paren ∷ rest)) ≡ parsed q (close_paren ∷ rest)
      → and u (print a (keyword_token (codes "OR") ∷ print b (close_paren ∷ rest)))
        ≡ parsed (λ e. p e || q e) (close_paren ∷ rest)
  unfolding and keyword
  and-either a b rest p q ba e f =
      let more = print b (close_paren ∷ rest) in
      let toks = print a (keyword_token (codes "OR") ∷ more) in
      and_loop_one_closed u (suc (length toks)) toks rest (λ e. p e || q e)
        (omega (arith, length-print a (keyword_token (codes "OR") ∷ more))) ba
        (or_pair u toks more (close_paren ∷ rest) p q e f refl)
      ∙ ap (λ r. parsed r (close_paren ∷ rest)) (holds_every_one (λ e. p e || q e))
