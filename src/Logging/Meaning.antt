-- ===== src/Logging/Meaning.antt =====
-- What the filters of services/cloudlogging/filter.go mean: the predicate that is read from the
-- tokens of a query.
use cloudrig.Prelude.{
  ℕ, zero, suc, ◌≡◌, refl, ◌∙◌, ap, arith, false, Option, none, some, List, [], ◌∷◌, length,
}
use cloudrig.Prelude.Bytes.{Bytes, codes}
use cloudrig.Prelude.Int.{ℤ}
use cloudrig.Logging.Tokens.{Token, lexed}
use cloudrig.Logging.Parser.{
  Parsed, parsed, then_parse, comparison, Predicate, keyword, or_else, and, unary, whole,
  parse_tokens,
}
use cloudrig.Logging.Query.{
  Query, test, negation, keyword_token, close_paren, print, IsReadable, meaning, IsBegin,
  print-IsBegin, length-print, both, either,
}
use cloudrig.Logging.Loops.{
  or_single, or_pair, and_loop_one, and_loop_two, keyword-begin, holds_every_one, holds_every_two,
}
use cloudrig.Logging.Terms.{
  unary_body-test, unary_body-negation, unary_body-group, and-both, and-either,
}

some-or_else :
    {A : Type 0} (d : A) (o : Option A) → ((p : A) × (o ≡ some p)) → o ≡ some (or_else o d)
some-or_else d none (p, e) = ground arith
some-or_else d (some a) h = refl

module _ (pt : Bytes → Option ℤ) where
  unary-print :
      (room : ℕ) (q : Query) (rest : List Token)
      → IsReadable pt room q
      → unary pt room (print q rest) ≡ parsed (meaning pt q) rest
  unfolding unary print
  unary-print zero q rest h = absurd h
  unary-print (suc room) (test f o v) rest h =
      unary_body-test pt (λ ts. unary pt room ts) f o v rest (meaning pt (test f o v)) h.0 h.1 h.2
        (some-or_else (λ e. false) (comparison pt f.text o.text v.text) h.3)
  unary-print (suc room) (negation q) rest h =
      unary_body-negation pt (λ ts. unary pt room ts) (print q rest) rest (meaning pt q)
        (unary-print room q rest h)
  unary-print (suc room) (both a b) rest h =
      let more = print b (close_paren ∷ rest) in
      unary_body-group pt (λ ts. unary pt room ts) (print a more) rest (meaning pt (both a b))
        (and-both pt (λ ts. unary pt room ts) a b rest (meaning pt a) (meaning pt b)
          (print-IsBegin pt room a more h.0) (print-IsBegin pt room b (close_paren ∷ rest) h.1)
          (unary-print room a more h.0) (unary-print room b (close_paren ∷ rest) h.1))
  unary-print (suc room) (either a b) rest h =
      let more = keyword_token (codes "OR") ∷ print b (close_paren ∷ rest) in
      unary_body-group pt (λ ts. unary pt room ts) (print a more) rest (meaning pt (either a b))
        (and-either pt (λ ts. unary pt room ts) a b rest (meaning pt a) (meaning pt b)
          (print-IsBegin pt room a more h.0) (unary-print room a more h.0)
          (unary-print room b (close_paren ∷ rest) h.1))

  then_whole :
      (p : Predicate) (r : Parsed Predicate) → r ≡ parsed p [] → then_parse r whole ≡ parsed p []
  then_whole p r e = rw e refl

  parse_tokens-begin :
      (toks : List Token)
      → IsBegin toks
      → parse_tokens pt (lexed toks) ≡ then_parse (and (unary pt 64) toks) whole
  unfolding parse_tokens
  parse_tokens-begin [] b = absurd b
  parse_tokens-begin (t ∷ toks) b = refl

  -- The tokens of a query, parenthesized throughout, are read as the predicate that the query
  -- means, if the query is readable within 64 levels of nesting.
  pub parse_tokens-print :
      (q : Query)
      → IsReadable pt 64 q
      → parse_tokens pt (lexed (print q [])) ≡ parsed (meaning pt q) []
  unfolding and keyword
  parse_tokens-print q h =
      let u = unary pt 64 in
      let toks = print q [] in
      let b = print-IsBegin pt 64 q [] h in
      parse_tokens-begin toks b
      ∙ then_whole (meaning pt q) (and u toks) (
          and_loop_one u (suc (length toks)) toks (meaning pt q) (omega (arith, length-print q []))
            b (or_single u toks [] (meaning pt q) (unary-print 64 q [] h) refl)
          ∙ ap (λ r. parsed r []) (holds_every_one (meaning pt q)))

  -- OR binds tighter than adjacency: `a OR b c` is read as (a OR b) and c, for queries a, b and c
  -- that are readable within 64 levels of nesting.
  pub or_binds_tighter :
      (a b c : Query)
      → IsReadable pt 64 a
      → IsReadable pt 64 b
      → IsReadable pt 64 c
      → parse_tokens pt (lexed (print a (keyword_token (codes "OR") ∷ print b (print c []))))
        ≡ parsed (meaning pt (both (either a b) c)) []
  unfolding and keyword
  or_binds_tighter a b c ha hb hc =
      let u = unary pt 64 in
      let last = print c [] in
      let more = print b last in
      let toks = print a (keyword_token (codes "OR") ∷ more) in
      let start = print-IsBegin pt 64 a (keyword_token (codes "OR") ∷ more) ha in
      let end = print-IsBegin pt 64 c [] hc in
      parse_tokens-begin toks start
      ∙ then_whole (meaning pt (both (either a b) c)) (and u toks) (
          and_loop_two u (suc (length toks)) toks last (meaning pt (either a b)) (meaning pt c)
            (omega (
              arith,
              length-print a (keyword_token (codes "OR") ∷ more),
              length-print b last,
              length-print c [],
            ))
            start end
            (or_pair u toks more last (meaning pt a) (meaning pt b)
              (unary-print 64 a (keyword_token (codes "OR") ∷ more) ha) (unary-print 64 b last hb)
              (keyword-begin last end))
            (or_single u last [] (meaning pt c) (unary-print 64 c [] hc) refl)
          ∙ ap (λ r. parsed r []) (holds_every_two (meaning pt (either a b)) (meaning pt c)))
