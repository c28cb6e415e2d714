-- ===== src/Logging/Loops.antt =====
-- The loops of `and` and `or` in services/cloudlogging/filter.go on terms that are read.
use cloudrig.Prelude.{
  ℕ, zero, suc, ◌≤◌, ◌≡◌, refl, ◌∙◌, arith, Bool, true, false, not, ◌&&◌, ◌||◌, none, List, [], ◌∷◌,
  ◌++◌, length, if◌then◌else◌,
}
use cloudrig.Prelude.Bytes.{codes, str_eq}
use cloudrig.Logging.Tokens.{Token}
use cloudrig.Logging.Parser.{
  parsed, Parser, Predicate, keyword, holds_every, conjunction, or_loop, or, and_loop,
}
use cloudrig.Logging.Query.{keyword_token, close_paren, IsBegin}

pub both_hold : (b c : Bool) → (if not b then false else if not c then false else true) ≡ (b && c)
both_hold true true = refl
both_hold true false = refl
both_hold false c = refl

module _ (u : Parser) where
  pub or_loop_end :
      (f : ℕ) (p : Predicate) (toks : List Token)
      → keyword (codes "OR") toks ≡ none
      → or_loop u (suc f) p toks ≡ parsed p toks
  unfolding or_loop
  or_loop_end f p toks h = rw (h, or_loop) refl

  pub or_loop_more :
      (f : ℕ) (p q : Predicate) (more rest : List Token)
      → u more ≡ parsed q rest
      → or_loop u (suc f) p (keyword_token (codes "OR") ∷ more) ≡ or_loop u f (λ e. p e || q e) rest
  unfolding or_loop keyword str_eq
  or_loop_more f p q more rest e = rw e refl

  -- A term that no OR follows is a disjunction by itself.
  pub or_single :
      (toks rest : List Token) (p : Predicate)
      → u toks ≡ parsed p rest
      → keyword (codes "OR") rest ≡ none
      → or u toks ≡ parsed p rest
  unfolding or
  or_single toks rest p e h = rw e (or_loop_end (length rest) p rest h)

  pub or_pair :
      (toks more rest : List Token) (p q : Predicate)
      → u toks ≡ parsed p (keyword_token (codes "OR") ∷ more)
      → u more ≡ parsed q rest
      → keyword (codes "OR") rest ≡ none
      → or u toks ≡ parsed (λ e. p e || q e) rest
  unfolding or
  or_pair toks more rest p q e f h = rw e (
      or_loop_more (length (keyword_token (codes "OR") ∷ more)) p q more rest f
      ∙ or_loop_end (length more) (λ e. p e || q e) rest h)

  pub and_loop_next :
      (f : ℕ) (ps : List Predicate) (toks rest : List Token) (p : Predicate)
      → IsBegin toks
      → or u toks ≡ parsed p rest
      → and_loop u (suc f) ps toks ≡ and_loop u f (ps ++ p ∷ []) rest
  unfolding and_loop
  and_loop_next f ps [] rest p b e = absurd b
  and_loop_next f ps (t ∷ toks) rest p b e = rw (b.0) (rw (b.1) (rw e refl))

  -- The loop ends in front of a closing parenthesis, or of nothing.
  pub and_loop_close :
      (f : ℕ) (ps : List Predicate) (rest : List Token)
      → and_loop u (suc f) ps (close_paren ∷ rest) ≡ conjunction ps (close_paren ∷ rest)
  unfolding and_loop
  and_loop_close f ps rest = refl

  pub and_loop_one :
      (f : ℕ) (toks : List Token) (p : Predicate)
      → 2 ≤ f
      → IsBegin toks
      → or u toks ≡ parsed p []
      → and_loop u f [] toks ≡ parsed (holds_every (p ∷ [])) []
  unfolding and_loop
  and_loop_one zero toks p h b e = absurd (omega arith)
  and_loop_one (suc zero) toks p h b e = absurd (omega arith)
  and_loop_one (suc (suc f)) toks p h b e = and_loop_next (suc f) [] toks [] p b e

  pub and_loop_one_closed :
      (f : ℕ) (toks rest : List Token) (p : Predicate)
      → 2 ≤ f
      → IsBegin toks
      → or u toks ≡ parsed p (close_paren ∷ rest)
      → and_loop u f [] toks ≡ parsed (holds_every (p ∷ [])) (close_paren ∷ rest)
  and_loop_one_closed zero toks rest p h b e = absurd (omega arith)
  and_loop_one_closed (suc zero) toks rest p h b e = absurd (omega arith)
  and_loop_one_closed (suc (suc f)) toks rest p h b e =
      and_loop_next (suc f) [] toks (close_paren ∷ rest) p b e ∙ and_loop_close f (p ∷ []) rest

  pub and_loop_two :
      (f : ℕ) (toks more : List Token) (p q : Predicate)
      → 3 ≤ f
      → IsBegin toks
      → IsBegin more
      → or u toks ≡ parsed p more
      → or u more ≡ parsed q []
      → and_loop u f [] toks ≡ parsed (holds_every (p ∷ q ∷ [])) []
  unfolding and_loop
  and_loop_two zero toks more p q h b c d e = absurd (omega arith)
  and_loop_two (suc zero) toks more p q h b c d e = absurd (omega arith)
  and_loop_two (suc (suc zero)) toks more p q h b c d e = absurd (omega arith)
  and_loop_two (suc (suc (suc f))) toks more p q h b c d e =
      and_loop_next (suc (suc f)) [] toks more p b d ∙ and_loop_next (suc f) (p ∷ []) more [] q c e

  pub and_loop_two_closed :
      (f : ℕ) (toks more rest : List Token) (p q : Predicate)
      → 3 ≤ f
      → IsBegin toks
      → IsBegin more
      → or u toks ≡ parsed p more
      → or u more ≡ parsed q (close_paren ∷ rest)
      → and_loop u f [] toks ≡ parsed (holds_every (p ∷ q ∷ [])) (close_paren ∷ rest)
  and_loop_two_closed zero toks more rest p q h b c d e = absurd (omega arith)
  and_loop_two_closed (suc zero) toks more rest p q h b c d e = absurd (omega arith)
  and_loop_two_closed (suc (suc zero)) toks more rest p q h b c d e = absurd (omega arith)
  and_loop_two_closed (suc (suc (suc f))) toks more rest p q h b c d e =
      and_loop_next (suc (suc f)) [] toks more p b d
      ∙ and_loop_next (suc f) (p ∷ []) more (close_paren ∷ rest) q c e
      ∙ and_loop_close f (p ∷ q ∷ []) rest

pub keyword-begin : (toks : List Token) → IsBegin toks → keyword (codes "OR") toks ≡ none
keyword-begin [] b = absurd b
keyword-begin (t ∷ toks) b = b.2

pub holds_every_one : (p : Predicate) → holds_every (p ∷ []) ≡ p
unfolding holds_every
holds_every_one p =
    λ i e. elim (p e) as (λ b. (if not b then false else true) ≡ b) [ true ↦ refl | false ↦ refl ] i

pub holds_every_two : (p q : Predicate) → holds_every (p ∷ q ∷ []) ≡ (λ e. p e && q e)
unfolding holds_every
holds_every_two p q = λ i e. both_hold (p e) (q e) i
