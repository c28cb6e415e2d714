-- ===== src/Logging/Query.antt =====
-- Queries of services/cloudlogging/filter.go and their tokens.
use cloudrig.Prelude.{
  ℕ, zero, suc, ◌<◌, ◌≡◌, refl, arith, true, false, not, ◌&&◌, ◌||◌, Option, none, some, List, [],
  ◌∷◌, length,
}
use cloudrig.Prelude.Bytes.{Bytes, codes, str_eq, has_prefix}
use cloudrig.Prelude.Int.{ℤ}
use cloudrig.Logging.Tokens.{Token, word, string, op, lparen, rparen, is_kind}
use cloudrig.Logging.Parser.{comparison, Predicate, keyword, or_else}

-- A query: a comparison by its three tokens, or a compound of queries.
pub data Query : Type 0 where
  test : Token → Token → Token → Query
  negation : Query → Query
  both either : Query → Query → Query

abbrev pub keyword_token : Bytes → Token
keyword_token s = record { kind = word; text = s }

abbrev pub open_paren : Token
open_paren = record { kind = lparen; text = codes "(" }

abbrev pub close_paren : Token
close_paren = record { kind = rparen; text = codes ")" }

-- The tokens of a query in front of others.
unfoldable pub print : Query → List Token → List Token
print (test f o v) rest = f ∷ o ∷ v ∷ rest
print (negation q) rest = keyword_token (codes "NOT") ∷ print q rest
print (both a b) rest = open_paren ∷ print a (print b (close_paren ∷ rest))
print (either a b) rest =
    open_paren ∷ print a (keyword_token (codes "OR") ∷ print b (close_paren ∷ rest))

-- A field that is not taken for a keyword or a negation.
abbrev pub IsField : Token → Type 0
IsField t =
    (is_kind word t ≡ true)
    × (str_eq t.text (codes "AND") ≡ false)
    × (str_eq t.text (codes "OR") ≡ false)
    × (str_eq t.text (codes "NOT") ≡ false)
    × (has_prefix (codes "-") t.text ≡ false)

-- Readable within so many levels of nesting: its fields, operators and values go together.
abbrev pub IsReadable : (Bytes → Option ℤ) → ℕ → Query → Type 0
IsReadable pt zero q = ⊥
IsReadable pt (suc room) (test f o v) =
    IsField f
    × (is_kind op o ≡ true)
    × ((is_kind word v || is_kind string v) ≡ true)
    × ((p : Predicate) × (comparison pt f.text o.text v.text ≡ some p))
IsReadable pt (suc room) (negation q) = IsReadable pt room q
IsReadable pt (suc room) (both a b) = IsReadable pt room a × IsReadable pt room b
IsReadable pt (suc room) (either a b) = IsReadable pt room a × IsReadable pt room b

abbrev pub meaning : (Bytes → Option ℤ) → Query → Predicate
meaning pt (test f o v) = or_else (comparison pt f.text o.text v.text) (λ e. false)
meaning pt (negation q) = λ e. not (meaning pt q e)
meaning pt (both a b) = λ e. meaning pt a e && meaning pt b e
meaning pt (either a b) = λ e. meaning pt a e || meaning pt b e

-- The tokens begin neither with a closing parenthesis nor with AND or OR.
abbrev pub IsBegin : List Token → Type 0
IsBegin [] = ⊥
IsBegin (t ∷ toks) =
    (is_kind rparen t ≡ false)
    × (keyword (codes "AND") (t ∷ toks) ≡ none)
    × (keyword (codes "OR") (t ∷ toks) ≡ none)

pub print-IsBegin :
    (pt : Bytes → Option ℤ) (room : ℕ) (q : Query) (rest : List Token)
    → IsReadable pt room q
    → IsBegin (print q rest)
unfolding print keyword str_eq
print-IsBegin pt zero q rest h = absurd h
print-IsBegin pt (suc room) (test f o v) rest h = (ground arith, ground arith, ground arith)
print-IsBegin pt (suc room) (negation q) rest h = (refl, refl, refl)
print-IsBegin pt (suc room) (both a b) rest h = (refl, refl, refl)
print-IsBegin pt (suc room) (either a b) rest h = (refl, refl, refl)

pub length-print : (q : Query) (rest : List Token) → length rest < length (print q rest)
unfolding print
length-print (test f o v) rest = omega arith
length-print (negation q) rest = omega (arith, length-print q rest)
length-print (both a b) rest =
    omega
      (arith, length-print b (close_paren ∷ rest), length-print a (print b (close_paren ∷ rest)))
length-print (either a b) rest = omega (
  arith,
  length-print b (close_paren ∷ rest),
  length-print a (keyword_token (codes "OR") ∷ print b (close_paren ∷ rest)),
)
