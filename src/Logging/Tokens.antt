-- ===== src/Logging/Tokens.antt =====
-- The tokens of services/cloudlogging/filter.go. The loops of `tokenize` go on from a suffix of
-- their text, and take its length and one more as fuel.

use cloudrig.Prelude.{
  ℕ, zero, suc, Bool, true, false, not, ◌||◌, List, [], ◌∷◌, ◌++◌, ◌==◌, length, if◌then◌else◌,
  drop,
}
use cloudrig.Prelude.Bytes.{Bytes, codes, has_prefix}

pub data Kind : Type 0 where
  word string op lparen rparen : Kind

-- tokKind is an int in the source.
abbrev pub rank : Kind → ℕ
rank word = 0
rank string = 1
rank op = 2
rank lparen = 3
rank rparen = 4

pub record Token : Type 0 where
  pub kind : Kind
  pub text : Bytes

abbrev pub is_kind : Kind → Token → Bool
is_kind k t = rank t.kind == rank k

pub data Lexed {ℓ} (A : Type ℓ) : Type ℓ where
  lexed : A → Lexed A
  unterminated : Lexed A
  starved : Lexed A

abbrev pub ops : List Bytes
ops = codes ">=" ∷ codes "<=" ∷ codes "!=" ∷ codes "=" ∷ codes ">" ∷ codes "<" ∷ codes ":" ∷ []

pub first_prefix : List Bytes → Bytes → Bytes
first_prefix [] s = []
first_prefix (o ∷ os) s = if has_prefix o s then o else first_prefix os s

-- opAt: the operator that the text begins with, or the empty text.
unfoldable pub op_at : Bytes → Bytes
unfolding first_prefix has_prefix
op_at s = first_prefix ops s

abbrev pub cons_first : ℕ → Lexed (Bytes × Bytes) → Lexed (Bytes × Bytes)
cons_first c (lexed (a, rest)) = lexed (c ∷ a, rest)
cons_first c unterminated = unterminated
cons_first c starved = starved

-- The loop of `quoted`, behind the opening quote: the value and the text behind the closing one.
unfoldable pub quoted : Bytes → Lexed (Bytes × Bytes)
quoted [] = unterminated
quoted (c ∷ []) =
    if c == b'\\' then unterminated else if c == b'"' then lexed ([], []) else unterminated
quoted (c ∷ d ∷ s) =
    let escaped = cons_first d (quoted s) in
    let plain = cons_first c (quoted (d ∷ s)) in
    if c == b'\\' then escaped else if c == b'"' then lexed ([], d ∷ s) else plain

abbrev pub is_space : ℕ → Bool
is_space c = c == b' ' || c == b'\t' || c == b'\n'

abbrev pub is_empty : Bytes → Bool
is_empty [] = true
is_empty (c ∷ s) = false

-- The loop over a word has ended: a blank, a parenthesis or an operator follows, or nothing.
unfoldable pub ends_word : Bytes → Bool
unfolding op_at
ends_word [] = true
ends_word (c ∷ s) = is_space c || c == b'(' || c == b')' || not (is_empty (op_at (c ∷ s)))

abbrev pub join : Bytes → Lexed (Bytes × Bytes) → Lexed (Bytes × Bytes)
join a (lexed (b, rest)) = lexed (a ++ b, rest)
join a unterminated = unterminated
join a starved = starved

abbrev pub then_lex {ℓ} : {A : Type ℓ} → Lexed (Bytes × Bytes) → (Bytes → Bytes → Lexed A) → Lexed A
then_lex (lexed (a, rest)) f = f a rest
then_lex unterminated f = unterminated
then_lex starved f = starved

-- The word at the beginning of a text, quoted parts joined, and the text behind it.
unfoldable pub read_word : ℕ → Bytes → Lexed (Bytes × Bytes)
read_word zero s = starved
read_word (suc f) [] = lexed ([], [])
read_word (suc f) (c ∷ s) =
    let part = then_lex (quoted s) (λ a rest. join a (read_word f rest)) in
    let plain = cons_first c (read_word f s) in
    if ends_word (c ∷ s) then lexed ([], c ∷ s) else if c == b'"' then part else plain

abbrev pub push : Token → Lexed (List Token) → Lexed (List Token)
push t (lexed ts) = lexed (t ∷ ts)
push t unterminated = unterminated
push t starved = starved

unfoldable pub tokens : ℕ → Bytes → Lexed (List Token)
tokens zero s = starved
tokens (suc f) [] = lexed []
tokens (suc f) (c ∷ s) =
    let skip = tokens f s in
    let open_paren = push (record { kind = lparen; text = codes "(" }) (tokens f s) in
    let close_paren = push (record { kind = rparen; text = codes ")" }) (tokens f s) in
    let quote =
      then_lex (quoted s) (λ a rest. push (record { kind = string; text = a }) (tokens f rest)) in
    let o = op_at (c ∷ s) in
    let operator = push (record { kind = op; text = o }) (tokens f (drop (length o) (c ∷ s))) in
    let text =
      then_lex (read_word (suc (length (c ∷ s))) (c ∷ s))
        (λ a rest. push (record { kind = word; text = a }) (tokens f rest)) in
    if is_space c
    then skip
    else if c == b'('
    then open_paren
    else if c == b')'
    then close_paren
    else if c == b'"'
    then quote
    else if not (is_empty o)
    then operator
    else text

unfoldable pub tokenize : Bytes → Lexed (List Token)
unfolding tokens
tokenize s = tokens (suc (length s)) s
