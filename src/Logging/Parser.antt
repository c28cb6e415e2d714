-- ===== src/Logging/Parser.antt =====
-- The parser of services/cloudlogging/filter.go. Its state is the rest of the tokens. `nest` counts
-- up to MaxFilterDepth and `leave` back down, so that each call of `unary` knows the levels that
-- are left, the number `room`. The loops take fuel, the tokens left and one more.
use cloudrig.Prelude.{
  ℕ, zero, suc, Bool, true, false, not, ◌&&◌, ◌||◌, Option, none, some, List, [], ◌∷◌, ◌++◌, ltb,
  length, if◌then◌else◌, drop, map,
}
use cloudrig.Prelude.Bytes.{Bytes, codes, str_eq, has_prefix, cut_prefix}
use cloudrig.Prelude.Int.{ℤ, pos, negsuc, ltb_ℤ, eqb_ℤ, ◌-ℤ◌}
use cloudrig.Gerr.{to_lower, to_upper}
use cloudrig.Logging.Tokens.{
  word, string, op, lparen, rparen, Token, Lexed, lexed, unterminated, starved, tokenize, is_kind,
}

-- What a filter reads of an entry. A label that is not there reads as the empty text.
pub record LogEntry : Type 0 where
  pub log_name : Bytes
  pub resource_type : Bytes
  pub resource_labels : Bytes → Bytes
  pub labels : Bytes → Bytes
  pub insert_id : Bytes
  pub trace : Bytes
  pub text_payload : Bytes
  pub severity : Bytes
  pub timestamp : ℤ
  pub receive_timestamp : ℤ

abbrev pub Predicate : Type 0
Predicate = LogEntry → Bool

unfoldable pub severity_rank : List (Bytes × ℕ)
severity_rank =
    (codes "DEFAULT", 0)
    ∷ (codes "DEBUG", 100)
    ∷ (codes "INFO", 200)
    ∷ (codes "NOTICE", 300)
    ∷ (codes "WARNING", 400)
    ∷ (codes "ERROR", 500)
    ∷ (codes "CRITICAL", 600)
    ∷ (codes "ALERT", 700)
    ∷ (codes "EMERGENCY", 800)
    ∷ []

unfoldable pub rank_of : List (Bytes × ℕ) → Bytes → Option ℕ
rank_of [] s = none
rank_of ((k, v) ∷ m) s = let rest = rank_of m s in if str_eq k s then some v else rest

abbrev pub or_zero : Option ℕ → ℕ
or_zero none = 0
or_zero (some n) = n

abbrev pub as_int : Option ℕ → Option ℤ
as_int none = none
as_int (some n) = some (pos n)

-- compare: a test on the sign of got - want.
unfoldable pub compare_op : Bytes → Option (ℤ → Bool)
compare_op o =
    if str_eq o (codes "=") || str_eq o (codes ":")
    then some (λ d. eqb_ℤ d (pos 0))
    else if str_eq o (codes "!=")
    then some (λ d. not (eqb_ℤ d (pos 0)))
    else if str_eq o (codes ">")
    then some (λ d. ltb_ℤ (pos 0) d)
    else if str_eq o (codes ">=")
    then some (λ d. not (ltb_ℤ d (pos 0)))
    else if str_eq o (codes "<")
    then some (λ d. ltb_ℤ d (pos 0))
    else if str_eq o (codes "<=")
    then some (λ d. not (ltb_ℤ (pos 0) d))
    else none

unfoldable pub contains : Bytes → Bytes → Bool
contains want [] = has_prefix want []
contains want (c ∷ s) = has_prefix want (c ∷ s) || contains want s

-- A label of the entry, if the field begins with the words that introduce one.
abbrev pub label_field :
    Option Bytes
    → (Bytes → LogEntry → Bytes)
    → Option (LogEntry → Bytes)
    → Option (LogEntry → Bytes)
label_field none f other = other
label_field (some name) f other = some (f name)

unfoldable pub string_field : Bytes → Option (LogEntry → Bytes)
string_field field =
    if str_eq field (codes "logName")
    then some (λ e. e.log_name)
    else if str_eq field (codes "resource.type")
    then some (λ e. e.resource_type)
    else if str_eq field (codes "insertId")
    then some (λ e. e.insert_id)
    else if str_eq field (codes "trace")
    then some (λ e. e.trace)
    else if str_eq field (codes "textPayload")
    then some (λ e. e.text_payload)
    else label_field (cut_prefix (codes "resource.labels.") field) (λ n e. e.resource_labels n)
        (label_field (cut_prefix (codes "labels.") field) (λ n e. e.labels n) none)

unfoldable pub text_cmp : Option (LogEntry → Bytes) → Bytes → Bytes → Option Predicate
text_cmp none o val = none
text_cmp (some get) o val =
    if str_eq o (codes "=")
    then some (λ e. str_eq (get e) val)
    else if str_eq o (codes "!=")
    then some (λ e. not (str_eq (get e) val))
    else if str_eq o (codes ":")
    then some (λ e. contains (map to_lower val) (map to_lower (get e)))
    else none

-- The test of an operator on what an entry gives, if both the value and the operator are known.
abbrev pub tested : Option ℤ → Option (ℤ → Bool) → (ℤ → LogEntry → ℤ) → Option Predicate
tested none test got = none
tested (some want) none got = none
tested (some want) (some test) got = some (λ e. test (got want e))

unfoldable pub severity_cmp : Bytes → Bytes → Option Predicate
severity_cmp o val =
    tested (as_int (rank_of severity_rank (map to_upper val))) (compare_op o)
      (λ want e. pos (or_zero (rank_of severity_rank e.severity)) -ℤ want)

-- (time.Time).Compare
pub compare_time : ℤ → ℤ → ℤ
compare_time a b = if ltb_ℤ a b then negsuc 0 else if ltb_ℤ b a then pos 1 else pos 0

module _ (parse_time : Bytes → Option ℤ) where
  unfoldable pub time_cmp : Bytes → Bytes → Bytes → Option Predicate
  time_cmp field o val = tested (parse_time val) (compare_op o) (λ want e.
      compare_time
        (if str_eq field (codes "receiveTimestamp") then e.receive_timestamp else e.timestamp) want)

  unfoldable pub comparison : Bytes → Bytes → Bytes → Option Predicate
  comparison field o val =
      if str_eq field (codes "severity")
      then severity_cmp o val
      else if str_eq field (codes "timestamp") || str_eq field (codes "receiveTimestamp")
      then time_cmp field o val
      else text_cmp (string_field field) o val

-- What a parsing function returns: what it has read and the tokens that are left, an error, or no
-- end within the fuel.
pub data Parsed {ℓ} (A : Type ℓ) : Type ℓ where
  parsed : A → List Token → Parsed A
  invalid : Parsed A
  out_of_fuel : Parsed A

abbrev pub then_parse {ℓ κ} :
    {A : Type ℓ} {B : Type κ} → Parsed A → (A → List Token → Parsed B) → Parsed B
then_parse (parsed a rest) f = f a rest
then_parse invalid f = invalid
then_parse out_of_fuel f = out_of_fuel

abbrev pub Parser : Type 0
Parser = List Token → Parsed Predicate

-- keyword: the tokens behind a keyword.
unfoldable pub keyword : Bytes → List Token → Option (List Token)
keyword kw [] = none
keyword kw (t ∷ rest) = if is_kind word t && str_eq t.text kw then some rest else none

-- The tokens without the minus that the first one begins with.
unfoldable pub strip_minus : List Token → Option (List Token)
strip_minus [] = none
strip_minus (t ∷ rest) =
    if is_kind word t && has_prefix (codes "-") t.text && ltb 1 (length t.text)
    then some (record t { text = drop 1 t.text } ∷ rest)
    else none

abbrev pub negated : Parsed Predicate → Parsed Predicate
negated p = then_parse p (λ inner rest. parsed (λ e. not (inner e)) rest)

unfoldable pub holds_every : List Predicate → Predicate
holds_every [] e = true
holds_every (p ∷ ps) e = if not (p e) then false else holds_every ps e

-- The end of `and`: an error if it has read nothing.
abbrev pub conjunction : List Predicate → List Token → Parsed Predicate
conjunction [] rest = invalid
conjunction (p ∷ ps) rest = parsed (holds_every (p ∷ ps)) rest

abbrev pub or_else {ℓ} : {A : Type ℓ} → Option A → A → A
or_else none d = d
or_else (some a) d = a

-- The functions below are given `unary` as it runs one level further down.
module _ (unary : Parser) where
  -- The loop of `or`, with what it has read so far.
  unfoldable pub or_loop : ℕ → Predicate → Parser
  or_loop zero left toks = out_of_fuel
  or_loop (suc f) left toks = elim (keyword (codes "OR") toks) [
    | none ↦ parsed left toks
    | some rest ↦ then_parse (unary rest) (λ right rest'. or_loop f (λ e. left e || right e) rest')
  ]

  unfoldable pub or : Parser
  or toks = then_parse (unary toks) (λ left rest. or_loop (suc (length rest)) left rest)

  unfoldable pub and_loop : ℕ → List Predicate → Parser
  and_loop zero preds toks = out_of_fuel
  and_loop (suc f) preds [] = conjunction preds []
  and_loop (suc f) preds (t ∷ rest) =
      let term =
        then_parse (or (or_else (keyword (codes "AND") (t ∷ rest)) (t ∷ rest)))
          (λ pred rest'. and_loop f (preds ++ pred ∷ []) rest') in
      if is_kind rparen t then conjunction preds (t ∷ rest) else term

  unfoldable pub and : Parser
  and toks = and_loop (suc (length toks)) [] toks

abbrev pub closing : Predicate → Parser
closing inner [] = invalid
closing inner (t ∷ rest) = if not (is_kind rparen t) then invalid else parsed inner rest

abbrev pub accepted : Option Predicate → List Token → Parsed Predicate
accepted none rest = invalid
accepted (some p) rest = parsed p rest

abbrev pub max_filter_depth : ℕ
max_filter_depth = 64

abbrev pub max_filter_length : ℕ
max_filter_length = 20000

-- The end of parseFilter: no token may be left.
abbrev pub whole : Predicate → List Token → Parsed Predicate
whole p [] = parsed p []
whole p (t ∷ rest) = invalid

module _ (parse_time : Bytes → Option ℤ) where
  -- A field, an operator and a value.
  unfoldable pub simple_term : Token → Parser
  simple_term t [] = invalid
  simple_term t (o ∷ []) = invalid
  simple_term t (o ∷ val ∷ rest) =
      if not (is_kind word t)
      then invalid
      else if not (is_kind op o) || (not (is_kind word val) && not (is_kind string val))
      then invalid
      else accepted (comparison parse_time t.text o.text val.text) rest

  unfoldable pub primary : Parser → Parser
  primary unary [] = invalid
  primary unary (t ∷ rest) =
      let group = then_parse (and unary rest) closing in
      let simple = simple_term t rest in if is_kind lparen t then group else simple

  -- The body of `unary`, behind `nest`.
  unfoldable pub unary_body : Parser → Parser
  unary_body unary toks = elim (keyword (codes "NOT") toks) [
    | some rest ↦ negated (unary rest)
    | none ↦ elim (strip_minus toks) [
      | some toks' ↦ negated (unary toks')
      | none ↦ primary unary toks
    ]
  ]

  unfoldable pub unary : ℕ → Parser
  unary zero toks = invalid
  unary (suc room) toks = unary_body (λ ts. unary room ts) toks

  unfoldable pub parse_tokens : Lexed (List Token) → Parsed Predicate
  parse_tokens starved = out_of_fuel
  parse_tokens unterminated = invalid
  parse_tokens (lexed []) = parsed (λ e. true) []
  parse_tokens (lexed (t ∷ toks)) = then_parse (and (unary max_filter_depth) (t ∷ toks)) whole

  unfoldable pub parse_filter : Bytes → Parsed Predicate
  parse_filter s = if ltb max_filter_length (length s) then invalid else parse_tokens (tokenize s)
