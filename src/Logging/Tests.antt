-- ===== src/Logging/Tests.antt =====
-- Runs and instances of the theorems on services/cloudlogging/filter.go.
use cloudrig.Prelude.{ℕ, suc, ◌≡◌, refl, [], ◌∷◌, Option, some, Bool, true, false}
use cloudrig.Prelude.Bytes.{Bytes, codes, str_eq, has_prefix}
use cloudrig.Prelude.Int.{ℤ, pos}
use cloudrig.Gerr.{to_upper}
use cloudrig.Logging.Tokens.{Token, lexed, word, op}
use cloudrig.Logging.Parser.{
  or_else, comparison, severity_cmp, rank_of, severity_rank, compare_op, text_cmp, string_field,
  out_of_fuel, LogEntry, Predicate, Parsed, parsed, invalid, parse_tokens, parse_filter,
}
use cloudrig.Logging.Parsing.{Within, parse_filter_total}
use cloudrig.Logging.Query.{
  Query, test, negation, both, either, print, keyword_token, IsReadable, meaning,
}
use cloudrig.Logging.Meaning.{parse_tokens-print, or_binds_tighter}

-- A parser of times that knows one time.
abbrev parse_none : Bytes → Option ℤ
parse_none s = some (pos 0)

abbrev a_word : Bytes → Token
a_word s = record { kind = word; text = s }

abbrev equals : Token
equals = record { kind = op; text = codes "=" }

abbrev failing : Query
failing = test (a_word (codes "severity")) equals (a_word (codes "error"))

abbrev traced : Query
traced = test (a_word (codes "trace")) equals (a_word (codes "t1"))

abbrev nested : Query
nested = both (negation failing) (either traced failing)

abbrev entry : LogEntry
entry = record {
  log_name = codes "log";
  resource_type = codes "gce";
  resource_labels = λ n. [];
  labels = λ n. [];
  insert_id = codes "1";
  trace = codes "t1";
  text_payload = [];
  severity = codes "ERROR";
  timestamp = pos 0;
  receive_timestamp = pos 0;
}

is_accepted : Parsed Predicate → Bool
is_accepted (parsed p rest) = true
is_accepted invalid = false
is_accepted out_of_fuel = false

failing-IsReadable : (room : ℕ) → IsReadable parse_none (suc room) failing
unfolding str_eq has_prefix comparison severity_cmp rank_of severity_rank compare_op to_upper
failing-IsReadable room = (
  (refl, refl, refl, refl, refl),
  refl,
  refl,
  (
    or_else (comparison parse_none (codes "severity") (codes "=") (codes "error")) (λ e. false),
    refl,
  ),
)

traced-IsReadable : (room : ℕ) → IsReadable parse_none (suc room) traced
unfolding str_eq has_prefix comparison text_cmp string_field
traced-IsReadable room = (
  (refl, refl, refl, refl, refl),
  refl,
  refl,
  (or_else (comparison parse_none (codes "trace") (codes "=") (codes "t1")) (λ e. false), refl),
)

parse_filter_total_example : Within 0 (parse_filter parse_none (codes "severity=error (trace=t1"))
parse_filter_total_example = parse_filter_total parse_none (codes "severity=error (trace=t1")

parse_tokens-print_example :
    parse_tokens parse_none (lexed (print nested [])) ≡ parsed (meaning parse_none nested) []
parse_tokens-print_example =
    parse_tokens-print parse_none nested
      (failing-IsReadable 61, (traced-IsReadable 61, failing-IsReadable 61))

or_binds_tighter_example :
    parse_tokens parse_none
      (lexed (print failing (keyword_token (codes "OR") ∷ print traced (print failing []))))
    ≡ parsed (meaning parse_none (both (either failing traced) failing)) []
or_binds_tighter_example =
    or_binds_tighter parse_none failing traced failing (failing-IsReadable 63)
      (traced-IsReadable 63) (failing-IsReadable 63)
