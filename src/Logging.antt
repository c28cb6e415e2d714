-- ===== src/Logging.antt =====
-- services/cloudlogging/filter.go: the query language of Cloud Logging. A filter is its bytes; a
-- predicate is a function of what a filter reads of an entry; `none` and `invalid` stand for the
-- InvalidArgument errors, which differ in their text only. ToLower and ToUpper act on ASCII. The
-- RFC 3339 parser of package time is the parameter `parse_time`, which gives nanoseconds.
pub mod Tokens
pub mod Parser
pub mod Total
pub mod Parsing
pub mod Query
pub mod Loops
pub mod Terms
pub mod Meaning
mod Tests
