-- ===== src/Router.antt =====
-- transport/router.go: the routes of the HTTP surface. A path is matched while it is escaped, a
-- segment at a time; net/url's PathUnescape is a parameter. A handler is a number.
pub mod Serving
mod Tests
use cloudrig.Prelude.{
  ℕ, ◌-◌, Bool, true, false, ◌&&◌, Option, none, some, List, [], ◌∷◌, ◌++◌, ◌==◌, map, take, drop,
  length, ltb, if◌then◌else◌,
}
use cloudrig.Prelude.Bytes.{Bytes, str_eq, cut_prefix}
use cloudrig.Rpc.{split_slash}

pub data Segment : Type 0 where
  literal capture : Bytes → Segment

pub record Route : Type 0 where
  pub method : Bytes
  pub segs : List Segment
  pub handler : ℕ

-- The decoded value of each capture.
abbrev pub Params : Type 0
Params = Bytes → Option Bytes

-- A path without the slash that it starts with, if it does.
abbrev pub segments : Bytes → List Bytes
segments path = split_slash (elim (cut_prefix (b'/' ∷ []) path) [ none ↦ path | some s ↦ s ])

unfoldable pub starts_with : ℕ → Bytes → Bool
starts_with b [] = false
starts_with b (c ∷ s) = c == b

unfoldable pub ends_with : ℕ → Bytes → Bool
ends_with b [] = false
ends_with b (c ∷ []) = c == b
ends_with b (c ∷ d ∷ s) = ends_with b (d ∷ s)

-- A braced segment captures, any other one is literal.
unfoldable pub segment_of : Bytes → Segment
segment_of s =
    if ltb 2 (length s) && starts_with b'{' s && ends_with b'}' s
    then capture (take (length s - 2) (drop 1 s))
    else literal s

unfoldable pub handle : Bytes → Bytes → ℕ → List Route → List Route
handle method pattern h routes =
    routes ++ record { method = method; segs = map segment_of (segments pattern); handler = h } ∷ []

abbrev pub with_param : Bytes → Bytes → Params → Params
with_param name val p k = if str_eq name k then some val else p k

pub data Answer : Type 0 where
  handled : Route → Params → Answer
  not_allowed not_found : Answer

module _ (unescape : Bytes → Option Bytes) where
  -- The loop of matchPath, with the captures so far.
  unfoldable pub match_segments : List Segment → List Bytes → Params → Option Params
  match_segments [] [] p = some p
  match_segments [] (g ∷ got) p = none
  match_segments (seg ∷ segs) [] p = none
  match_segments (literal s ∷ segs) (g ∷ got) p =
      let rest = match_segments segs got p in if str_eq g s then rest else none
  match_segments (capture name ∷ segs) (g ∷ got) p = elim (unescape g) [
    | none ↦ none
    | some val ↦ match_segments segs got (with_param name val p)
  ]

  unfoldable pub match_path : Route → List Bytes → Option Params
  match_path r got = match_segments r.segs got (λ k. none)

  -- The first route that matches the path and the method, and whether a route matches the path.
  unfoldable pub match_routes : Bytes → List Bytes → List Route → Option (Route × Params) × Bool
  match_routes method got [] = (none, false)
  match_routes method got (r ∷ rs) =
      let rest = match_routes method got rs in
      elim (match_path r got) [
        | none ↦ rest
        | some p ↦ if str_eq r.method method then (some (r, p), true) else (rest.0, true)
      ]

  unfoldable pub match_route : Bytes → Bytes → List Route → Option (Route × Params) × Bool
  match_route method path routes = match_routes method (segments path) routes

  abbrev pub answer_of : Option (Route × Params) × Bool → Answer
  answer_of (some (r, p), path_ok) = handled r p
  answer_of (none, true) = not_allowed
  answer_of (none, false) = not_found

  -- ServeHTTP, up to the call of the handler.
  unfoldable pub serve : Bytes → Bytes → List Route → Answer
  serve method path routes = answer_of (match_route method path routes)
