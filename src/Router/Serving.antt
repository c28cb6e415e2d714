-- ===== src/Router/Serving.antt =====
-- Which route of transport/router.go answers a request.
use cloudrig.Prelude.{
  ◌≡◌, refl, sym, subst, Bool, Option-cases, inl, inr, ◌⊎◌, true, false, Option, none, some, List,
  [], ◌∷◌, if◌then◌else◌,
}
use cloudrig.Prelude.Bytes.{Bytes, str_eq}
use cloudrig.Router.{
  Route, Params, Answer, handled, not_allowed, not_found, segments, match_path, match_routes,
  match_route, answer_of, serve,
}

module _ (unescape : Bytes → Option Bytes) (method : Bytes) (got : List Bytes) where
  -- The route is the first one of the list that matches the path and has the method.
  abbrev pub IsFirst : Route → Params → List Route → Type 0
  IsFirst r p [] = ⊥
  IsFirst r p (x ∷ xs) =
      ((x ≡ r) × (match_path unescape x got ≡ some p) × (str_eq x.method method ≡ true))
      ⊎ (((match_path unescape x got ≡ none) ⊎ (str_eq x.method method ≡ false)) × IsFirst r p xs)

  -- Each route that matches the path has another method; `hit` says whether there is one.
  abbrev pub IsUnserved : Bool → List Route → Type 0
  IsUnserved hit [] = hit ≡ false
  IsUnserved hit (x ∷ xs) =
      ((match_path unescape x got ≡ none) × IsUnserved hit xs)
      ⊎ ((p : Params) × (match_path unescape x got ≡ some p))
        × (str_eq x.method method ≡ false)
        × (hit ≡ true)
        × ((rest : Bool) × IsUnserved rest xs)

  abbrev pub Found : Option (Route × Params) × Bool → List Route → Type 0
  Found (some (r, p), hit) routes = IsFirst r p routes
  Found (none, hit) routes = IsUnserved hit routes

  Found-none :
      (x : Route) (xs : List Route) (r : Option (Route × Params) × Bool)
      → match_path unescape x got ≡ none
      → Found r xs
      → Found r (x ∷ xs)
  Found-none x xs (some (r, p), hit) e f = inr (inl e, f)
  Found-none x xs (none, hit) e f = inl (e, f)

  Found-other :
      (x : Route) (xs : List Route) (p : Params) (r : Option (Route × Params) × Bool)
      → match_path unescape x got ≡ some p
      → str_eq x.method method ≡ false
      → Found r xs
      → Found (r.0, true) (x ∷ xs)
  Found-other x xs p (some (r, q), hit) e m f = inr (inr m, f)
  Found-other x xs p (none, hit) e m f = inr ((p, e), m, refl, (hit, f))

  routes_none :
      (x : Route) (xs : List Route)
      → match_path unescape x got ≡ none
      → match_routes unescape method got (x ∷ xs) ≡ match_routes unescape method got xs
  unfolding match_routes
  routes_none x xs e = rw (e, match_routes) refl

  routes_some :
      (x : Route) (xs : List Route) (p : Params)
      → match_path unescape x got ≡ some p
      → match_routes unescape method got (x ∷ xs) ≡ (
          if str_eq x.method method
          then (some (x, p), true)
          else ((match_routes unescape method got xs).0, true))
  unfolding match_routes
  routes_some x xs p e = rw (e, match_routes) refl

  -- A route that matches the path answers if it has the method.
  Found-here :
      (b : Bool) (x : Route) (xs : List Route) (p : Params) (r : Option (Route × Params) × Bool)
      → str_eq x.method method ≡ b
      → match_path unescape x got ≡ some p
      → Found r xs
      → Found (if b then (some (x, p), true) else (r.0, true)) (x ∷ xs)
  Found-here true x xs p r c e f = inl (refl, e, c)
  Found-here false x xs p r c e f = Found-other x xs p r e c f

  pub match_routes-Found :
      (routes : List Route) → Found (match_routes unescape method got routes) routes
  unfolding match_routes
  match_routes-Found [] = refl
  match_routes-Found (x ∷ xs) =
      let rest = match_routes unescape method got xs in
      elim (Option-cases (match_path unescape x got)) [
        | inl e ↦
            subst (λ r. Found r (x ∷ xs)) (sym (routes_none x xs e))
              (Found-none x xs rest e (match_routes-Found xs))
        | inr (p, e) ↦
            subst (λ r. Found r (x ∷ xs)) (sym (routes_some x xs p e))
              (Found-here (str_eq x.method method) x xs p rest refl e (match_routes-Found xs))
      ]

-- The answers, by what holds of the routes.
abbrev pub Answers : (Bytes → Option Bytes) → Bytes → List Bytes → List Route → Answer → Type 0
Answers unescape method got routes (handled r p) = IsFirst unescape method got r p routes
Answers unescape method got routes not_allowed = IsUnserved unescape method got true routes
Answers unescape method got routes not_found = IsUnserved unescape method got false routes

answer_of-Answers :
    (unescape : Bytes → Option Bytes) (method : Bytes) (got : List Bytes) (routes : List Route)
    (r : Option (Route × Params) × Bool)
    → Found unescape method got r routes
    → Answers unescape method got routes (answer_of unescape r)
answer_of-Answers unescape method got routes (some (r, p), hit) f = f
answer_of-Answers unescape method got routes (none, true) f = f
answer_of-Answers unescape method got routes (none, false) f = f

-- A request is answered by the first route that matches its path and has its method; without one
-- it is answered 405 if a route of another method matches its path, and 404 if none does.
pub serve-Answers :
    (unescape : Bytes → Option Bytes) (method path : Bytes) (routes : List Route)
    → Answers unescape method (segments path) routes (serve unescape method path routes)
unfolding serve match_route
serve-Answers unescape method path routes =
    answer_of-Answers unescape method (segments path) routes
      (match_routes unescape method (segments path) routes)
      (match_routes-Found unescape method (segments path) routes)
