-- ===== src/Gerr/Codes.antt =====
-- The statuses of core/gerr: an error never renders as a success.
use cloudrig.Prelude.{ℕ, ◌⊎◌, ◌≤◌, ◌≡◌, ◌≢◌, List, [], ◌∷◌, arith, All}
use cloudrig.Gerr.{Error, http_status, find_or, canonical_http}

-- Every entry of the table but that of OK is the status of a failure.
abbrev IsFailing : ℕ × ℕ → Type 0
IsFailing (k, v) = k ≢ 0 → 400 ≤ v

find_or-IsFailing :
    (c d : ℕ) (m : List (ℕ × ℕ)) → All IsFailing m → 400 ≤ d → c ≢ 0 → 400 ≤ find_or d c m
unfolding find_or
find_or-IsFailing c d [] h k n = k
find_or-IsFailing c d ((i, v) ∷ m) h k n = ground (arith, find_or-IsFailing c d m h.1 k n, h.0)

canonical_http-IsFailing : All IsFailing canonical_http
unfolding canonical_http
canonical_http-IsFailing = omega arith

-- An error whose code is not OK has the status of a failure, unless one was set explicitly, and
-- then it has that.
http_status_failing :
    (e : Error)
    → e.code ≢ 0
    → ((e.status ≡ 0) × (400 ≤ http_status e)) ⊎ ((e.status ≢ 0) × (http_status e ≡ e.status))
unfolding http_status
http_status_failing e h =
    ground
      (arith, find_or-IsFailing e.code 500 canonical_http canonical_http-IsFailing (omega arith) h)
