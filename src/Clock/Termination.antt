-- ===== src/Clock/Termination.antt =====
-- runTo of core/clock/fake.go ends when each callback arms at most one timer, later than its own
-- deadline, as a schedule that arms its next run does.
use cloudrig.Prelude.{ℕ, zero, suc, ◌+◌, ◌-◌, ◌*◌, ◌≤◌, Bool, List, [], ◌∷◌, arith}
use cloudrig.Prelude.Int.{ℤ, pos, pos_part, neg_part, ◌≤ℤ◌}
use cloudrig.Clock.{
  Timer, Script, finished, reads, arms, stops, advances, Ran, panics, went, Outcome, panicked,
  out_of_fuel, returned,
}
use cloudrig.Clock.Firing.{IsTame}

-- The callback arms at most `n` timers, each at least a nanosecond ahead, and does not advance
-- the clock.
abbrev pub IsPaced : {W : Type 0} → ℕ → Script W → Type 0
IsPaced n (finished w) = Unit
IsPaced n (reads k) = (t : ℤ) → IsPaced n (k t)
IsPaced zero (arms d cb k) = ⊥
IsPaced (suc n) (arms d cb k) = (pos 1 ≤ℤ d) × ((id : ℕ) → IsPaced n (k id))
IsPaced n (stops id k) = (hit : Bool) → IsPaced n (k hit)
IsPaced n advances = ⊥

pub IsPaced-IsTame : {W : Type 0} (n : ℕ) (sc : Script W) → IsPaced n sc → IsTame sc
IsPaced-IsTame n (finished w) h = tt
IsPaced-IsTame n (reads k) h = λ t. IsPaced-IsTame n (k t) (h t)
IsPaced-IsTame zero (arms d cb k) h = absurd h
IsPaced-IsTame (suc n) (arms d cb k) h = (omega arith, λ id. IsPaced-IsTame n (k id) (h.1 id))
IsPaced-IsTame n (stops id k) h = λ hit. IsPaced-IsTame n (k hit) (h hit)
IsPaced-IsTame n advances h = absurd h

-- How many nanoseconds of the way to the target a deadline has left, its own included.
abbrev pub span : ℤ → ℤ → ℕ
span target when = (pos_part target + neg_part when + 1) - (pos_part when + neg_part target)

unfoldable pub measure : ℤ → List Timer → ℕ
measure target [] = 0
measure target (t ∷ ts) = span target t.when + measure target ts

spend : (x y q n m : ℕ) → x ≤ y → q + suc n * y ≤ m → x + q + n * y ≤ m
spend x y q n m h k = omega arith

abbrev RanWithin : {W : Type 0} → ℤ → ℕ → Ran W → Type 0
RanWithin target m panics = ⊥
RanWithin target m (went c w) = measure target c.q ≤ m

abbrev Ends : {W : Type 0} → Outcome W → Type 0
Ends panicked = ⊥
Ends out_of_fuel = ⊥
Ends (returned c w trace) = Unit
