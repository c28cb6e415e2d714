-- ===== src/Clock/Tests.antt =====
-- The fake clock on concrete timers, and each theorem about it at an input that meets its
-- hypotheses.
use cloudrig.Prelude.{ℕ, zero, suc, ◌+◌, ◌≡◌, refl, List, [], ◌∷◌, search_index, map}
use cloudrig.Prelude.Int.{ℤ, pos, ◌+ℤ◌}
use cloudrig.Clock.{
  FakeClock, Script, finished, arms, advances, Outcome, panicked, returned, new_fake, before,
  insert, after_func, exec, fire_due, round, run_to,
}
use cloudrig.Clock.Queue.{IsClock, after_func-IsClock}

-- Callback 1 arms itself ten nanoseconds ahead, callback 2 advances the clock, the others count.
body : ℕ → ℕ → Script ℕ
body zero n = finished (n + 1)
body (suc zero) n = arms (pos 10) 1 (λ id. finished (n + 1))
body (suc (suc zero)) n = advances
body (suc (suc (suc cb))) n = finished n

calm : ℕ → ℕ → Script ℕ
calm zero n = finished (n + 1)
calm (suc cb) n = arms (pos 10) 1 (λ id. finished (n + 1))

start : FakeClock
start = new_fake (pos 100)

start-IsClock : IsClock start
unfolding start new_fake
start-IsClock = record { queue = tt; below = tt; pending = tt; distinct = tt; fresh = λ id h. refl }

-- A periodic timer at 110, then a plain one at the same time.
two : FakeClock
unfolding start
two = (after_func (pos 10) 0 (after_func (pos 10) 1 start).1).1

abbrev trace_of : Outcome ℕ → List (ℤ × ℕ)
trace_of (returned c w trace) = map (λ t. (t.when, t.cb)) trace
trace_of _ = []

fires : trace_of (run_to calm 9 (pos 125) 0 two) ≡ (pos 110, 1) ∷ (pos 110, 0) ∷ (pos 120, 1) ∷ []
unfolding run_to fire_due round exec calm two after_func insert search_index before new_fake ◌+ℤ◌
fires = refl

reentered : run_to body 9 (pos 125) 0 (after_func (pos 5) 2 start).1 ≡ panicked
unfolding run_to fire_due round exec body start after_func insert search_index before new_fake ◌+ℤ◌
reentered = refl

after_func-IsClock_example : IsClock (after_func (pos 10) 0 start).1
after_func-IsClock_example = after_func-IsClock (pos 10) 0 start start-IsClock
