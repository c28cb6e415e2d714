-- ===== src/Clock.antt =====
-- core/clock/fake.go: the clock whose time a test moves. Times are nanoseconds as integers, a
-- duration too. A timer is an object that the queue and its owner share: its address is `id`, and
-- the flag `fired` of every timer stands in the clock. A callback is a script of calls into the
-- clock over the state `W` of its owners, chosen by the result of each call; `advance` stands for
-- Advance, and for AdvanceTo past the present.
pub mod Queue
pub mod Firing
pub mod Termination
mod Tests
use cloudrig.Prelude.{
  ℕ, zero, suc, ◌+◌, ◌%◌, ◌^◌, Bool, true, false, Option, none, some, List, [], ◌∷◌, ◌++◌, ltb,
  ◌==◌, if◌then◌else◌, take, drop, length, search_index,
}
use cloudrig.Prelude.Int.{ℤ, ◌+ℤ◌, ltb_ℤ, eqb_ℤ}

pub record Timer : Type 0 where
  pub id : ℕ
  pub when : ℤ
  pub seq : ℕ
  pub cb : ℕ

pub record FakeClock : Type 0 where
  pub now : ℤ
  pub seq : ℕ
  pub q : List Timer
  pub busy : Bool
  pub next_id : ℕ
  pub fired : ℕ → Bool

unfoldable pub new_fake : ℤ → FakeClock
new_fake now = record { now = now; seq = 0; q = []; busy = false; next_id = 0; fired = λ id. false }

-- (*fakeTimer).before
unfoldable pub before : Timer → Timer → Bool
before t u = if eqb_ℤ t.when u.when then ltb t.seq u.seq else ltb_ℤ t.when u.when

unfoldable pub insert : Timer → List Timer → List Timer
insert t q = let i = search_index (λ u. before t u) q in take i q ++ (t ∷ drop i q)

abbrev pub armed : FakeClock → ℤ → ℕ → Timer
armed c d cb = record { id = c.next_id; when = c.now +ℤ d; seq = c.seq; cb = cb }

-- AfterFunc returns the timer, by its address.
unfoldable pub after_func : ℤ → ℕ → FakeClock → ℕ × FakeClock
after_func d cb c = (
  c.next_id,
  record c { seq = (c.seq + 1) % 2 ^ 64; q = insert (armed c d cb) c.q; next_id = c.next_id + 1 },
)

abbrev pub mark : ℕ → (ℕ → Bool) → ℕ → Bool
mark id fired j = if id == j then true else fired j

-- The queue without the timer, if it is there.
unfoldable pub unlink : ℕ → List Timer → Option (List Timer)
unlink id [] = none
unlink id (t ∷ ts) =
    let rest = unlink id ts in
    if t.id == id then some ts else elim rest [ none ↦ none | some us ↦ some (t ∷ us) ]

-- (*fakeTimer).Stop
unfoldable pub stop : ℕ → FakeClock → Bool × FakeClock
stop id c = if c.fired id then (false, c) else elim (unlink id c.q) [
  | none ↦ (false, c)
  | some q ↦ (true, record c { q = q; fired = mark id c.fired })
]

pub set_now : ℤ → FakeClock → FakeClock
set_now t c = record c { now = t }

pub pending : FakeClock → ℕ
pending c = length c.q

pub data Script (W : Type 0) : Type 0 where
  finished : W → Script W
  reads : (ℤ → Script W) → Script W
  arms : ℤ → ℕ → (ℕ → Script W) → Script W
  stops : ℕ → (Bool → Script W) → Script W
  advances : Script W

-- The end of a run: a panic, no fuel left, or the clock, the owners' state and the timers whose
-- callbacks ran, first to last.
pub data Outcome (W : Type 0) : Type 0 where
  panicked : Outcome W
  out_of_fuel : Outcome W
  returned : FakeClock → W → List Timer → Outcome W

pub data Ran (W : Type 0) : Type 0 where
  panics : Ran W
  went : FakeClock → W → Ran W

-- A callback runs inside runTo, where `in` is set, so that a call of Advance panics.
pub exec : {W : Type 0} → Script W → FakeClock → Ran W
exec (finished w) c = went c w
exec (reads k) c = exec (k c.now) c
exec (arms d cb k) c = let (id, c') = after_func d cb c in exec (k id) c'
exec (stops id k) c = let (hit, c') = stop id c in exec (k hit) c'
exec advances c = panics

abbrev pub prepend : {W : Type 0} → Timer → Outcome W → Outcome W
prepend t panicked = panicked
prepend t out_of_fuel = out_of_fuel
prepend t (returned c w trace) = returned c w (t ∷ trace)

-- The state in which the callback of the first timer runs.
abbrev pub popped : Timer → List Timer → FakeClock → FakeClock
popped t rest c = record c { q = rest; fired = mark t.id c.fired; now = t.when }

module _ {W : Type 0} (body : ℕ → W → Script W) where
  abbrev pub then_loop : Timer → (W → FakeClock → Outcome W) → Ran W → Outcome W
  then_loop t next panics = panicked
  then_loop t next (went c w) = prepend t (next w c)

  -- One round of the loop of runTo, on the queue that it finds.
  pub round : ℤ → W → FakeClock → (W → FakeClock → Outcome W) → List Timer → Outcome W
  round target w c next [] = returned (record c { now = target; busy = false }) w []
  round target w c next (t ∷ rest) =
      if ltb_ℤ target t.when
      then returned (record c { now = target; busy = false }) w []
      else then_loop t next (exec (body t.cb w) (popped t rest c))

  -- The loop, one round for each unit of fuel.
  pub fire_due : ℕ → ℤ → W → FakeClock → Outcome W
  fire_due zero target w c = out_of_fuel
  fire_due (suc fuel) target w c = round target w c (λ w' c'. fire_due fuel target w' c') c.q

  pub run_to : ℕ → ℤ → W → FakeClock → Outcome W
  run_to fuel target w c =
      if c.busy then panicked else fire_due fuel target w (record c { busy = true })

  pub advance : ℕ → ℤ → W → FakeClock → Outcome W
  advance fuel d w c = run_to fuel (c.now +ℤ d) w c

  -- AdvanceTo, with whether the target was reachable.
  pub advance_to : ℕ → ℤ → W → FakeClock → Bool × Outcome W
  advance_to fuel target w c =
      if ltb_ℤ target c.now
      then (false, returned c w [])
      else if ltb_ℤ c.now target
      then (true, run_to fuel target w c)
      else (true, returned c w [])
