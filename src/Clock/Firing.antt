-- ===== src/Clock/Firing.antt =====
-- What runTo of core/clock/fake.go fires, and in which order.
use cloudrig.Prelude.{
  ℕ, suc, ◌<◌, ◌≡◌, refl, ap, Bool, true, false, List, [], ◌∷◌, arith, if◌then◌else◌, All, All-map,
  Bool-cases, inl, inr, subst, Option-cases,
}
use cloudrig.Prelude.Int.{ℤ, pos, ltb_ℤ, ◌≤ℤ◌}
use cloudrig.Clock.{
  Timer, FakeClock, Script, finished, reads, arms, stops, advances, Ran, panics, went, Outcome,
  panicked, out_of_fuel, returned, before, unlink, stop, exec, popped, then_loop, fire_due, round,
  run_to,
}
use cloudrig.Clock.Queue.{IsQueue, IsClock, unlink-All, pending-mark, DistinctIds}

-- A callback arms no timer in the past.
abbrev pub IsTame : {W : Type 0} → Script W → Type 0
IsTame (finished w) = Unit
IsTame (reads k) = (t : ℤ) → IsTame (k t)
IsTame (arms d cb k) = (pos 0 ≤ℤ d) × ((id : ℕ) → IsTame (k id))
IsTame (stops id k) = (hit : Bool) → IsTame (k hit)
IsTame advances = Unit

-- The clock reads `b`, and no timer is due before.
pub record IsAt (b : ℤ) (c : FakeClock) : Type 0 where
  pub clock : IsClock c
  pub since : All (λ u. b ≤ℤ u.when) c.q
  pub reads_b : c.now ≡ b

pub stop-All {κ} : (P : Timer → Type κ) (id : ℕ) (c : FakeClock) → All P c.q → All P (stop id c).1.q
unfolding stop
stop-All P id c h = elim (Bool-cases (c.fired id)) [
  | inl done ↦ rw done h
  | inr live ↦ elim (Option-cases (unlink id c.q)) [
    | inl gone ↦ rw (live, gone) h
    | inr (us, e) ↦ rw (live, e) (unlink-All P id c.q us e h)
  ]
]

pub now-stop : (id : ℕ) (c : FakeClock) → (stop id c).1.now ≡ c.now
unfolding stop
now-stop id c = ground arith

abbrev RanAt : {W : Type 0} → ℤ → Ran W → Type 0
RanAt b panics = Unit
RanAt b (went c w) = IsAt b c

not_before-le : (u t : Timer) → before u t ≡ false → t.when ≤ℤ u.when
unfolding before
not_before-le u t h = ground arith

pub popped-IsAt :
    (t : Timer) (rest : List Timer) (c : FakeClock)
    → c.q ≡ t ∷ rest
    → IsClock c
    → IsAt t.when (popped t rest c)
popped-IsAt t rest c e v = record {
  clock = record {
    queue = ordered.1;
    below = (subst (All (λ u. u.id < c.next_id)) e v.below).1;
    pending =
        pending-mark t.id c.fired rest ids.0
          (subst (All (λ u. c.fired u.id ≡ false)) e v.pending).1;
    distinct = ids.1;
    fresh = λ id h. ground (arith, (subst (All (λ u. u.id < c.next_id)) e v.below).0, v.fresh id h);
  };
  since = All-map (λ u h. not_before-le u t h) rest ordered.0;
  reads_b = refl;
}
  where
    ordered : IsQueue (t ∷ rest)
    ordered = subst IsQueue e v.queue

    ids : DistinctIds (t ∷ rest)
    ids = subst DistinctIds e v.distinct

-- The timers fire in the order of their deadlines, from `b` up to the target.
abbrev pub Rises : ℤ → ℤ → List Timer → Type 0
Rises b target [] = Unit
Rises b target (t ∷ ts) = (b ≤ℤ t.when) × (t.when ≤ℤ target) × Rises t.when target ts

-- The clock stands at the target, and what is due by then is no longer queued.
pub record IsDrained (target : ℤ) (c : FakeClock) : Type 0 where
  pub clock : IsClock c
  pub reached : c.now ≡ target
  pub idle : c.busy ≡ false
  pub later : All (λ u. ltb_ℤ target u.when ≡ true) c.q

abbrev pub InOrder : {W : Type 0} → ℤ → ℤ → Outcome W → Type 0
InOrder b target panicked = Unit
InOrder b target out_of_fuel = Unit
InOrder b target (returned c w trace) = IsDrained target c × Rises b target trace

module _ {W : Type 0} (body : ℕ → W → Script W) where
  pub fire_due-nil :
      (fuel : ℕ) (target : ℤ) (w : W) (c : FakeClock)
      → c.q ≡ []
      → fire_due body (suc fuel) target w c
        ≡ returned (record c { now = target; busy = false }) w []
  unfolding fire_due round
  fire_due-nil fuel target w c e =
      ap (round body target w c (λ w' c'. fire_due body fuel target w' c')) e

  pub fire_due-cons :
      (fuel : ℕ) (target : ℤ) (w : W) (c : FakeClock) (t : Timer) (rest : List Timer)
      → c.q ≡ t ∷ rest
      → fire_due body (suc fuel) target w c ≡ (
          if ltb_ℤ target t.when
          then returned (record c { now = target; busy = false }) w []
          else then_loop body t
              (λ w' c'. fire_due body fuel target w' c')
              (exec (body t.cb w) (popped t rest c)))
  unfolding fire_due round
  fire_due-cons fuel target w c t rest e =
      ap (round body target w c (λ w' c'. fire_due body fuel target w' c')) e

  -- Advancing a clock that is running its callbacks panics.
  pub run_to_reentered :
      (fuel : ℕ) (target : ℤ) (w : W) (c : FakeClock)
      → c.busy ≡ true
      → run_to body fuel target w c ≡ panicked
  unfolding run_to
  run_to_reentered fuel target w c h = rw h
