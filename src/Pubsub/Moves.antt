-- ===== src/Pubsub/Moves.antt =====
-- What a history of pulls, changed deadlines and expiries leaves of the messages of a
-- subscription of services/pubsub.
use cloudrig.Prelude.{
  ℕ, ◌+◌, ◌^◌, ◌<◌, ◌≡◌, refl, ◌∙◌, arith, Bool, Bool-cases, Option-cases, inl, inr, true, false,
  List, [], ◌∷◌,
}
use cloudrig.Prelude.Int.{ℤ, pos, eqb_ℤ}
use cloudrig.Prelude.Bytes.{Bytes}
use cloudrig.Clock.{FakeClock}
use cloudrig.Clock
use cloudrig.Pubsub.{Lease, Service, signal}
use cloudrig.Pubsub.Leases.{
  lease_of, redeliver, expire, take_messages, restarted, arm_expiry, modify_lease, modify_every,
}
use cloudrig.Pubsub.Conserving.{
  IsSound, Conserves, take_messages-Conserves, redeliver-Conserves, modify_every-Conserves,
}

-- Any move of a subscriber that settles nothing, and the passing of a deadline.
pub data Move : Type 0 where
  pulls : Bytes → ℕ → ℤ → Move
  modifies : Bytes → ℤ → List Bytes → Move
  expires : ℕ → Move

unfoldable pub move : Move → Service → Service
move (pulls sub n deadline) s = (take_messages sub n deadline s).1
move (modifies sub extend acks) s = modify_every sub extend acks s
move (expires timer) s = expire timer s

unfoldable pub moves : List Move → Service → Service
moves [] s = s
moves (m ∷ ms) s = moves ms (move m s)

-- How many deliveries the moves may make.
unfoldable pub demand : List Move → ℕ
demand [] = 0
demand (pulls sub n deadline ∷ ms) = n + demand ms
demand (modifies sub extend acks ∷ ms) = demand ms
demand (expires timer ∷ ms) = demand ms

redeliver-deliveries :
    (sub ack : Bytes) (s : Service) → (redeliver sub ack s).deliveries ≡ s.deliveries
unfolding redeliver signal
redeliver-deliveries sub ack s = elim (Option-cases (lease_of sub ack s.outstanding)) [
  | inl e ↦ rw (e, redeliver) refl
  | inr (l, e) ↦ rw (e, redeliver) refl
]

restarted-deliveries :
    (extend : ℤ) (l : Lease) (r : Bool × FakeClock) (s : Service)
    → (restarted extend l r s).deliveries ≡ s.deliveries
unfolding arm_expiry
restarted-deliveries extend l (false, clk) s = refl
restarted-deliveries extend l (true, clk) s = refl

modify_lease-deliveries :
    (sub ack : Bytes) (extend : ℤ) (s : Service)
    → (modify_lease sub extend ack s).deliveries ≡ s.deliveries
unfolding modify_lease
modify_lease-deliveries sub ack extend s = elim (Bool-cases (eqb_ℤ extend (pos 0))) [
  | inl c ↦ rw c (redeliver-deliveries sub ack s)
  | inr c ↦ rw c (elim (Option-cases (lease_of sub ack s.outstanding)) [
    | inl e ↦ rw e refl
    | inr (l, e) ↦ rw e (restarted-deliveries extend l (Clock.stop l.timer s.clk) s)
  ])
]

modify_every-deliveries :
    (sub : Bytes) (extend : ℤ) (acks : List Bytes) (s : Service)
    → (modify_every sub extend acks s).deliveries ≡ s.deliveries
unfolding modify_every
modify_every-deliveries sub extend [] s = refl
modify_every-deliveries sub extend (ack ∷ acks) s =
    modify_every-deliveries sub extend acks (modify_lease sub extend ack s)
    ∙ modify_lease-deliveries sub ack extend s

move-Conserves :
    (m : Move) (ms : List Move) (s : Service)
    → IsSound s
    → s.deliveries + demand (m ∷ ms) < 2 ^ 63
    → Conserves s (move m s) × ((move m s).deliveries + demand ms < 2 ^ 63)
unfolding move demand expire
move-Conserves (pulls sub n deadline) ms s f h =
    let (c, d) = take_messages-Conserves sub n deadline s f (omega arith) in (c, omega (arith, d))
move-Conserves (modifies sub extend acks) ms s f h = (
  modify_every-Conserves sub extend acks s f,
  omega (arith, modify_every-deliveries sub extend acks s),
)
move-Conserves (expires timer) ms s f h =
    let (sub, ack) = s.expiries timer in
    (redeliver-Conserves sub ack s f, omega (arith, redeliver-deliveries sub ack s))

-- Whatever a history of pulls, changed deadlines (refusals included) and expiries is, as long as
-- the deliveries it may make are numbered below 2 ^ 63, every subscription holds the messages that
-- it held before, each as often, and the leases stay sound.
pub moves-Conserves :
    (ms : List Move) (s : Service)
    → IsSound s
    → s.deliveries + demand ms < 2 ^ 63
    → Conserves s (moves ms s)
unfolding moves
moves-Conserves [] s f h = (f, λ p j. refl)
moves-Conserves (m ∷ ms) s f h =
    let ((f₁, c₁), d) = move-Conserves m ms s f h in
    let (f₂, c₂) = moves-Conserves ms (move m s) f₁ d in (f₂, λ p j. c₂ p j ∙ c₁ p j)
