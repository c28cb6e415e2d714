-- ===== src/Pubsub/Conserving.antt =====
-- The messages that a subscription of services/pubsub holds, leased or waiting, as they are pulled,
-- given back, kept for longer, or expire.
use cloudrig.Prelude.{
  ℕ, length-take, ◌+◌, ◌%◌, ◌^◌, ◌≤◌, ◌<◌, ◌≡◌, refl, ap, ap₂, ◌∙◌, arith, Bool, Bool-cases, inl,
  inr, true, false, Option-cases, some, List, [], ◌∷◌, ◌++◌, take, drop, length, if◌then◌else◌,
}
use cloudrig.Prelude.Int.{ℤ, pos, eqb_ℤ}
use cloudrig.Prelude.Bytes.{Bytes, str_eq}
use cloudrig.Prelude.Decimal.{format_int}
use cloudrig.Clock.{FakeClock, after_func}
use cloudrig.Clock
use cloudrig.Pubsub.{Message, Lease, Service, set_at, signal}
use cloudrig.Pubsub.Leases.{
  lease_of, drop_lease, returned, redeliver, lease_message, lease_every, take_messages, restarted,
  arm_expiry, modify_lease, modify_every,
}
use cloudrig.Pubsub.Counting.{
  one, count, drop_lease_absent, count-leased, count_dropped, found_self, count-set_at, count_taken,
}
use cloudrig.Pubsub.Pending.{leased}
use cloudrig.Pubsub.Holding.{
  Fits, Fits-mono, ack_number-ack, lease_of-drop_lease, drop_lease-Fits, fresh_none, found_number,
}

-- How many of the messages that a subscription holds pass a test.
unfoldable pub held : (Message → Bool) → Bytes → Service → ℕ
held p sub s = count p (leased sub s.outstanding) + count p (s.backlog sub)

abbrev pub IsSound : Service → Type 0
IsSound s = Fits s.deliveries s.outstanding

-- The second state is sound, and each subscription holds the messages that it held.
abbrev pub Conserves : Service → Service → Type 0
Conserves s s' = IsSound s' × ((p : Message → Bool) (j : Bytes) → held p j s' ≡ held p j s)

returned-Conserves :
    (l : Lease) (s : Service)
    → IsSound s
    → lease_of l.sub l.ack s.outstanding ≡ some l
    → Conserves s (returned l s)
unfolding held signal count
returned-Conserves l s f h = (
  drop_lease-Fits s.deliveries l.sub l.ack s.outstanding f,
  λ p j. omega (
    arith,
    count_dropped p j s.deliveries l s.outstanding f h,
    count-set_at p l.sub j (l.msg ∷ s.backlog l.sub) s.backlog (one p l.msg) refl,
  ),
)

-- A message that is given back stays with its subscription.
pub redeliver-Conserves :
    (sub ack : Bytes) (s : Service) → IsSound s → Conserves s (redeliver sub ack s)
unfolding redeliver
redeliver-Conserves sub ack s f = elim (Option-cases (lease_of sub ack s.outstanding)) [
  | inl e ↦ rw (e, redeliver) (f, λ p j. refl)
  | inr (l, e) ↦ rw (e, redeliver) (returned-Conserves l s f (found_self sub ack l s.outstanding e))
]

restarted-Conserves :
    (extend : ℤ) (l : Lease) (r : Bool × FakeClock) (s : Service)
    → IsSound s
    → lease_of l.sub l.ack s.outstanding ≡ some l
    → Conserves s (restarted extend l r s)
unfolding held arm_expiry
restarted-Conserves extend l (false, clk) s f h = (f, λ p j. refl)
restarted-Conserves extend l (true, clk) s f h = (
  (
    found_number s.deliveries l.sub l.ack l s.outstanding f h,
    lease_of-drop_lease l.sub l.ack s.outstanding,
    drop_lease-Fits s.deliveries l.sub l.ack s.outstanding f,
  ),
  λ p j. omega (
    arith,
    count_dropped p j s.deliveries l s.outstanding f h,
    count-leased p j (record l { timer = (after_func extend clk.next_id clk).0 })
        (drop_lease l.sub l.ack s.outstanding),
  ),
)

pub modify_lease-Conserves :
    (sub ack : Bytes) (extend : ℤ) (s : Service)
    → IsSound s
    → Conserves s (modify_lease sub extend ack s)
unfolding modify_lease
modify_lease-Conserves sub ack extend s f = elim (Bool-cases (eqb_ℤ extend (pos 0))) [
  | inl c ↦ rw c (redeliver-Conserves sub ack s f)
  | inr c ↦ rw c (elim (Option-cases (lease_of sub ack s.outstanding)) [
    | inl e ↦ rw e (f, λ p j. refl)
    | inr (l, e) ↦ rw e (
        restarted-Conserves extend l (Clock.stop l.timer s.clk) s f
          (found_self sub ack l s.outstanding e))
  ])
]

pub modify_every-Conserves :
    (sub : Bytes) (extend : ℤ) (acks : List Bytes) (s : Service)
    → IsSound s
    → Conserves s (modify_every sub extend acks s)
unfolding modify_every
modify_every-Conserves sub extend [] s f = (f, λ p j. refl)
modify_every-Conserves sub extend (ack ∷ acks) s f =
    let (f₁, e₁) = modify_lease-Conserves sub ack extend s f in
    let (f₂, e₂) = modify_every-Conserves sub extend acks (modify_lease sub extend ack s) f₁ in
    (f₂, λ p j. e₂ p j ∙ e₁ p j)

-- What leasing messages of a subscription leaves: a lease for each, and the queues as they were.
abbrev pub Leases : Bytes → List Message → Service → Service → Type 0
Leases sub msgs s s' =
    IsSound s'
    × (s'.deliveries ≡ s.deliveries + length msgs)
    × (s'.backlog ≡ s.backlog)
    × ((p : Message → Bool) (j : Bytes)
        → count p (leased j s'.outstanding)
          ≡ (if str_eq sub j then count p msgs else 0) + count p (leased j s.outstanding))

-- A lease with the next number joins the ones that there are, and replaces none.
numbered_lease :
    (d n : ℕ) (sub : Bytes) (msg : Message) (timer : ℕ) (ls : List Lease)
    → Fits d ls
    → n ≡ d + 1
    → n < 2 ^ 63
    → (let l : Lease = record {
      sub = sub;
      ack = msg.id ++ b'-' ∷ format_int n;
      msg = msg;
      timer = timer;
    } in
        Fits n (l ∷ drop_lease sub l.ack ls)
        × ((p : Message → Bool) (j : Bytes)
            → count p (leased j (l ∷ drop_lease sub l.ack ls))
              ≡ (if str_eq sub j then count p (msg ∷ []) else 0) + count p (leased j ls)))
unfolding count
numbered_lease d n sub msg timer ls f e h =
    let ack = msg.id ++ b'-' ∷ format_int n in
    let l : Lease = record { sub = sub; ack = ack; msg = msg; timer = timer } in
    (
      (
        (n, ack_number-ack msg.id n h, omega arith),
        lease_of-drop_lease sub ack ls,
        drop_lease-Fits n sub ack ls (Fits-mono d n ls (omega (arith, e)) f),
      ),
      λ p j.
          count-leased p j l (drop_lease sub ack ls)
          ∙ ap₂ (λ k xs. (if str_eq sub j then k else 0) + count p (leased j xs)) (omega arith)
              (drop_lease_absent sub ack ls (fresh_none d n sub msg.id ls (omega (arith, e)) h f)),
    )

lease_message-Leases :
    (sub : Bytes) (deadline : ℤ) (msg : Message) (s : Service)
    → IsSound s
    → s.deliveries + 1 < 2 ^ 63
    → Leases sub (msg ∷ []) s (lease_message sub deadline msg s).1
unfolding lease_message arm_expiry
lease_message-Leases sub deadline msg s f h =
    let n = (s.deliveries + 1) % 2 ^ 64 in
    let (f', c) =
      numbered_lease s.deliveries n sub msg (after_func deadline s.clk.next_id s.clk).0
        s.outstanding f (omega arith) (omega arith) in
    (f', omega arith, refl, c)

joined :
    (b : Bool) (x y z : ℕ)
    → (if b then y else 0) + ((if b then x + 0 else 0) + z) ≡ (if b then x + y else 0) + z
joined true x y z = omega arith
joined false x y z = omega arith

lease_every-Leases :
    (sub : Bytes) (deadline : ℤ) (msgs : List Message) (s : Service)
    → IsSound s
    → s.deliveries + length msgs < 2 ^ 63
    → Leases sub msgs s (lease_every sub deadline msgs s).1
unfolding lease_every count
lease_every-Leases sub deadline [] s f h = (f, omega arith, refl, λ p j. ground arith)
lease_every-Leases sub deadline (msg ∷ msgs) s f h =
    let (f₁, d₁, b₁, c₁) = lease_message-Leases sub deadline msg s f (omega arith) in
    let s₁ = (lease_message sub deadline msg s).1 in
    let (f₂, d₂, b₂, c₂) = lease_every-Leases sub deadline msgs s₁ f₁ (omega (arith, d₁)) in
    (
      f₂,
      omega (arith, d₁, d₂),
      b₂ ∙ b₁,
      λ p j.
          c₂ p j
          ∙ ap (λ k. (if str_eq sub j then count p msgs else 0) + k) (c₁ p j)
          ∙ joined (str_eq sub j) (one p msg) (count p msgs) (count p (leased j s.outstanding)),
    )

-- Pulling leases the messages that it takes off the queue, and no others.
pub take_messages-Conserves :
    (sub : Bytes) (n : ℕ) (deadline : ℤ) (s : Service)
    → IsSound s
    → s.deliveries + n < 2 ^ 63
    → Conserves s (take_messages sub n deadline s).1
      × ((take_messages sub n deadline s).1.deliveries ≤ s.deliveries + n)
unfolding take_messages held
take_messages-Conserves sub n deadline s f h =
    let queue = s.backlog sub in
    let s₀ : Service = record s { backlog = set_at sub (drop n queue) s.backlog } in
    let few : length (take n queue) ≤ n = omega (arith, length-take n queue) in
    let (f', d, b, c) = lease_every-Leases sub deadline (take n queue) s₀ f (omega (arith, few)) in
    (
      (
        f',
        λ p j.
            ap₂ (λ x y. x + y) (c p j) (ap (λ m. count p (m j)) b)
            ∙ omega (arith, count_taken p sub j n s.backlog),
      ),
      omega (arith, d, few),
    )
