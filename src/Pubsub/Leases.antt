-- ===== src/Pubsub/Leases.antt =====
-- The life of a message of services/pubsub: it is taken, which leases it, and then acknowledged,
-- or given back when it is refused or its deadline passes (pubsub.go, subscriber.go, streaming.go).
-- Each operation is one step under the service's lock.
use cloudrig.Prelude.{
  ℕ, suc, ◌+◌, ◌-◌, ◌*◌, ◌%◌, ◌^◌, Bool, true, false, ◌&&◌, Option, none, some, List, [], ◌∷◌, ◌++◌,
  ◌==◌, take, drop, if◌then◌else◌,
}
use cloudrig.Prelude.Int.{ℤ, pos, negsuc, pos_part, ltb_ℤ, eqb_ℤ}
use cloudrig.Prelude.Bytes.{Bytes, codes, str_eq}
use cloudrig.Prelude.Decimal.{format_int}
use cloudrig.Rpc.{ok, Outcome, proceed}
use cloudrig.Clock.{FakeClock, after_func}
use cloudrig.Clock
use cloudrig.Pubsub.{Message, Lease, Resource, Codec, Service, set_at, get_subscription, signal}

abbrev pub is_lease : Bytes → Bytes → Lease → Bool
is_lease sub ack l = str_eq l.sub sub && str_eq l.ack ack

-- s.outstanding[subscription][ackID]
unfoldable pub lease_of : Bytes → Bytes → List Lease → Option Lease
lease_of sub ack [] = none
lease_of sub ack (l ∷ ls) =
    let rest = lease_of sub ack ls in if is_lease sub ack l then some l else rest

-- delete(s.outstanding[subscription], ackID)
unfoldable pub drop_lease : Bytes → Bytes → List Lease → List Lease
drop_lease sub ack [] = []
drop_lease sub ack (l ∷ ls) =
    let rest = drop_lease sub ack ls in if is_lease sub ack l then rest else l ∷ rest

abbrev pub returned : Lease → Service → Service
returned l s = signal l.sub (record s {
  clk = (Clock.stop l.timer s.clk).1;
  outstanding = drop_lease l.sub l.ack s.outstanding;
  backlog = set_at l.sub (l.msg ∷ s.backlog l.sub) s.backlog;
})

-- A leased message goes back to the front of the queue.
unfoldable pub redeliver : Bytes → Bytes → Service → Service
redeliver sub ack s = elim (lease_of sub ack s.outstanding) [ none ↦ s | some l ↦ returned l s ]

-- What a lapsed deadline runs.
unfoldable pub expire : ℕ → Service → Service
expire timer s = let (sub, ack) = s.expiries timer in redeliver sub ack s

-- AfterFunc with a callback that takes back a lease.
unfoldable pub arm_expiry : Bytes → Bytes → ℤ → Service → ℕ × Service
arm_expiry sub ack deadline s =
    let (id, clk) = after_func deadline s.clk.next_id s.clk in
    (id, record s { clk = clk; expiries = λ j. if id == j then (sub, ack) else s.expiries j })

-- The lease of a message and its ack id.
unfoldable pub lease_message : Bytes → ℤ → Message → Service → Bytes × Service
lease_message sub deadline msg s =
    let n = (s.deliveries + 1) % 2 ^ 64 in
    let ack = msg.id ++ b'-' ∷ format_int n in
    let (id, s') = arm_expiry sub ack deadline (record s { deliveries = n }) in
    (
      ack,
      record s' {
        outstanding =
            record { sub = sub; ack = ack; msg = msg; timer = id }
            ∷ drop_lease sub ack s'.outstanding;
      },
    )

unfoldable pub lease_every : Bytes → ℤ → List Message → Service → List (Bytes × Message) × Service
lease_every sub deadline [] s = ([], s)
lease_every sub deadline (msg ∷ msgs) s =
    let (ack, s₁) = lease_message sub deadline msg s in
    let (out, s₂) = lease_every sub deadline msgs s₁ in ((ack, msg) ∷ out, s₂)

-- `take` of subscriber.go: up to n messages from the front of the queue, each leased.
unfoldable pub take_messages : Bytes → ℕ → ℤ → Service → List (Bytes × Message) × Service
take_messages sub n deadline s =
    let queue = s.backlog sub in
    lease_every sub deadline (take n queue)
      (record s { backlog = set_at sub (drop n queue) s.backlog })

abbrev pub settled : Lease → Service → Service
settled l s = record s {
  clk = (Clock.stop l.timer s.clk).1;
  outstanding = drop_lease l.sub l.ack s.outstanding;
}

-- The loop of Acknowledge; an id that is not outstanding is passed over.
unfoldable pub settle_every : Bytes → List Bytes → Service → Service
settle_every sub [] s = s
settle_every sub (ack ∷ acks) s = elim (lease_of sub ack s.outstanding) [
  | none ↦ settle_every sub acks s
  | some l ↦ settle_every sub acks (settled l s)
]

-- secs seconds, as a duration
unfoldable pub seconds : ℤ → ℤ
seconds (pos n) = pos (n * 1000000000)
seconds (negsuc n) = negsuc (suc n * 1000000000 - 1)

abbrev pub with_timer : ℕ → Lease → List Lease → List Lease
with_timer id l ls = record l { timer = id } ∷ drop_lease l.sub l.ack ls

abbrev pub restarted : ℤ → Lease → Bool × FakeClock → Service → Service
restarted extend l (false, clk) s = record s { clk = clk }
restarted extend l (true, clk) s =
    let (id, s') = arm_expiry l.sub l.ack extend (record s { clk = clk }) in
    record s' { outstanding = with_timer id l s'.outstanding }

-- A deadline of 0 gives the message back; another one restarts the lease, unless its timer has
-- already fired.
unfoldable pub modify_lease : Bytes → ℤ → Bytes → Service → Service
modify_lease sub extend ack s =
    if eqb_ℤ extend (pos 0) then redeliver sub ack s else elim (lease_of sub ack s.outstanding) [
      | none ↦ s
      | some l ↦ restarted extend l (Clock.stop l.timer s.clk) s
    ]

unfoldable pub modify_every : Bytes → ℤ → List Bytes → Service → Service
modify_every sub extend [] s = s
modify_every sub extend (ack ∷ acks) s =
    modify_every sub extend acks (modify_lease sub extend ack s)

-- The second loop of handleAcks; an id without seconds is passed over.
unfoldable pub modify_pairs : Bytes → List Bytes → List ℤ → Service → Service
modify_pairs sub [] secs s = s
modify_pairs sub (ack ∷ acks) [] s = s
modify_pairs sub (ack ∷ acks) (n ∷ secs) s =
    modify_pairs sub acks secs (modify_lease sub (seconds n) ack s)

-- What a request of a stream carries.
unfoldable pub handle_acks : Bytes → List Bytes → List Bytes → List ℤ → Service → Service
handle_acks sub acks modified secs s = modify_pairs sub modified secs (settle_every sub acks s)

module _ {V : Type 0} (codec : Codec V) where
  -- How long a subscriber holds a message.
  unfoldable pub deadline_of : Resource V → ℤ
  deadline_of sub =
      let secs = codec.number (sub.fields (codes "ack_deadline_seconds")) in
      seconds (if ltb_ℤ (pos 0) secs then secs else pos 10)

  unfoldable pub pull : Bytes → ℤ → Service → Outcome Service (List (Bytes × Message))
  pull name max s = proceed s (get_subscription codec name s.kv) (λ sub.
      let most = if ltb_ℤ (pos 0) max then pos_part max else 1 in
      let (out, s') = take_messages name most (deadline_of sub) s in (ok out, s'))

  unfoldable pub acknowledge : Bytes → List Bytes → Service → Outcome Service (Unit {0})
  acknowledge name acks s =
      proceed s (get_subscription codec name s.kv) (λ _. (ok tt, settle_every name acks s))

  unfoldable pub modify_ack_deadline : Bytes → ℤ → List Bytes → Service → Outcome Service (Unit {0})
  modify_ack_deadline name secs acks s =
      proceed s (get_subscription codec name s.kv)
        (λ _. (ok tt, modify_every name (seconds secs) acks s))
