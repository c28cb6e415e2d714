-- ===== src/Pubsub/Tests.antt =====
-- Instances of the theorems on services/pubsub, at a subscription with two messages.
use cloudrig.Prelude.{◌≡◌, refl, arith, none, some, List, [], ◌∷◌, if◌then◌else◌}
use cloudrig.Prelude.Int.{pos}
use cloudrig.Prelude.Bytes.{Bytes, codes, str_eq}
use cloudrig.Prelude.Decimal.{format_int, format_digits}
use cloudrig.Clock.{new_fake, after_func}
use cloudrig.Store.{new_memory}
use cloudrig.Store
use cloudrig.Pubsub.{Message, Lease, Service, subscription_key}
use cloudrig.Pubsub.Leases.{
  lease_of, drop_lease, arm_expiry, lease_message, lease_every, take_messages, settle_every,
}
use cloudrig.Pubsub.Pending.{pending_of, restore_pending, is_live}
use cloudrig.Pubsub.Conserving.{Conserves, IsSound, take_messages-Conserves}
use cloudrig.Pubsub.Moves.{Move, pulls, modifies, expires, moves, demand, moves-Conserves}
use cloudrig.Pubsub.Settling.{IsSettled, settle_every-IsSettled}
use cloudrig.Pubsub.Restoring.{given, pending_of-restore_pending}

abbrev sub : Bytes
sub = codes "projects/p/subscriptions/s"

abbrev first : Message
first = record { body = 7 ∷ []; id = codes "1"; publish_time = pos 5 }

abbrev second : Message
second = record { body = 8 ∷ []; id = codes "2"; publish_time = pos 6 }

abbrev filled : Service
filled = record {
  kv = (Store.put none (subscription_key sub) [] 0 new_memory).1;
  clk = new_fake (pos 10);
  expiries = λ id. ([], []);
  backlog = λ j. if str_eq sub j then first ∷ second ∷ [] else [];
  outstanding = [];
  waiters = λ j. [];
  seq = 2;
  deliveries = 0;
  announced = [];
}

-- Both are pulled, the first is refused, pulled again, and expires.
abbrev history : List Move
history =
    pulls sub 2 (pos 10000000000)
    ∷ modifies sub (pos 0) (codes "1-1" ∷ [])
    ∷ pulls sub 1 (pos 10000000000)
    ∷ expires 2
    ∷ []

moves-Conserves_example : Conserves filled (moves history filled)
unfolding demand
moves-Conserves_example = moves-Conserves history filled tt (omega arith)

abbrev pulled : Service
pulled = (take_messages sub 1 (pos 10000000000) filled).1

pulled-IsSound : IsSound pulled
pulled-IsSound = (take_messages-Conserves sub 1 (pos 10000000000) filled tt (omega arith)).0.0

abbrev lease : Lease
lease = record { sub = sub; ack = codes "1-1"; msg = first; timer = 0 }

pulled_lease : lease_of sub (codes "1-1") pulled.outstanding ≡ some lease
unfolding take_messages lease_every lease_message arm_expiry drop_lease lease_of str_eq format_int
    format_digits after_func new_fake
pulled_lease = refl

settle_every-IsSettled_example :
    IsSettled sub (codes "1-1") lease pulled (settle_every sub (codes "1-1" ∷ []) pulled)
settle_every-IsSettled_example =
    settle_every-IsSettled sub (codes "1-1") lease pulled pulled-IsSound pulled_lease

pending_of-restore_pending_example :
    pending_of sub (restore_pending 4 ((sub, second ∷ []) ∷ []) pulled)
    ≡ (if is_live sub pulled.kv then given sub ((sub, second ∷ []) ∷ []) else [])
pending_of-restore_pending_example =
    pending_of-restore_pending 4 ((sub, second ∷ []) ∷ []) sub pulled
