-- ===== src/Pubsub/Pending.antt =====
-- services/pubsub/pending.go: the messages that a snapshot carries.
use cloudrig.Prelude.{
  ℕ, Bool, true, false, Option, none, some, List, [], ◌∷◌, ◌++◌, ltb, if◌then◌else◌,
}
use cloudrig.Prelude.Bytes.{Bytes, str_eq, str_lt}
use cloudrig.Prelude.Decimal.{parse_uint}
use cloudrig.Rpc.{sort_by}
use cloudrig.Store.{Memory, Result}
use cloudrig.Store
use cloudrig.Clock.{FakeClock}
use cloudrig.Clock
use cloudrig.Pubsub.{Message, Lease, Service, set_at, subscription_key, signal}

unfoldable pub leased : Bytes → List Lease → List Message
leased sub [] = []
leased sub (l ∷ ls) = let rest = leased sub ls in if str_eq l.sub sub then l.msg ∷ rest else rest

abbrev pub numbers_less : Option ℕ → Option ℕ → Bool → Bool
numbers_less (some x) (some y) other = ltb x y
numbers_less x y other = other

-- byID: by the numbers of the ids, or by the ids if one is no number.
unfoldable pub by_id : Message → Message → Bool
by_id a b = numbers_less (parse_uint a.id) (parse_uint b.id) (str_lt a.id b.id)

-- The messages of a subscription that Pending gives, leased ones first. The sort is not stable, but
-- the ids of messages differ.
unfoldable pub pending_of : Bytes → Service → List Message
pending_of sub s = sort_by by_id (leased sub s.outstanding) ++ s.backlog sub

unfoldable pub stop_leases : List Lease → FakeClock → FakeClock
stop_leases [] c = c
stop_leases (l ∷ ls) c = stop_leases ls (Clock.stop l.timer c).1

unfoldable pub is_live : Bytes → Memory → Bool
is_live sub kv = elim (Store.get none (subscription_key sub) kv) [
  | Result.ok e ↦ true
  | Result.err e ↦ false
]

-- The messages come by subscription; those of one that the store lacks are dropped.
unfoldable pub restore_every : List (Bytes × List Message) → Service → Service
restore_every [] s = s
restore_every ((sub, msgs) ∷ rest) s =
    let added = signal sub (record s { backlog = set_at sub (s.backlog sub ++ msgs) s.backlog }) in
    restore_every rest (if is_live sub s.kv then added else s)

unfoldable pub restore_pending : ℕ → List (Bytes × List Message) → Service → Service
restore_pending seq msgs s =
    let emptied = record s {
      clk = stop_leases s.outstanding s.clk;
      outstanding = [];
      backlog = λ j. [];
    } in
    record (restore_every msgs emptied) { seq = seq }
