-- ===== src/Pubsub.antt =====
-- services/pubsub: topics, subscriptions and the messages that wait (pubsub.go). The map of leases
-- is a list, each lease with its subscription and ack id; `expiries` says which lease a timer of
-- the clock takes back. V is the values of the fields that a record holds.
pub mod Leases
pub mod Requests
pub mod Pending
pub mod Holding
pub mod Counting
pub mod Conserving
pub mod Moves
pub mod Settling
pub mod Restoring
mod Tests
use cloudrig.Prelude.{
  ℕ, ◌+◌, ◌%◌, ◌^◌, Bool, true, false, not, ◌&&◌, Option, none, some, List, [], ◌∷◌, ◌++◌, ◌==◌,
  map, if◌then◌else◌,
}
use cloudrig.Prelude.Int.{ℤ}
use cloudrig.Prelude.Bytes.{Bytes, codes, str_eq}
use cloudrig.Prelude.Decimal.{format_int}
use cloudrig.Gerr.{invalid_argument, internal}
use cloudrig.Gerr
use cloudrig.Rpc.{Reply, ok, failed, then_reply, or_fail, split_slash, is_empty}
use cloudrig.Store.{Memory, Result}
use cloudrig.Store
use cloudrig.Clock.{FakeClock}

-- A message; its body is the data, the attributes and the ordering key that the client gives.
pub record Message : Type 0 where
  pub body : Bytes
  pub id : Bytes
  pub publish_time : ℤ

pub record Lease : Type 0 where
  pub sub : Bytes
  pub ack : Bytes
  pub msg : Message
  pub timer : ℕ

-- A topic or a subscription.
pub record Resource (V : Type 0) : Type 0 where
  pub name : Bytes
  pub fields : Bytes → Option V

-- What protobuf and encoding/json do for the service: the encodings, the getters and setters of
-- single fields, and the descriptor's fields by either spelling.
pub record Codec (V : Type 0) : Type 0 where
  pub encode : Resource V → Option Bytes
  pub decode : Bytes → Option (Resource V)
  pub text : Option V → Bytes
  pub number : Option V → ℤ
  pub of_number : ℤ → V
  pub by_name : Bytes → Option Bytes
  pub by_json_name : Bytes → Option Bytes

-- The waiters of a subscription are channels of one token, each with whether it holds that.
-- `announced` is what the bus was given.
pub record Service : Type 0 where
  pub kv : Memory
  pub clk : FakeClock
  pub expiries : ℕ → Bytes × Bytes
  pub backlog : Bytes → List Message
  pub outstanding : List Lease
  pub waiters : Bytes → List (ℕ × Bool)
  pub seq : ℕ
  pub deliveries : ℕ
  pub announced : List (Bytes × Message)

-- m[k] = v
abbrev pub set_at {ℓ} : {A : Type ℓ} → Bytes → A → (Bytes → A) → Bytes → A
set_at k v m j = if str_eq k j then v else m j

unfoldable pub topic_key : Bytes → Bytes
topic_key name = codes "ps/t/" ++ name

unfoldable pub subscription_key : Bytes → Bytes
subscription_key name = codes "ps/s/" ++ name

unfoldable pub valid_name_parts : Bytes → List Bytes → Bool
valid_name_parts kind (a ∷ project ∷ c ∷ id ∷ []) =
    str_eq a (codes "projects") && str_eq c kind && not (is_empty project) && not (is_empty id)
valid_name_parts kind other = false

unfoldable pub valid_name : Bytes → Bytes → Bool
valid_name name kind = valid_name_parts kind (split_slash name)

abbrev pub second : List Bytes → Bytes
second (a ∷ b ∷ rest) = b
second other = []

unfoldable pub project_of : Bytes → Bytes
project_of name = second (split_slash name)

-- The value that a read gives; every error of the store is NotFound.
abbrev pub value_read : Result (Bytes × ℕ) → Reply Bytes
value_read (Result.ok e) = ok e.0
value_read (Result.err e) = failed Gerr.not_found

module _ {V : Type 0} (codec : Codec V) where
  unfoldable pub get_topic : Bytes → Memory → Reply (Resource V)
  get_topic name kv =
      then_reply (value_read (Store.get none (topic_key name) kv))
        (λ b. or_fail internal (codec.decode b))

  unfoldable pub get_subscription : Bytes → Memory → Reply (Resource V)
  get_subscription name kv =
      then_reply (value_read (Store.get none (subscription_key name) kv))
        (λ b. or_fail internal (codec.decode b))

abbrev pub signalled : ℕ × Bool → ℕ × Bool
signalled (ch, full) = (ch, true)

-- Every waiting stream of the subscription holds a token after it.
unfoldable pub signal : Bytes → Service → Service
signal sub s = record s { waiters = set_at sub (map signalled (s.waiters sub)) s.waiters }

unfoldable pub drop_channel : ℕ → List (ℕ × Bool) → List (ℕ × Bool)
drop_channel ch [] = []
drop_channel ch ((c, full) ∷ cs) =
    let rest = drop_channel ch cs in if c == ch then rest else (c, full) ∷ rest

-- The channel is one that is not in use.
unfoldable pub listen : Bytes → ℕ → Service → Service
listen sub ch s = record s { waiters = set_at sub ((ch, false) ∷ s.waiters sub) s.waiters }

unfoldable pub stop_listening : Bytes → ℕ → Service → Service
stop_listening sub ch s = record s {
  waiters = set_at sub (drop_channel ch (s.waiters sub)) s.waiters;
}

unfoldable pub next_message_id : Service → Bytes × Service
next_message_id s = let n = (s.seq + 1) % 2 ^ 64 in (format_int n, record s { seq = n })
