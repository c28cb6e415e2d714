-- ===== src/Tasks.antt =====
-- services/cloudtasks: queues and tasks over the store and the fake clock (cloudtasks.go). A timer
-- of the clock runs the callback that dispatches a task; `calls` says which task, by the timer's
-- address. A dispatch that is due at once runs in a goroutine of its own: it joins `launched`.
pub mod Dispatch
pub mod Requests
pub mod Queues
pub mod Backoff
pub mod Storing
pub mod Creation
pub mod Pausing
pub mod Arming
pub mod Waiting
pub mod Retrying
mod Tests
use cloudrig.Prelude.{
  ℕ, ◌+◌, ◌%◌, ◌^◌, Bool, true, false, not, ◌&&◌, ◌||◌, Option, none, some, List, [], ◌∷◌, ◌++◌,
  ◌==◌, if◌then◌else◌,
}
use cloudrig.Prelude.Int.{ℤ}
use cloudrig.Prelude.Bytes.{Bytes, codes, str_eq, cut}
use cloudrig.Prelude.Decimal.{format_int}
use cloudrig.Gerr.{invalid_argument, internal}
use cloudrig.Gerr
use cloudrig.Rpc.{Reply, ok, failed, then_reply, or_fail, split_slash, is_empty}
use cloudrig.Store.{Memory, Result}
use cloudrig.Store
use cloudrig.Clock.{FakeClock}

pub data QueueState : Type 0 where
  unspecified running paused disabled : QueueState

-- A retry configuration; durations are nanoseconds, and one that is not set is 0.
pub record RetryConfig : Type 0 where
  pub max_attempts : ℤ
  pub min_backoff : ℤ
  pub max_backoff : ℤ

pub record Queue : Type 0 where
  pub name : Bytes
  pub state : QueueState
  pub retry : Option RetryConfig
  pub purge_time : Option ℤ

-- A task; its request is what the HTTP client sends. Its dispatch count is an int32 from 0 to
-- 2 ^ 31 - 2: another count, which a client may give, would make the shift of a retry panic.
pub record Task : Type 0 where
  pub name : Bytes
  pub app_engine : Bool
  pub request : Bytes
  pub create_time : Option ℤ
  pub schedule_time : Option ℤ
  pub dispatch_count : ℕ
  pub last_attempt : Option ℤ

-- How protojson encodes the records.
pub record Codec : Type 0 where
  pub encode_queue : Queue → Option Bytes
  pub decode_queue : Bytes → Option Queue
  pub encode_task : Task → Option Bytes
  pub decode_task : Bytes → Option Task

-- The queue type of dispatch.go: the timers of tasks that wait, by task name.
pub record Live : Type 0 where
  pub paused : Bool
  pub timers : List (Bytes × ℕ)

abbrev pub new_live : Live
new_live = record { paused = false; timers = [] }

pub record Service : Type 0 where
  pub kv : Memory
  pub clk : FakeClock
  pub calls : ℕ → Bytes
  pub queues : Bytes → Option Live
  pub seq : ℕ
  pub launched : List Bytes

abbrev pub Step : Type 0 → Type 0
Step A = Reply A × Service

abbrev pub after {ℓ} : {A : Type ℓ} {B : Type 0} → Service → Reply A → (A → Step B) → Step B
after s (ok a) f = f a
after s (failed c) f = (failed c, s)

-- m[k] = v, and delete(m, k) for `none`
abbrev pub set_queue : Bytes → Option Live → Service → Service
set_queue k v s = record s { queues = λ j. if str_eq k j then v else s.queues j }

unfoldable pub queue_key : Bytes → Bytes
queue_key name = codes "ct/q/" ++ name

unfoldable pub task_key : Bytes → Bytes
task_key name = codes "ct/t/" ++ name

unfoldable pub task_prefix : Bytes → Bytes
task_prefix queue = codes "ct/t/" ++ (queue ++ codes "/tasks/")

unfoldable pub valid_queue_parts : List Bytes → Bool
valid_queue_parts (a ∷ project ∷ c ∷ location ∷ e ∷ queue ∷ []) =
    str_eq a (codes "projects")
    && str_eq c (codes "locations")
    && str_eq e (codes "queues")
    && not (is_empty project)
    && not (is_empty location)
    && not (is_empty queue)
valid_queue_parts other = false

unfoldable pub valid_queue_name : Bytes → Bool
valid_queue_name name = valid_queue_parts (split_slash name)

unfoldable pub parse_task_parent : Bytes → Reply Bytes
parse_task_parent parent = if valid_queue_name parent then ok parent else failed invalid_argument

-- The task name without its tail, if it has one.
unfoldable pub queue_of : Bytes → Bytes
queue_of name = elim (cut (codes "/tasks/") name) [ none ↦ name | some (queue, id) ↦ queue ]

-- The value that a read gives; every error of the store is NotFound.
abbrev pub value_read : Result (Bytes × ℕ) → Reply Bytes
value_read (Result.ok e) = ok e.0
value_read (Result.err e) = failed Gerr.not_found

module _ (codec : Codec) where
  unfoldable pub get_queue_record : Bytes → Memory → Reply Queue
  get_queue_record name kv =
      then_reply (value_read (Store.get none (queue_key name) kv))
        (λ b. or_fail internal (codec.decode_queue b))

  unfoldable pub get_task_record : Bytes → Memory → Reply Task
  get_task_record name kv =
      then_reply (value_read (Store.get none (task_key name) kv))
        (λ b. or_fail internal (codec.decode_task b))

-- nextTaskID
unfoldable pub next_task_id : Service → Bytes × Service
next_task_id s = let n = (s.seq + 1) % 2 ^ 64 in (format_int n, record s { seq = n })
