-- ===== src/Tasks/Tests.antt =====
-- A codec that reads back the tasks that it encodes, and instances of the theorems on
-- services/cloudtasks.
use cloudrig.Prelude.{
  ℕ, ◌≡◌, refl, arith, false, Option, none, some, [], ◌∷◌, ◌++◌, ◌==◌, if◌then◌else◌, search_index,
  length, take, drop, take-append, drop-append_self,
}
use cloudrig.Prelude.Int.{◌-ℤ◌, ℤ, pos}
use cloudrig.Prelude.Bytes.{Bytes, codes, str_eq, str_lt, cut, cut_prefix}
use cloudrig.Prelude.Coding.{
  int_code, int_of, time_code, time_of, time_of-time_code, flag_code, flag_of, flag_of-flag_code,
}
use cloudrig.Rpc.{ok, split_slash}
use cloudrig.Clock.{new_fake}
use cloudrig.Clock.Queue.{IsClock, after_func-IsClock}
use cloudrig.Store.{Memory, Entry, next_version, new_memory}
use cloudrig.Store
use cloudrig.Tasks.{
  Queue, QueueState, unspecified, running, paused, disabled, Task, Codec, new_live, Service,
  queue_key, task_key, valid_queue_parts, valid_queue_name, parse_task_parent, queue_of,
  get_queue_record,
}
use cloudrig.Tasks.Dispatch.{
  arm_timer, default_policy, policy_of, backoff, retry_config, live_queue, schedule_on, schedule,
  put_encoded, put_task, dispatch_begin,
}
use cloudrig.Tasks.Requests.{create_task, named_task, store_task}
use cloudrig.Tasks.Queues.{create_queue, pause_queue, set_queue_state}
use cloudrig.Tasks.Backoff.{backoff_exact, backoff_overflows}
use cloudrig.Tasks.Creation.{IsRequest, dated, create_task_overwrites}
use cloudrig.Tasks.Pausing.{IsDisarmed, IsHalted, pause_queue_halts}
use cloudrig.Tasks.Waiting.{rewritten, IsWaiting, stored-IsVersioned}
use cloudrig.Tasks.Retrying.{Retries, fail_times, fail_times-drops}

encode_task : Task → Bytes
encode_task t =
    flag_code t.app_engine
    ∷ (time_code t.create_time).0
    ∷ (time_code t.create_time).1
    ∷ (time_code t.schedule_time).0
    ∷ (time_code t.schedule_time).1
    ∷ t.dispatch_count
    ∷ (time_code t.last_attempt).0
    ∷ (time_code t.last_attempt).1
    ∷ length t.name
    ∷ (t.name ++ t.request)

decode_task : Bytes → Option Task
decode_task (a ∷ b ∷ c ∷ d ∷ e ∷ f ∷ g ∷ h ∷ n ∷ s) = some (record {
  name = take n s;
  app_engine = flag_of a;
  request = drop n s;
  create_time = time_of (b, c);
  schedule_time = time_of (d, e);
  dispatch_count = f;
  last_attempt = time_of (g, h);
})
decode_task other = none

decode_task-encode_task : (t : Task) → decode_task (encode_task t) ≡ some t
unfolding decode_task encode_task
decode_task-encode_task t = rw (flag_of-flag_code t.app_engine) (
    rw (time_of-time_code t.create_time) (
      rw (time_of-time_code t.schedule_time) (
        rw (time_of-time_code t.last_attempt) (
          rw (take-append (length t.name) t.name t.request refl)
            (rw (drop-append_self (length t.name) t.name t.request refl) refl)))))

state_code : QueueState → ℕ
state_code unspecified = 0
state_code running = 1
state_code paused = 2
state_code disabled = 3

encode_queue : Queue → Bytes
encode_queue q = state_code q.state ∷ q.name

-- The state is 2 for a paused queue, and the rest of the record is not set.
decode_queue : Bytes → Option Queue
decode_queue [] = none
decode_queue (c ∷ name) = some (record {
  name = name;
  state = if c == 2 then paused else running;
  retry = none;
  purge_time = none;
})

abbrev codec : Codec
codec = record {
  encode_queue = λ q. some (encode_queue q);
  decode_queue = decode_queue;
  encode_task = λ t. some (encode_task t);
  decode_task = decode_task;
}

abbrev queue_name : Bytes
queue_name = codes "projects/p/locations/l/queues/q"

abbrev task_name : Bytes
task_name = codes "projects/p/locations/l/queues/q/tasks/t"

abbrev queue : Queue
queue = record { name = queue_name; state = running; retry = none; purge_time = none }

abbrev task : Task
task = record {
  name = task_name;
  app_engine = false;
  request = 7 ∷ [];
  create_time = none;
  schedule_time = none;
  dispatch_count = 0;
  last_attempt = none;
}

-- The service after CreateQueue, and after a CreateTask.
abbrev with_queue : Service
with_queue = record {
  kv = (Store.put none (queue_key queue_name) (encode_queue queue) 0 new_memory).1;
  clk = new_fake (pos 100);
  calls = λ id. [];
  queues = λ j. if str_eq queue_name j then some new_live else none;
  seq = 0;
  launched = [];
}

create_queue_runs :
    create_queue codec (some queue) (record with_queue { kv = new_memory; queues = λ j. none })
    ≡ (ok queue, with_queue)
unfolding create_queue valid_queue_name valid_queue_parts split_slash str_eq Store.put Store.write
    Store.insert_key new_memory queue_key encode_queue state_code search_index
create_queue_runs = refl

abbrev with_task : Service
with_task = record with_queue {
  kv =
      (Store.put none (task_key task_name) (encode_task (dated task with_queue)) 0 with_queue.kv).1;
  launched = task_name ∷ [];
}

create_task_runs :
    create_task codec queue_name (some task) with_queue ≡ (ok (dated task with_queue), with_task)
unfolding create_task named_task store_task valid_queue_name valid_queue_parts parse_task_parent
    split_slash str_eq str_lt cut cut_prefix ◌-ℤ◌ queue_of Store.put Store.write Store.insert_key
    Store.get Store.found new_memory queue_key task_key encode_queue state_code search_index
    get_queue_record put_task put_encoded encode_task decode_queue time_code int_code flag_code
    schedule schedule_on live_queue new_fake
create_task_runs = refl

backoff_exact_example : backoff default_policy 3 ≡ pos 400000000
backoff_exact_example = backoff_exact default_policy 100000000 10000000000 3 refl refl (omega arith)

backoff_overflows_example : backoff default_policy 65 ≡ pos 0
backoff_overflows_example = backoff_overflows default_policy 10000000000 65 refl (omega arith)

default_read : retry_config codec task_name with_task.kv ≡ default_policy
unfolding Store.put Store.write Store.insert_key Store.get Store.found new_memory queue_key task_key
    str_eq search_index cut cut_prefix queue_of encode_queue decode_queue state_code str_lt
    get_queue_record retry_config policy_of
default_read = refl

task_waits : IsWaiting codec task_name default_policy (dated task with_queue) 2 with_task
unfolding Store.put Store.write Store.insert_key Store.get Store.found new_memory queue_key task_key
    str_eq search_index cut cut_prefix queue_of encode_queue decode_queue state_code str_lt
    encode_task decode_task time_code time_of int_code int_of flag_code flag_of new_fake
task_waits = record {
  entry = record { val = encode_task (dated task with_queue); version = 1 };
  is_stored = refl;
  is_read = refl;
  is_named = refl;
  versioned = λ e. omega (arith, e);
  room = omega arith;
  policy = default_read;
  is_running = (new_live, refl, refl);
}

fail_times-drops_example :
    Retries codec task_name default_policy 2 (dated task with_queue) with_task
    × ((fail_times codec task_name 3 with_task).kv.m (task_key task_name) ≡ none)
unfolding new_fake
fail_times-drops_example =
    fail_times-drops codec task_name default_policy 2 (dated task with_queue) with_task
      (λ n h. (
        encode_task (rewritten (dated task with_queue) default_policy (pos 100) n),
        refl,
        decode_task-encode_task (rewritten (dated task with_queue) default_policy (pos 100) n),
      ))
      refl task_waits

-- The queue with a task that waits for its time.
abbrev waiting_service : Service
waiting_service = arm_timer task_name (pos 50) new_live with_queue

timer-IsClock : IsClock waiting_service.clk
unfolding new_fake
timer-IsClock =
    after_func-IsClock (pos 50) 0 with_queue.clk
      (record { queue = tt; below = tt; pending = tt; distinct = tt; fresh = λ id h. refl })

abbrev paused_queue : Queue
paused_queue = record queue { state = paused }

queue_pauses :
    pause_queue codec queue_name waiting_service
    ≡ (ok paused_queue, (pause_queue codec queue_name waiting_service).1)
unfolding pause_queue set_queue_state get_queue_record Store.get Store.found Store.put Store.write
    Store.insert_key new_memory queue_key encode_queue state_code decode_queue str_eq search_index
queue_pauses = refl

pause_queue_halts_example :
    IsDisarmed queue_name waiting_service (pause_queue codec queue_name waiting_service).1
    × IsHalted queue_name (pause_queue codec queue_name waiting_service).1
    × ((t : Bytes)
        → queue_of t ≡ queue_name
        → (dispatch_begin codec t (pause_queue codec queue_name waiting_service).1
            ≡ (none, (pause_queue codec queue_name waiting_service).1))
          × ((at : ℤ)
              → schedule codec t at (pause_queue codec queue_name waiting_service).1
                ≡ (pause_queue codec queue_name waiting_service).1))
pause_queue_halts_example =
    pause_queue_halts codec queue_name paused_queue waiting_service
      (pause_queue codec queue_name waiting_service).1 timer-IsClock queue_pauses

-- Another task under a name that is taken.
abbrev other_task : Task
other_task = record task { request = 8 ∷ [] }

other-IsRequest :
    IsRequest codec queue_name other_task (encode_task (dated other_task with_task)) queue with_task
unfolding Store.put Store.write Store.insert_key Store.get Store.found new_memory queue_key task_key
    str_eq search_index cut cut_prefix queue_of encode_queue decode_queue state_code str_lt
    valid_queue_name valid_queue_parts split_slash get_queue_record
other-IsRequest = record {
  parent_valid = refl;
  http_target = refl;
  is_named = refl;
  under_parent = refl;
  queue_there = refl;
  encodable = refl;
}

create_task_overwrites_example :
    ((create_task codec queue_name (some other_task) with_task).0 ≡ ok (dated other_task with_task))
    × ((create_task codec queue_name (some other_task) with_task).1.kv.m (task_key task_name)
        ≡ some (record {
          val = encode_task (dated other_task with_task);
          version = next_version (with_task.kv.m (task_key task_name));
        }))
create_task_overwrites_example =
    create_task_overwrites codec queue_name other_task (encode_task (dated other_task with_task))
      queue with_task other-IsRequest
      (stored-IsVersioned (task_key task_name) task_waits.entry with_task.kv task_waits.is_stored
        task_waits.versioned)
