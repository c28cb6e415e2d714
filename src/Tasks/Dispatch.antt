-- ===== src/Tasks/Dispatch.antt =====
-- services/cloudtasks/dispatch.go: the timers of tasks and the policy of retries. A dispatch takes
-- the service's lock twice, before and after it sends the request; what happens in between is
-- other steps. How the HTTP client ended is an argument.
use cloudrig.Prelude.{
  ℕ, ◌+◌, ◌-◌, ◌*◌, ◌%◌, ◌^◌, Bool, true, false, not, Option, none, some, List, [], ◌∷◌, ◌++◌, ◌==◌,
  ltb, leb, if◌then◌else◌,
}
use cloudrig.Prelude.Int.{ℤ, pos, negsuc, pos_part, ltb_ℤ, ◌+ℤ◌, ◌-ℤ◌}
use cloudrig.Prelude.Bytes.{Bytes, codes, str_eq}
use cloudrig.Rpc.{Reply, ok, failed, read_page}
use cloudrig.Store.{Memory, Result, Kv}
use cloudrig.Store
use cloudrig.Clock.{after_func}
use cloudrig.Tasks.{
  QueueState, unspecified, running, paused, disabled, RetryConfig, Queue, Task, Codec, Live,
  Service, set_queue, task_key, queue_of, get_queue_record, get_task_record,
}

unfoldable pub is_paused : QueueState → Bool
is_paused unspecified = false
is_paused running = false
is_paused paused = true
is_paused disabled = false

-- delete(q.timers, name)
unfoldable pub drop_timer : Bytes → List (Bytes × ℕ) → List (Bytes × ℕ)
drop_timer name [] = []
drop_timer name ((k, id) ∷ ts) =
    let rest = drop_timer name ts in if str_eq k name then rest else (k, id) ∷ rest

unfoldable pub timer_of : Bytes → List (Bytes × ℕ) → Option ℕ
timer_of name [] = none
timer_of name ((k, id) ∷ ts) =
    let rest = timer_of name ts in if str_eq k name then some id else rest

-- The two's complement value of a word of 64 bits.
unfoldable pub signed : ℕ → ℤ
signed m = let w = m % 2 ^ 64 in if ltb w (2 ^ 63) then pos w else negsuc (2 ^ 64 - w - 1)

-- d << k on int64, for what is not negative.
unfoldable pub shift_left : ℤ → ℕ → ℤ
shift_left d k = signed (pos_part d * 2 ^ k)

pub record RetryPolicy : Type 0 where
  pub max_attempts : ℕ
  pub min_backoff : ℤ
  pub max_backoff : ℤ

abbrev pub default_policy : RetryPolicy
default_policy = record {
  max_attempts = 3;
  min_backoff = pos 100000000;
  max_backoff = pos 10000000000;
}

abbrev pub if_positive : ℤ → ℤ → ℤ
if_positive d other = if ltb_ℤ (pos 0) d then d else other

-- A policy with defaults for what is not set; an unlimited number of attempts is the default one.
unfoldable pub policy_of : Option RetryConfig → RetryPolicy
policy_of none = default_policy
policy_of (some rc) = record {
  max_attempts = if ltb_ℤ (pos 0) rc.max_attempts then pos_part rc.max_attempts else 3;
  min_backoff = if_positive rc.min_backoff (pos 100000000);
  max_backoff = if_positive rc.max_backoff (pos 10000000000);
}

-- The delay before the next attempt, after so many.
unfoldable pub backoff : RetryPolicy → ℕ → ℤ
backoff p count =
    let d = shift_left p.min_backoff (count - 1) in
    if ltb_ℤ p.max_backoff d then p.max_backoff else d

abbrev pub version_read : Result (Bytes × ℕ) → ℕ
version_read (Result.ok e) = e.1
version_read (Result.err e) = 0

abbrev pub has_written : Result ℕ × Memory → Bool × Memory
has_written (Result.ok v, kv) = (true, kv)
has_written (Result.err e, kv) = (false, kv)

abbrev pub arm_timer : Bytes → ℤ → Live → Service → Service
arm_timer name delay q s =
    let (id, clk) = after_func delay s.clk.next_id s.clk in
    set_queue (queue_of name) (some (record q { timers = (name, id) ∷ drop_timer name q.timers }))
      (record s { clk = clk; calls = λ j. if id == j then name else s.calls j })

abbrev pub made_live : Bytes → Reply Queue → Service → Option Live × Service
made_live name (failed c) s = (none, s)
made_live name (ok rec) s =
    let q : Live = record { paused = is_paused rec.state; timers = [] } in
    (some q, set_queue name (some q) s)

module _ (codec : Codec) where
  -- liveQueue: the queue in memory, made from the stored one if there is only that.
  unfoldable pub live_queue : Bytes → Service → Option Live × Service
  live_queue name s = elim (s.queues name) [
    | some q ↦ (some q, s)
    | none ↦ made_live name (get_queue_record codec name s.kv) s
  ]

  -- The delay is not bounded here; Sub of two times is cut to an int64, of 292 years.
  unfoldable pub schedule_on : Bytes → ℤ → Option Live × Service → Service
  schedule_on name at (none, s) = s
  schedule_on name at (some q, s) =
      let delay = at -ℤ s.clk.now in
      if q.paused
      then s
      else if not (ltb_ℤ (pos 0) delay)
      then record s { launched = s.launched ++ name ∷ [] }
      else arm_timer name delay q s

  -- A task that is due is dispatched at once, another by the clock.
  unfoldable pub schedule : Bytes → ℤ → Service → Service
  schedule name at s = schedule_on name at (live_queue (queue_of name) s)

  abbrev pub schedule_time : Task → ℤ
  schedule_time t = elim t.schedule_time [ none ↦ pos 0 | some at ↦ at ]

  -- The loop of `recover` and `rearm`: what cannot be decoded is passed over.
  unfoldable pub schedule_every : List Kv → Service → Service
  schedule_every [] s = s
  schedule_every (e ∷ es) s = elim (codec.decode_task e.val) [
    | none ↦ schedule_every es s
    | some t ↦ schedule_every es (schedule t.name (schedule_time t) s)
  ]

  unfoldable pub schedule_stored : Bytes → Service → Service
  schedule_stored prefix s = elim (read_page (Store.list none prefix 0 [] s.kv)) [
    | failed c ↦ s
    | ok es ↦ schedule_every es s
  ]

  unfoldable pub recover : Service → Service
  recover s = schedule_stored (codes "ct/t/") s

  unfoldable pub retry_config : Bytes → Memory → RetryPolicy
  retry_config name kv = elim (get_queue_record codec (queue_of name) kv) [
    | failed c ↦ default_policy
    | ok q ↦ policy_of q.retry
  ]

  unfoldable pub put_encoded : Bytes → Option Bytes → Memory → Bool × Memory
  put_encoded name none kv = (false, kv)
  put_encoded name (some b) kv =
      has_written
        (Store.put none (task_key name) b (version_read (Store.get none (task_key name) kv)) kv)

  -- putTask, at the version that it has read; whether it has written.
  unfoldable pub put_task : Task → Memory → Bool × Memory
  put_task t kv = put_encoded t.name (codec.encode_task t) kv

  abbrev pub found_task :
      Bytes → Live → Reply Task → Service → Option (Task × RetryPolicy) × Service
  found_task name q (failed c) s = (none, s)
  found_task name q (ok t) s = (some (t, retry_config name s.kv), s)

  -- The first part of `dispatch`: the task to send, and the policy of its queue.
  unfoldable pub dispatch_begin : Bytes → Service → Option (Task × RetryPolicy) × Service
  dispatch_begin name s = elim (s.queues (queue_of name)) [
    | none ↦ (none, s)
    | some q ↦
        if q.paused
        then (none, s)
        else found_task name q (get_task_record codec name s.kv)
            (set_queue (queue_of name) (some (record q { timers = drop_timer name q.timers })) s)
  ]

  unfoldable pub forget_task : Bytes → Service → Service
  forget_task name s = record s { kv = (Store.delete none (task_key name) 0 s.kv).1 }

  abbrev pub rescheduled : Bytes → ℤ → Bool × Memory → Service → Service
  rescheduled name at (written, kv) s =
      if written then schedule name at (record s { kv = kv }) else record s { kv = kv }

  -- A failed attempt: the task is dropped once it is out of attempts, and waits otherwise.
  unfoldable pub retry_task : Bytes → Task → RetryPolicy → Service → Service
  retry_task name t p s =
      if leb p.max_attempts t.dispatch_count
      then forget_task name s
      else let at = s.clk.now +ℤ backoff p t.dispatch_count in
        rescheduled name at (put_task (record t { schedule_time = some at }) s.kv) s

  -- The second part, once the request has ended, well or not.
  unfoldable pub dispatch_end : Bytes → Task → RetryPolicy → Bool → Service → Service
  dispatch_end name t p succeeded s = elim (get_task_record codec name s.kv) [
    | failed c ↦ s
    | ok stored ↦
        let attempted = record t {
          dispatch_count = t.dispatch_count + 1;
          last_attempt = some s.clk.now;
        } in
        if succeeded then forget_task name s else retry_task name attempted p s
  ]
