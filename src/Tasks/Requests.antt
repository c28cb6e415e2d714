-- ===== src/Tasks/Requests.antt =====
-- services/cloudtasks/task.go: the requests on tasks. Each holds the service's lock but for the
-- dispatch of RunTask, which follows it.
use cloudrig.Prelude.{
  ℕ, Bool, true, false, not, Option, none, some, List, [], ◌∷◌, ◌++◌, if◌then◌else◌,
}
use cloudrig.Prelude.Int.{ℤ}
use cloudrig.Prelude.Bytes.{Bytes, codes, str_eq, str_lt}
use cloudrig.Gerr.{invalid_argument, internal, already_exists, unimplemented}
use cloudrig.Gerr
use cloudrig.Rpc.{Reply, ok, failed, then_reply, or_fail, read_page, sort_by, is_empty}
use cloudrig.Store.{Memory, Result, Kv}
use cloudrig.Store
use cloudrig.Clock
use cloudrig.Tasks.{
  Task, Codec, Live, Service, Step, after, set_queue, task_key, task_prefix, queue_of,
  parse_task_parent, get_queue_record, get_task_record, next_task_id,
}
use cloudrig.Tasks.Dispatch.{timer_of, drop_timer, put_task, schedule, schedule_time}

abbrev pub stop_timer : ℕ → Service → Service
stop_timer id s = record s { clk = (Clock.stop id s.clk).1 }

abbrev pub cancelled : Bytes → Bytes → Live → Option ℕ → Service → Service
cancelled queue name q none s = s
cancelled queue name q (some id) s =
    set_queue queue (some (record q { timers = drop_timer name q.timers })) (stop_timer id s)

-- The timer of a task is stopped and dropped, if there is one.
unfoldable pub cancel_timer : Bytes → Service → Service
cancel_timer name s = elim (s.queues (queue_of name)) [
  | none ↦ s
  | some q ↦ cancelled (queue_of name) name q (timer_of name q.timers) s
]

abbrev pub or_now : Option ℤ → ℤ → Option ℤ
or_now none now = some now
or_now (some at) now = some at

module _ (codec : Codec) where
  abbrev pub stored : Task → Bool × Memory → Service → Step Task
  stored t (true, kv) s =
      (ok t, schedule codec t.name (schedule_time codec t) (record s { kv = kv }))
  stored t (false, kv) s = (failed already_exists, record s { kv = kv })

  unfoldable pub store_task : Task → Service → Step Task
  store_task t s =
      let dated = record t {
        create_time = some s.clk.now;
        schedule_time = or_now t.schedule_time s.clk.now;
      } in
      stored dated (put_task codec dated s.kv) s

  unfoldable pub named_task : Bytes → Task → Service → Step Task
  named_task queue t s =
      if is_empty t.name
      then (let (id, s') = next_task_id s in
          store_task (record t { name = queue ++ (codes "/tasks/" ++ id) }) s')
      else if not (str_eq (queue_of t.name) queue)
      then (failed invalid_argument, s)
      else store_task t s

  abbrev pub given_task : Option Task → Reply Task
  given_task none = failed invalid_argument
  given_task (some t) = if t.app_engine then failed unimplemented else ok t

  unfoldable pub create_task : Bytes → Option Task → Service → Step Task
  create_task parent given s = after s (parse_task_parent parent) (λ queue.
      after s (given_task given)
        (λ t. after s (get_queue_record codec queue s.kv) (λ _. named_task queue t s)))

  unfoldable pub get_task : Bytes → Service → Reply Task
  get_task name s = get_task_record codec name s.kv

  unfoldable pub decode_tasks : List Kv → Reply (List Task)
  decode_tasks [] = ok []
  decode_tasks (e ∷ es) =
      then_reply (or_fail internal (codec.decode_task e.val))
        (λ x. then_reply (decode_tasks es) (λ xs. ok (x ∷ xs)))

  unfoldable pub list_tasks : Bytes → Service → Reply (List Task)
  list_tasks parent s = then_reply (get_queue_record codec parent s.kv) (λ _.
      then_reply (read_page (Store.list none (task_prefix parent) 0 [] s.kv)) (λ es.
        then_reply (decode_tasks es)
          (λ xs. ok (sort_by (λ (x y : Task). str_lt x.name y.name) xs))))

  abbrev pub removed : Bytes → Result (Unit {0}) × Memory → Service → Step (Unit {0})
  removed name (Result.ok u, kv) s = (ok tt, cancel_timer name (record s { kv = kv }))
  removed name (Result.err e, kv) s = (failed Gerr.not_found, record s { kv = kv })

  unfoldable pub delete_task : Bytes → Service → Step (Unit {0})
  delete_task name s = removed name (Store.delete none (task_key name) 0 s.kv) s

  -- The locked part of RunTask, which `dispatch` follows.
  unfoldable pub run_task : Bytes → Service → Step Task
  run_task name s = after s (get_task_record codec name s.kv) (λ t. (ok t, cancel_timer name s))
