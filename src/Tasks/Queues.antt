-- ===== src/Tasks/Queues.antt =====
-- services/cloudtasks/rpc.go: the requests on queues, each under the service's lock.
use cloudrig.Prelude.{ℕ, true, false, Option, none, some, List, [], ◌∷◌, ◌++◌, if◌then◌else◌}
use cloudrig.Prelude.Bytes.{Bytes, codes, str_lt}
use cloudrig.Gerr.{invalid_argument, internal, already_exists, aborted}
use cloudrig.Gerr
use cloudrig.Rpc.{Reply, ok, failed, then_reply, or_fail, read_page, sort_by}
use cloudrig.Store.{Memory, Result, Kv}
use cloudrig.Store
use cloudrig.Tasks.{
  QueueState, running, paused, Queue, Codec, Live, new_live, Service, Step, after, set_queue,
  queue_key, task_prefix, valid_queue_name, get_queue_record,
}
use cloudrig.Tasks.Dispatch.{is_paused, version_read, schedule_stored}
use cloudrig.Tasks.Requests.{stop_timer}

unfoldable pub stop_timers : List (Bytes × ℕ) → Service → Service
stop_timers [] s = s
stop_timers ((name, id) ∷ ts) s = stop_timers ts (stop_timer id s)

unfoldable pub delete_entries : List Kv → Memory → Memory
delete_entries [] kv = kv
delete_entries (e ∷ es) kv = delete_entries es (Store.delete none e.key 0 kv).1

unfoldable pub stop_live : Bytes → Service → Service
stop_live name s = elim (s.queues name) [
  | none ↦ s
  | some q ↦ set_queue name none (stop_timers q.timers s)
]

-- stopQueue: the timers are cancelled and the tasks dropped.
unfoldable pub stop_queue : Bytes → Service → Service
stop_queue name s =
    let stopped = stop_live name s in
    elim (read_page (Store.list none (task_prefix name) 0 [] s.kv)) [
      | failed c ↦ stopped
      | ok es ↦ record stopped { kv = delete_entries es s.kv }
    ]

abbrev pub queue_created : Queue → Result ℕ × Memory → Service → Step Queue
queue_created q (Result.ok v, kv) s =
    (ok q, set_queue q.name (some new_live) (record s { kv = kv }))
queue_created q (Result.err e, kv) s = (failed already_exists, record s { kv = kv })

abbrev pub queue_deleted : Bytes → Result (Unit {0}) × Memory → Service → Step (Unit {0})
queue_deleted name (Result.ok u, kv) s = (ok tt, stop_queue name (record s { kv = kv }))
queue_deleted name (Result.err e, kv) s = (failed Gerr.not_found, record s { kv = kv })

unfoldable pub delete_queue : Bytes → Service → Step (Unit {0})
delete_queue name s = queue_deleted name (Store.delete none (queue_key name) 0 s.kv) s

abbrev pub live_or_new : Option Live → Live
live_or_new none = new_live
live_or_new (some q) = q

-- mustMarshal: what cannot be encoded is the empty text.
abbrev pub or_empty : Option Bytes → Bytes
or_empty none = []
or_empty (some b) = b

module _ (codec : Codec) where
  abbrev pub given_queue : Option Queue → Reply Queue
  given_queue none = failed invalid_argument
  given_queue (some q) =
      if valid_queue_name q.name then ok (record q { state = running }) else failed invalid_argument

  unfoldable pub create_queue : Option Queue → Service → Step Queue
  create_queue given s = after s (given_queue given) (λ q.
      after s (or_fail internal (codec.encode_queue q))
        (λ b. queue_created q (Store.put none (queue_key q.name) b 0 s.kv) s))

  unfoldable pub get_queue : Bytes → Service → Reply Queue
  get_queue name s = get_queue_record codec name s.kv

  unfoldable pub decode_queues : List Kv → Reply (List Queue)
  decode_queues [] = ok []
  decode_queues (e ∷ es) =
      then_reply (or_fail internal (codec.decode_queue e.val))
        (λ x. then_reply (decode_queues es) (λ xs. ok (x ∷ xs)))

  unfoldable pub list_queues : Bytes → Service → Reply (List Queue)
  list_queues parent s =
      then_reply
        (read_page (Store.list none (codes "ct/q/" ++ (parent ++ codes "/queues/")) 0 [] s.kv))
        (λ es.
          then_reply (decode_queues es)
            (λ xs. ok (sort_by (λ (x y : Queue). str_lt x.name y.name) xs)))

  unfoldable pub purge_queue : Bytes → Service → Step Queue
  purge_queue name s = after s (get_queue_record codec name s.kv) (λ q. (
    ok (record q { purge_time = some s.clk.now }),
    set_queue name (some new_live) (stop_queue name s),
  ))

  -- The live half of setQueueState.
  unfoldable pub turn : Bytes → QueueState → Service → Service
  turn name state s =
      let live = live_or_new (s.queues name) in
      if is_paused state
      then set_queue name (some (record { paused = true; timers = [] })) (stop_timers live.timers s)
      else schedule_stored codec (task_prefix name)
          (set_queue name (some (record live { paused = false })) s)

  abbrev pub turned : Queue → Bytes → Result ℕ × Memory → Service → Step Queue
  turned q name (Result.ok v, kv) s = (ok q, turn name q.state (record s { kv = kv }))
  turned q name (Result.err e, kv) s = (failed aborted, record s { kv = kv })

  abbrev pub put_state : Bytes → QueueState → Service → Queue → Step Queue
  put_state name state s q =
      let want = record q { state = state } in
      turned want name
        (Store.put none (queue_key name) (or_empty (codec.encode_queue want))
          (version_read (Store.get none (queue_key name) s.kv)) s.kv)
        s

  unfoldable pub set_queue_state : Bytes → QueueState → Service → Step Queue
  set_queue_state name state s = after s (get_queue_record codec name s.kv) (put_state name state s)

  unfoldable pub pause_queue : Bytes → Service → Step Queue
  pause_queue name s = set_queue_state name paused s

  unfoldable pub resume_queue : Bytes → Service → Step Queue
  resume_queue name s = set_queue_state name running s
