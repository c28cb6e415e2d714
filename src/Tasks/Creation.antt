-- ===== src/Tasks/Creation.antt =====
-- CreateTask of services/cloudtasks/task.go on a name that its client chose.
use cloudrig.Prelude.{◌≡◌, refl, ap, ◌∙◌, true, false, some, if◌then◌else◌}
use cloudrig.Prelude.Bytes.{Bytes, str_eq_refl}
use cloudrig.Gerr.{unimplemented}
use cloudrig.Rpc.{ok, failed, is_empty}
use cloudrig.Store.{next_version}
use cloudrig.Tasks.{
  Queue, Task, Codec, Service, queue_of, task_key, valid_queue_name, parse_task_parent,
  get_queue_record,
}
use cloudrig.Tasks.Dispatch.{schedule_time}
use cloudrig.Tasks.Requests.{create_task, named_task, store_task, given_task, or_now}
use cloudrig.Tasks.Storing.{IsVersioned, put_task_writes, schedule-kv}

-- The task as it is stored: created now, and due now if it is not due at another time.
abbrev pub dated : Task → Service → Task
dated t s = record t {
  create_time = some s.clk.now;
  schedule_time = or_now t.schedule_time s.clk.now;
}

-- A request with a task that CreateTask can store under the name it gives.
pub record IsRequest (codec : Codec) (parent : Bytes) (t : Task) (b : Bytes) (q : Queue)
    (s : Service) : Type 0 where
  pub parent_valid : valid_queue_name parent ≡ true
  pub http_target : t.app_engine ≡ false
  pub is_named : is_empty t.name ≡ false
  pub under_parent : queue_of t.name ≡ parent
  pub queue_there : get_queue_record codec parent s.kv ≡ ok q
  pub encodable : codec.encode_task (dated t s) ≡ some b

store_task_writes :
    (codec : Codec) (t : Task) (b : Bytes) (s : Service)
    → codec.encode_task (dated t s) ≡ some b
    → IsVersioned (task_key t.name) s.kv
    → ((store_task codec t s).0 ≡ ok (dated t s))
      × ((store_task codec t s).1.kv.m (task_key t.name)
          ≡ some (record { val = b; version = next_version (s.kv.m (task_key t.name)) }))
unfolding store_task
store_task_writes codec t b s e v =
    let (kv, done, w) = put_task_writes codec (dated t s) b s.kv e v in
    (
      rw done refl,
      rw done (
          ap (λ m. m.m (task_key t.name))
            (schedule-kv codec t.name (schedule_time codec (dated t s)) (record s { kv = kv }))
          ∙ w (task_key t.name)
          ∙ rw (str_eq_refl (task_key t.name)) refl),
    )

given_http : (codec : Codec) (t : Task) → t.app_engine ≡ false → given_task codec (some t) ≡ ok t
given_http codec t h = ap (λ b. if b then failed unimplemented else ok t) h

named_stored :
    (codec : Codec) (parent : Bytes) (t : Task) (s : Service)
    → is_empty t.name ≡ false
    → queue_of t.name ≡ parent
    → named_task codec parent t s ≡ store_task codec t s
unfolding named_task
named_stored codec parent t s h e = rw h (rw e (rw (str_eq_refl parent) refl))

-- CreateTask on a well-formed request that names its task answers with the task and stores it,
-- whether a task of that name is stored already or not: the one that was is lost.
pub create_task_overwrites :
    (codec : Codec) (parent : Bytes) (t : Task) (b : Bytes) (q : Queue) (s : Service)
    → IsRequest codec parent t b q s
    → IsVersioned (task_key t.name) s.kv
    → ((create_task codec parent (some t) s).0 ≡ ok (dated t s))
      × ((create_task codec parent (some t) s).1.kv.m (task_key t.name)
          ≡ some (record { val = b; version = next_version (s.kv.m (task_key t.name)) }))
unfolding create_task parse_task_parent
create_task_overwrites codec parent t b q s r v = rw r.parent_valid (
    rw (given_http codec t r.http_target) (
      rw r.queue_there (
        rw (named_stored codec parent t s r.is_named r.under_parent)
          (store_task_writes codec t b s r.encodable v))))
