-- ===== src/Tasks/Storing.antt =====
-- What putTask and schedule of services/cloudtasks/dispatch.go leave of the store and of the live
-- queues.
use cloudrig.Prelude.{
  ℕ, ◌≡◌, ◌≢◌, refl, ap, ◌∙◌, arith, inl, inr, true, Option, Option-cases, none, some,
  if◌then◌else◌,
}
use cloudrig.Prelude.Int.{ℤ}
use cloudrig.Prelude.Bytes.{Bytes, str_eq}
use cloudrig.Rpc.{Reply, ok, failed}
use cloudrig.Store.{Memory, Result, Entry, next_version}
use cloudrig.Store
use cloudrig.Store.Cas.{Meets, put_outcome}
use cloudrig.Tasks.{Queue, Task, Codec, Live, Service, queue_of, task_key, get_queue_record}
use cloudrig.Tasks.Dispatch.{
  version_read, has_written, live_queue, made_live, schedule_on, schedule, put_encoded, put_task,
}

-- No entry is at version 0, which a version reaches only by 2 ^ 64 writes.
abbrev pub IsVersioned : Bytes → Memory → Type 0
IsVersioned key kv = (e : Entry) → kv.m key ≡ some e → e.version ≢ 0

-- The store differs in the one entry that has been written.
abbrev pub IsWritten : Bytes → Bytes → Memory → Memory → Type 0
IsWritten key b kv kv' =
    (j : Bytes)
    → kv'.m j ≡ (
        if str_eq key j
        then some (record { val = b; version = next_version (kv.m key) })
        else kv.m j)

read_version-Meets :
    (key : Bytes) (kv : Memory) (o : Option Entry)
    → kv.m key ≡ o
    → IsVersioned key kv
    → Meets (version_read (Store.get none key kv)) o
unfolding Store.get Store.found
read_version-Meets key kv none h v = rw h refl
read_version-Meets key kv (some e) h v = rw h (v e h, refl)

put-IsWritten :
    (key b : Bytes) (n : ℕ) (kv : Memory)
    → Meets n (kv.m key)
    → (kv' : Memory) × (has_written (Store.put none key b n kv) ≡ (true, kv'))
      × IsWritten key b kv kv'
put-IsWritten key b n kv met = elim (put_outcome key b n kv) [
  | inl (p, e, w) ↦ ((Store.put none key b n kv).1, written (Store.put none key b n kv) e, w)
  | inr (p, e) ↦ absurd (p met)
]
  where
    written :
        (r : Result ℕ × Memory)
        → r.0 ≡ Result.ok (next_version (kv.m key))
        → has_written r ≡ (true, r.1)
    written (Result.ok v, m) e = refl
    written (Result.err x, m) e = cc

-- A task that can be encoded is written, whether its name is taken or not.
pub put_task_writes :
    (codec : Codec) (t : Task) (b : Bytes) (kv : Memory)
    → codec.encode_task t ≡ some b
    → IsVersioned (task_key t.name) kv
    → (kv' : Memory) × (put_task codec t kv ≡ (true, kv')) × IsWritten (task_key t.name) b kv kv'
unfolding put_task put_encoded
put_task_writes codec t b kv e v =
    let key = task_key t.name in
    let n = version_read (Store.get none key kv) in
    let (kv', same, w) = put-IsWritten key b n kv (read_version-Meets key kv (kv.m key) refl v) in
    (kv', ap (λ o. put_encoded codec t.name o kv) e ∙ same, w)

live_queue-kv : (codec : Codec) (name : Bytes) (s : Service) → (live_queue codec name s).1.kv ≡ s.kv
unfolding live_queue
live_queue-kv codec name s = elim (Option-cases (s.queues name)) [
  | inl e ↦ rw (e, live_queue) (made (get_queue_record codec name s.kv))
  | inr (q, e) ↦ rw (e, live_queue) refl
]
  where
    made : (r : Reply Queue) → (made_live name r s).1.kv ≡ s.kv
    made (failed c) = refl
    made (ok rec) = refl

schedule_on-kv :
    (codec : Codec) (name : Bytes) (at : ℤ) (r : Option Live × Service)
    → (schedule_on codec name at r).kv ≡ r.1.kv
unfolding schedule_on
schedule_on-kv codec name at (none, s) = refl
schedule_on-kv codec name at (some q, s) = grind arith

pub schedule-kv :
    (codec : Codec) (name : Bytes) (at : ℤ) (s : Service) → (schedule codec name at s).kv ≡ s.kv
unfolding schedule
schedule-kv codec name at s =
    schedule_on-kv codec name at (live_queue codec (queue_of name) s)
    ∙ live_queue-kv codec (queue_of name) s
