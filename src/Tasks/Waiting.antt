-- ===== src/Tasks/Waiting.antt =====
-- A task of services/cloudtasks/dispatch.go that waits for its next attempt: what the two locked
-- parts of a dispatch, and a retry between attempts, leave of it.
use cloudrig.Prelude.{
  ℕ, suc, ◌+◌, ◌^◌, ◌%◌, ◌<◌, ◌≡◌, ◌≢◌, refl, sym, ap, subst, ◌∙◌, arith, true, false, Option, none,
  some, leb,
}
use cloudrig.Prelude.Int.{ℤ, ◌+ℤ◌}
use cloudrig.Prelude.Bytes.{Bytes, str_eq, str_eq_refl}
use cloudrig.Rpc.{ok}
use cloudrig.Store.{Memory, Entry, next_version, found}
use cloudrig.Store
use cloudrig.Tasks.{
  Live, set_queue, get_task_record, Task, Codec, Service, queue_of, queue_key, task_key,
  get_queue_record,
}
use cloudrig.Tasks.Dispatch.{
  dispatch_begin, found_task, drop_timer, RetryPolicy, put_task, schedule, dispatch_end,
  forget_task, retry_task, retry_config, backoff,
}
use cloudrig.Tasks.Arming.{IsRunning, IsArmed, schedule-IsRunning, schedule-IsArmed, now-schedule}
use cloudrig.Tasks.Storing.{IsWritten, IsVersioned, put_task_writes, schedule-kv}

other_key : (name queue : Bytes) → str_eq (task_key name) (queue_key queue) ≡ false
unfolding task_key queue_key str_eq
other_key name queue = refl

m-written_other :
    (key j b : Bytes) (kv kv' : Memory)
    → str_eq key j ≡ false
    → IsWritten key b kv kv'
    → kv'.m j ≡ kv.m j
m-written_other key j b kv kv' ne w = w j ∙ rw ne refl

-- What the queue's record says does not change as a task is written.
queue_record_kept :
    (codec : Codec) (name queue b : Bytes) (kv kv' : Memory)
    → IsWritten (task_key name) b kv kv'
    → get_queue_record codec queue kv' ≡ get_queue_record codec queue kv
unfolding get_queue_record Store.get found
queue_record_kept codec name queue b kv kv' w =
    rw
      (
        m-written_other (task_key name) (queue_key queue) b kv kv' (other_key name queue) w,
        get_queue_record,
        Store.get,
      )
      refl

retry_config_kept :
    (codec : Codec) (name b : Bytes) (kv kv' : Memory)
    → IsWritten (task_key name) b kv kv'
    → retry_config codec name kv' ≡ retry_config codec name kv
unfolding retry_config
retry_config_kept codec name b kv kv' w =
    rw (queue_record_kept codec name (queue_of name) b kv kv' w, retry_config) refl

pub get_stored :
    (codec : Codec) (name : Bytes) (t : Task) (e : Entry) (kv : Memory)
    → kv.m (task_key name) ≡ some e
    → codec.decode_task e.val ≡ some t
    → get_task_record codec name kv ≡ ok t
unfolding get_task_record Store.get found
get_stored codec name t e kv h d = rw h (rw d refl)

pub forgotten :
    (codec : Codec) (name : Bytes) (e : Entry) (s : Service)
    → s.kv.m (task_key name) ≡ some e
    → (forget_task codec name s).kv.m (task_key name) ≡ none
unfolding forget_task Store.delete
forgotten codec name e s h = rw h (rw (str_eq_refl (task_key name)) refl)

-- The task as a failed attempt leaves it, as its `n`-th, that was made at `now`.
abbrev pub rewritten : Task → RetryPolicy → ℤ → ℕ → Task
rewritten t p now n = record t {
  dispatch_count = n;
  last_attempt = some now;
  schedule_time = some (now +ℤ backoff p n);
}

-- The task can be encoded as each of its attempts at `now` leaves it, and is read back.
abbrev pub ReadsBack : Codec → Task → RetryPolicy → ℤ → Type 0
ReadsBack codec t p now =
    (n : ℕ)
    → n < p.max_attempts
    → (b : Bytes) × (codec.encode_task (rewritten t p now n) ≡ some b)
      × (codec.decode_task b ≡ some (rewritten t p now n))

-- The task `t` is stored and can be written `left` times; its queue dispatches, and its policy is
-- `p`.
pub record IsWaiting (codec : Codec) (name : Bytes) (p : RetryPolicy) (t : Task) (left : ℕ)
    (s : Service) : Type 0 where
  pub entry : Entry
  pub is_stored : s.kv.m (task_key name) ≡ some entry
  pub is_read : codec.decode_task entry.val ≡ some t
  pub is_named : t.name ≡ name
  pub versioned : entry.version ≢ 0
  pub room : entry.version + left < 2 ^ 64
  pub policy : retry_config codec name s.kv ≡ p
  pub is_running : IsRunning (queue_of name) s

begin_found :
    (codec : Codec) (name : Bytes) (q : Live) (s : Service)
    → s.queues (queue_of name) ≡ some q
    → q.paused ≡ false
    → dispatch_begin codec name s
      ≡ found_task codec name q
          (get_task_record codec name s.kv)
          (set_queue (queue_of name) (some (record q { timers = drop_timer name q.timers })) s)
unfolding dispatch_begin
begin_found codec name q s h e = rw (h, dispatch_begin) (rw e refl)

-- The locked part before the request gives the task and changes no more than its timer.
pub begun :
    (codec : Codec) (name : Bytes) (p : RetryPolicy) (t : Task) (left : ℕ) (s : Service)
    → IsWaiting codec name p t left s
    → (s' : Service) × (dispatch_begin codec name s ≡ (some (t, p), s'))
      × (s'.kv ≡ s.kv)
      × (s'.clk ≡ s.clk)
      × (s'.launched ≡ s.launched)
      × IsRunning (queue_of name) s'
begun codec name p t left s w =
    let (q, h, e) = w.is_running in
    let q' : Live = record q { timers = drop_timer name q.timers } in
    let s' = set_queue (queue_of name) (some q') s in
    (
      s',
      begin_found codec name q s h e
          ∙ rw (get_stored codec name t w.entry s.kv w.is_stored w.is_read) (rw w.policy refl),
      refl,
      refl,
      refl,
      (q', rw (str_eq_refl (queue_of name)) refl, e),
    )

-- The task as the code holds it after an attempt.
abbrev pub attempted : Task → Service → Task
attempted t s = record t { dispatch_count = t.dispatch_count + 1; last_attempt = some s.clk.now }

pub end_failed :
    (codec : Codec) (name : Bytes) (t u : Task) (p : RetryPolicy) (s : Service)
    → get_task_record codec name s.kv ≡ ok u
    → dispatch_end codec name t p false s ≡ retry_task codec name (attempted t s) p s
unfolding dispatch_end
end_failed codec name t u p s h = rw (h, dispatch_end) refl

pub retry_out :
    (codec : Codec) (name : Bytes) (t : Task) (p : RetryPolicy) (s : Service)
    → leb p.max_attempts t.dispatch_count ≡ true
    → retry_task codec name t p s ≡ forget_task codec name s
unfolding retry_task
retry_out codec name t p s h = rw h refl

-- A version that is not 0 and has room is followed by one that is not 0.
next_versioned :
    (v left : ℕ)
    → v + suc left < 2 ^ 64
    → ((v + 1) % 2 ^ 64 ≢ 0) × ((v + 1) % 2 ^ 64 + left < 2 ^ 64)
next_versioned v left h = (λ e. omega (arith, e), omega arith)

some_entry : {e e' : Entry} → ◌≡◌ {A = Option Entry} (some e) (some e') → e ≡ e'
some_entry h = cc

pub stored-IsVersioned :
    (key : Bytes) (e : Entry) (kv : Memory) → kv.m key ≡ some e → e.version ≢ 0 → IsVersioned key kv
stored-IsVersioned key e kv h v e' h' = λ z. v (ap (λ x. x.version) (some_entry (sym h ∙ h')) ∙ z)

put_named :
    (codec : Codec) (name b : Bytes) (t : Task) (e : Entry) (kv : Memory)
    → codec.encode_task t ≡ some b
    → kv.m (task_key name) ≡ some e
    → e.version ≢ 0
    → t.name ≡ name
    → (kv' : Memory) × (put_task codec t kv ≡ (true, kv')) × IsWritten (task_key name) b kv kv'
put_named codec name b t e kv enc stored versioned named =
    let (kv', done, w) = put_task_writes codec t b kv enc (
      subst (λ n. IsVersioned (task_key n) kv) (sym named)
        (stored-IsVersioned (task_key name) e kv stored versioned)) in
    (kv', done, subst (λ n. IsWritten (task_key n) b kv kv') named w)

-- After an attempt that is not the last, the task is written again, waits, and is armed.
pub retried :
    (codec : Codec) (name : Bytes) (p : RetryPolicy) (left : ℕ) (t : Task) (e : Entry) (s : Service)
    → ReadsBack codec t p s.clk.now
    → s.kv.m (task_key name) ≡ some e
    → e.version ≢ 0
    → e.version + suc left < 2 ^ 64
    → t.name ≡ name
    → retry_config codec name s.kv ≡ p
    → IsRunning (queue_of name) s
    → leb p.max_attempts (t.dispatch_count + 1) ≡ false
    → IsWaiting codec name p
        (rewritten t p s.clk.now (t.dispatch_count + 1))
        left
        (retry_task codec name (attempted t s) p s)
      × IsArmed name
          (s.clk.now +ℤ backoff p (t.dispatch_count + 1))
          s
          (retry_task codec name (attempted t s) p s)
      × ((retry_task codec name (attempted t s) p s).clk.now ≡ s.clk.now)
unfolding retry_task
retried codec name p left t e s reads stored versioned room named policy running more =
    let at = s.clk.now +ℤ backoff p (t.dispatch_count + 1) in
    let t' = rewritten t p s.clk.now (t.dispatch_count + 1) in
    let (b, enc, dec) = reads (t.dispatch_count + 1) (ground arith) in
    let (kv', done, w) = put_named codec name b t' e s.kv enc stored versioned named in
    let s' : Service = record s { kv = kv' } in
    let kept = schedule-kv codec name at s' in
    let (ver, fits) = next_versioned e.version left room in
    let waits : IsWaiting codec name p t' left (schedule codec name at s') = record {
      entry = record { val = b; version = next_version (some e) };
      is_stored =
          ap (λ m. m.m (task_key name)) kept
          ∙ (w (task_key name) ∙ rw (str_eq_refl (task_key name)) (rw stored refl));
      is_read = dec;
      is_named = named;
      versioned = ver;
      room = fits;
      policy =
          ap (retry_config codec name) kept ∙ (retry_config_kept codec name b s.kv kv' w ∙ policy);
      is_running = schedule-IsRunning codec name at s' running;
    } in
    rw more (
      rw done
        (waits, schedule-IsArmed codec name at s' running, now-schedule codec name at s' running))
