-- ===== src/Tasks/Retrying.antt =====
-- The retries of services/cloudtasks/dispatch.go, for a task whose requests keep failing.
use cloudrig.Prelude.{
  ℕ, zero, suc, ◌+◌, ◌≡◌, ap, sym, subst, ◌∙◌, arith, true, false, Option, none, some, leb,
}
use cloudrig.Prelude.Int.{◌+ℤ◌}
use cloudrig.Prelude.Bytes.{Bytes}
use cloudrig.Tasks.{Task, Codec, Service, queue_of, task_key, get_task_record}
use cloudrig.Tasks.Dispatch.{
  RetryPolicy, dispatch_begin, dispatch_end, retry_task, retry_config, backoff,
}
use cloudrig.Tasks.Arming.{IsRunning, IsArmed}
use cloudrig.Tasks.Waiting.{
  rewritten, ReadsBack, IsWaiting, forgotten, get_stored, begun, attempted, end_failed, retry_out,
  retried,
}

-- An attempt to dispatch a task, which fails, with nothing else in between.
abbrev ended : Codec → Bytes → Option (Task × RetryPolicy) × Service → Service
ended codec name (none, s) = s
ended codec name (some (t, p), s) = dispatch_end codec name t p false s

unfoldable pub fail_once : Codec → Bytes → Service → Service
fail_once codec name s = ended codec name (dispatch_begin codec name s)

unfoldable pub fail_times : Codec → Bytes → ℕ → Service → Service
fail_times codec name zero s = s
fail_times codec name (suc n) s = fail_times codec name n (fail_once codec name s)

-- One failing attempt is a retry from a state with the same store and clock and a running queue.
fail_once-retry :
    (codec : Codec) (name : Bytes) (p : RetryPolicy) (t : Task) (left : ℕ) (s : Service)
    (w : IsWaiting codec name p t left s)
    → (s' : Service) × (fail_once codec name s ≡ retry_task codec name (attempted t s') p s')
      × (s'.kv ≡ s.kv)
      × (s'.clk ≡ s.clk)
      × (s'.launched ≡ s.launched)
      × IsRunning (queue_of name) s'
unfolding fail_once
fail_once-retry codec name p t left s w =
    let (s', e, kept, clock, launched, running) = begun codec name p t left s w in
    (
      s',
      ap (ended codec name) e
          ∙ end_failed codec name t t p s' (
              ap (get_task_record codec name) kept
              ∙ get_stored codec name t w.entry s.kv w.is_stored w.is_read),
      kept,
      clock,
      launched,
      running,
    )

-- The last attempt drops the task.
fail_last :
    (codec : Codec) (name : Bytes) (p : RetryPolicy) (t : Task) (left : ℕ) (s : Service)
    → IsWaiting codec name p t left s
    → leb p.max_attempts (t.dispatch_count + 1) ≡ true
    → (fail_once codec name s).kv.m (task_key name) ≡ none
fail_last codec name p t left s w out =
    let (s', e, kept, clock, launched, running) = fail_once-retry codec name p t left s w in
    rw e (
      rw (retry_out codec name (attempted t s') p s' out)
        (forgotten codec name w.entry s' (ap (λ m. m.m (task_key name)) kept ∙ w.is_stored)))

-- What an attempt leaves that is not the last: the task, written anew, and armed for the time after
-- its back-off.
abbrev pub IsRetried : Codec → Bytes → RetryPolicy → Task → ℕ → Service → Service → Type 0
IsRetried codec name p t left s s' =
    IsWaiting codec name p (rewritten t p s.clk.now (t.dispatch_count + 1)) left s'
    × IsArmed name (s.clk.now +ℤ backoff p (t.dispatch_count + 1)) s s'
    × (s'.clk.now ≡ s.clk.now)

-- The launched dispatches and the clock are all that a retry reads of the state before.
IsRetried-begun :
    (codec : Codec) (name : Bytes) (p : RetryPolicy) (t : Task) (left : ℕ) (s u s' : Service)
    → u.clk ≡ s.clk
    → u.launched ≡ s.launched
    → IsRetried codec name p t left u s'
    → IsRetried codec name p t left s s'
IsRetried-begun codec name p t left s u s' c l h =
    subst (λ k. IsRetried codec name p t left (record s { clk = k }) s') c
      (subst (λ k. IsRetried codec name p t left (record s { clk = u.clk; launched = k }) s') l h)

fail_more :
    (codec : Codec) (name : Bytes) (p : RetryPolicy) (t : Task) (left : ℕ) (s : Service)
    → ReadsBack codec t p s.clk.now
    → IsWaiting codec name p t (suc left) s
    → leb p.max_attempts (t.dispatch_count + 1) ≡ false
    → IsRetried codec name p t left s (fail_once codec name s)
fail_more codec name p t left s reads w more =
    let (s', e, kept, clock, launched, running) = fail_once-retry codec name p t (suc left) s w in
    IsRetried-begun codec name p t left s s' (fail_once codec name s) clock launched (
      rw e (
        retried codec name p left t w.entry s'
          (subst (λ c. ReadsBack codec t p c.now) (sym clock) reads)
          (ap (λ m. m.m (task_key name)) kept ∙ w.is_stored) w.versioned w.room w.is_named
          (ap (retry_config codec name) kept ∙ w.policy) running more))

-- Each of the next `n` attempts, which fail, is followed by another.
abbrev pub Retries : Codec → Bytes → RetryPolicy → ℕ → Task → Service → Type 0
Retries codec name p zero t s = Unit
Retries codec name p (suc n) t s =
    IsRetried codec name p t n s (fail_once codec name s)
    × Retries codec name p n (rewritten t p s.clk.now (t.dispatch_count + 1))
        (fail_once codec name s)

-- Where the requests of a task fail, in a queue that runs, each attempt but the last one that its
-- policy allows stores the task again with the attempt counted and a time after the back-off, and
-- then launches its dispatch, if that time is no later than the present, or arms a timer of it for
-- that time, if it is later. The last attempt drops the task. Nothing else happens in between; the
-- task can be encoded as each attempt leaves it and is read back, and its entry has versions left
-- for the attempts.
pub fail_times-drops :
    (codec : Codec) (name : Bytes) (p : RetryPolicy) (n : ℕ) (t : Task) (s : Service)
    → ReadsBack codec t p s.clk.now
    → t.dispatch_count + suc n ≡ p.max_attempts
    → IsWaiting codec name p t n s
    → Retries codec name p n t s × ((fail_times codec name (suc n) s).kv.m (task_key name) ≡ none)
unfolding fail_times
fail_times-drops codec name p zero t s reads h w =
    (tt, fail_last codec name p t 0 s w (ground arith))
fail_times-drops codec name p (suc n) t s reads h w =
    let t' = rewritten t p s.clk.now (t.dispatch_count + 1) in
    let (waits, armed, still) = fail_more codec name p t n s reads w (ground arith) in
    let (rest, gone) =
      fail_times-drops codec name p n t' (fail_once codec name s)
        (subst (ReadsBack codec t' p) (sym still) reads) (omega arith) waits in
    (((waits, armed, still), rest), gone)
