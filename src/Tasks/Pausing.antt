-- ===== src/Tasks/Pausing.antt =====
-- What PauseQueue and ResumeQueue do to the dispatch of the queue's tasks.
use cloudrig.Prelude.{ℕ, ◌≡◌, ◌≢◌, refl, ap, true, none, some, List, [], ◌∷◌, All}
use cloudrig.Prelude.Int.{ℤ}
use cloudrig.Prelude.Bytes.{Bytes, str_eq_refl}
use cloudrig.Rpc.{Reply, ok, failed}
use cloudrig.Store.{Memory, Result}
use cloudrig.Store
use cloudrig.Clock.{Timer}
use cloudrig.Clock.Queue.{IsClock, Elsewhere, stop-IsClock, stop-Elsewhere}
use cloudrig.Clock.Firing.{stop-All}
use cloudrig.Tasks.Requests.{stop_timer}
use cloudrig.Tasks.{
  Queue, QueueState, paused, Codec, Live, Service, Step, after, queue_of, queue_key,
  get_queue_record,
}
use cloudrig.Tasks.Dispatch.{
  is_paused, version_read, live_queue, schedule_on, schedule, dispatch_begin,
}
use cloudrig.Tasks.Queues.{
  stop_timers, live_or_new, put_state, or_empty, turn, turned, set_queue_state, pause_queue,
}

-- A step that has succeeded went through its first part.
pub after_ok :
    {A B : Type 0} {y : B} {s' : Service} (s : Service) (r : Reply A) (f : A → Step B)
    → after s r f ≡ (ok y, s')
    → (a : A) × (r ≡ ok a) × (f a ≡ (ok y, s'))
after_ok s (ok a) f h = (a, refl, h)
after_ok s (failed c) f h = cc

turned_ok :
    (codec : Codec) (want q : Queue) (name : Bytes) (s s' : Service) (r : Result ℕ × Memory)
    → turned codec want name r s ≡ (ok q, s')
    → (kv : Memory) × (s' ≡ turn codec name want.state (record s { kv = kv }))
turned_ok codec want q name s s' (Result.ok v, kv) h = (kv, cc)
turned_ok codec want q name s s' (Result.err e, kv) h = cc

put_state_ok :
    (codec : Codec) (name : Bytes) (state : QueueState) (rec q : Queue) (s s' : Service)
    → put_state codec name state s rec ≡ (ok q, s')
    → (kv : Memory) × (s' ≡ turn codec name state (record s { kv = kv }))
put_state_ok codec name state rec q s s' h =
    let want = record rec { state = state } in
    turned_ok codec want q name s s'
      (Store.put none (queue_key name) (or_empty (codec.encode_queue want))
        (version_read (Store.get none (queue_key name) s.kv)) s.kv)
      h

-- A queue in memory that is paused, without a timer.
abbrev pub IsHalted : Bytes → Service → Type 0
IsHalted name s = s.queues name ≡ some (record { paused = true; timers = [] })

turn-IsHalted :
    (codec : Codec) (name : Bytes) (s : Service) → IsHalted name (turn codec name paused s)
unfolding turn is_paused
turn-IsHalted codec name s = rw (str_eq_refl name) refl

pub live_queue_found :
    (codec : Codec) (name : Bytes) (q : Live) (s : Service)
    → s.queues name ≡ some q
    → live_queue codec name s ≡ (some q, s)
unfolding live_queue
live_queue_found codec name q s h = rw (h, live_queue) refl

halted_schedule :
    (codec : Codec) (task : Bytes) (at : ℤ) (s : Service)
    → IsHalted (queue_of task) s
    → schedule codec task at s ≡ s
unfolding schedule schedule_on
halted_schedule codec task at s h =
    ap (schedule_on codec task at)
      (live_queue_found codec (queue_of task) (record { paused = true; timers = [] }) s h)

halted_dispatch :
    (codec : Codec) (task : Bytes) (s : Service)
    → IsHalted (queue_of task) s
    → dispatch_begin codec task s ≡ (none, s)
unfolding dispatch_begin
halted_dispatch codec task s h = rw (h, dispatch_begin) refl

-- The timers that are stopped are not queued in the clock, nor is any that was not before.
stop_timers-All {κ} :
    (P : Timer → Type κ) (ts : List (Bytes × ℕ)) (s : Service)
    → All P s.clk.q
    → All P (stop_timers ts s).clk.q
unfolding stop_timers
stop_timers-All P [] s h = h
stop_timers-All P ((name, id) ∷ ts) s h =
    stop_timers-All P ts (stop_timer id s) (stop-All P id s.clk h)

stop_timers-Elsewhere :
    (ts : List (Bytes × ℕ)) (s : Service)
    → IsClock s.clk
    → All (λ t. Elsewhere t.1 (stop_timers ts s).clk.q) ts
unfolding stop_timers
stop_timers-Elsewhere [] s v = tt
stop_timers-Elsewhere ((name, id) ∷ ts) s v = (
  stop_timers-All (λ u. u.id ≢ id) ts (stop_timer id s) (stop-Elsewhere id s.clk v),
  stop_timers-Elsewhere ts (stop_timer id s) (stop-IsClock id s.clk v),
)

-- The clock of `s'` does not hold a timer that the queue had in `s`.
abbrev pub IsDisarmed : Bytes → Service → Service → Type 0
IsDisarmed name s s' = All (λ t. Elsewhere t.1 s'.clk.q) (live_or_new (s.queues name)).timers

turn-IsDisarmed :
    (codec : Codec) (name : Bytes) (s : Service)
    → IsClock s.clk
    → IsDisarmed name s (turn codec name paused s)
unfolding turn is_paused
turn-IsDisarmed codec name s v = stop_timers-Elsewhere (live_or_new (s.queues name)).timers s v

-- Once PauseQueue has answered with a queue, the clock holds none of the timers that the queue had
-- and the queue has none, a dispatch of any of its tasks sends nothing and changes nothing, and
-- scheduling any of its tasks changes nothing. The clock was well formed.
pub pause_queue_halts :
    (codec : Codec) (name : Bytes) (q : Queue) (s s' : Service)
    → IsClock s.clk
    → pause_queue codec name s ≡ (ok q, s')
    → IsDisarmed name s s'
      × IsHalted name s'
      × ((task : Bytes)
          → queue_of task ≡ name
          → (dispatch_begin codec task s' ≡ (none, s'))
            × ((at : ℤ) → schedule codec task at s' ≡ s'))
unfolding pause_queue set_queue_state
pause_queue_halts codec name q s s' v h =
    let (rec, e, f) =
      after_ok s (get_queue_record codec name s.kv) (put_state codec name paused s) h in
    let (kv, same) = put_state_ok codec name paused rec q s s' f in
    let halted : IsHalted name s' = rw same (turn-IsHalted codec name (record s { kv = kv })) in
    (
      rw same (turn-IsDisarmed codec name (record s { kv = kv }) v),
      halted,
      λ task e.
          let at_task : IsHalted (queue_of task) s' = rw e halted in
          (halted_dispatch codec task s' at_task, λ at. halted_schedule codec task at s' at_task),
    )
