-- ===== src/Tasks/Arming.antt =====
-- What `schedule` of services/cloudtasks/dispatch.go arms for a task of a queue that runs: a
-- dispatch at once, or a timer of the clock.
use cloudrig.Prelude.{
  ◌≡◌, refl, sym, ◌∙◌, arith, ◌⊎◌, inl, inr, Bool-cases, true, false, some, List, [], ◌∷◌, ◌++◌,
  search_index, take, drop,
}
use cloudrig.Prelude.Int.{ℤ, pos, ltb_ℤ, ◌+ℤ◌, ◌-ℤ◌, int_laws}
use cloudrig.Prelude.Bytes.{Bytes, str_eq_refl}
use cloudrig.Clock.{Timer, armed, after_func, insert, before}
use cloudrig.Tasks.{Codec, Live, Service, queue_of}
use cloudrig.Tasks.Dispatch.{schedule, schedule_on, timer_of, drop_timer}
use cloudrig.Tasks.Pausing.{live_queue_found}

-- A queue in memory that dispatches.
abbrev pub IsRunning : Bytes → Service → Type 0
IsRunning name s = (q : Live) × (s.queues name ≡ some q) × (q.paused ≡ false)

-- The clock holds a timer of the task, which is due then, and the queue knows it as the task's.
pub record IsTimed (name : Bytes) (at : ℤ) (s : Service) : Type 0 where
  pub queue : Live
  pub timer : Timer
  pub sooner : List Timer
  pub later : List Timer
  pub is_loaded : s.queues (queue_of name) ≡ some queue
  pub is_known : timer_of name queue.timers ≡ some timer.id
  pub is_queued : s.clk.q ≡ sooner ++ (timer ∷ later)
  pub is_due : timer.when ≡ at
  pub calls_task : s.calls timer.id ≡ name

-- Between two states one dispatch of the task was launched, as it is due, or its timer was armed.
abbrev pub IsArmed : Bytes → ℤ → Service → Service → Type 0
IsArmed name at s s' =
    ((ltb_ℤ s.clk.now at ≡ false) × (s'.launched ≡ s.launched ++ name ∷ []))
    ⊎ ((ltb_ℤ s.clk.now at ≡ true) × (s'.launched ≡ s.launched) × IsTimed name at s')

positive_delay : (at now : ℤ) → ltb_ℤ (pos 0) (at -ℤ now) ≡ ltb_ℤ now at
unfolding ◌-ℤ◌
positive_delay at now = ground arith

-- A deadline from its delay.
deadline : (at now : ℤ) → now +ℤ (at -ℤ now) ≡ at
deadline at now = omega int_laws

schedule_on-IsRunning :
    (codec : Codec) (name : Bytes) (at : ℤ) (q : Live) (s : Service)
    → s.queues (queue_of name) ≡ some q
    → q.paused ≡ false
    → IsRunning (queue_of name) (schedule_on codec name at (some q, s))
unfolding schedule_on
schedule_on-IsRunning codec name at q s h e = elim (Bool-cases (ltb_ℤ (pos 0) (at -ℤ s.clk.now))) [
  | inl c ↦ rw e (rw c (rw (str_eq_refl (queue_of name)) (_, refl, refl)))
  | inr c ↦ rw e (rw c (q, h, e))
]

schedule_on-IsArmed :
    (codec : Codec) (name : Bytes) (at : ℤ) (q : Live) (s : Service)
    → q.paused ≡ false
    → IsArmed name at s (schedule_on codec name at (some q, s))
unfolding schedule_on after_func insert timer_of
schedule_on-IsArmed codec name at q s e = elim (Bool-cases (ltb_ℤ (pos 0) (at -ℤ s.clk.now))) [
  | inl c ↦ rw e (
      rw c (
        inr (
          sym (positive_delay at s.clk.now) ∙ c,
          refl,
          record {
            queue = record {
              paused = false;
              timers = (name, s.clk.next_id) ∷ drop_timer name q.timers;
            };
            timer = armed s.clk (at -ℤ s.clk.now) s.clk.next_id;
            sooner =
                take
                  (search_index (λ u. before (armed s.clk (at -ℤ s.clk.now) s.clk.next_id) u)
                    s.clk.q)
                  s.clk.q;
            later =
                drop
                  (search_index (λ u. before (armed s.clk (at -ℤ s.clk.now) s.clk.next_id) u)
                    s.clk.q)
                  s.clk.q;
            is_loaded = rw (str_eq_refl (queue_of name)) refl;
            is_known = rw (str_eq_refl name) refl;
            is_queued = refl;
            is_due = deadline at s.clk.now;
            calls_task = ground arith;
          },
        )))
  | inr c ↦ rw e (rw c (inl (sym (positive_delay at s.clk.now) ∙ c, refl)))
]

-- `schedule` leaves a running queue running.
pub schedule-IsRunning :
    (codec : Codec) (name : Bytes) (at : ℤ) (s : Service)
    → IsRunning (queue_of name) s
    → IsRunning (queue_of name) (schedule codec name at s)
unfolding schedule
schedule-IsRunning codec name at s (q, h, e) =
    rw (live_queue_found codec (queue_of name) q s h) (schedule_on-IsRunning codec name at q s h e)

-- `schedule` arms the task in a running queue.
pub schedule-IsArmed :
    (codec : Codec) (name : Bytes) (at : ℤ) (s : Service)
    → IsRunning (queue_of name) s
    → IsArmed name at s (schedule codec name at s)
unfolding schedule
schedule-IsArmed codec name at s (q, h, e) =
    rw (live_queue_found codec (queue_of name) q s h) (schedule_on-IsArmed codec name at q s e)

schedule_on-now :
    (codec : Codec) (name : Bytes) (at : ℤ) (q : Live) (s : Service)
    → (schedule_on codec name at (some q, s)).clk.now ≡ s.clk.now
unfolding schedule_on after_func
schedule_on-now codec name at q s = grind arith

pub now-schedule :
    (codec : Codec) (name : Bytes) (at : ℤ) (s : Service)
    → IsRunning (queue_of name) s
    → (schedule codec name at s).clk.now ≡ s.clk.now
unfolding schedule
now-schedule codec name at s (q, h, e) =
    rw (live_queue_found codec (queue_of name) q s h) (schedule_on-now codec name at q s)
