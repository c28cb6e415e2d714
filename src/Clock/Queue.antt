-- ===== src/Clock/Queue.antt =====
-- The timer queue of core/clock/fake.go: AfterFunc keeps it in the order of deadlines, then of
-- arming, and Stop takes one timer out of it.
use cloudrig.Prelude.{
  ℕ, ◌+◌, ◌≤◌, ◌<◌, ◌≡◌, ◌≢◌, refl, sym, subst, ap, Bool, true, false, not, none, some, List, [],
  ◌∷◌, ◌++◌, arith, if◌then◌else◌, ◌==◌, search_index, select, select_every, select_none, All,
  All-map, Bool-cases, Option-cases, inl, inr,
}
use cloudrig.Prelude.Int.{ℤ, ◌+ℤ◌, ltb_ℤ}
use cloudrig.Clock.{Timer, FakeClock, before, insert, armed, after_func, unlink, stop, mark}

-- No timer stands behind one that it goes before.
abbrev pub IsQueue : List Timer → Type 0
IsQueue [] = Unit
IsQueue (t ∷ ts) = All (λ u. before u t ≡ false) ts × IsQueue ts

before_asym : (t u : Timer) → before t u ≡ true → before u t ≡ false
unfolding before
before_asym t u h = ground arith

before_trans : (t u v : Timer) → before t u ≡ true → before v u ≡ false → before v t ≡ false
unfolding before
before_trans t u v h k = ground arith

pub insert-cons :
    (t u : Timer) (us : List Timer)
    → insert t (u ∷ us) ≡ (if before t u then t ∷ u ∷ us else u ∷ insert t us)
unfolding insert search_index
insert-cons t u us = ground arith

pub insert-nil : (t : Timer) → insert t [] ≡ t ∷ []
unfolding insert search_index
insert-nil t = refl

pub All-insert {κ} :
    (P : Timer → Type κ) (t : Timer) (q : List Timer) → P t → All P q → All P (insert t q)
All-insert P t [] p h = rw insert-nil (p, tt)
All-insert P t (u ∷ us) p h = rw insert-cons (ground (arith, All-insert P t us p h.1))

pub insert-IsQueue : (t : Timer) (q : List Timer) → IsQueue q → IsQueue (insert t q)
insert-IsQueue t [] h = rw insert-nil (tt, tt)
insert-IsQueue t (u ∷ us) h = rw insert-cons (elim (Bool-cases (before t u)) [
  | inl first ↦
      rw first ((before_asym t u first, All-map (λ v k. before_trans t u v first k) us h.0), h)
  | inr later ↦
      rw later (All-insert (λ v. before v u ≡ false) t us later h.0, insert-IsQueue t us h.1)
])

-- The two ways in which a timer is found at the head of the queue or behind it.
pub unlink_cases {κ} :
    (P : List Timer → Type κ) (id : ℕ) (t : Timer) (ts us : List Timer)
    → unlink id (t ∷ ts) ≡ some us
    → (t.id ≡ id → P ts)
    → ((vs : List Timer) → unlink id ts ≡ some vs → t.id ≢ id → P (t ∷ vs))
    → P us
unfolding unlink
unlink_cases P id t ts us e here there = elim (Bool-cases (t.id == id)) [
  | inl hit ↦ subst P (ground arith) (here (ground arith))
  | inr miss ↦ elim (Option-cases (unlink id ts)) [
    | inl gone ↦ ground arith
    | inr (vs, left) ↦
        let rest : t ∷ vs ≡ us = ground arith in subst P rest (there vs left (ground arith))
  ]
]

pub unlink-nil : (id : ℕ) → unlink id [] ≡ none
unfolding unlink
unlink-nil id = refl

pub unlink-All {κ} :
    (P : Timer → Type κ) (id : ℕ) (q us : List Timer) → unlink id q ≡ some us → All P q → All P us
unlink-All P id [] us e h = cc (unlink-nil id)
unlink-All P id (t ∷ ts) us e h =
    unlink_cases (All P) id t ts us e (λ _. h.1)
      (λ vs left _. (h.0, unlink-All P id ts vs left h.1))

pub unlink-IsQueue : (id : ℕ) (q us : List Timer) → unlink id q ≡ some us → IsQueue q → IsQueue us
unlink-IsQueue id [] us e h = cc (unlink-nil id)
unlink-IsQueue id (t ∷ ts) us e h =
    unlink_cases IsQueue id t ts us e (λ _. h.1)
      λ vs left _.
        (unlink-All (λ u. before u t ≡ false) id ts vs left h.0, unlink-IsQueue id ts vs left h.1)

-- What a clock promises of its queue: it is in order, and its timers were all armed, have not
-- fired, and are distinct objects.
abbrev pub Elsewhere : ℕ → List Timer → Type 0
Elsewhere id = All (λ u. u.id ≢ id)

abbrev pub DistinctIds : List Timer → Type 0
DistinctIds [] = Unit
DistinctIds (t ∷ ts) = Elsewhere t.id ts × DistinctIds ts

pub record IsClock (c : FakeClock) : Type 0 where
  pub queue : IsQueue c.q
  pub below : All (λ u. u.id < c.next_id) c.q
  pub pending : All (λ u. c.fired u.id ≡ false) c.q
  pub distinct : DistinctIds c.q
  pub fresh : (id : ℕ) → c.next_id ≤ id → c.fired id ≡ false

insert-DistinctIds :
    (t : Timer) (q : List Timer) → Elsewhere t.id q → DistinctIds q → DistinctIds (insert t q)
insert-DistinctIds t [] e h = rw insert-nil (tt, tt)
insert-DistinctIds t (u ∷ us) e h = rw insert-cons (elim (Bool-cases (before t u)) [
  | inl first ↦ rw first (e, h)
  | inr later ↦
      rw later
        (All-insert (λ v. v.id ≢ u.id) t us (λ k. e.0 (sym k)) h.0, insert-DistinctIds t us e.1 h.1)
])

pub after_func-IsClock :
    (d : ℤ) (cb : ℕ) (c : FakeClock) → IsClock c → IsClock (after_func d cb c).1
unfolding after_func
after_func-IsClock d cb c v = record {
  queue = insert-IsQueue t c.q v.queue;
  below =
      All-insert (λ u. u.id < c.next_id + 1) t c.q (omega arith)
        (All-map (λ u h. omega arith) c.q v.below);
  pending =
      All-insert (λ u. c.fired u.id ≡ false) t c.q (v.fresh c.next_id (omega arith)) v.pending;
  distinct = insert-DistinctIds t c.q (All-map (λ u h. omega arith) c.q v.below) v.distinct;
  fresh = λ id h. v.fresh id (omega arith);
}
  where
    t : Timer
    t = armed c d cb

unlink-Elsewhere :
    (id : ℕ) (q us : List Timer) → unlink id q ≡ some us → DistinctIds q → Elsewhere id us
unlink-Elsewhere id [] us e h = cc (unlink-nil id)
unlink-Elsewhere id (t ∷ ts) us e h =
    unlink_cases (Elsewhere id) id t ts us e (λ hit. rw hit at h.0)
      (λ vs left miss. (miss, unlink-Elsewhere id ts vs left h.1))

unlink-DistinctIds :
    (id : ℕ) (q us : List Timer) → unlink id q ≡ some us → DistinctIds q → DistinctIds us
unlink-DistinctIds id [] us e h = cc (unlink-nil id)
unlink-DistinctIds id (t ∷ ts) us e h =
    unlink_cases DistinctIds id t ts us e (λ _. h.1)
      λ vs left _.
        (unlink-All (λ u. u.id ≢ t.id) id ts vs left h.0, unlink-DistinctIds id ts vs left h.1)

-- A flag set for one timer leaves those of the others.
pub pending-mark :
    (id : ℕ) (fired : ℕ → Bool) (q : List Timer)
    → Elsewhere id q
    → All (λ u. fired u.id ≡ false) q
    → All (λ u. mark id fired u.id ≡ false) q
pending-mark id fired [] e h = tt
pending-mark id fired (u ∷ us) e h = (ground arith, pending-mark id fired us e.1 h.1)

-- Some timer of the queue has the address that is unlinked.
unlink-below :
    (n id : ℕ) (q us : List Timer) → unlink id q ≡ some us → All (λ u. u.id < n) q → id < n
unlink-below n id [] us e h = cc (unlink-nil id)
unlink-below n id (t ∷ ts) us e h =
    unlink_cases (λ _. id < n) id t ts us e (λ hit. omega arith)
      (λ vs left _. unlink-below n id ts vs left h.1)

stopped-IsClock :
    (id : ℕ) (c : FakeClock) (us : List Timer)
    → unlink id c.q ≡ some us
    → IsClock c
    → IsClock (record c { q = us; fired = mark id c.fired })
stopped-IsClock id c us e v = record {
  queue = unlink-IsQueue id c.q us e v.queue;
  below = unlink-All (λ u. u.id < c.next_id) id c.q us e v.below;
  pending =
      pending-mark id c.fired us (unlink-Elsewhere id c.q us e v.distinct)
        (unlink-All (λ u. c.fired u.id ≡ false) id c.q us e v.pending);
  distinct = unlink-DistinctIds id c.q us e v.distinct;
  fresh = λ j h. ground (arith, unlink-below c.next_id id c.q us e v.below, v.fresh j h);
}

pub stop-IsClock : (id : ℕ) (c : FakeClock) → IsClock c → IsClock (stop id c).1
unfolding stop
stop-IsClock id c v = elim (Bool-cases (c.fired id)) [
  | inl done ↦ rw done v
  | inr live ↦ elim (Option-cases (unlink id c.q)) [
    | inl gone ↦ rw (live, gone) v
    | inr (us, e) ↦ rw (live, e) (stopped-IsClock id c us e v)
  ]
]

unlink-none : (id : ℕ) (q : List Timer) → unlink id q ≡ none → Elsewhere id q
unfolding unlink
unlink-none id [] e = tt
unlink-none id (t ∷ ts) e = elim (Option-cases (unlink id ts)) [
  | inl gone ↦ (ground arith, unlink-none id ts gone)
  | inr (us, left) ↦ ground arith
]

-- Once a timer has been stopped, the queue does not hold it, whether it was stopped in time or not.
pub stop-Elsewhere : (id : ℕ) (c : FakeClock) → IsClock c → Elsewhere id (stop id c).1.q
unfolding stop
stop-Elsewhere id c v = elim (Bool-cases (c.fired id)) [
  | inl done ↦ rw done (All-map (λ u p e. ground (arith, p, e, done)) c.q v.pending)
  | inr live ↦ elim (Option-cases (unlink id c.q)) [
    | inl gone ↦ rw (live, gone) (unlink-none id c.q gone)
    | inr (us, e) ↦ rw (live, e) (unlink-Elsewhere id c.q us e v.distinct)
  ]
]

unlink-insert : (t : Timer) (q : List Timer) → Elsewhere t.id q → unlink t.id (insert t q) ≡ some q
unfolding unlink
unlink-insert t [] h = rw insert-nil (ground arith)
unlink-insert t (u ∷ us) h = rw insert-cons (ground (arith, unlink-insert t us h.1))

-- A timer that was just armed can be stopped, and the queue is then as it was.
pub stop-after_func :
    (d : ℤ) (cb : ℕ) (c : FakeClock)
    → IsClock c
    → ((stop (after_func d cb c).0 (after_func d cb c).1).0 ≡ true)
      × ((stop (after_func d cb c).0 (after_func d cb c).1).1.q ≡ c.q)
unfolding stop after_func
stop-after_func d cb c v =
    let back = unlink-insert (armed c d cb) c.q (All-map (λ u h. omega arith) c.q v.below) in
    ground (arith, back, v.fresh c.next_id (omega arith))

-- Stop reports true at most once for a timer: after it has, every further Stop reports false and
-- changes nothing.
stop_twice :
    (id : ℕ) (c : FakeClock) → (stop id c).0 ≡ true → stop id (stop id c).1 ≡ (false, (stop id c).1)
unfolding stop
stop_twice id c h = ground arith

before_newer : (t u : Timer) → u.seq < t.seq → before t u ≡ ltb_ℤ t.when u.when
unfolding before
before_newer t u h = ground arith

behind_later :
    (t u v : Timer) → ltb_ℤ t.when u.when ≡ true → before v u ≡ false → ltb_ℤ t.when v.when ≡ true
unfolding before
behind_later t u v h k = ground arith

insert_fifo :
    (t : Timer) (q : List Timer)
    → IsQueue q
    → All (λ u. u.seq < t.seq) q
    → insert t q
      ≡ select (λ u. not (ltb_ℤ t.when u.when)) q ++ (t ∷ select (λ u. ltb_ℤ t.when u.when) q)
unfolding select
insert_fifo t [] h k = insert-nil t
insert_fifo t (u ∷ us) h k =
    rw (insert-cons, before_newer t u k.0)
      (elim (Bool-cases (ltb_ℤ t.when u.when)) [
        | inl past ↦
            let rest = All-map (λ v b. behind_later t u v past b) us h.0 in
            rw (
              past,
              select_every (λ v. ltb_ℤ t.when v.when) us rest,
              select_none (λ v. not (ltb_ℤ t.when v.when)) us (All-map (λ v b. ap not b) us rest),
            )
        | inr upto ↦ rw upto (ap (◌∷◌ u) (insert_fifo t us h.1 k.1))
      ])

-- A new timer fires behind every timer that is due by then, those of the same deadline included,
-- and before every later one; the sequence numbers must not have wrapped around.
pub after_func_fifo :
    (d : ℤ) (cb : ℕ) (c : FakeClock)
    → IsClock c
    → All (λ u. u.seq < c.seq) c.q
    → (after_func d cb c).1.q
      ≡ select (λ u. not (ltb_ℤ (c.now +ℤ d) u.when)) c.q
        ++ (armed c d cb ∷ select (λ u. ltb_ℤ (c.now +ℤ d) u.when) c.q)
unfolding after_func
after_func_fifo d cb c v h = insert_fifo (armed c d cb) c.q v.queue h
