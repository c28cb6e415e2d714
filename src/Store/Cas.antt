-- ===== src/Store/Cas.antt =====
-- Compare and swap over store/memory.go: when a write or a deletion goes through, what it leaves,
-- and what a history of operations by several clients can do between a read and a write.
use cloudrig.Prelude.{
  ℕ, ◌+◌, ◌^◌, ◌≤◌, ◌<◌, ◌≡◌, ◌≢◌, refl, ◌∙◌, ap, false, not, Option, none, some, List, [], ◌∷◌,
  arith, if◌then◌else◌, Bool-cases, inl, inr, ◌⊎◌, ◌||◌, ◌==◌, length,
}
use cloudrig.Prelude.Bytes.{Bytes, str_eq, has_prefix, str_eq_iff, str_eq_refl}
use cloudrig.Store.{
  Result, ok, err, version_mismatch, Entry, Memory, version_of, next_version, write, get, found,
  put, delete, reset,
}
use cloudrig.Store.Invariant.{IsValid, m-reset, put-IsValid, delete-IsValid, reset-IsValid}

-- The precondition that `ifVersion` states: 0 wants the key absent, any other number wants the
-- entry at that version.
abbrev pub Meets : ℕ → Option Entry → Type 0
Meets n none = n ≡ 0
Meets n (some e) = (n ≢ 0) × (e.version ≡ n)

-- The two outcomes of a write: with its precondition met it returns the next version and
-- replaces the one entry; otherwise it reports a mismatch and changes nothing.
abbrev pub PutOutcome : Bytes → Bytes → ℕ → Memory → Result ℕ × Memory → Type 0
PutOutcome key val n s r =
    (Meets n (s.m key)
      × (r.0 ≡ ok (next_version (s.m key)))
      × ((j : Bytes)
          → r.1.m j ≡ (
              if str_eq key j
              then some (record { val = val; version = next_version (s.m key) })
              else s.m j)))
    ⊎ (¬ Meets n (s.m key)) × (r ≡ (err version_mismatch, s))

Meets-dec : (n : ℕ) (e : Option Entry) → Meets n e ⊎ ¬ Meets n e
Meets-dec n none = omega arith
Meets-dec n (some e) = elim (Bool-cases (n == 0 || not (e.version == n))) [
  | inl c ↦ inr (λ h. ground arith)
  | inr c ↦ inl (ground arith)
]

put_met :
    (key val : Bytes) (n : ℕ) (s : Memory) (e : Option Entry)
    → s.m key ≡ e
    → Meets n e
    → put none key val n s ≡ (ok (next_version (s.m key)), write key val (s.m key) s)
unfolding put
put_met key val n s none h p = ground arith
put_met key val n s (some e) h p = ground arith

put_unmet :
    (key val : Bytes) (n : ℕ) (s : Memory) (e : Option Entry)
    → s.m key ≡ e
    → ¬ Meets n e
    → put none key val n s ≡ (err version_mismatch, s)
unfolding put
put_unmet key val n s none h p = elim (Bool-cases (n == 0)) [
  | inl c ↦ absurd (p (ground arith))
  | inr c ↦ ground arith
]
put_unmet key val n s (some e) h p = elim (Bool-cases (n == 0 || not (e.version == n))) [
  | inl c ↦ ground arith
  | inr c ↦ absurd (p (ground arith))
]

-- With its precondition met a write returns the next version and replaces the one entry;
-- otherwise it reports a mismatch and changes nothing.
pub put_outcome :
    (key val : Bytes) (n : ℕ) (s : Memory) → PutOutcome key val n s (put none key val n s)
unfolding write
put_outcome key val n s = elim (Meets-dec n (s.m key)) [
  | inl p ↦ inl (
    p,
    ap (λ r. r.0) (put_met key val n s (s.m key) refl p),
    λ j. ap (λ r. r.1.m j) (put_met key val n s (s.m key) refl p),
  )
  | inr p ↦ inr (p, put_unmet key val n s (s.m key) refl p)
]

-- What a write that succeeded says of the state before it and after it.
pub put_succeeded :
    (key val : Bytes) (n v : ℕ) (s : Memory)
    → (put none key val n s).0 ≡ ok v
    → Meets n (s.m key)
      × (v ≡ next_version (s.m key))
      × ((put none key val n s).1.m key ≡ some (record { val = val; version = v }))
put_succeeded key val n v s h = elim (put_outcome key val n s) [
  | inl (p, r, m) ↦ (p, cc, m key ∙ ground (arith, str_eq_refl key, r))
  | inr (p, r) ↦ cc
]

not_Meets_next :
    (n : ℕ) (e : Option Entry) (val : Bytes)
    → Meets n e
    → ¬ Meets n (some (record { val = val; version = next_version e }))
not_Meets_next n none val p q = absurd (q.0 p)
not_Meets_next n (some e) val p q = omega arith

-- Of two writers that read the same version, the second to write is refused.
pub put_exclusive :
    (key val other : Bytes) (n v : ℕ) (s : Memory)
    → (put none key val n s).0 ≡ ok v
    → put none key other n (put none key val n s).1
      ≡ (err version_mismatch, (put none key val n s).1)
put_exclusive key val other n v s h =
    let (p, e, m) = put_succeeded key val n v s h in
    put_unmet key other n (put none key val n s).1 _ m (rw e (not_Meets_next n (s.m key) val p))

-- A value that was written is read back, at the version that the write returned.
pub get-put :
    (key val : Bytes) (n v : ℕ) (s : Memory)
    → (put none key val n s).0 ≡ ok v
    → get none key (put none key val n s).1 ≡ ok (val, v)
unfolding put get write found
get-put key val n v s h = ground (arith, str_eq_refl key)

abbrev pub DeleteOutcome : Bytes → ℕ → Memory → Entry → Result (Unit {0}) × Memory → Type 0
DeleteOutcome key n s e r =
    (((n ≡ 0) ⊎ (e.version ≡ n))
      × (r.0 ≡ ok tt)
      × ((j : Bytes) → r.1.m j ≡ (if str_eq key j then none else s.m j)))
    ⊎ ((n ≢ 0) × (e.version ≢ n) × (r ≡ (err version_mismatch, s)))

-- A deletion of a key that is there goes through for version 0 or the entry's own, and then
-- removes just that entry; otherwise it reports a mismatch and changes nothing.
pub delete_outcome :
    (key : Bytes) (n : ℕ) (s : Memory) (e : Entry)
    → s.m key ≡ some e
    → DeleteOutcome key n s e (delete none key n s)
unfolding delete
delete_outcome key n s e h = elim (Bool-cases (n == 0 || e.version == n)) [
  | inl c ↦ inl (ground arith, ground arith, λ j. ground arith)
  | inr c ↦ inr (ground arith, ground arith, ground arith)
]

-- One request of a client; a store serves them one after another.
pub data Op : Type 0 where
  puts : Bytes → Bytes → ℕ → Op
  deletes : Bytes → ℕ → Op
  resets : Bytes → Op

unfoldable pub step : Memory → Op → Memory
step s (puts key val n) = (put none key val n s).1
step s (deletes key n) = (delete none key n s).1
step s (resets prefix) = (reset none prefix s).1

unfoldable pub run : Memory → List Op → Memory
run s [] = s
run s (op ∷ ops) = run (step s op) ops

pub step-IsValid : (s : Memory) (op : Op) → IsValid s → IsValid (step s op)
unfolding step
step-IsValid s (puts key val n) v = put-IsValid none key val n s v
step-IsValid s (deletes key n) v = delete-IsValid none key n s v
step-IsValid s (resets prefix) v = reset-IsValid none prefix s v

pub run-IsValid : (s : Memory) (ops : List Op) → IsValid s → IsValid (run s ops)
unfolding run
run-IsValid s [] v = v
run-IsValid s (op ∷ ops) v = run-IsValid (step s op) ops (step-IsValid s op v)

-- The request leaves the key in the store: it deletes another one, or resets a prefix that does
-- not cover it.
abbrev pub Spares : Bytes → Op → Type 0
Spares key (puts k val n) = Unit
Spares key (deletes k n) = str_eq k key ≡ false
Spares key (resets prefix) = has_prefix prefix key ≡ false

abbrev pub Sparing : Bytes → List Op → Type 0
Sparing key [] = Unit
Sparing key (op ∷ ops) = Spares key op × Sparing key ops

-- The entry is as it was, or its version has risen, by `k` at the most.
abbrev pub Grown : ℕ → Option Entry → Option Entry → Type 0
Grown k e e' = (version_of e' ≤ version_of e + k) × ((e' ≡ e) ⊎ (version_of e < version_of e'))

m-delete_ne :
    (k key : Bytes) (n : ℕ) (s : Memory)
    → str_eq k key ≡ false
    → (delete none k n s).1.m key ≡ s.m key
unfolding delete
m-delete_ne k key n s h = ground arith

step-Grown :
    (key : Bytes) (s : Memory) (op : Op)
    → IsValid s
    → Spares key op
    → version_of (s.m key) + 1 < 2 ^ 64
    → Grown 1 (s.m key) ((step s op).m key)
unfolding step
step-Grown key s (puts k val n) v h b = elim (put_outcome k val n s) [
  | inl (p, r, m) ↦ ground (arith, m key, str_eq_iff k key, ap s.m {x = k} {y = key})
  | inr (p, r) ↦ ground arith
]
step-Grown key s (deletes k n) v h b = rw (m-delete_ne k key n s h) (ground arith)
step-Grown key s (resets prefix) v h b = rw m-reset (ground arith)

run-Grown :
    (key : Bytes) (s : Memory) (ops : List Op)
    → IsValid s
    → Sparing key ops
    → version_of (s.m key) + length ops < 2 ^ 64
    → Grown (length ops) (s.m key) ((run s ops).m key)
unfolding run
run-Grown key s [] v h b = ground arith
run-Grown key s (op ∷ ops) v h b =
    let first = step-Grown key s op v h.0 (omega arith) in
    let rest = run-Grown key (step s op) ops (step-IsValid s op v) h.1 (omega arith) in
    ground (arith, first, rest)

get-some :
    (key val : Bytes) (n : ℕ) (s : Memory)
    → get none key s ≡ ok (val, n)
    → s.m key ≡ some (record { val = val; version = n })
unfolding get found
get-some key val n s h = ground arith

-- Compare and swap loses no update: a client reads a key, any number of requests that neither
-- delete nor reset it are served (fewer than would wrap the version around), and the client's
-- write at the version that it read goes through. Then the entry is still the one that it read.
pub cas_sound :
    (key val new : Bytes) (s : Memory) (ops : List Op) {n v : ℕ}
    → IsValid s
    → Sparing key ops
    → n + length ops < 2 ^ 64
    → get none key s ≡ ok (val, n)
    → 0 < n
    → (put none key new n (run s ops)).0 ≡ ok v
    → (run s ops).m key ≡ some (record { val = val; version = n })
cas_sound key val new s ops {n} {v} valid h b read pos won =
    let was = get-some key val n s read in
    let grown = run-Grown key s ops valid h (rw was b) in
    let (met, _, _) = put_succeeded key new n v (run s ops) won in ground (arith, was, grown, met)
