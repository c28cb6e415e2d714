-- ===== src/Tasks/Backoff.antt =====
-- The delays of services/cloudtasks/dispatch.go.
use native.Mathlib.Nat.{pow-suc, mul_comm, mul_assoc}
use cloudrig.Prelude.{
  Bool-cases, inl, inr, ℕ, zero, suc, ◌-◌, ◌*◌, ◌%◌, ◌^◌, ◌≡◌, ◌≤◌, ◌<◌, sym, ap, ◌∙◌, arith, ltb,
  if◌then◌else◌,
}
use cloudrig.Prelude.Int.{pos, pos_part}
use cloudrig.Tasks.Dispatch.{signed, shift_left, RetryPolicy, backoff}

signed_small : (m : ℕ) → m < 2 ^ 63 → signed m ≡ pos m
unfolding signed
signed_small m h = ground (arith)

-- As long as the doubled delay fits 63 bits, the delay before the next attempt is the least one
-- doubled for each attempt after the first, or the greatest one if that is less.
pub backoff_exact :
    (p : RetryPolicy) (least most count : ℕ)
    → p.min_backoff ≡ pos least
    → p.max_backoff ≡ pos most
    → least * 2 ^ (count - 1) < 2 ^ 63
    → backoff p count
      ≡ pos (if ltb most (least * 2 ^ (count - 1)) then most else least * 2 ^ (count - 1))
unfolding backoff shift_left
backoff_exact p least most count e f h =
    rw e (rw f (rw (signed_small (least * 2 ^ (count - 1)) h) (ground arith)))

-- From 64 on a power of two is a multiple of a word.
pow_multiple : (k : ℕ) → 64 ≤ k → (q : ℕ) × (2 ^ k ≡ 2 ^ 64 * q)
pow_multiple zero h = absurd (omega arith)
pow_multiple (suc k) h = elim (Bool-cases (ltb k 64)) [
  | inl last ↦ (1, ap (λ n. 2 ^ suc n) {x = k} {y = 63} (ground arith))
  | inr more ↦ let (q, e) = pow_multiple k (ground arith) in (2 * q, omega (arith, pow-suc 2 k, e))
]

mul_mod_word : (q : ℕ) → (2 ^ 64 * q) % 2 ^ 64 ≡ 0
mul_mod_word q = omega arith

signed_multiple : (q : ℕ) → signed (2 ^ 64 * q) ≡ pos 0
unfolding signed
signed_multiple q = ground (arith, mul_mod_word q)

shift_multiple : (m a w q : ℕ) → a ≡ w * q → m * a ≡ w * (m * q)
shift_multiple m a w q e =
    ap (λ n. m * n) e ∙ (sym (mul_assoc m w q) ∙ (ap (λ n. n * q) (mul_comm m w) ∙ mul_assoc w m q))

-- After 65 attempts the shift has lost every bit: the delay is 0, whatever the least delay is.
pub backoff_overflows :
    (p : RetryPolicy) (most count : ℕ)
    → p.max_backoff ≡ pos most
    → 65 ≤ count
    → backoff p count ≡ pos 0
unfolding backoff shift_left
backoff_overflows p most count f h =
    let (q, e) = pow_multiple (count - 1) (omega arith) in
    let m = pos_part p.min_backoff in
    let lost : m * 2 ^ (count - 1) ≡ 2 ^ 64 * (m * q) =
      shift_multiple m (2 ^ (count - 1)) (2 ^ 64) q e in
    rw f (rw (ap signed lost ∙ signed_multiple (m * q)) (ground arith))
