-- ===== src/Pubsub/Counting.antt =====
-- Counting the messages of services/pubsub that pass a test: in a queue and among the leases of a
-- subscription.
use cloudrig.Prelude.{
  ℕ, zero, suc, ◌+◌, ◌≡◌, refl, sym, ap, ap₂, ◌∙◌, subst, arith, Bool, Bool-cases, inl, inr, none,
  some, List, [], ◌∷◌, ◌++◌, take, drop, if◌then◌else◌,
}
use cloudrig.Prelude.Bytes.{Bytes, str_eq, str_eq_iff}
use cloudrig.Pubsub.{Message, Lease, set_at}
use cloudrig.Pubsub.Leases.{is_lease, lease_of, drop_lease}
use cloudrig.Pubsub.Pending.{leased}
use cloudrig.Pubsub.Holding.{Fits, found_ids, found_here}

abbrev pub one : (Message → Bool) → Message → ℕ
one p m = if p m then 1 else 0

unfoldable pub count : (Message → Bool) → List Message → ℕ
count p [] = 0
count p (m ∷ ms) = one p m + count p ms

pub count-append :
    (p : Message → Bool) (xs ys : List Message) → count p (xs ++ ys) ≡ count p xs + count p ys
unfolding count
count-append p [] ys = omega arith
count-append p (x ∷ xs) ys = omega (arith, count-append p xs ys)

pub drop_lease_absent :
    (s a : Bytes) (ls : List Lease) → lease_of s a ls ≡ none → drop_lease s a ls ≡ ls
unfolding lease_of drop_lease
drop_lease_absent s a [] h = refl
drop_lease_absent s a (l ∷ ls) h = elim (Bool-cases (is_lease s a l)) [
  | inl c ↦ ground arith
  | inr c ↦ ground (arith, drop_lease_absent s a ls (ground arith))
]

abbrev pub share : (Message → Bool) → Bytes → Lease → ℕ
share p j l = if str_eq l.sub j then one p l.msg else 0

pub count-leased :
    (p : Message → Bool) (j : Bytes) (l : Lease) (ls : List Lease)
    → count p (leased j (l ∷ ls)) ≡ share p j l + count p (leased j ls)
unfolding leased count
count-leased p j l ls = elim (Bool-cases (str_eq l.sub j)) [
  | inl c ↦ rw c refl
  | inr c ↦ rw c (omega arith)
]

-- Dropping a lease takes its one message.
pub count_dropped :
    (p : Message → Bool) (j : Bytes) (d : ℕ) (l : Lease) (ls : List Lease)
    → Fits d ls
    → lease_of l.sub l.ack ls ≡ some l
    → count p (leased j ls) ≡ share p j l + count p (leased j (drop_lease l.sub l.ack ls))
unfolding lease_of drop_lease
count_dropped p j d l [] f h = cc
count_dropped p j d l (m ∷ ls) (n, u, f) h = elim (Bool-cases (is_lease l.sub l.ack m)) [
  | inl c ↦
      let same = found_here (is_lease l.sub l.ack m) m l (lease_of l.sub l.ack ls) c h in
      rw c (
        count-leased p j m ls
        ∙ ap₂ (λ x y. share p j x + count p (leased j y)) same
            (sym (
              drop_lease_absent l.sub l.ack ls
                (subst (λ x. lease_of x.sub x.ack ls ≡ none) same u))))
  | inr c ↦
      let later = count_dropped p j d l ls f (ground arith) in
      rw c (
        omega (arith, later, count-leased p j m ls, count-leased p j m (drop_lease l.sub l.ack ls)))
]

-- A lease that is found is found under its own ids.
pub found_self :
    (s a : Bytes) (l : Lease) (ls : List Lease)
    → lease_of s a ls ≡ some l
    → lease_of l.sub l.ack ls ≡ some l
found_self s a l ls h = let (e, f) = found_ids s a l ls h in ap₂ (λ x y. lease_of x y ls) e f ∙ h

pub count-take :
    (p : Message → Bool) (n : ℕ) (xs : List Message)
    → count p xs ≡ count p (take n xs) + count p (drop n xs)
unfolding count
count-take p zero xs = omega arith
count-take p (suc n) [] = omega arith
count-take p (suc n) (x ∷ xs) = omega (arith, count-take p n xs)

-- A table of queues at one name is the queue that was put there, or as it was.
pub count-set_at :
    (p : Message → Bool) (sub j : Bytes) (q : List Message) (m : Bytes → List Message) (n : ℕ)
    → count p q ≡ n + count p (m sub)
    → count p (set_at sub q m j) ≡ (if str_eq sub j then n else 0) + count p (m j)
count-set_at p sub j q m n h = elim (Bool-cases (str_eq sub j)) [
  | inl c ↦ rw c (h ∙ ap (λ k. n + count p (m k)) ((str_eq_iff sub j).0 c))
  | inr c ↦ rw c (omega arith)
]

pub count_taken :
    (p : Message → Bool) (sub j : Bytes) (n : ℕ) (m : Bytes → List Message)
    → (if str_eq sub j then count p (take n (m sub)) else 0)
        + count p (set_at sub (drop n (m sub)) m j)
      ≡ count p (m j)
count_taken p sub j n m = elim (Bool-cases (str_eq sub j)) [
  | inl c ↦ rw c (sym (count-take p n (m sub)) ∙ ap (λ k. count p (m k)) ((str_eq_iff sub j).0 c))
  | inr c ↦ rw c (omega arith)
]
