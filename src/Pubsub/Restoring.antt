-- ===== src/Pubsub/Restoring.antt =====
-- The messages of services/pubsub after a snapshot is restored (pending.go).
use cloudrig.Prelude.{
  ℕ, ◌≡◌, refl, sym, ap, ap₂, ◌∙◌, Bool, Bool-cases, inl, inr, true, false, List, [], ◌∷◌, ◌++◌,
  append-nil, append_assoc, if◌then◌else◌,
}
use cloudrig.Prelude.Bytes.{Bytes, str_eq, str_eq_iff}
use cloudrig.Rpc.{sort_by}
use cloudrig.Pubsub.{Message, Service, set_at, signal}
use cloudrig.Pubsub.Pending.{
  by_id, stop_leases, leased, pending_of, is_live, restore_every, restore_pending,
}

-- The messages that the entries of a map have for a subscription.
pub given : Bytes → List (Bytes × List Message) → List Message
given j [] = []
given j ((sub, msgs) ∷ rest) = (if str_eq sub j then msgs else []) ++ given j rest

abbrev with_given : Bytes → List Message → Service → Service
with_given sub msgs s =
    signal sub (record s { backlog = set_at sub (s.backlog sub ++ msgs) s.backlog })

restore_every_live :
    (sub : Bytes) (msgs : List Message) (es : List (Bytes × List Message)) (s : Service)
    → is_live sub s.kv ≡ true
    → restore_every ((sub, msgs) ∷ es) s ≡ restore_every es (with_given sub msgs s)
unfolding restore_every
restore_every_live sub msgs es s c = rw (c, restore_every) refl

restore_every_gone :
    (sub : Bytes) (msgs : List Message) (es : List (Bytes × List Message)) (s : Service)
    → is_live sub s.kv ≡ false
    → restore_every ((sub, msgs) ∷ es) s ≡ restore_every es s
unfolding restore_every
restore_every_gone sub msgs es s c = rw (c, restore_every) refl

abbrev live_given : Bytes → List (Bytes × List Message) → Service → List Message
live_given j es s = if is_live j s.kv then given j es else []

added_live :
    (sub j : Bytes) (msgs rest : List Message) (m : Bytes → List Message) (live : Bytes → Bool)
    → live sub ≡ true
    → set_at sub (m sub ++ msgs) m j ++ (if live j then rest else [])
      ≡ m j ++ (if live j then (if str_eq sub j then msgs else []) ++ rest else [])
added_live sub j msgs rest m live h = elim (Bool-cases (str_eq sub j)) [
  | inl c ↦
      let same = (str_eq_iff sub j).0 c in
      rw c (
        rw (ap live (sym same) ∙ h)
          (append_assoc (m sub) msgs rest ∙ ap (λ k. m k ++ (msgs ++ rest)) same))
  | inr c ↦ rw c refl
]

added_gone :
    (sub j : Bytes) (msgs rest : List Message) (live : Bytes → Bool)
    → live sub ≡ false
    → (if live j then rest else [])
      ≡ (if live j then (if str_eq sub j then msgs else []) ++ rest else [])
added_gone sub j msgs rest live h = elim (Bool-cases (str_eq sub j)) [
  | inl c ↦ rw c (rw (ap live (sym ((str_eq_iff sub j).0 c)) ∙ h) refl)
  | inr c ↦ rw c refl
]

-- What a restoration adds to a queue; it leases nothing.
restore_every-adds :
    (es : List (Bytes × List Message)) (j : Bytes) (s : Service)
    → ((restore_every es s).backlog j ≡ s.backlog j ++ live_given j es s)
      × ((restore_every es s).outstanding ≡ s.outstanding)
unfolding restore_every given signal
restore_every-adds [] j s = elim (Bool-cases (is_live j s.kv)) [
  | inl c ↦ rw c (sym (append-nil (s.backlog j)), refl)
  | inr c ↦ rw c (sym (append-nil (s.backlog j)), refl)
]
restore_every-adds ((sub, msgs) ∷ es) j s = elim (Bool-cases (is_live sub s.kv)) [
  | inl c ↦
      let (b, o) = restore_every-adds es j (with_given sub msgs s) in
      rw (restore_every_live sub msgs es s c)
        (b ∙ added_live sub j msgs (given j es) s.backlog (λ k. is_live k s.kv) c, o)
  | inr c ↦
      let (b, o) = restore_every-adds es j s in
      rw (restore_every_gone sub msgs es s c) (
        b
            ∙ ap (λ xs. s.backlog j ++ xs)
                (added_gone sub j msgs (given j es) (λ k. is_live k s.kv) c),
        o,
      )
]

-- Restoring the messages of a map, into any state of the service, leaves for each subscription
-- that the store has just the messages that the map has for it, and for another one none.
pub pending_of-restore_pending :
    (seq : ℕ) (es : List (Bytes × List Message)) (j : Bytes) (s : Service)
    → pending_of j (restore_pending seq es s) ≡ (if is_live j s.kv then given j es else [])
unfolding pending_of restore_pending leased sort_by
pending_of-restore_pending seq es j s =
    let emptied : Service = record s {
      clk = stop_leases s.outstanding s.clk;
      outstanding = [];
      backlog = λ k. [];
    } in
    let (b, o) = restore_every-adds es j emptied in
    ap₂ (λ ls q. sort_by by_id (leased j ls) ++ q) o b
