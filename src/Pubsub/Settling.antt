-- ===== src/Pubsub/Settling.antt =====
-- The end of a lease of services/pubsub: an acknowledgement, and what becomes of a message that is
-- given back.
use cloudrig.Prelude.{◌+◌, ◌≡◌, refl, sym, ap₂, ◌∙◌, arith, Bool, none, some, List, [], ◌∷◌}
use cloudrig.Prelude.Bytes.{Bytes}
use cloudrig.Pubsub.{Message, Lease, Service}
use cloudrig.Pubsub.Leases.{lease_of, drop_lease, redeliver, settle_every, settled}
use cloudrig.Pubsub.Holding.{lease_of-drop_lease, drop_lease-Fits, found_ids}
use cloudrig.Pubsub.Counting.{share, count_dropped, found_self}
use cloudrig.Pubsub.Conserving.{IsSound, held}

-- The second state is the first one without the lease and its message.
abbrev pub IsSettled : Bytes → Bytes → Lease → Service → Service → Type 0
IsSettled sub ack l s s' =
    IsSound s'
    × ((p : Message → Bool) (j : Bytes) → held p j s ≡ share p j l + held p j s')
    × (redeliver sub ack s' ≡ s')

settled_once :
    (sub ack : Bytes) (l : Lease) (s : Service)
    → lease_of sub ack s.outstanding ≡ some l
    → settle_every sub (ack ∷ []) s ≡ settled l s
unfolding settle_every
settled_once sub ack l s e = rw (e, settle_every) refl

-- Acknowledging a lease takes just its one message from its subscription; the lease is over, so
-- that a later refusal or expiry of it changes nothing.
pub settle_every-IsSettled :
    (sub ack : Bytes) (l : Lease) (s : Service)
    → IsSound s
    → lease_of sub ack s.outstanding ≡ some l
    → IsSettled sub ack l s (settle_every sub (ack ∷ []) s)
unfolding held redeliver
settle_every-IsSettled sub ack l s f e =
    let (is_sub, is_ack) = found_ids sub ack l s.outstanding e in
    rw (settled_once sub ack l s e) (
      drop_lease-Fits s.deliveries l.sub l.ack s.outstanding f,
      λ p j. omega (
        arith,
        count_dropped p j s.deliveries l s.outstanding f (found_self sub ack l s.outstanding e),
      ),
      nothing_back (settled l s) (
          ap₂ (λ x y. lease_of x y (drop_lease l.sub l.ack s.outstanding)) (sym is_sub) (sym is_ack)
          ∙ lease_of-drop_lease l.sub l.ack s.outstanding),
    )
  where
    nothing_back :
        (s' : Service) → lease_of sub ack s'.outstanding ≡ none → redeliver sub ack s' ≡ s'
    nothing_back s' h = rw (h, redeliver) refl

abbrev pub messages_of : List (Bytes × Message) → List Message
messages_of [] = []
messages_of ((ack, msg) ∷ rest) = msg ∷ messages_of rest
