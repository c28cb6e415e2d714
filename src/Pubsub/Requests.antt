-- ===== src/Pubsub/Requests.antt =====
-- The requests of services/pubsub on topics and subscriptions (publisher.go, subscriber.go,
-- update.go), and publishing.
use cloudrig.Prelude.{
  ℕ, Bool, false, not, ◌||◌, Option, none, some, List, [], ◌∷◌, ◌++◌, if◌then◌else◌,
}
use cloudrig.Prelude.Int.{pos, eqb_ℤ}
use cloudrig.Prelude.Bytes.{Bytes, codes, str_eq, str_lt, cut_prefix}
use cloudrig.Gerr.{invalid_argument, internal, already_exists, aborted}
use cloudrig.Gerr
use cloudrig.Rpc.{Reply, ok, failed, then_reply, or_fail, read_page, sort_by, Outcome, proceed}
use cloudrig.Store.{Memory, Result, Kv}
use cloudrig.Store
use cloudrig.Pubsub.{
  Message, Lease, Resource, Codec, Service, set_at, topic_key, subscription_key, valid_name,
  project_of, get_topic, signal, next_message_id,
}

abbrev pub created :
    {V : Type 0} → Resource V → Result ℕ × Memory → Service → Outcome Service (Resource V)
created x (Result.ok v, kv) s = (ok x, record s { kv = kv })
created x (Result.err Store.version_mismatch, kv) s = (failed already_exists, record s { kv = kv })
created x (Result.err e, kv) s = (failed internal, record s { kv = kv })

abbrev pub updated :
    {V : Type 0} → Resource V → Result ℕ × Memory → Service → Outcome Service (Resource V)
updated x (Result.ok v, kv) s = (ok x, record s { kv = kv })
updated x (Result.err e, kv) s = (failed aborted, record s { kv = kv })

-- strings.TrimPrefix
unfoldable pub trim_prefix : Bytes → Bytes → Bytes
trim_prefix p s = elim (cut_prefix p s) [ none ↦ s | some rest ↦ rest ]

-- The start of the keys of a project.
unfoldable pub under_project : Bytes → Bytes → Bytes
under_project prefix project = prefix ++ (codes "projects/" ++ (project ++ b'/' ∷ []))

-- The leases of a subscription that is deleted go; their timers run on.
unfoldable pub drop_leases : Bytes → List Lease → List Lease
drop_leases sub [] = []
drop_leases sub (l ∷ ls) =
    let rest = drop_leases sub ls in if str_eq l.sub sub then rest else l ∷ rest

abbrev pub forgotten : Bytes → Service → Service
forgotten name s = record s {
  backlog = set_at name [] s.backlog;
  outstanding = drop_leases name s.outstanding;
}

abbrev pub absent_code : Store.Error → ℕ
absent_code Store.not_found = Gerr.not_found
absent_code e = internal

abbrev pub topic_deleted : Result (Unit {0}) × Memory → Service → Outcome Service (Unit {0})
topic_deleted (Result.ok u, kv) s = (ok tt, record s { kv = kv })
topic_deleted (Result.err e, kv) s = (failed (absent_code e), record s { kv = kv })

abbrev pub subscription_deleted :
    Bytes → Result (Unit {0}) × Memory → Service → Outcome Service (Unit {0})
subscription_deleted name (Result.ok u, kv) s = (ok tt, forgotten name (record s { kv = kv }))
subscription_deleted name (Result.err e, kv) s = (failed (absent_code e), record s { kv = kv })

unfoldable pub delete_topic : Bytes → Service → Outcome Service (Unit {0})
delete_topic name s = topic_deleted (Store.delete none (topic_key name) 0 s.kv) s

unfoldable pub delete_subscription : Bytes → Service → Outcome Service (Unit {0})
delete_subscription name s =
    subscription_deleted name (Store.delete none (subscription_key name) 0 s.kv) s

abbrev pub with_field : {V : Type 0} → Bytes → Option V → Resource V → Resource V
with_field f v x = record x { fields = set_at f v x.fields }

unfoldable pub is_among : Bytes → List Bytes → Bool
is_among path [] = false
is_among path (f ∷ fs) = let rest = is_among path fs in str_eq path f || rest

-- The message reaches the backlog of each subscription.
unfoldable pub deliver : Message → List Bytes → Service → Service
deliver msg [] s = s
deliver msg (sub ∷ subs) s =
    deliver msg subs
      (signal sub (record s { backlog = set_at sub (s.backlog sub ++ msg ∷ []) s.backlog }))

-- The ids of the messages, stamped and delivered in order; `bodies` is what the client gives.
unfoldable pub publish_every : List Bytes → List Bytes → Service → List Message × Service
publish_every subs [] s = ([], s)
publish_every subs (body ∷ bodies) s =
    let (id, s₁) = next_message_id s in
    let msg : Message = record { body = body; id = id; publish_time = s.clk.now } in
    let (out, s₂) = publish_every subs bodies (deliver msg subs s₁) in (msg ∷ out, s₂)

-- The bus is told of each message, once the lock is dropped.
unfoldable pub notify_every : Bytes → List Message → Service → Service
notify_every topic [] s = s
notify_every topic (msg ∷ msgs) s =
    notify_every topic msgs (record s { announced = s.announced ++ (topic, msg) ∷ [] })

abbrev pub ids_of : List Message → List Bytes
ids_of [] = []
ids_of (msg ∷ msgs) = msg.id ∷ ids_of msgs

module _ {V : Type 0} (codec : Codec V) where
  unfoldable pub create_topic : Resource V → Service → Outcome Service (Resource V)
  create_topic t s =
      if not (valid_name t.name (codes "topics"))
      then (failed invalid_argument, s)
      else proceed s (or_fail internal (codec.encode t))
          (λ b. created t (Store.put none (topic_key t.name) b 0 s.kv) s)

  -- A subscription without a deadline has one of 10 seconds.
  unfoldable pub with_deadline : Resource V → Resource V
  with_deadline sub =
      let field = codes "ack_deadline_seconds" in
      if eqb_ℤ (codec.number (sub.fields field)) (pos 0)
      then with_field field (some (codec.of_number (pos 10))) sub
      else sub

  unfoldable pub topic_of : Resource V → Bytes
  topic_of sub = codec.text (sub.fields (codes "topic"))

  unfoldable pub create_subscription : Resource V → Service → Outcome Service (Resource V)
  create_subscription sub s =
      if not (valid_name sub.name (codes "subscriptions"))
      then (failed invalid_argument, s)
      else if not (valid_name (topic_of sub) (codes "topics"))
      then (failed invalid_argument, s)
      else proceed s (get_topic codec (topic_of sub) s.kv) (λ _.
        proceed s (or_fail internal (codec.encode (with_deadline sub))) (λ b.
          created (with_deadline sub) (Store.put none (subscription_key sub.name) b 0 s.kv) s))

  unfoldable pub decode_every : List Kv → Reply (List (Resource V))
  decode_every [] = ok []
  decode_every (e ∷ es) =
      then_reply (or_fail internal (codec.decode e.val))
        (λ x. then_reply (decode_every es) (λ xs. ok (x ∷ xs)))

  abbrev pub list_under : Bytes → Bytes → Memory → Reply (List (Resource V))
  list_under prefix project kv =
      then_reply
        (read_page (
          Store.list none (under_project prefix (trim_prefix (codes "projects/") project)) 0 [] kv))
        (λ es.
          then_reply (decode_every es)
            (λ xs. ok (sort_by (λ (x y : Resource V). str_lt x.name y.name) xs)))

  unfoldable pub list_topics : Bytes → Memory → Reply (List (Resource V))
  list_topics project kv = list_under (codes "ps/t/") project kv

  unfoldable pub list_subscriptions : Bytes → Memory → Reply (List (Resource V))
  list_subscriptions project kv = list_under (codes "ps/s/") project kv

  unfoldable pub attached : Bytes → List Kv → List Bytes
  attached topic [] = []
  attached topic (e ∷ es) =
      let rest = attached topic es in
      elim (codec.decode e.val) [
        | none ↦ rest
        | some sub ↦ if str_eq (topic_of sub) topic then sub.name ∷ rest else rest
      ]

  -- subscriptionsFor: what cannot be decoded is passed over.
  unfoldable pub subscriptions_for : Bytes → Memory → Reply (List Bytes)
  subscriptions_for topic kv =
      then_reply
        (read_page (Store.list none (under_project (codes "ps/s/") (project_of topic)) 0 [] kv))
        (λ es. ok (sort_by str_lt (attached topic es)))

  -- The bus is told once the lock is dropped; it is part of this step all the same.
  unfoldable pub publish : Bytes → List Bytes → Service → Outcome Service (List Bytes)
  publish topic bodies s = proceed s (get_topic codec topic s.kv) (λ _.
      proceed s (subscriptions_for topic s.kv) (λ subs.
        let (msgs, s') = publish_every subs bodies s in
        (ok (ids_of msgs), notify_every topic msgs s')))

  unfoldable pub field_of : Bytes → Option Bytes
  field_of path = elim (codec.by_name path) [ some f ↦ some f | none ↦ codec.by_json_name path ]

  unfoldable pub apply_paths :
      List Bytes → List Bytes → Resource V → Resource V → Reply (Resource V)
  apply_paths immutable [] src dst = ok dst
  apply_paths immutable (path ∷ paths) src dst =
      if is_among path immutable
      then failed invalid_argument
      else then_reply (or_fail invalid_argument (field_of path))
          (λ f. apply_paths immutable paths src (with_field f (src.fields f) dst))

  unfoldable pub apply_mask : List Bytes → List Bytes → Resource V → Resource V → Reply (Resource V)
  apply_mask immutable [] src dst = failed invalid_argument
  apply_mask immutable (path ∷ paths) src dst = apply_paths immutable (path ∷ paths) src dst

  abbrev pub update_at :
      Bytes → List Bytes → Resource V → List Bytes → Service → Outcome Service (Resource V)
  update_at key immutable src mask s = elim (Store.get none key s.kv) [
    | Result.err e ↦ (failed Gerr.not_found, s)
    | Result.ok (raw, version) ↦ proceed s (or_fail internal (codec.decode raw)) (λ current.
        proceed s (apply_mask immutable mask src current) (λ x.
          proceed s (or_fail internal (codec.encode x))
            (λ b. updated x (Store.put none key b version s.kv) s)))
  ]

  unfoldable pub update_topic : Resource V → List Bytes → Service → Outcome Service (Resource V)
  update_topic src mask s = update_at (topic_key src.name) (codes "name" ∷ []) src mask s

  unfoldable pub update_subscription :
      Resource V → List Bytes → Service → Outcome Service (Resource V)
  update_subscription src mask s =
      update_at (subscription_key src.name) (codes "name" ∷ codes "topic" ∷ []) src mask s
