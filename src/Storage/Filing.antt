-- ===== src/Storage/Filing.antt =====
-- What a write of services/storage/object.go leaves in the store, and which generation it drops.
use cloudrig.Prelude.{
  ℕ, ◌<◌, ◌≡◌, sym, ap, ◌∙◌, arith, Bool, Bool-cases, Option, none, some, false, [], inl, inr,
}
use cloudrig.Prelude.Bytes.{Bytes, str_eq, str_eq_iff}
use cloudrig.Resource
use cloudrig.Store.{Entry, next_version}
use cloudrig.Storage.{Codec, Object, Live, BlobRef}
use cloudrig.Storage.Program.{Program, returns, World, run, told_of, tells, reads_clock}
use cloudrig.Storage.Publishing.{Write, described, at_generation, next_generation, drop_existing}
use cloudrig.Storage.Runs.{Gives, Leaves, run-Leaves}
use cloudrig.Storage.Keys.{str_eq-object-live, str_eq-blob_refs-live, str_eq-blob_refs-object}
use cloudrig.Storage.Inverting.{Decodes}
use cloudrig.Storage.Moving.{drop_generation-Leaves, drop_existing-Leaves}

pub next_generation-lt : (now highest : ℕ) → highest < next_generation now highest
unfolding next_generation
next_generation-lt now highest = ground arith

pub kept :
    {A : Type 0} {a : A} (j : Bytes) (m : Program A) (w w' : World)
    → Gives m w a w'
    → Leaves j m
    → w'.kv.m j ≡ w.kv.m j
kept j m w w' g l = ap (λ r. r.1.kv.m j) (sym g) ∙ run-Leaves j m w l

pub none_entry : {e : Entry} → ◌≡◌ {A = Option Entry} none (some e) → ⊥
none_entry h = cc

pub some_entry : {e e' : Entry} → ◌≡◌ {A = Option Entry} (some e) (some e') → e ≡ e'
some_entry h = cc

pub some_live : {l l' : Live} → ◌≡◌ {A = Option Live} (some l) (some l') → l ≡ l'
some_live h = cc

pub tells_gives :
    (k : Bytes) (o o' : Object) (w w' : World)
    → Gives (tells k o (returns o)) w o' w'
    → (o ≡ o') × (w'.kv ≡ w.kv)
unfolding run
tells_gives k o o' w w' g = let world : told_of k o w ≡ w' = cc in (cc, ap (λ u. u.kv) (sym world))

pub reads_clock_gives :
    {A : Type 0} (a : A) (w w' : World) (c : ℕ → Program A)
    → Gives (reads_clock c) w a w'
    → Gives (c w.now) w a w'
unfolding run
reads_clock_gives a w w' c g = g

pub at_world :
    {A : Type 0} (m : Program A) (a : A) (w u w' : World) → w ≡ u → Gives m u a w' → Gives m w a w'
at_world m a w u w' s g = ap (run m []) s ∙ g

module _ (codec : Codec) where
  -- The generation that the pointer names, if it is there, holds the object of that name and
  -- generation.
  abbrev pub IsFiled : Bytes → Bytes → Bytes → World → Type 0
  IsFiled p b n w =
      (l : Live) (v : ℕ) (o : Object) (u : ℕ)
      → Decodes codec.decode_live (Resource.live p b n) l v w
      → Decodes codec.decode_object (Resource.object p b n l.generation) o u w
      → (o.bucket ≡ b) × (o.name ≡ n) × (o.generation ≡ l.generation)

  -- An object is current: its generation holds it and the pointer names that generation.
  abbrev pub IsCurrent : Bytes → Object → ℕ → World → Type 0
  IsCurrent p o v w =
      ((raw : Bytes) × (u : ℕ) × (codec.encode_object o ≡ some raw)
        × (w.kv.m (Resource.object p o.bucket o.name o.generation)
            ≡ some (record { val = raw; version = u })))
      × ((raw : Bytes) × (codec.encode_live
              (record { generation = o.generation; highest = o.generation })
            ≡ some raw)
          × (w.kv.m (Resource.live p o.bucket o.name) ≡ some (record { val = raw; version = v })))

  -- What a write leaves: the object, with the content and the metadata that it was given, is current
  -- at a generation that had no entry and lies above the highest one that the pointer has seen.
  abbrev pub Published : Bytes → Write → BlobRef → World → Object → World → Type 0
  Published p x ref w o w' =
      (o ≡ at_generation (described x ref w.now) o.generation)
      × ((l : Live) (v : ℕ)
          → Decodes codec.decode_live (Resource.live p x.bucket x.name) l v w
          → l.highest < o.generation)
      × (w.kv.m (Resource.object p x.bucket x.name o.generation) ≡ none)
      × IsCurrent p o (next_version (w.kv.m (Resource.live p x.bucket x.name))) w'

  pub other_key :
      (p : Bytes) (x : Write) (i g : ℕ) (o : Object) (n : ℕ) (w : World)
      → Decodes codec.decode_object (Resource.object p x.bucket x.name i) o n w
      → w.kv.m (Resource.object p x.bucket x.name g) ≡ none
      → str_eq (Resource.object p x.bucket x.name i) (Resource.object p x.bucket x.name g) ≡ false
  other_key p x i g o n w (e, there, _, _) absent =
      elim (Bool-cases
        (str_eq (Resource.object p x.bucket x.name i) (Resource.object p x.bucket x.name g))) [
          | inl c ↦
              absurd (none_entry (sym absent ∙ sym (ap w.kv.m ((str_eq_iff _ _).0 c)) ∙ there))
          | inr c ↦ c
        ]

  -- The generation that is dropped is another one than the one that was claimed.
  pub dropped-Leaves :
      (p : Bytes) (x : Write) (g i : ℕ) (versioning : Bool) (e : Option Object) (w : World)
      → ((o : Object) → e ≡ some o → (o.bucket ≡ x.bucket) × (o.name ≡ x.name) × (o.generation ≡ i))
      → ((o : Object)
          → e ≡ some o
          → (n : ℕ) × Decodes codec.decode_object (Resource.object p x.bucket x.name i) o n w)
      → w.kv.m (Resource.object p x.bucket x.name g) ≡ none
      → Leaves (Resource.object p x.bucket x.name g) (drop_existing p versioning e)
        × Leaves (Resource.live p x.bucket x.name) (drop_existing p versioning e)
  dropped-Leaves p x g i versioning e w filed there absent =
      let key : (o : Object)
          → e ≡ some o
          → Resource.object p o.bucket o.name o.generation ≡ Resource.object p x.bucket x.name i =
        λ o h.
          let (b, m, k) = filed o h in
          ap (λ b'. Resource.object p b' o.name o.generation) b
          ∙ ap (λ m'. Resource.object p x.bucket m' o.generation) m
          ∙ ap (Resource.object p x.bucket x.name) k in
      (
        drop_existing-Leaves (Resource.object p x.bucket x.name g) p versioning e (λ o h.
            let (n, d) = there o h in
            drop_generation-Leaves (Resource.object p x.bucket x.name g) p o
              (rw (key o h) (other_key p x i g o n w d absent))
              (str_eq-blob_refs-object o.blob p x.bucket x.name g)),
        drop_existing-Leaves (Resource.live p x.bucket x.name) p versioning e (λ o h.
            let (n, d) = there o h in
            drop_generation-Leaves (Resource.live p x.bucket x.name) p o
              (rw (key o h) (str_eq-object-live p x.bucket x.name x.name i))
              (str_eq-blob_refs-live o.blob p x.bucket x.name)),
      )
