-- ===== src/Fields/Paths.antt =====
-- What a write and a deletion at a path of services/firestore/path.go do to a lookup.
use cloudrig.Prelude.{
  ◌≡◌, refl, ap, sym, ◌∙◌, Bool-cases, Option-cases, inl, inr, ◌⊎◌, false, Option, none, some, List,
  [], ◌∷◌, ◌==◌, if◌then◌else◌,
}
use cloudrig.Prelude.Bytes.{Bytes, str_eq, str_eq_refl, str_eq_iff}
use cloudrig.Fields.{
  Value, Fields, scalar, map_value, no_fields, field, field_at, with_value, without, split_path,
  inner, inner_or_new, lookup_segments, set_segments, delete_segments, lookup, set_path,
  delete_path,
}

field_at-with_value :
    (k : Bytes) (v : Value) (fs : Fields) → field_at k (with_value k v fs) ≡ some v
unfolding field_at with_value
field_at-with_value k v no_fields = rw (str_eq_refl k) refl
field_at-with_value k v (field j w fs) = elim (Bool-cases (str_eq j k)) [
  | inl c ↦ rw c (rw (str_eq_refl k) refl)
  | inr c ↦ rw c (rw c (field_at-with_value k v fs))
]

field_at-with_value_other :
    (j k : Bytes) (v : Value) (fs : Fields)
    → str_eq k j ≡ false
    → field_at j (with_value k v fs) ≡ field_at j fs
unfolding field_at with_value
field_at-with_value_other j k v no_fields h = rw h refl
field_at-with_value_other j k v (field i w fs) h = elim (Bool-cases (str_eq i k)) [
  | inl c ↦
      let other : str_eq i j ≡ false = rw ((str_eq_iff i k).0 c) h in rw c (rw h (rw other refl))
  | inr c ↦ rw c (ap (λ r. if str_eq i j then some w else r) (field_at-with_value_other j k v fs h))
]

field_at-without : (k : Bytes) (fs : Fields) → field_at k (without k fs) ≡ none
unfolding field_at without
field_at-without k no_fields = refl
field_at-without k (field j v fs) = elim (Bool-cases (str_eq j k)) [
  | inl c ↦ rw c (field_at-without k fs)
  | inr c ↦ rw c (rw c (field_at-without k fs))
]

-- Paths that part at a segment: neither leads on from the other.
abbrev pub Apart : List Bytes → List Bytes → Type 0
Apart [] q = ⊥
Apart (s ∷ p) [] = ⊥
Apart (s ∷ p) (t ∷ q) = (str_eq s t ≡ false) ⊎ ((s ≡ t) × Apart p q)

lookup_map :
    (s t : Bytes) (p : List Bytes) (fs sub : Fields)
    → inner (field_at s fs) ≡ some sub
    → lookup_segments (s ∷ t ∷ p) fs ≡ lookup_segments (t ∷ p) sub
unfolding lookup_segments
lookup_map s t p fs sub h = rw (h, lookup_segments) refl

lookup_no_map :
    (s t : Bytes) (p : List Bytes) (fs : Fields)
    → inner (field_at s fs) ≡ none
    → lookup_segments (s ∷ t ∷ p) fs ≡ none
unfolding lookup_segments
lookup_no_map s t p fs h = rw (h, lookup_segments) refl

delete_map :
    (s t : Bytes) (p : List Bytes) (fs sub : Fields)
    → inner (field_at s fs) ≡ some sub
    → delete_segments (s ∷ t ∷ p) fs ≡ with_value s (map_value (delete_segments (t ∷ p) sub)) fs
unfolding delete_segments
delete_map s t p fs sub h = rw (h, delete_segments) refl

delete_no_map :
    (s t : Bytes) (p : List Bytes) (fs : Fields)
    → inner (field_at s fs) ≡ none
    → delete_segments (s ∷ t ∷ p) fs ≡ fs
unfolding delete_segments
delete_no_map s t p fs h = rw (h, delete_segments) refl

-- The map that has been put at a name is the one found there.
inner-with_value :
    (s : Bytes) (sub fs : Fields) → inner (field_at s (with_value s (map_value sub) fs)) ≡ some sub
inner-with_value s sub fs = ap inner (field_at-with_value s (map_value sub) fs)

lookup_set :
    (p : List Bytes) (s : Bytes) (v : Value) (fs : Fields)
    → lookup_segments (s ∷ p) (set_segments (s ∷ p) v fs) ≡ some v
unfolding lookup_segments set_segments
lookup_set [] s v fs = field_at-with_value s v fs
lookup_set (t ∷ p) s v fs =
    let below = inner_or_new (field_at s fs) in
    let sub = set_segments (t ∷ p) v below in
    lookup_map s t p (with_value s (map_value sub) fs) sub (inner-with_value s sub fs)
    ∙ lookup_set p t v below

lookup_delete :
    (p : List Bytes) (s : Bytes) (fs : Fields)
    → lookup_segments (s ∷ p) (delete_segments (s ∷ p) fs) ≡ none
unfolding lookup_segments delete_segments
lookup_delete [] s fs = field_at-without s fs
lookup_delete (t ∷ p) s fs = elim (Option-cases (inner (field_at s fs))) [
  | inl e ↦ rw (delete_no_map s t p fs e) (lookup_no_map s t p fs e)
  | inr (sub, e) ↦
      let kept = delete_segments (t ∷ p) sub in
      rw (delete_map s t p fs sub e) (
        lookup_map s t p (with_value s (map_value kept) fs) kept (inner-with_value s kept fs)
        ∙ lookup_delete p t sub)
]

lookup_head :
    (t : Bytes) (q : List Bytes) (fs gs : Fields)
    → field_at t fs ≡ field_at t gs
    → lookup_segments (t ∷ q) fs ≡ lookup_segments (t ∷ q) gs
unfolding lookup_segments
lookup_head t [] fs gs h = h
lookup_head t (u ∷ q) fs gs h =
    ap
      (λ o. elim (inner o) as (λ x. Option Value) [
        | none ↦ none
        | some sub ↦ lookup_segments (u ∷ q) sub
      ])
      h

lookup_no_fields : (t : Bytes) (q : List Bytes) → lookup_segments (t ∷ q) no_fields ≡ none
unfolding lookup_segments field_at
lookup_no_fields t [] = refl
lookup_no_fields t (u ∷ q) = refl

set_other :
    (s t : Bytes) (p : List Bytes) (v : Value) (fs : Fields)
    → str_eq s t ≡ false
    → field_at t (set_segments (s ∷ p) v fs) ≡ field_at t fs
unfolding set_segments
set_other s t [] v fs h = field_at-with_value_other t s v fs h
set_other s t (u ∷ p) v fs h =
    field_at-with_value_other t s
      (map_value (set_segments (u ∷ p) v (inner_or_new (field_at s fs)))) fs h

-- A lookup goes on in the map that is at a name, or in one without fields.
lookup_inner :
    (s u : Bytes) (q : List Bytes) (o : Option Value) (fs : Fields)
    → field_at s fs ≡ o
    → lookup_segments (u ∷ q) (inner_or_new o) ≡ lookup_segments (s ∷ u ∷ q) fs
lookup_inner s u q none fs h = lookup_no_fields u q ∙ sym (lookup_no_map s u q fs (ap inner h))
lookup_inner s u q (some (scalar b)) fs h =
    lookup_no_fields u q ∙ sym (lookup_no_map s u q fs (ap inner h))
lookup_inner s u q (some (map_value sub)) fs h = sym (lookup_map s u q fs sub (ap inner h))

-- A write leaves what stands at the paths that part from its own.
lookup_set-Apart :
    (p q : List Bytes) (v : Value) (fs : Fields)
    → Apart p q
    → lookup_segments q (set_segments p v fs) ≡ lookup_segments q fs
unfolding set_segments
lookup_set-Apart [] q v fs h = absurd h
lookup_set-Apart (s ∷ p) [] v fs h = absurd h
lookup_set-Apart (s ∷ p) (t ∷ q) v fs (inl h) =
    lookup_head t q (set_segments (s ∷ p) v fs) fs (set_other s t p v fs h)
lookup_set-Apart (s ∷ []) (t ∷ q) v fs (inr (e, h)) = absurd h
lookup_set-Apart (s ∷ u ∷ p) (t ∷ []) v fs (inr (e, h)) = absurd h
lookup_set-Apart (s ∷ u ∷ p) (t ∷ w ∷ q) v fs (inr (e, h)) =
    let below = inner_or_new (field_at s fs) in
    let sub = set_segments (u ∷ p) v below in
    ap (λ k. lookup_segments (k ∷ w ∷ q) (set_segments (s ∷ u ∷ p) v fs)) (sym e)
    ∙ (lookup_map s w q (with_value s (map_value sub) fs) sub (inner-with_value s sub fs)
        ∙ (lookup_set-Apart (u ∷ p) (w ∷ q) v below h
            ∙ (lookup_inner s w q (field_at s fs) fs refl
                ∙ ap (λ k. lookup_segments (k ∷ w ∷ q) fs) e)))

-- A text splits into one segment at the least.
split_path-cons : (path : Bytes) → (s : Bytes) × (p : List Bytes) × (split_path path ≡ s ∷ p)
unfolding split_path
split_path-cons [] = ([], [], refl)
split_path-cons (c ∷ path) = elim (Bool-cases (c == b'.')) [
  | inl e ↦ ([], split_path path, rw e refl)
  | inr e ↦ let (s, p, h) = split_path-cons path in (c ∷ s, p, rw e (rw h refl))
]

-- After a write at a path, whatever the path and the document are, a lookup at the path gives the
-- value written, and after a deletion it gives nothing.
pub lookup-path :
    (path : Bytes) (v : Value) (fs : Fields)
    → (lookup path (set_path path v fs) ≡ some v) × (lookup path (delete_path path fs) ≡ none)
unfolding lookup set_path delete_path
lookup-path path v fs =
    let (s, p, h) = split_path-cons path in rw h (lookup_set p s v fs, lookup_delete p s fs)

-- A write at a path leaves what a lookup gives at each path that parts from it at a segment.
pub lookup-path-Apart :
    (path other : Bytes) (v : Value) (fs : Fields)
    → Apart (split_path path) (split_path other)
    → lookup other (set_path path v fs) ≡ lookup other fs
unfolding lookup set_path
lookup-path-Apart path other v fs h = lookup_set-Apart (split_path path) (split_path other) v fs h
