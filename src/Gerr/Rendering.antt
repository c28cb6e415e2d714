-- ===== src/Gerr/Rendering.antt =====
-- What the envelope of core/gerr/json.go holds.
use cloudrig.Prelude.{
  ℕ, ◌+◌, ◌≡◌, ◌≢◌, refl, Bool, true, false, not, ◌||◌, ◌&&◌, List, [], ◌∷◌, map, arith, ◌==◌,
  if◌then◌else◌, All, All-append, length, length-append, Bool-cases, inl, inr,
}
use cloudrig.Prelude.Bytes.{Bytes}
use cloudrig.Gerr.{
  Error, Detail, error_info, bad_request, precondition_failure, EnvelopeEntry, to_lower, to_upper,
  underscore, has_underscore, camel, lower_camel, is_empty, or_global, fill_reason, fill_domain,
  field_entry, precondition_entry, detail_entries, envelope,
}

to_upper-ne-underscore : (c : ℕ) → (c == underscore) ≡ false → (to_upper c == underscore) ≡ false
unfolding to_upper
to_upper-ne-underscore c h = ground arith

camel-no_underscore :
    (later upper : Bool) (s : Bytes) → has_underscore (camel later upper s) ≡ false
unfolding has_underscore camel
camel-no_underscore later upper [] = refl
camel-no_underscore later upper (c ∷ s) = ground (
  arith,
  camel-no_underscore true
      (if c == underscore then true else if upper && later then false else upper) s,
  to_upper-ne-underscore c,
)

lower_camel-no_underscore : (s : Bytes) → has_underscore (lower_camel s) ≡ false
unfolding lower_camel
lower_camel-no_underscore s = ground (arith, camel-no_underscore false false (map to_lower s))

-- A reason that is in lower camel case already passes through unchanged.
lower_camel-lower_camel : (s : Bytes) → lower_camel (lower_camel s) ≡ lower_camel s
unfolding lower_camel
lower_camel-lower_camel s = ground (arith, camel-no_underscore false false (map to_lower s))

abbrev pub violations : List Detail → ℕ
violations [] = 0
violations (error_info r d ∷ ds) = violations ds
violations (bad_request vs ∷ ds) = length vs + violations ds
violations (precondition_failure vs ∷ ds) = length vs + violations ds

length-map {ℓ κ} :
    {A : Type ℓ} {B : Type κ} (f : A → B) (xs : List A) → length (map f xs) ≡ length xs
length-map f [] = refl
length-map f (x ∷ xs) = omega (arith, length-map f xs)

length-detail_entries :
    (domain : Bytes) (ds : List Detail) → length (detail_entries domain ds) ≡ violations ds
unfolding detail_entries
length-detail_entries domain [] = refl
length-detail_entries domain (error_info r d ∷ ds) = length-detail_entries domain ds
length-detail_entries domain (bad_request vs ∷ ds) = omega (
  arith,
  length-append (map (field_entry domain) vs) (detail_entries domain ds),
  length-map (field_entry domain) vs,
  length-detail_entries domain ds,
)
length-detail_entries domain (precondition_failure vs ∷ ds) = omega (
  arith,
  length-append (map (precondition_entry domain) vs) (detail_entries domain ds),
  length-map (precondition_entry domain) vs,
  length-detail_entries domain ds,
)

abbrev pub HasDomain : EnvelopeEntry → Type 0
HasDomain x = x.domain ≢ []

All-map_entries {ℓ} :
    {A : Type ℓ} (f : A → EnvelopeEntry) (xs : List A)
    → ((x : A) → HasDomain (f x))
    → All HasDomain (map f xs)
All-map_entries f [] h = tt
All-map_entries f (x ∷ xs) h = (h x, All-map_entries f xs h)

detail_entries-HasDomain :
    (domain : Bytes) (ds : List Detail) → domain ≢ [] → All HasDomain (detail_entries domain ds)
unfolding detail_entries
detail_entries-HasDomain domain [] h = tt
detail_entries-HasDomain domain (error_info r d ∷ ds) h = detail_entries-HasDomain domain ds h
detail_entries-HasDomain domain (bad_request vs ∷ ds) h =
    All-append HasDomain (map (field_entry domain) vs) (detail_entries domain ds)
      (All-map_entries (field_entry domain) vs (λ v. h)) (detail_entries-HasDomain domain ds h)
detail_entries-HasDomain domain (precondition_failure vs ∷ ds) h =
    All-append HasDomain (map (precondition_entry domain) vs) (detail_entries domain ds)
      (All-map_entries (precondition_entry domain) vs (λ v. h))
      (detail_entries-HasDomain domain ds h)

or_global-ne-nil : (d : Bytes) → or_global d ≢ []
or_global-ne-nil [] = λ e. cc
or_global-ne-nil (c ∷ d) = λ e. cc

abbrev pub named : Error → Bool
named e = not (is_empty (fill_reason e.reason e.details)) || not (is_empty e.location)

-- Every entry of the envelope names a domain, and the entries are one for each violation of the
-- details, after one for the error itself if it has a reason, its own or a detail's, or a location.
pub envelope_entries :
    (e : Error)
    → All HasDomain (envelope e).errors
      × (length (envelope e).errors ≡ (if named e then 1 else 0) + violations e.details)
unfolding envelope
envelope_entries e =
    let domain = or_global (fill_domain e.domain e.details) in
    let rest = detail_entries-HasDomain domain e.details (or_global-ne-nil _) in
    let count = length-detail_entries domain e.details in
    elim (Bool-cases (named e)) [
      | inl yes_named ↦ rw yes_named ((or_global-ne-nil _, rest), omega (arith, count))
      | inr unnamed ↦ rw unnamed (rest, omega (arith, count))
    ]
