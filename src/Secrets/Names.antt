-- ===== src/Secrets/Names.antt =====
-- The names of services/secretmanager: a version's name is read back as its secret and its number.
use cloudrig.Prelude.{
  ℕ, ◌≡◌, ◌≢◌, refl, sym, ap, ◌∙◌, arith, false, List, [], ◌∷◌, ◌++◌, append_assoc, ◌==◌,
  Bool-cases, inl, inr,
}
use cloudrig.Prelude.Bytes.{Bytes, codes, str_eq, Lacks}
use cloudrig.Secrets.{
  ok, slash, onto_first, split_slash, join_slash, is_empty, parse_secret_parts, parse_secret,
  parse_version_parts, parse_version,
}

onto_first-ne-nil : (c : ℕ) (ps : List Bytes) → onto_first c ps ≢ []
onto_first-ne-nil c [] h = cc
onto_first-ne-nil c (p ∷ ps) h = cc

split_slash-ne-nil : (s : Bytes) → split_slash s ≢ []
unfolding split_slash
split_slash-ne-nil [] h = cc
split_slash-ne-nil (c ∷ s) h = elim (Bool-cases (c == slash)) [
  | inl e ↦ ground (arith, h)
  | inr e ↦ onto_first-ne-nil c (split_slash s) (ground (arith, h))
]

split_slash-Lacks : (s : Bytes) → Lacks slash s → split_slash s ≡ s ∷ []
unfolding split_slash
split_slash-Lacks [] h = refl
split_slash-Lacks (c ∷ s) h = ground (arith, split_slash-Lacks s h.1)

onto_first-append :
    (c : ℕ) (ps qs : List Bytes) → ps ≢ [] → onto_first c (ps ++ qs) ≡ onto_first c ps ++ qs
onto_first-append c [] qs h = absurd (h refl)
onto_first-append c (p ∷ ps) qs h = refl

-- A last part that has no slash is split off.
pub split_slash-append :
    (a b : Bytes) → Lacks slash b → split_slash (a ++ slash ∷ b) ≡ split_slash a ++ b ∷ []
unfolding split_slash
split_slash-append [] b h = ap (◌∷◌ []) (split_slash-Lacks b h)
split_slash-append (c ∷ a) b h = elim (Bool-cases (c == slash)) [
  | inl e ↦ rw e (ap (◌∷◌ []) (split_slash-append a b h))
  | inr e ↦ rw e (
      ap (onto_first c) (split_slash-append a b h)
      ∙ onto_first-append c (split_slash a) (b ∷ []) (split_slash-ne-nil a))
]

join_slash-empty : (ps : List Bytes) → ps ≢ [] → join_slash ([] ∷ ps) ≡ slash ∷ join_slash ps
unfolding join_slash
join_slash-empty [] h = absurd (h refl)
join_slash-empty (p ∷ ps) h = refl

join_slash-onto_first :
    (c : ℕ) (ps : List Bytes) → ps ≢ [] → join_slash (onto_first c ps) ≡ c ∷ join_slash ps
unfolding join_slash
join_slash-onto_first c [] h = absurd (h refl)
join_slash-onto_first c (p ∷ []) h = refl
join_slash-onto_first c (p ∷ q ∷ ps) h = refl

join_slash-split_slash : (s : Bytes) → join_slash (split_slash s) ≡ s
unfolding split_slash
join_slash-split_slash [] = unfold join_slash in refl
join_slash-split_slash (c ∷ s) = elim (Bool-cases (c == slash)) [
  | inl e ↦ rw e (
      join_slash-empty (split_slash s) (split_slash-ne-nil s)
      ∙ ap (◌∷◌ slash) (join_slash-split_slash s)
      ∙ ground arith)
  | inr e ↦ rw e (
      join_slash-onto_first c (split_slash s) (split_slash-ne-nil s)
      ∙ ap (◌∷◌ c) (join_slash-split_slash s))
]

four_parts :
    (l : List Bytes) {p : Bytes × Bytes}
    → parse_secret_parts l ≡ ok p
    → (a : Bytes) × (b : Bytes) × (c : Bytes) × (d : Bytes) × (l ≡ a ∷ b ∷ c ∷ d ∷ [])
unfolding parse_secret_parts
four_parts [] h = cc
four_parts (a ∷ []) h = cc
four_parts (a ∷ b ∷ []) h = cc
four_parts (a ∷ b ∷ c ∷ []) h = cc
four_parts (a ∷ b ∷ c ∷ d ∷ []) h = (a, b, c, d, refl)
four_parts (a ∷ b ∷ c ∷ d ∷ e ∷ l) h = cc

six_parts :
    (secret version a b c d : Bytes) {p : Bytes × Bytes}
    → parse_secret secret ≡ ok p
    → join_slash (a ∷ b ∷ c ∷ d ∷ []) ≡ secret
    → is_empty version ≡ false
    → parse_version_parts (a ∷ b ∷ c ∷ d ∷ codes "versions" ∷ version ∷ []) ≡ ok (secret, version)
unfolding parse_version_parts str_eq
six_parts secret version a b c d named joined h = rw joined (rw named (rw h refl))

-- The name of a version, whose text holds no slash, is read back as the secret and that text.
pub parse_version-name :
    (secret version : Bytes) {p : Bytes × Bytes}
    → parse_secret secret ≡ ok p
    → Lacks slash version
    → is_empty version ≡ false
    → parse_version (secret ++ (codes "/versions/" ++ version)) ≡ ok (secret, version)
unfolding parse_version parse_secret
parse_version-name secret version named h k =
    let (a, b, c, d, parts) = four_parts (split_slash secret) named in
    let joined : join_slash (a ∷ b ∷ c ∷ d ∷ []) ≡ secret =
      ap join_slash (sym parts) ∙ join_slash-split_slash secret in
    ap (λ s. parse_version_parts (split_slash s))
      (sym (append_assoc secret (slash ∷ codes "versions") (slash ∷ version)))
    ∙ ap parse_version_parts (
        split_slash-append (secret ++ slash ∷ codes "versions") version h
        ∙ ap (λ l. l ++ version ∷ [])
            (split_slash-append secret (codes "versions") (omega arith)
              ∙ ap (λ l. l ++ codes "versions" ∷ []) parts))
    ∙ six_parts secret version a b c d named joined k
