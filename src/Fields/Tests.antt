-- ===== src/Fields/Tests.antt =====
-- A document of services/firestore, written at a dotted path.
use cloudrig.Prelude.{◌≡◌, refl, some, none, inl, inr, [], ◌∷◌}
use cloudrig.Prelude.Bytes.{codes, str_eq}
use cloudrig.Fields.{Fields, scalar, no_fields, field, split_path, lookup, set_path, delete_path}
use cloudrig.Fields.Paths.{lookup-path, lookup-path-Apart}

abbrev doc : Fields
doc = field (codes "a") (scalar (1 ∷ [])) no_fields

lookup-path_example :
    (lookup (codes "a.b") (set_path (codes "a.b") (scalar (2 ∷ [])) doc) ≡ some (scalar (2 ∷ [])))
    × (lookup (codes "a.b") (delete_path (codes "a.b") doc) ≡ none)
lookup-path_example = lookup-path (codes "a.b") (scalar (2 ∷ [])) doc

lookup-path-Apart_example :
    lookup (codes "a.c") (set_path (codes "a.b") (scalar (2 ∷ [])) doc) ≡ lookup (codes "a.c") doc
unfolding split_path str_eq
lookup-path-Apart_example =
    lookup-path-Apart (codes "a.b") (codes "a.c") (scalar (2 ∷ [])) doc (inr (refl, inl refl))
