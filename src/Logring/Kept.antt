-- ===== src/Logring/Kept.antt =====
-- The lines that core/logring/logring.go keeps.
use cloudrig.Prelude.{
  Bool-cases, inl, inr, ℕ, zero, suc, ◌+◌, ◌-◌, ◌≤◌, ◌≡◌, refl, sym, ◌∙◌, ap, arith, Option, none,
  some, List, [], ◌∷◌, ◌++◌, append_assoc, append-nil, map, ltb, length, length-append, length-drop,
  drop,
}
use cloudrig.Prelude.Bytes.{Bytes}
use cloudrig.Logring.{Ring, append_line, keep_last, trim_cr, write}
use cloudrig.Logring.Chunks.{feed, split, write-fed}

drop-append :
    {A : Type 0} (k : ℕ) (xs ys : List A) → k ≤ length xs → drop k (xs ++ ys) ≡ drop k xs ++ ys
drop-append zero xs ys h = refl
drop-append (suc k) [] ys h = absurd (omega arith)
drop-append (suc k) (x ∷ xs) ys h = drop-append k xs ys (omega arith)

drop-nil : {A : Type 0} (m : ℕ) → drop {A = A} m [] ≡ []
drop-nil zero = refl
drop-nil (suc m) = refl

drop-drop : {A : Type 0} (m k : ℕ) (xs : List A) → drop m (drop k xs) ≡ drop (k + m) xs
drop-drop m zero xs = ap (λ i. drop i xs) (omega arith)
drop-drop m (suc k) [] = drop-nil m ∙ sym (drop-nil (suc k + m))
drop-drop m (suc k) (x ∷ xs) =
    let next : suc (k + m) ≡ suc k + m = omega arith in
    drop-drop m k xs ∙ ap (λ i. drop i (x ∷ xs)) next

keep_last-drop : {A : Type 0} (n : ℕ) (xs : List A) → keep_last n xs ≡ drop (length xs - n) xs
unfolding keep_last
keep_last-drop n xs = elim (Bool-cases (ltb n (length xs))) [
  | inl e ↦ rw e refl
  | inr e ↦ let none_over : 0 ≡ length xs - n = ground arith in rw e (ap (λ i. drop i xs) none_over)
]

keep_last-snoc :
    {A : Type 0} (n : ℕ) (xs : List A) (y : A)
    → keep_last n (keep_last n xs ++ y ∷ []) ≡ keep_last n (xs ++ y ∷ [])
keep_last-snoc n xs y =
    let k = length xs - n in
    let joined = xs ++ y ∷ [] in
    let count : k + (length (drop k joined) - n) ≡ length joined - n =
      omega (arith, length-drop k joined, length-append xs (y ∷ [])) in
    ap (λ zs. keep_last n (zs ++ y ∷ [])) (keep_last-drop n xs)
    ∙ ap (keep_last n) (sym (drop-append k xs (y ∷ []) (omega arith)))
    ∙ keep_last-drop n (drop k joined)
    ∙ drop-drop (length (drop k joined) - n) k joined
    ∙ ap (λ i. drop i joined) count
    ∙ sym (keep_last-drop n joined)

lines-feed :
    (ls history : List Bytes) (r : Ring)
    → r.lines ≡ keep_last r.max history
    → (feed ls r).lines ≡ keep_last r.max (history ++ map trim_cr ls)
unfolding feed append_line
lines-feed [] history r e = e ∙ ap (keep_last r.max) (sym (append-nil history))
lines-feed (l ∷ ls) history r e =
    lines-feed ls (history ++ trim_cr l ∷ []) (append_line (trim_cr l) r) (
      ap (λ zs. keep_last r.max (zs ++ trim_cr l ∷ [])) e
      ∙ keep_last-snoc r.max history (trim_cr l))
    ∙ ap (keep_last r.max) (append_assoc history (trim_cr l ∷ []) (map trim_cr ls))

abbrev pub lines_of : Option Ring → Option (List Bytes)
lines_of none = none
lines_of (some r) = some r.lines

-- The ring holds the last lines of everything written to it, as many as its limit: if it holds
-- those of a history, then after a write it holds those of the history and the new lines, which are
-- what stands before the newlines of the partial line and the new bytes, less trailing carriage
-- returns.
pub lines-write :
    (p : Bytes) (history : List Bytes) (r : Ring)
    → r.lines ≡ keep_last r.max history
    → lines_of (write p r)
      ≡ some (keep_last r.max (history ++ map trim_cr (split (r.partial ++ p)).0))
lines-write p history r e =
    ap lines_of (write-fed p r) ∙ ap some (lines-feed (split (r.partial ++ p)).0 history r e)
