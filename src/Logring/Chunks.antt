-- ===== src/Logring/Chunks.antt =====
-- How core/logring/logring.go splits what it is given into lines.
use cloudrig.Prelude.{
  Bool-cases, inl, inr, ℕ, zero, suc, ◌<◌, ◌≡◌, refl, sym, ◌∙◌, ap, arith, false, Option, none,
  some, List, [], ◌∷◌, ◌++◌, append_assoc, ◌==◌, length, if◌then◌else◌,
}
use cloudrig.Prelude.Bytes.{Bytes}
use cloudrig.Logring.{Ring, append_line, trim_cr, first_more, break_line, write_loop, write}

abbrev pub first_byte : ℕ → List Bytes × Bytes → List Bytes × Bytes
first_byte c ([], p) = ([], c ∷ p)
first_byte c (l ∷ ls, p) = ((c ∷ l) ∷ ls, p)

-- The complete lines of a text and what stands behind the last newline.
unfoldable pub split : Bytes → List Bytes × Bytes
split [] = ([], [])
split (c ∷ s) = if c == 10 then ([] ∷ (split s).0, (split s).1) else first_byte c (split s)

unfoldable pub feed : List Bytes → Ring → Ring
feed [] r = r
feed (l ∷ ls) r = feed ls (append_line (trim_cr l) r)

abbrev SplitsBy : Bytes → Option (Bytes × Bytes) → Type 0
SplitsBy s none = split s ≡ ([], s)
SplitsBy s (some (line, rest)) =
    (split s ≡ (line ∷ (split rest).0, (split rest).1)) × (length rest < length s)

SplitsBy-more :
    (c : ℕ) (s : Bytes) (o : Option (Bytes × Bytes))
    → (c == 10) ≡ false
    → SplitsBy s o
    → SplitsBy (c ∷ s) (first_more c o)
unfolding split
SplitsBy-more c s none h e = rw h (rw e refl)
SplitsBy-more c s (some (line, rest)) h (e, less) = (rw h (rw e refl), omega arith)

break_line-SplitsBy : (s : Bytes) → SplitsBy s (break_line s)
unfolding break_line split
break_line-SplitsBy [] = refl
break_line-SplitsBy (c ∷ s) = elim (Bool-cases (c == 10)) [
  | inl e ↦ rw e (rw e refl, omega arith)
  | inr e ↦ rw e (SplitsBy-more c s (break_line s) e (break_line-SplitsBy s))
]

-- What Write leaves (`fed`): the complete lines fed to the ring, and the rest kept as the partial line.
abbrev pub with_partial : Bytes → Ring → Ring
with_partial p r = record r { partial = p }

abbrev pub fed : Bytes → Ring → Ring
fed s r = with_partial (split s).1 (feed (split s).0 r)

write_step :
    (f : ℕ) (s : Bytes) (r : Ring) (o : Option (Bytes × Bytes))
    → SplitsBy s o
    → length s < suc f
    → ((rest : Bytes) (r' : Ring) → length rest < f → write_loop f rest r' ≡ some (fed rest r'))
    → (elim o [
      | none ↦ some (record r { partial = s })
      | some (line, rest) ↦ write_loop f rest (append_line (trim_cr line) r)
    ])
      ≡ some (fed s r)
unfolding feed
write_step f s r none e h ih = rw e refl
write_step f s r (some (line, rest)) (e, less) h ih =
    rw e (ih rest (append_line (trim_cr line) r) (omega arith))

write_loop-fed : (f : ℕ) (s : Bytes) (r : Ring) → length s < f → write_loop f s r ≡ some (fed s r)
unfolding write_loop
write_loop-fed zero s r h = absurd (omega arith)
write_loop-fed (suc f) s r h =
    write_step f s r (break_line s) (break_line-SplitsBy s) h
      (λ rest r' le. write_loop-fed f rest r' le)

-- Write ends within its fuel. It feeds the ring the complete lines of the partial line and the new
-- bytes together, in order, and keeps what stands behind the last newline.
pub write-fed : (p : Bytes) (r : Ring) → write p r ≡ some (fed (r.partial ++ p) r)
unfolding write
write-fed p r = write_loop-fed (suc (length (r.partial ++ p))) (r.partial ++ p) r (omega arith)

first_byte-append :
    (c : ℕ) (d : List Bytes × Bytes) (b : Bytes)
    → (c == 10) ≡ false
    → first_byte c (d.0 ++ (split (d.1 ++ b)).0, (split (d.1 ++ b)).1) ≡ (
      (first_byte c d).0 ++ (split ((first_byte c d).1 ++ b)).0,
      (split ((first_byte c d).1 ++ b)).1,
    )
unfolding split
first_byte-append c ([], p) b h = rw h refl
first_byte-append c (l ∷ ls, p) b h = refl

split-append :
    (a b : Bytes)
    → split (a ++ b) ≡ ((split a).0 ++ (split ((split a).1 ++ b)).0, (split ((split a).1 ++ b)).1)
unfolding split
split-append [] b = refl
split-append (c ∷ s) b = elim (Bool-cases (c == 10)) [
  | inl e ↦ rw e (ap (λ d. ([] ∷ d.0, d.1)) (split-append s b))
  | inr e ↦ rw e (ap (first_byte c) (split-append s b) ∙ first_byte-append c (split s) b e)
]

feed-partial :
    (ls : List Bytes) (p : Bytes) (r : Ring)
    → feed ls (record r { partial = p }) ≡ record (feed ls r) { partial = p }
unfolding feed append_line
feed-partial [] p r = refl
feed-partial (l ∷ ls) p r = feed-partial ls p (append_line (trim_cr l) r)

feed-append : (ls ms : List Bytes) (r : Ring) → feed (ls ++ ms) r ≡ feed ms (feed ls r)
unfolding feed
feed-append [] ms r = refl
feed-append (l ∷ ls) ms r = feed-append ls ms (append_line (trim_cr l) r)

fed-fed : (a b : Bytes) (r : Ring) → fed ((split a).1 ++ b) (fed a r) ≡ fed (a ++ b) r
fed-fed a b r =
    let d = split ((split a).1 ++ b) in
    ap (with_partial d.1) (feed-partial d.0 (split a).1 (feed (split a).0 r))
    ∙ ap (with_partial d.1) (sym (feed-append (split a).0 d.0 r))
    ∙ ap (λ x. with_partial x.1 (feed x.0 r)) (sym (split-append a b))

abbrev pub then_write : Bytes → Option Ring → Option Ring
then_write b none = none
then_write b (some r) = write b r

-- How the bytes come in chunks does not matter: two writes leave the ring, its followers' channels
-- included, as one write of both chunks does.
pub write_chunks : (a b : Bytes) (r : Ring) → then_write b (write a r) ≡ write (a ++ b) r
write_chunks a b r =
    ap (then_write b) (write-fed a r)
    ∙ write-fed b (fed (r.partial ++ a) r)
    ∙ ap some (fed-fed (r.partial ++ a) b r)
    ∙ ap (λ s. some (fed s r)) (append_assoc r.partial a b)
    ∙ sym (write-fed (a ++ b) r)
