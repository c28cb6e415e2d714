-- ===== src/Logging/Total.antt =====
-- The loops of services/cloudlogging/filter.go end: their fuel, the text or the tokens left and one
-- more, is enough.
use cloudrig.Prelude.{
  length-drop, ℕ, zero, suc, ◌≤◌, ◌<◌, ◌≡◌, refl, arith, Bool, true, false, not, List, [], ◌∷◌,
  ◌==◌, length, drop, if◌then◌else◌,
}
use cloudrig.Prelude.Bytes.{Bytes}
use cloudrig.Logging.Tokens.{
  is_space, is_empty, Token, Lexed, lexed, unterminated, starved, quoted, read_word, ends_word,
  op_at, cons_first, join, then_lex, push, tokens, tokenize,
}

abbrev Rest : ℕ → Lexed (Bytes × Bytes) → Type 0
Rest n (lexed (a, rest)) = length rest ≤ n
Rest n unterminated = Unit {0}
Rest n starved = ⊥

Rest-weak : (m n : ℕ) (l : Lexed (Bytes × Bytes)) → m ≤ n → Rest m l → Rest n l
Rest-weak m n (lexed (a, rest)) le h = omega arith
Rest-weak m n unterminated le h = tt
Rest-weak m n starved le h = h

cons_first-Rest : (c n : ℕ) (l : Lexed (Bytes × Bytes)) → Rest n l → Rest n (cons_first c l)
cons_first-Rest c n (lexed (a, rest)) h = h
cons_first-Rest c n unterminated h = tt
cons_first-Rest c n starved h = h

join-Rest : (a : Bytes) (n : ℕ) (l : Lexed (Bytes × Bytes)) → Rest n l → Rest n (join a l)
join-Rest a n (lexed (b, rest)) h = h
join-Rest a n unterminated h = tt
join-Rest a n starved h = h

-- The condition of a test does not matter for what holds of both branches.
pub if-either :
    {A : Type 0} (P : A → Type 0) (b : Bool) (x y : A) → P x → P y → P (if b then x else y)
if-either P true x y p q = p
if-either P false x y p q = q

pub if-cases :
    {A : Type 0} (P : A → Type 0) (b : Bool) (x y : A)
    → (b ≡ true → P x)
    → (b ≡ false → P y)
    → P (if b then x else y)
if-cases P true x y p q = p refl
if-cases P false x y p q = q refl

quoted-Rest : (s : Bytes) → Rest (length s) (quoted s)
unfolding quoted
quoted-Rest [] = tt
quoted-Rest (c ∷ []) =
    if-either (Rest 1) (c == b'\\') _ _ tt (if-either (Rest 1) (c == b'"') _ _ (omega arith) tt)
quoted-Rest (c ∷ d ∷ s) =
    let n = length (c ∷ d ∷ s) in
    let escaped = Rest-weak (length s) n (quoted s) (omega arith) (quoted-Rest s) in
    let plain = Rest-weak (length (d ∷ s)) n (quoted (d ∷ s)) (omega arith) (quoted-Rest (d ∷ s)) in
    if-either (Rest n) (c == b'\\') _ _ (cons_first-Rest d n (quoted s) escaped) (
      if-either (Rest n) (c == b'"') _ _ (omega arith) (cons_first-Rest c n (quoted (d ∷ s)) plain))

part-Rest :
    (n f : ℕ) (l : Lexed (Bytes × Bytes))
    → Rest n l
    → ((s : Bytes) → length s ≤ n → Rest (length s) (read_word f s))
    → Rest n (then_lex l (λ a rest. join a (read_word f rest)))
part-Rest n f (lexed (a, rest)) h ih =
    Rest-weak (length rest) n (join a (read_word f rest)) h
      (join-Rest a (length rest) (read_word f rest) (ih rest h))
part-Rest n f unterminated h ih = tt
part-Rest n f starved h ih = h

read_word-Rest : (f : ℕ) (s : Bytes) → length s < f → Rest (length s) (read_word f s)
unfolding read_word
read_word-Rest zero s h = omega arith
read_word-Rest (suc f) [] h = omega arith
read_word-Rest (suc f) (c ∷ s) h =
    let n = length (c ∷ s) in
    let rest =
      part-Rest (length s) f (quoted s) (quoted-Rest s)
        (λ t le. read_word-Rest f t (omega arith)) in
    let word =
      Rest-weak (length s) n (read_word f s) (omega arith) (read_word-Rest f s (omega arith)) in
    if-either (Rest n) (ends_word (c ∷ s)) _ _ (omega arith) (
      if-either (Rest n) (c == b'"') _ _ (Rest-weak (length s) n _ (omega arith) rest)
        (cons_first-Rest c n (read_word f s) word))

-- A word that is there has a first byte, so that less is left.
read_word-less :
    (f c : ℕ) (s : Bytes)
    → ends_word (c ∷ s) ≡ false
    → length s < f
    → Rest (length s) (read_word (suc f) (c ∷ s))
unfolding read_word
read_word-less f c s e h =
    let rest =
      part-Rest (length s) f (quoted s) (quoted-Rest s)
        (λ t le. read_word-Rest f t (omega arith)) in
    rw e (
      if-either (Rest (length s)) (c == b'"') _ _ rest
        (cons_first-Rest c (length s) (read_word f s) (read_word-Rest f s h)))

abbrev pub Ends {ℓ} : {A : Type ℓ} → Lexed A → Type 0
Ends (lexed a) = Unit {0}
Ends unterminated = Unit {0}
Ends starved = ⊥

push-Ends : (t : Token) (l : Lexed (List Token)) → Ends l → Ends (push t l)
push-Ends t (lexed ts) h = tt
push-Ends t unterminated h = tt
push-Ends t starved h = h

then_lex-Ends :
    (n : ℕ) (l : Lexed (Bytes × Bytes)) (f : Bytes → Bytes → Lexed (List Token))
    → Rest n l
    → ((a rest : Bytes) → length rest ≤ n → Ends (f a rest))
    → Ends (then_lex l f)
then_lex-Ends n (lexed (a, rest)) f h k = k a rest h
then_lex-Ends n unterminated f h k = tt
then_lex-Ends n starved f h k = h

-- Where no test before that of a word succeeds, a word is there.
ends_word-no :
    (c : ℕ) (s : Bytes)
    → is_space c ≡ false
    → (c == b'(') ≡ false
    → (c == b')') ≡ false
    → is_empty (op_at (c ∷ s)) ≡ true
    → ends_word (c ∷ s) ≡ false
unfolding ends_word
ends_word-no c s a b d e = ground arith

-- An operator is not empty, so that less is left behind it.
length-drop_op :
    (c : ℕ) (s o : Bytes) → is_empty o ≡ false → length (drop (length o) (c ∷ s)) ≤ length s
length-drop_op c s [] e = ground arith
length-drop_op c s (x ∷ o) e = omega (arith, length-drop (length (x ∷ o)) (c ∷ s))

tokens-Ends : (f : ℕ) (s : Bytes) → length s < f → Ends (tokens f s)
unfolding tokens
tokens-Ends zero s h = omega arith
tokens-Ends (suc f) [] h = tt
tokens-Ends (suc f) (c ∷ s) h =
    let n = length s in
    let next : (t : Bytes) → length t ≤ n → Ends (tokens f t) =
      λ t le. tokens-Ends f t (omega arith) in
    if-cases Ends (is_space c) _ _ (λ _. next s (omega arith))
      (λ a.
        if-cases Ends (c == b'(') _ _ (λ _. push-Ends _ _ (next s (omega arith)))
          (λ b.
            if-cases Ends (c == b')') _ _ (λ _. push-Ends _ _ (next s (omega arith)))
              (λ d.
                if-cases Ends (c == b'"') _ _
                  (λ _.
                    then_lex-Ends n (quoted s) _ (quoted-Rest s)
                      (λ w t le. push-Ends _ _ (next t le)))
                  (λ _.
                    if-cases Ends (not (is_empty (op_at (c ∷ s)))) _ _
                      (λ e.
                        push-Ends _ _ (next _ (length-drop_op c s (op_at (c ∷ s)) (ground arith))))
                      (λ e.
                        then_lex-Ends n (read_word (suc (length (c ∷ s))) (c ∷ s)) _
                          (read_word-less (length (c ∷ s)) c s
                            (ends_word-no c s a b d (ground arith)) (omega arith))
                          (λ w t le. push-Ends _ _ (next t le)))))))

pub tokenize-Ends : (s : Bytes) → Ends (tokenize s)
unfolding tokenize
tokenize-Ends s = tokens-Ends (suc (length s)) s (omega arith)
