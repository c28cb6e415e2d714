-- ===== src/Resumable/Assembling.antt =====
-- What resumable uploads of services/storage/resumable.go assemble.
use cloudrig.Prelude.{
  All, Bool-cases, inl, inr, ℕ, ◌+◌, ◌<◌, ◌≡◌, refl, sym, ◌∙◌, ap, arith, Bool, true, false, Option,
  none, some, List, [], ◌∷◌, ◌++◌, append_assoc, append-nil, length, length-append,
}
use cloudrig.Prelude.Int.{pos, ltb_ℤ, eqb_ℤ, ◌+ℤ◌, ◌-ℤ◌}
use cloudrig.Prelude.Bytes.{Bytes}
use cloudrig.Resumable.{
  ContentRange, Session, Reply, bad_range, incomplete, finalized, finalize, answer, copied, declare,
  append_body, receive, resumable_chunk, parse_content_range,
}

-- The session, if there is one, counts the bytes of its file and is not done.
abbrev pub IsAligned : Option Session → Type 0
IsAligned none = Unit {0}
IsAligned (some s) = (s.offset ≡ length s.file) × (s.done ≡ false)

answer-IsAligned : (s : Session) → IsAligned (some s) → IsAligned (answer s).1
unfolding answer finalize
answer-IsAligned s h = ground (arith, h)

receive-IsAligned :
    (r : ContentRange) (body : Bytes) (failed : Bool) (s : Session)
    → IsAligned (some s)
    → IsAligned (receive r body failed s).1
unfolding receive copied
receive-IsAligned r body failed s h =
    let grown : IsAligned (some (append_body body s)) =
      (omega (arith, length-append s.file body, h.0), h.1) in
    ground (arith, grown, answer-IsAligned (append_body body s) grown, answer-IsAligned s h)

resumable_step-IsAligned :
    (o : Option ContentRange) (body : Bytes) (failed : Bool) (s : Session)
    → IsAligned (some s)
    → IsAligned
        (elim o as (λ x. Reply × Option Session) [
          | none ↦ (bad_range, some s)
          | some r ↦ receive r body failed (declare r.total s)
        ]).1
resumable_step-IsAligned none body failed s h = h
resumable_step-IsAligned (some r) body failed s h =
    receive-IsAligned r body failed (declare r.total s) (ground (arith, h))

-- Whatever a request's header and body are, and also if the copy fails, a session that is left open
-- counts exactly the bytes of its file.
pub resumable_chunk-IsAligned :
    (header body : Bytes) (failed : Bool) (o : Option Session)
    → IsAligned o
    → IsAligned (resumable_chunk header body failed o).1
unfolding resumable_chunk
resumable_chunk-IsAligned header body failed none h = tt
resumable_chunk-IsAligned header body failed (some s) h =
    resumable_step-IsAligned (parse_content_range header) body failed s h

-- The range of the next piece of an upload.
abbrev pub next_range : ℕ → Bytes → Session → ContentRange
next_range total p s = record {
  start = pos s.offset;
  end = pos (s.offset + length p) -ℤ pos 1;
  total = pos total;
  query = false;
}

abbrev pub send : ℕ → Bytes → Session → Reply × Option Session
send total p s = receive (next_range total p s) p false (declare (pos total) s)

abbrev pub proceed :
    (Session → Reply × Option Session) → Reply × Option Session → Reply × Option Session
proceed f (r, none) = (r, none)
proceed f (r, some s) = f s

-- A client that sends pieces one after another.
unfoldable pub send_every : ℕ → Bytes → List Bytes → Session → Reply × Option Session
send_every total p [] s = send total p s
send_every total p (q ∷ ps) s = proceed (λ s'. send_every total q ps s') (send total p s)

end_matches : (n : ℕ) → eqb_ℤ (pos n) (pos n -ℤ pos 1 +ℤ pos 1) ≡ true
unfolding ◌-ℤ◌ ◌+ℤ◌
end_matches n = ground arith

send_middle :
    (total : ℕ) (p : Bytes) (s : Session)
    → s.offset + length p < total
    → send total p s
      ≡ (incomplete (s.offset + length p), some (append_body p (declare (pos total) s)))
unfolding receive copied answer
send_middle total p s h = ground (arith, end_matches (s.offset + length p))

send_last :
    (total : ℕ) (p : Bytes) (s : Session)
    → s.done ≡ false
    → s.offset + length p ≡ total
    → send total p s ≡ (finalized (s.file ++ p), none)
unfolding receive copied answer finalize
send_last total p s d h = ground (arith, end_matches (s.offset + length p))

abbrev pub concatenated : List Bytes → Bytes
concatenated [] = []
concatenated (p ∷ ps) = p ++ concatenated ps

abbrev pub with_total : ℕ → Session → Session
with_total n s = record s { total = pos n }

declare-pos : (n : ℕ) (s : Session) → declare (pos n) s ≡ with_total n s
declare-pos n s = elim (Bool-cases (ltb_ℤ (pos n) (pos 0))) [
  | inl e ↦ ground arith
  | inr e ↦ rw e refl
]

-- Pieces of content that are sent one after another to an open session, each with its own range and
-- none but the first empty, are finalized as the content that they make up behind what the session
-- had, when the declared total is the length of that.
pub send_every-concatenated :
    (total : ℕ) (p : Bytes) (ps : List Bytes) (s : Session)
    → IsAligned (some s)
    → All (λ q. 0 < length q) ps
    → s.offset + length (p ++ concatenated ps) ≡ total
    → send_every total p ps s ≡ (finalized (s.file ++ (p ++ concatenated ps)), none)
unfolding send_every
send_every-concatenated total p [] s h k e =
    send_last total p s h.1 (omega (arith, length-append p [], e))
    ∙ ap (λ x. (finalized (s.file ++ x), none)) (sym (append-nil p))
send_every-concatenated total p (q ∷ ps) s h k e =
    let more = q ++ concatenated ps in
    let next = append_body p (with_total total s) in
    let sizes = length-append p more in
    let less : s.offset + length p < total =
      omega (arith, sizes, length-append q (concatenated ps), e, k.0) in
    let aligned : IsAligned (some next) = (omega (arith, length-append s.file p, h.0), h.1) in
    ap (proceed (λ s'. send_every total q ps s')) (send_middle total p s less)
    ∙ ap (λ d. send_every total q ps (append_body p d)) (declare-pos total s)
    ∙ send_every-concatenated total q ps next aligned k.1 (omega (arith, sizes, e))
    ∙ ap (λ x. (finalized x, none)) (append_assoc s.file p more)
