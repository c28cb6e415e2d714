-- ===== src/Storage/Racing.antt =====
-- Which programs of services/storage can end with the failure that stands for a lost race.
use cloudrig.Prelude.{ℕ, Bool, none, true, false, not, List, if◌then◌else◌}
use cloudrig.Prelude.Bytes.{Bytes}
use cloudrig.Store.{
  Result, ok, err, Entry, Kv, not_found, version_mismatch, invalid_page_token, ctx_done,
}
use cloudrig.Store
use cloudrig.Storage.{Failure, race_lost, fault}
use cloudrig.Storage.Program.{
  Program, returns, fails, gets, puts, deletes, lists, reads_clock, stores_content, opens_content,
  drops_content, tells, World, run, on_result, ◌>>=◌, set_content, told_of,
}
use cloudrig.Storage.Runs.{Breaks}

-- The program does not end with the failure that stands for a lost race.
abbrev pub NeverLoses : {A : Type 0} → Program A → Type 0
NeverLoses (returns a) = Unit
NeverLoses (fails (fault code status)) = Unit
NeverLoses (fails race_lost) = ⊥
NeverLoses (gets k c) = (r : Result (Bytes × ℕ)) → NeverLoses (c r)
NeverLoses (puts k b n c) = (r : Result ℕ) → NeverLoses (c r)
NeverLoses (deletes k n c) = (r : Result (Unit {0})) → NeverLoses (c r)
NeverLoses (lists p n t c) = (r : Result (List Kv × Bytes)) → NeverLoses (c r)
NeverLoses (reads_clock c) = (t : ℕ) → NeverLoses (c t)
NeverLoses (stores_content b c) = NeverLoses c
NeverLoses (opens_content b c) = (r : Bool) → NeverLoses (c r)
NeverLoses (drops_content b c) = (r : Bool) → NeverLoses (c r)
NeverLoses (tells k o c) = NeverLoses c

pub run-NeverLoses :
    {A : Type 0} (m : Program A) (w w' : World) → NeverLoses m → Breaks m w race_lost w' → ⊥
unfolding run
run-NeverLoses (returns a) w w' l h = cc
run-NeverLoses (fails (fault code status)) w w' l h = cc
run-NeverLoses (fails race_lost) w w' l h = l
run-NeverLoses (gets k c) w w' l h = run-NeverLoses (c (Store.get none k w.kv)) w w' (l _) h
run-NeverLoses (puts k b n c) w w' l h =
    let (r, kv) = Store.put none k b n w.kv in
    run-NeverLoses (c r) (record w { kv = kv }) w' (l r) h
run-NeverLoses (deletes k n c) w w' l h =
    let (r, kv) = Store.delete none k n w.kv in
    run-NeverLoses (c r) (record w { kv = kv }) w' (l r) h
run-NeverLoses (lists p n t c) w w' l h =
    run-NeverLoses (c (Store.list none p n t w.kv)) w w' (l _) h
run-NeverLoses (reads_clock c) w w' l h = run-NeverLoses (c w.now) w w' (l w.now) h
run-NeverLoses (stores_content b c) w w' l h = run-NeverLoses c (set_content b true w) w' l h
run-NeverLoses (opens_content b c) w w' l h = run-NeverLoses (c (w.contents b)) w w' (l _) h
run-NeverLoses (drops_content b c) w w' l h =
    run-NeverLoses (c (not (w.is_stuck b))) (if w.is_stuck b then w else set_content b false w) w'
      (l _) h
run-NeverLoses (tells k o c) w w' l h = run-NeverLoses c (told_of k o w) w' l h

-- The parts after which a failure is handled may lose.
pub on_result-NeverLoses :
    {A B : Type 0} (m : Program A) (h : Failure → Program B) (f : A → Program B)
    → ((x : Failure) → NeverLoses (h x))
    → ((a : A) → NeverLoses (f a))
    → NeverLoses (on_result m h f)
unfolding on_result
on_result-NeverLoses (returns a) h f lh lf = lf a
on_result-NeverLoses (fails e) h f lh lf = lh e
on_result-NeverLoses (gets k c) h f lh lf = λ r. on_result-NeverLoses (c r) h f lh lf
on_result-NeverLoses (puts k b n c) h f lh lf = λ r. on_result-NeverLoses (c r) h f lh lf
on_result-NeverLoses (deletes k n c) h f lh lf = λ r. on_result-NeverLoses (c r) h f lh lf
on_result-NeverLoses (lists p n t c) h f lh lf = λ r. on_result-NeverLoses (c r) h f lh lf
on_result-NeverLoses (reads_clock c) h f lh lf = λ t. on_result-NeverLoses (c t) h f lh lf
on_result-NeverLoses (stores_content b c) h f lh lf = on_result-NeverLoses c h f lh lf
on_result-NeverLoses (opens_content b c) h f lh lf = λ r. on_result-NeverLoses (c r) h f lh lf
on_result-NeverLoses (drops_content b c) h f lh lf = λ r. on_result-NeverLoses (c r) h f lh lf
on_result-NeverLoses (tells k o c) h f lh lf = on_result-NeverLoses c h f lh lf

-- A failure of what does not lose is another one for what handles it.
pub handled-NeverLoses :
    {A B : Type 0} (m : Program A) (h : Failure → Program B) (f : A → Program B)
    → NeverLoses m
    → ((code status : ℕ) → NeverLoses (h (fault code status)))
    → ((a : A) → NeverLoses (f a))
    → NeverLoses (on_result m h f)
unfolding on_result
handled-NeverLoses (returns a) h f l lh lf = lf a
handled-NeverLoses (fails (fault code status)) h f l lh lf = lh code status
handled-NeverLoses (fails race_lost) h f l lh lf = absurd l
handled-NeverLoses (gets k c) h f l lh lf = λ r. handled-NeverLoses (c r) h f (l r) lh lf
handled-NeverLoses (puts k b n c) h f l lh lf = λ r. handled-NeverLoses (c r) h f (l r) lh lf
handled-NeverLoses (deletes k n c) h f l lh lf = λ r. handled-NeverLoses (c r) h f (l r) lh lf
handled-NeverLoses (lists p n t c) h f l lh lf = λ r. handled-NeverLoses (c r) h f (l r) lh lf
handled-NeverLoses (reads_clock c) h f l lh lf = λ t. handled-NeverLoses (c t) h f (l t) lh lf
handled-NeverLoses (stores_content b c) h f l lh lf = handled-NeverLoses c h f l lh lf
handled-NeverLoses (opens_content b c) h f l lh lf = λ r. handled-NeverLoses (c r) h f (l r) lh lf
handled-NeverLoses (drops_content b c) h f l lh lf = λ r. handled-NeverLoses (c r) h f (l r) lh lf
handled-NeverLoses (tells k o c) h f l lh lf = handled-NeverLoses c h f l lh lf

pub bind-NeverLoses :
    {A B : Type 0} (m : Program A) (f : A → Program B)
    → NeverLoses m
    → ((a : A) → NeverLoses (f a))
    → NeverLoses (m >>= f)
bind-NeverLoses m f l lf = handled-NeverLoses m fails f l (λ code status. tt) lf
