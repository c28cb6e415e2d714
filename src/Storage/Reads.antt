-- ===== src/Storage/Reads.antt =====
-- The programs of services/storage that change nothing.
use cloudrig.Prelude.{ℕ, ◌≡◌, refl, Bool, Option, none, some, List, []}
use cloudrig.Prelude.Bytes.{Bytes}
use cloudrig.Store.{
  Result, ok, err, Entry, Kv, not_found, version_mismatch, invalid_page_token, ctx_done,
}
use cloudrig.Store
use cloudrig.Storage.{Failure}
use cloudrig.Storage.Program.{
  Program, returns, fails, gets, puts, deletes, lists, reads_clock, stores_content, opens_content,
  drops_content, tells, World, run, on_result, ◌>>=◌,
}
use cloudrig.Storage.Buckets.{or_internal, read_value}

-- The program changes nothing.
abbrev pub Reads : {A : Type 0} → Program A → Type 0
Reads (returns a) = Unit
Reads (fails x) = Unit
Reads (gets k c) = (r : Result (Bytes × ℕ)) → Reads (c r)
Reads (puts k b n c) = ⊥
Reads (deletes k n c) = ⊥
Reads (lists p n t c) = (r : Result (List Kv × Bytes)) → Reads (c r)
Reads (reads_clock c) = (t : ℕ) → Reads (c t)
Reads (stores_content b c) = ⊥
Reads (opens_content b c) = (r : Bool) → Reads (c r)
Reads (drops_content b c) = ⊥
Reads (tells k o c) = ⊥

pub run-Reads : {A : Type 0} (m : Program A) (w : World) → Reads m → (run m [] w).1 ≡ w
unfolding run
run-Reads (returns a) w l = refl
run-Reads (fails x) w l = refl
run-Reads (gets k c) w l = run-Reads (c (Store.get none k w.kv)) w (l _)
run-Reads (puts k b n c) w l = absurd l
run-Reads (deletes k n c) w l = absurd l
run-Reads (lists p n t c) w l = run-Reads (c (Store.list none p n t w.kv)) w (l _)
run-Reads (reads_clock c) w l = run-Reads (c w.now) w (l w.now)
run-Reads (stores_content b c) w l = absurd l
run-Reads (opens_content b c) w l = run-Reads (c (w.contents b)) w (l _)
run-Reads (drops_content b c) w l = absurd l
run-Reads (tells k o c) w l = absurd l

pub on_result-Reads :
    {A B : Type 0} (m : Program A) (h : Failure → Program B) (f : A → Program B)
    → Reads m
    → ((x : Failure) → Reads (h x))
    → ((a : A) → Reads (f a))
    → Reads (on_result m h f)
unfolding on_result
on_result-Reads (returns a) h f l lh lf = lf a
on_result-Reads (fails x) h f l lh lf = lh x
on_result-Reads (gets k c) h f l lh lf = λ r. on_result-Reads (c r) h f (l r) lh lf
on_result-Reads (puts k b n c) h f l lh lf = absurd l
on_result-Reads (deletes k n c) h f l lh lf = absurd l
on_result-Reads (lists p n t c) h f l lh lf = λ r. on_result-Reads (c r) h f (l r) lh lf
on_result-Reads (reads_clock c) h f l lh lf = λ t. on_result-Reads (c t) h f (l t) lh lf
on_result-Reads (stores_content b c) h f l lh lf = absurd l
on_result-Reads (opens_content b c) h f l lh lf = λ r. on_result-Reads (c r) h f (l r) lh lf
on_result-Reads (drops_content b c) h f l lh lf = absurd l
on_result-Reads (tells k o c) h f l lh lf = absurd l

pub bind-Reads :
    {A B : Type 0} (m : Program A) (f : A → Program B)
    → Reads m
    → ((a : A) → Reads (f a))
    → Reads (m >>= f)
bind-Reads m f l lf = on_result-Reads m fails f l (λ x. tt) lf

pub or_internal-Reads : {A : Type 0} (o : Option A) → Reads (or_internal o)
or_internal-Reads none = tt
or_internal-Reads (some a) = tt

pub read_value-Reads : (r : Result (Bytes × ℕ)) → Reads (read_value r)
read_value-Reads (ok e) = tt
read_value-Reads (err e) = tt
