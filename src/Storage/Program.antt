-- ===== src/Storage/Program.antt =====
-- A request of services/storage as a tree of calls, and its run among other clients.
use cloudrig.Prelude.{
  ℕ, ◌≡◌, refl, Bool, true, false, not, none, List, [], ◌∷◌, ◌++◌, if◌then◌else◌,
}
use cloudrig.Prelude.Bytes.{Bytes, str_eq}
use cloudrig.Store.{Memory, Result, Kv}
use cloudrig.Store
use cloudrig.Storage.{Failure, Object, Event}

-- The calls: on the store, on the clock, on the content files (blobs.Put once the bytes are known,
-- blobs.Open, blobs.Delete) and on the bus.
pub data Program (A : Type 0) : Type 0 where
  returns : A → Program A
  fails : Failure → Program A
  gets : Bytes → (Result (Bytes × ℕ) → Program A) → Program A
  puts : Bytes → Bytes → ℕ → (Result ℕ → Program A) → Program A
  deletes : Bytes → ℕ → (Result (Unit {0}) → Program A) → Program A
  lists : Bytes → ℕ → Bytes → (Result (List Kv × Bytes) → Program A) → Program A
  reads_clock : (ℕ → Program A) → Program A
  stores_content : Bytes → Program A → Program A
  opens_content : Bytes → (Bool → Program A) → Program A
  drops_content : Bytes → (Bool → Program A) → Program A
  tells : Bytes → Object → Program A → Program A

-- A program, and then what its failure or its value asks for.
unfoldable pub on_result :
    {A B : Type 0} → Program A → (Failure → Program B) → (A → Program B) → Program B
on_result (returns a) h f = f a
on_result (fails e) h f = h e
on_result (gets k c) h f = gets k (λ r. on_result (c r) h f)
on_result (puts k b n c) h f = puts k b n (λ r. on_result (c r) h f)
on_result (deletes k n c) h f = deletes k n (λ r. on_result (c r) h f)
on_result (lists p n t c) h f = lists p n t (λ r. on_result (c r) h f)
on_result (reads_clock c) h f = reads_clock (λ t. on_result (c t) h f)
on_result (stores_content b c) h f = stores_content b (on_result c h f)
on_result (opens_content b c) h f = opens_content b (λ r. on_result (c r) h f)
on_result (drops_content b c) h f = drops_content b (λ r. on_result (c r) h f)
on_result (tells k o c) h f = tells k o (on_result c h f)

infixl 1 ◌>>=◌ ◌>>◌
abbrev pub ◌>>=◌ : {A B : Type 0} → Program A → (A → Program B) → Program B
m >>= f = on_result m fails f

abbrev pub ◌>>◌ : {B : Type 0} → Program (Unit {0}) → Program B → Program B
m >> k = m >>= λ _. k

-- What the calls act on: the store, the instant, the files that are there and those that cannot be
-- removed, and what the bus was told.
pub record World : Type 0 where
  pub kv : Memory
  pub now : ℕ
  pub contents : Bytes → Bool
  pub is_stuck : Bytes → Bool
  pub told : List Event

pub data Ended (A : Type 0) : Type 0 where
  returned : A → Ended A
  failed : Failure → Ended A

-- What other clients do before each call, one after another; none once the list is over.
abbrev pub Others : Type 0
Others = List (World → World)

abbrev pub before_call : Others → World → World
before_call [] w = w
before_call (f ∷ fs) w = f w

abbrev pub later : Others → Others
later [] = []
later (f ∷ fs) = fs

abbrev pub set_content : Bytes → Bool → World → World
set_content b there w = record w { contents = λ c. if str_eq b c then there else w.contents c }

abbrev pub told_of : Bytes → Object → World → World
told_of k o w = record w { told = w.told ++ record { kind = k; object = o; time = w.now } ∷ [] }

-- How the run of a program ends, the world that it leaves, and who is still to act.
unfoldable pub run : {A : Type 0} → Program A → Others → World → Ended A × World × Others
run (returns a) env w = (returned a, w, env)
run (fails e) env w = (failed e, w, env)
run (gets k c) env w = let u = before_call env w in run (c (Store.get none k u.kv)) (later env) u
run (puts k b n c) env w =
    let u = before_call env w in
    let (r, kv) = Store.put none k b n u.kv in run (c r) (later env) (record u { kv = kv })
run (deletes k n c) env w =
    let u = before_call env w in
    let (r, kv) = Store.delete none k n u.kv in run (c r) (later env) (record u { kv = kv })
run (lists p n t c) env w =
    let u = before_call env w in run (c (Store.list none p n t u.kv)) (later env) u
run (reads_clock c) env w = let u = before_call env w in run (c u.now) (later env) u
run (stores_content b c) env w =
    let u = before_call env w in run c (later env) (set_content b true u)
run (opens_content b c) env w = let u = before_call env w in run (c (u.contents b)) (later env) u
run (drops_content b c) env w =
    let u = before_call env w in
    run (c (not (u.is_stuck b))) (later env) (if u.is_stuck b then u else set_content b false u)
run (tells k o c) env w = let u = before_call env w in run c (later env) (told_of k o u)

-- A run goes on where it has ended.
abbrev pub go_on :
    {A B : Type 0}
    → (Failure → Program B)
    → (A → Program B)
    → Ended A × World × Others
    → Ended B × World × Others
go_on h f (returned a, w, env) = run (f a) env w
go_on h f (failed e, w, env) = run (h e) env w

-- The run of a program with what follows it is the run of what follows, from where it has ended.
pub run-on_result :
    {A B : Type 0} (m : Program A) (h : Failure → Program B) (f : A → Program B) (env : Others)
    (w : World)
    → run (on_result m h f) env w ≡ go_on h f (run m env w)
unfolding on_result run
run-on_result (returns a) h f env w = refl
run-on_result (fails e) h f env w = refl
run-on_result (gets k c) h f env w =
    run-on_result (c (Store.get none k (before_call env w).kv)) h f (later env) (before_call env w)
run-on_result (puts k b n c) h f env w =
    let u = before_call env w in
    let (r, kv) = Store.put none k b n u.kv in
    run-on_result (c r) h f (later env) (record u { kv = kv })
run-on_result (deletes k n c) h f env w =
    let u = before_call env w in
    let (r, kv) = Store.delete none k n u.kv in
    run-on_result (c r) h f (later env) (record u { kv = kv })
run-on_result (lists p n t c) h f env w =
    run-on_result (c (Store.list none p n t (before_call env w).kv)) h f (later env)
      (before_call env w)
run-on_result (reads_clock c) h f env w =
    run-on_result (c (before_call env w).now) h f (later env) (before_call env w)
run-on_result (stores_content b c) h f env w =
    run-on_result c h f (later env) (set_content b true (before_call env w))
run-on_result (opens_content b c) h f env w =
    run-on_result (c ((before_call env w).contents b)) h f (later env) (before_call env w)
run-on_result (drops_content b c) h f env w =
    let u = before_call env w in
    run-on_result (c (not (u.is_stuck b))) h f (later env)
      (if u.is_stuck b then u else set_content b false u)
run-on_result (tells k o c) h f env w =
    run-on_result c h f (later env) (told_of k o (before_call env w))
