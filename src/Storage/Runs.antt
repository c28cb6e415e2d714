-- ===== src/Storage/Runs.antt =====
-- Runs of the programs of services/storage: what a success says of the parts, and which keys a
-- program leaves alone.
use cloudrig.Prelude.{
  ℕ, ◌≡◌, refl, sym, ap, ◌∙◌, arith, Bool, Bool-cases, inl, inr, ◌⊎◌, true, false, not, none, List,
  [], if◌then◌else◌,
}
use cloudrig.Prelude.Bytes.{Bytes, str_eq}
use cloudrig.Store.{Memory, Result, Kv}
use cloudrig.Store
use cloudrig.Storage.{Failure}
use cloudrig.Storage.Program.{
  Program, returns, fails, gets, puts, deletes, lists, reads_clock, stores_content, opens_content,
  drops_content, tells, on_result, ◌>>=◌, World, Ended, returned, failed, Others, run, go_on,
  run-on_result, set_content, told_of,
}

-- How a run alone ends: in any way, with a value, and with a failure.
abbrev pub Ends : {A : Type 0} → Program A → World → Ended A → World → Type 0
Ends m w z w' = run m [] w ≡ (z, w', [])

abbrev pub Gives : {A : Type 0} → Program A → World → A → World → Type 0
Gives m w a w' = Ends m w (returned a) w'

abbrev pub Breaks : {A : Type 0} → Program A → World → Failure → World → Type 0
Breaks m w x w' = Ends m w (failed x) w'

go_on_ends :
    {A B : Type 0} {z : Ended B} {w' : World} {env : Others} (r : Ended A × World × Others)
    (h : Failure → Program B) (f : A → Program B)
    → go_on h f r ≡ (z, w', env)
    → ((a : A) × (u : World) × (e : Others) × (r ≡ (returned a, u, e))
        × (run (f a) e u ≡ (z, w', env)))
      ⊎ ((x : Failure) × (u : World) × (e : Others) × (r ≡ (failed x, u, e))
          × (run (h x) e u ≡ (z, w', env)))
go_on_ends (returned a, u, e) h f g = inl (a, u, e, refl, g)
go_on_ends (failed x, u, e) h f g = inr (x, u, e, refl, g)

-- A run alone leaves nobody to act.
run_alone : {A : Type 0} (m : Program A) (w : World) → (run m [] w).2 ≡ []
unfolding run
run_alone (returns a) w = refl
run_alone (fails e) w = refl
run_alone (gets k c) w = run_alone (c (Store.get none k w.kv)) w
run_alone (puts k b n c) w =
    let (r, kv) = Store.put none k b n w.kv in run_alone (c r) (record w { kv = kv })
run_alone (deletes k n c) w =
    let (r, kv) = Store.delete none k n w.kv in run_alone (c r) (record w { kv = kv })
run_alone (lists p n t c) w = run_alone (c (Store.list none p n t w.kv)) w
run_alone (reads_clock c) w = run_alone (c w.now) w
run_alone (stores_content b c) w = run_alone c (set_content b true w)
run_alone (opens_content b c) w = run_alone (c (w.contents b)) w
run_alone (drops_content b c) w =
    run_alone (c (not (w.is_stuck b))) (if w.is_stuck b then w else set_content b false w)
run_alone (tells k o c) w = run_alone c (told_of k o w)

-- The value of a run alone with the world that it leaves.
pub Gives_run :
    {A : Type 0} (m : Program A) (w : World) (a : A)
    → (run m [] w).0 ≡ returned a
    → Gives m w a (run m [] w).1
Gives_run m w a h =
    ap (λ z. (z, (run m [] w).1, (run m [] w).2)) h
    ∙ ap (λ e. (returned a, (run m [] w).1, e)) (run_alone m w)

-- A program with what follows it ends as what follows its value does, or what follows its failure.
pub on_result-Ends :
    {A B : Type 0} {z : Ended B} (w w' : World) (m : Program A) (h : Failure → Program B)
    (f : A → Program B)
    → Ends (on_result m h f) w z w'
    → ((a : A) × (u : World) × Gives m w a u × Ends (f a) u z w')
      ⊎ ((x : Failure) × (u : World) × Breaks m w x u × Ends (h x) u z w')
on_result-Ends w w' m h f g =
    elim (go_on_ends (run m [] w) h f (sym (run-on_result m h f [] w) ∙ g)) [
      | inl (a, u, e, r, k) ↦
          let over : e ≡ [] = sym (ap (λ x. x.2) r) ∙ run_alone m w in
          inl (a, u, r ∙ ap (λ x. (returned a, u, x)) over, ap (λ x. run (f a) x u) (sym over) ∙ k)
      | inr (x, u, e, r, k) ↦
          let over : e ≡ [] = sym (ap (λ x. x.2) r) ∙ run_alone m w in
          inr (x, u, r ∙ ap (λ y. (failed x, u, y)) over, ap (λ y. run (h x) y u) (sym over) ∙ k)
    ]

pub fails_gives :
    {B : Type 0} {b : B} (w w' : World) (x : Failure) → Gives {A = B} (fails x) w b w' → ⊥
unfolding run
fails_gives w w' x g = cc

-- Both parts of a program that gives a value give one.
pub bind_gives :
    {A B : Type 0} {b : B} (w w' : World) (m : Program A) (f : A → Program B)
    → Gives (m >>= f) w b w'
    → (a : A) × (u : World) × Gives m w a u × Gives (f a) u b w'
bind_gives w w' m f g = elim (on_result-Ends w w' m fails f g) [
  | inl r ↦ r
  | inr (x, u, _, k) ↦ absurd (fails_gives u w' x k)
]

-- A program that fails fails in one of its parts.
pub bind-Breaks :
    {A B : Type 0} (y : Failure) (w w' : World) (m : Program A) (f : A → Program B)
    → Breaks (m >>= f) w y w'
    → Breaks m w y w' ⊎ ((a : A) × (u : World) × Gives m w a u × Breaks (f a) u y w')
unfolding run
bind-Breaks y w w' m f g = elim (on_result-Ends w w' m fails f g) [
  | inl r ↦ inr r
  | inr (x, u, b, k) ↦
      let same : x ≡ y = cc in
      let world : u ≡ w' = cc in
      inl (b ∙ ap (λ x. (failed x, u, [])) same ∙ ap (λ v. (failed y, v, [])) world)
]

-- The program writes and deletes other keys only.
abbrev pub Leaves : {A : Type 0} → Bytes → Program A → Type 0
Leaves j (returns a) = Unit
Leaves j (fails e) = Unit
Leaves j (gets k c) = (r : Result (Bytes × ℕ)) → Leaves j (c r)
Leaves j (puts k b n c) = (str_eq k j ≡ false) × ((r : Result ℕ) → Leaves j (c r))
Leaves j (deletes k n c) = (str_eq k j ≡ false) × ((r : Result (Unit {0})) → Leaves j (c r))
Leaves j (lists p n t c) = (r : Result (List Kv × Bytes)) → Leaves j (c r)
Leaves j (reads_clock c) = (t : ℕ) → Leaves j (c t)
Leaves j (stores_content b c) = Leaves j c
Leaves j (opens_content b c) = (r : Bool) → Leaves j (c r)
Leaves j (drops_content b c) = (r : Bool) → Leaves j (c r)
Leaves j (tells k o c) = Leaves j c

pub m-put_other :
    (k j b : Bytes) (n : ℕ) (s : Memory)
    → str_eq k j ≡ false
    → (Store.put none k b n s).1.m j ≡ s.m j
unfolding Store.put Store.write
m-put_other k j b n s h = ground arith

pub m-delete_other :
    (k j : Bytes) (n : ℕ) (s : Memory)
    → str_eq k j ≡ false
    → (Store.delete none k n s).1.m j ≡ s.m j
unfolding Store.delete
m-delete_other k j n s h = ground arith

kv-dropped : (b : Bytes) (w : World) → (if w.is_stuck b then w else set_content b false w).kv ≡ w.kv
kv-dropped b w = elim (Bool-cases (w.is_stuck b)) [ inl c ↦ rw c refl | inr c ↦ rw c refl ]

-- The run alone of a program keeps the entries that it leaves.
pub run-Leaves :
    {A : Type 0} (j : Bytes) (m : Program A) (w : World)
    → Leaves j m
    → (run m [] w).1.kv.m j ≡ w.kv.m j
unfolding run
run-Leaves j (returns a) w l = refl
run-Leaves j (fails e) w l = refl
run-Leaves j (gets k c) w l = run-Leaves j (c (Store.get none k w.kv)) w (l _)
run-Leaves j (puts k b n c) w (ne, l) =
    let (r, kv) = Store.put none k b n w.kv in
    run-Leaves j (c r) (record w { kv = kv }) (l r) ∙ m-put_other k j b n w.kv ne
run-Leaves j (deletes k n c) w (ne, l) =
    let (r, kv) = Store.delete none k n w.kv in
    run-Leaves j (c r) (record w { kv = kv }) (l r) ∙ m-delete_other k j n w.kv ne
run-Leaves j (lists p n t c) w l = run-Leaves j (c (Store.list none p n t w.kv)) w (l _)
run-Leaves j (reads_clock c) w l = run-Leaves j (c w.now) w (l w.now)
run-Leaves j (stores_content b c) w l = run-Leaves j c (set_content b true w) l
run-Leaves j (opens_content b c) w l = run-Leaves j (c (w.contents b)) w (l _)
run-Leaves j (drops_content b c) w l =
    run-Leaves j (c (not (w.is_stuck b))) (if w.is_stuck b then w else set_content b false w) (l _)
    ∙ ap (λ kv. kv.m j) (kv-dropped b w)
run-Leaves j (tells k o c) w l = run-Leaves j c (told_of k o w) l

pub on_result-Leaves :
    {A B : Type 0} (j : Bytes) (m : Program A) (h : Failure → Program B) (f : A → Program B)
    → Leaves j m
    → ((x : Failure) → Leaves j (h x))
    → ((a : A) → Leaves j (f a))
    → Leaves j (on_result m h f)
unfolding on_result
on_result-Leaves j (returns a) h f l lh lf = lf a
on_result-Leaves j (fails e) h f l lh lf = lh e
on_result-Leaves j (gets k c) h f l lh lf = λ r. on_result-Leaves j (c r) h f (l r) lh lf
on_result-Leaves j (puts k b n c) h f (ne, l) lh lf =
    (ne, λ r. on_result-Leaves j (c r) h f (l r) lh lf)
on_result-Leaves j (deletes k n c) h f (ne, l) lh lf =
    (ne, λ r. on_result-Leaves j (c r) h f (l r) lh lf)
on_result-Leaves j (lists p n t c) h f l lh lf = λ r. on_result-Leaves j (c r) h f (l r) lh lf
on_result-Leaves j (reads_clock c) h f l lh lf = λ t. on_result-Leaves j (c t) h f (l t) lh lf
on_result-Leaves j (stores_content b c) h f l lh lf = on_result-Leaves j c h f l lh lf
on_result-Leaves j (opens_content b c) h f l lh lf = λ r. on_result-Leaves j (c r) h f (l r) lh lf
on_result-Leaves j (drops_content b c) h f l lh lf = λ r. on_result-Leaves j (c r) h f (l r) lh lf
on_result-Leaves j (tells k o c) h f l lh lf = on_result-Leaves j c h f l lh lf
