-- ===== src/Storage/NameClaims.antt =====
-- The claims on bucket names of services/storage/bucket.go, among other clients.
use cloudrig.Prelude.{ℕ, ◌≡◌, refl, ap, ◌∙◌, arith, none, some, false, [], ◌∷◌}
use cloudrig.Prelude.Bytes.{Bytes, str_eq}
use cloudrig.Resource.{bucket_index, bucket_key, bucket_below}
use cloudrig.Store.{Result, ok, err, Entry, Memory, version_mismatch}
use cloudrig.Store
use cloudrig.Storage.{Bucket, name_taken}
use cloudrig.Storage.Program.{
  Program, puts, World, returned, failed, Others, before_call, later, run, on_result, ◌>>=◌,
}
use cloudrig.Storage.Buckets.{written_or, stored_or_released}
use cloudrig.Storage.Runs.{m-put_other}

-- The name belongs to the project.
abbrev pub IsClaimed : Bytes → Bytes → World → Type 0
IsClaimed name project w = (e : Entry) × (w.kv.m (bucket_index name) ≡ some e) × (e.val ≡ project)

-- Nobody gives up the claim on the name.
abbrev pub KeepsClaim : Bytes → Others → Type 0
KeepsClaim name [] = Unit
KeepsClaim name (f ∷ fs) =
    ((w : World) (project : Bytes) → IsClaimed name project w → IsClaimed name project (f w))
    × KeepsClaim name fs

pub before_call-IsClaimed :
    (n p : Bytes) (env : Others) (w : World)
    → KeepsClaim n env
    → IsClaimed n p w
    → IsClaimed n p (before_call env w)
before_call-IsClaimed n p [] w k c = c
before_call-IsClaimed n p (f ∷ fs) w k c = k.0 w p c

pub later-KeepsClaim : (n : Bytes) (env : Others) → KeepsClaim n env → KeepsClaim n (later env)
later-KeepsClaim n [] k = tt
later-KeepsClaim n (f ∷ fs) k = k.1

put_taken :
    (k b : Bytes) (e : Entry) (s : Memory)
    → s.m k ≡ some e
    → Store.put none k b 0 s ≡ (err version_mismatch, s)
unfolding Store.put
put_taken k b e s h = ground arith

-- A claim on a name that is taken fails.
pub claim_taken :
    (n p b : Bytes) (rest : Program Bucket) (env : Others) (w : World)
    → KeepsClaim n env
    → IsClaimed n p w
    → (run (puts (bucket_index n) b 0 (λ r. written_or name_taken r >>= λ _. rest)) env w).0
      ≡ failed name_taken
unfolding run on_result
claim_taken n p b rest env w k c =
    let u = before_call env w in
    let (e, there, _) = before_call-IsClaimed n p env w k c in
    ap
      (λ (x : Result ℕ × Memory).
        (run (written_or name_taken x.0 >>= λ _. rest) (later env) (record u { kv = x.1 })).0)
      (put_taken (bucket_index n) b e u.kv there)

stored-IsClaimed :
    (n p : Bytes) (b y : Bucket) (x : Result ℕ) (env : Others) (w : World)
    → IsClaimed n p w
    → (run (stored_or_released b x) env w).0 ≡ returned y
    → IsClaimed n p (run (stored_or_released b x) env w).1
unfolding run
stored-IsClaimed n p b y (ok v) env w c h = c
stored-IsClaimed n p b y (err e) env w c h = cc

str_eq-bucket_key-bucket_index : (p b n : Bytes) → str_eq (bucket_key p b) (bucket_index n) ≡ false
unfolding bucket_key bucket_below bucket_index str_eq
str_eq-bucket_key-bucket_index p b n = refl

-- The metadata is stored behind the claim, which stands.
put_key-IsClaimed :
    (n p raw : Bytes) (b y : Bucket) (env : Others) (w : World)
    → KeepsClaim n env
    → IsClaimed n p w
    → (run (puts (bucket_key b.project b.name) raw 0 (stored_or_released b)) env w).0 ≡ returned y
    → IsClaimed n p (run (puts (bucket_key b.project b.name) raw 0 (stored_or_released b)) env w).1
unfolding run
put_key-IsClaimed n p raw b y env w k c h =
    let u = before_call env w in
    let key = bucket_key b.project b.name in
    let (e, there, owned) = before_call-IsClaimed n p env w k c in
    let r = Store.put none key raw 0 u.kv in
    stored-IsClaimed n p b y r.0 (later env) (record u { kv = r.1 })
      (
        e,
        m-put_other key (bucket_index n) raw 0 u.kv
              (str_eq-bucket_key-bucket_index b.project b.name n)
            ∙ there,
        owned,
      )
      h

-- A claim that is followed by a success has been made.
pub claim-IsClaimed :
    (raw : Bytes) (b y : Bucket) (x : Result ℕ) (env : Others) (w : World)
    → KeepsClaim b.name env
    → ((v : ℕ) → x ≡ ok v → IsClaimed b.name b.project w)
    → (run
        (written_or name_taken x >>= λ _.
          puts (bucket_key b.project b.name) raw 0 (stored_or_released b))
        env
        w).0
      ≡ returned y
    → IsClaimed b.name b.project
        (run
          (written_or name_taken x >>= λ _.
            puts (bucket_key b.project b.name) raw 0 (stored_or_released b))
          env
          w).1
unfolding run on_result
claim-IsClaimed raw b y (ok v) env w k c h =
    put_key-IsClaimed b.name b.project raw b y env w k (c v refl) h
claim-IsClaimed raw b y (err e) env w k c h = cc
