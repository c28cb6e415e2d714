-- ===== src/Storage/Lookup.antt =====
-- Reading an object that is there: the requests of services/storage/object.go, run from what the
-- store holds.
use cloudrig.Prelude.{
  ℕ, ◌+◌, ◌^◌, ◌<◌, ◌≡◌, ◌≢◌, refl, sym, ap, ◌∙◌, arith, Option, none, some, true, false, [], ◌==◌,
  All,
}
use cloudrig.Prelude.Bytes.{Bytes}
use cloudrig.Preconditions.{
  check_preconditions, check_generation, check_generation_not, check_metageneration,
  check_metageneration_not,
}
use cloudrig.Resource
use cloudrig.Store.{Result, ok, err, not_found, Entry, next_version, version_of, get, found}
use cloudrig.Storage.{Failure, Codec, Object, Live}
use cloudrig.Storage.Program.{
  Program, returns, fails, gets, World, Ended, run, on_result, run-on_result, go_on, stores_content,
  set_content,
}
use cloudrig.Storage.Buckets.{or_internal}
use cloudrig.Storage.Publishing.{
  check, read_live, live_read, read_generation, read_generation_version,
}
use cloudrig.Storage.Objects.{resolve_live, get_object, get_object_if, chosen}
use cloudrig.Storage.Runs.{Ends, Gives}
use cloudrig.Storage.Inverting.{Decodes}
use cloudrig.Storage.Reads.{Reads, run-Reads}
use cloudrig.Storage.Filing.{IsCurrent}

-- An object whose texts are ASCII and whose metadata, if there is any, is not the empty map. An
-- empty map is left out of the text (`omitempty`), and is read back as no map; in a text that is
-- not UTF-8 other bytes are read back.
pub record IsPlain (o : Object) : Type 0 where
  pub bucket : All (λ c. c < 128) o.bucket
  pub name : All (λ c. c < 128) o.name
  pub content_type : All (λ c. c < 128) o.content_type
  pub crc : All (λ c. c < 128) o.crc
  pub md5 : All (λ c. c < 128) o.md5
  pub etag : All (λ c. c < 128) o.etag
  pub blob : All (λ c. c < 128) o.blob
  pub metadata_text : (m : Bytes) → o.metadata ≡ some m → All (λ c. c < 128) m
  pub not_empty : o.metadata ≢ some []

-- What is encoded is read back, a plain object and any pointer.
pub record ReadsBack (codec : Codec) : Type 0 where
  pub objects :
      (o : Object) (raw : Bytes)
      → IsPlain o
      → codec.encode_object o ≡ some raw
      → codec.decode_object raw ≡ some o
  pub lives :
      (l : Live) (raw : Bytes) → codec.encode_live l ≡ some raw → codec.decode_live raw ≡ some l

pub goes_on :
    {A B : Type 0} {z : Ended B} (a : A) (w u w' : World) (m : Program A) (h : Failure → Program B)
    (f : A → Program B)
    → Gives m w a u
    → Ends (f a) u z w'
    → Ends (on_result m h f) w z w'
goes_on a w u w' m h f g k = run-on_result m h f [] w ∙ ap (go_on h f) g ∙ k

pub finds :
    {A : Type 0} {z : Ended A} (k : Bytes) (e : Entry) (c : Result (Bytes × ℕ) → Program A)
    (w w' : World)
    → w.kv.m k ≡ some e
    → Ends (c (ok (e.val, e.version))) w z w'
    → Ends (gets k c) w z w'
unfolding run get found
finds k e c w w' there g = ap (λ x. run (c (found x)) [] w) there ∙ g

pub next_positive : (e : Option Entry) → version_of e + 1 < 2 ^ 64 → next_version e ≢ 0
next_positive e h = omega arith

pub misses :
    {A : Type 0} {z : Ended A} (k : Bytes) (c : Result (Bytes × ℕ) → Program A) (w w' : World)
    → w.kv.m k ≡ none
    → Ends (c (err not_found)) w z w'
    → Ends (gets k c) w z w'
unfolding run get found
misses k c w w' absent g = ap (λ x. run (c (found x)) [] w) absent ∙ g

zero_not : (v : ℕ) → v ≢ 0 → v == 0 ≡ false
zero_not v h = ground arith

pub given :
    {A : Type 0} (m : Program A) (a o : A) (w u w' : World)
    → Gives m w a u
    → Gives (returns a) u o w'
    → Gives m w o w'
unfolding run
given m a o w u w' d k = d ∙ k

-- A program that reads only leaves the world as it is.
pub run_unchanged :
    {A : Type 0} (m : Program A) (a : A) (w w' : World) → Reads m → Gives m w a w' → w ≡ w'
run_unchanged m a w w' l g = sym (run-Reads m w l) ∙ ap (λ r. r.1) g

pub stores_content_gives :
    {A : Type 0} (sha : Bytes) (m : Program A) (a : A) (w w' : World)
    → Gives (stores_content sha m) w a w'
    → Gives m (set_content sha true w) a w'
unfolding run
stores_content_gives sha m a w w' g = g

decodes : {A : Type 0} {r : Option A} {a : A} {w : World} → r ≡ some a → Gives (or_internal r) w a w
unfolding run
decodes e = rw e refl

returned_at :
    {o : Object} {v n : ℕ} {w : World} → n ≡ v → Gives {A = Object × ℕ} (returns (o, n)) w (o, v) w
unfolding run
returned_at e = rw e refl

module _ (codec : Codec) where
  read_live-some :
      (p b n : Bytes) (l : Live) (v : ℕ) (w : World)
      → Decodes codec.decode_live (Resource.live p b n) l v w
      → Gives (read_live codec p b n) w (l, v) w
  unfolding read_live run
  read_live-some p b n l v w (e, there, d, r) =
      finds (Resource.live p b n) e (live_read codec) w w there (
        goes_on l w w w (or_internal (codec.decode_live e.val)) fails (λ l. returns (l, e.version))
          (rw d refl) (rw r refl))

  read_generation_version-some :
      (p b n : Bytes) (g : ℕ) (o : Object) (v : ℕ) (w : World)
      → Decodes codec.decode_object (Resource.object p b n g) o v w
      → Gives (read_generation_version codec p b n g) w (o, v) w
  unfolding read_generation_version on_result
  read_generation_version-some p b n g o v w (e, there, d, r) =
      finds (Resource.object p b n g) e _ w w there (
        goes_on o w w w (or_internal (codec.decode_object e.val)) fails
          (λ o. returns (o, e.version)) (decodes d) (returned_at r))

  read_generation-some :
      (p b n : Bytes) (g : ℕ) (o : Object) (v : ℕ) (w : World)
      → Decodes codec.decode_object (Resource.object p b n g) o v w
      → Gives (read_generation codec p b n g) w o w
  unfolding read_generation run
  read_generation-some p b n g o v w d =
      goes_on (o, v) w w w (read_generation_version codec p b n g) fails (λ r. returns r.0)
        (read_generation_version-some p b n g o v w d) refl

  -- An object is found by its generation.
  pub get_object-Decodes :
      (p b n : Bytes) (g : ℕ) (o : Object) (v : ℕ) (w : World)
      → Decodes codec.decode_object (Resource.object p b n g) o v w
      → Gives (get_object codec p b n (some g)) w o w
  unfolding get_object get_object_if check check_preconditions check_generation check_generation_not
      check_metageneration check_metageneration_not run on_result
  get_object-Decodes p b n g o v w d =
      goes_on o w w w (read_generation codec p b n g) _ _ (read_generation-some p b n g o v w d)
        refl

  -- An object that is current is what its name gives.
  pub get_object-IsCurrent :
      (p : Bytes) (o : Object) (v : ℕ) (w : World)
      → ReadsBack codec
      → IsPlain o
      → v ≢ 0
      → IsCurrent codec p o v w
      → Gives (get_object codec p o.bucket o.name none) w o w
  unfolding get_object get_object_if resolve_live check check_preconditions check_generation
      check_generation_not check_metageneration check_metageneration_not run on_result
  get_object-IsCurrent p o v w reads plain pos ((raw, u, enc, there), (raw', enc', there')) =
      let l : Live = record { generation = o.generation; highest = o.generation } in
      let pointer =
        read_live-some p o.bucket o.name l v w
          (record { val = raw'; version = v }, there', reads.lives l raw' enc', refl) in
      let entry =
        read_generation-some p o.bucket o.name o.generation o u w
          (record { val = raw; version = u }, there, reads.objects o raw plain enc, refl) in
      let resolved : Gives (resolve_live codec p o.bucket o.name 8) w (some o, v) w =
        goes_on (l, v) w w w (read_live codec p o.bucket o.name) fails _ pointer
          (rw (zero_not v pos) (
            goes_on o w w w (read_generation codec p o.bucket o.name o.generation) _ _ entry
              refl)) in
      goes_on o w w w (chosen codec p o.bucket o.name none) _ _
        (goes_on (some o, v) w w w (resolve_live codec p o.bucket o.name 8) fails _ resolved refl)
        refl
