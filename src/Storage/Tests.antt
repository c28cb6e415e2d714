-- ===== src/Storage/Tests.antt =====
-- Instances of the theorems on services/storage, and a write that another client's call falls into.
use cloudrig.Prelude.{ℕ, ◌≡◌, refl, sym, ◌∙◌, arith, true, false, Option, none, some, [], ◌∷◌}
use cloudrig.Prelude.Int.{pos, ◌+ℤ◌}
use cloudrig.Prelude.Bytes.{Bytes, codes, str_eq}
use cloudrig.Store.{new_memory}
use cloudrig.Store
use cloudrig.Resource.{bucket_key, live}
use cloudrig.Prelude.Decimal.{padded, format_int, format_digits, parse_int, digits_value, scan}
use cloudrig.Preconditions.{
  passed, is_set, check_preconditions, check_generation, check_generation_not, check_metageneration,
  check_metageneration_not,
}
use cloudrig.Resource
use cloudrig.Storage.{not_found_error, etag_of, or_default, Object, Live, Bucket, BlobRef}
use cloudrig.Storage.Program.{Others, on_result, World, returned, run}
use cloudrig.Storage.Buckets.{read_bucket}
use cloudrig.Storage.Publishing.{
  remove_content, versions_of, read_generation, read_generation_version, publish_ref,
  publish_attempts, publish, read_live, read_existing, check, claim_generation, put_generation,
  next_generation, retain_blob, adjust_refs, count_of, move_live, cas_live, drop_generation,
  release_blob, Write, described, at_generation, write_object,
}
use cloudrig.Storage.Objects.{
  resolve_live, empty_object, no_conditions, get_object, delete_object, get_object_if,
}
use cloudrig.Storage.Runs.{Gives_run, Gives, Ends, Breaks}
use cloudrig.Storage.ReadingBack.{write_then_get}
use cloudrig.Storage.Inverting.{Decodes}
use cloudrig.Storage.Absent.{get_absent}
use cloudrig.Storage.Deleting.{delete_then_get}
use cloudrig.Storage.Soundness.{IsSound, write_object-IsSound}
use cloudrig.Storage.Filing.{Published}
use cloudrig.Storage.Lookup.{IsPlain}
use cloudrig.Storage.Encoding.{
  field, push, fields, metadata_code, metadata_of, encode_object, object_of, encode_live, live_of,
  codec, codec-ReadsBack,
}

abbrev empty_world : World
empty_world = record {
  kv = (Store.put none (bucket_key (codes "pr") (codes "bk")) [] 0 new_memory).1;
  now = 5000000;
  contents = λ b. false;
  is_stuck = λ b. false;
  told = [];
}

abbrev request : Write
request = record {
  bucket = codes "bk";
  name = codes "n";
  content_type = [];
  metadata = none;
  preconditions = no_conditions;
}

abbrev content : BlobRef
content = record { sha = codes "s"; size = 3; crc = codes "c"; md5 = codes "m" }

abbrev written_object : Object
written_object = at_generation (described request content 5000000) 5000

abbrev written_world : World
written_world = (run (write_object codec (codes "pr") request (some content)) [] empty_world).1

no_pointer : empty_world.kv.m (live (codes "pr") (codes "bk") (codes "n")) ≡ none
unfolding Store.put Store.write new_memory bucket_key live Resource.bucket_below str_eq
no_pointer = refl

no_metadata : {m : Bytes} → ◌≡◌ {A = Option Bytes} none (some m) → ⊥
no_metadata h = cc

none_differs : {e : Store.Entry} → ◌≡◌ {A = Option Store.Entry} none (some e) → ⊥
none_differs h = cc

empty_world-IsSound : IsSound codec (codes "pr") (codes "bk") (codes "n") empty_world
empty_world-IsSound = (
  λ l v o u (e, at, d, r) stored. absurd (none_differs (sym no_pointer ∙ at)),
  λ e at z. none_differs (sym no_pointer ∙ at),
)

write_object_succeeds :
    (run (write_object codec (codes "pr") request (some content)) [] empty_world).0
    ≡ returned written_object
unfolding write_object read_bucket publish_ref publish_attempts publish read_live read_existing
    check check_preconditions check_generation check_generation_not check_metageneration
    check_metageneration_not claim_generation put_generation next_generation retain_blob adjust_refs
    count_of move_live cas_live drop_generation release_blob on_result run Store.put Store.write
    Store.get Store.found new_memory bucket_key live Resource.object Resource.bucket_below
    Resource.blob_refs str_eq padded format_int format_digits etag_of or_default live_of ◌+ℤ◌
write_object_succeeds = refl

written :
    Gives
      (write_object codec (codes "pr") request (some content))
      empty_world
      written_object
      written_world
written =
    Gives_run (write_object codec (codes "pr") request (some content)) empty_world written_object
      write_object_succeeds

written_object-IsPlain : IsPlain written_object
unfolding etag_of format_int format_digits or_default ◌+ℤ◌
written_object-IsPlain = record {
  bucket = (omega arith, (omega arith, tt));
  name = (omega arith, tt);
  content_type = ground arith;
  crc = (omega arith, tt);
  md5 = (omega arith, tt);
  etag = ground arith;
  blob = (omega arith, tt);
  metadata_text = λ m h. absurd (no_metadata h);
  not_empty = no_metadata;
}

write_then_get_example :
    Gives
      (get_object codec (codes "pr") (codes "bk") (codes "n") none)
      written_world
      written_object
      written_world
    × ((ref : BlobRef) × (some content ≡ some ref)
        × Published codec (codes "pr") request ref empty_world written_object written_world)
write_then_get_example =
    write_then_get codec (codes "pr") request (some content) written_object empty_world
      written_world codec-ReadsBack written_object-IsPlain empty_world-IsSound.0
      empty_world-IsSound.1 (rw no_pointer (omega arith)) written

delete_object_succeeds :
    (run
      (delete_object codec (codes "pr") (codes "bk") (codes "n") no_conditions)
      []
      written_world).0
    ≡ returned tt
unfolding write_object read_bucket publish_ref publish_attempts publish read_live read_existing
    check check_preconditions check_generation check_generation_not check_metageneration
    check_metageneration_not claim_generation put_generation next_generation retain_blob adjust_refs
    count_of move_live cas_live drop_generation release_blob on_result run Store.put Store.write
    Store.get Store.found new_memory bucket_key live Resource.object Resource.bucket_below
    Resource.blob_refs str_eq padded format_int format_digits etag_of or_default live_of ◌+ℤ◌
    delete_object resolve_live read_generation read_generation_version Store.delete encode_object
    object_of fields field push metadata_of metadata_code encode_live
delete_object_succeeds = refl

-- Absent, the object is read as the empty one under a condition that holds of nothing.
get_absent_example :
    Ends
      (get_object_if codec
        (codes "pr")
        (codes "bk")
        (codes "n")
        none
        (record no_conditions { if_generation_not_match = some (pos 7) }))
      empty_world
      (returned empty_object)
      empty_world
unfolding is_set check_preconditions check_generation check_generation_not check_metageneration
    check_metageneration_not
get_absent_example =
    get_absent codec (codes "pr") (codes "bk") (codes "n")
      (record no_conditions { if_generation_not_match = some (pos 7) }) empty_world no_pointer

abbrev deleted_world : World
deleted_world =
    (run (delete_object codec (codes "pr") (codes "bk") (codes "n") no_conditions) []
      written_world).1

delete_then_get_example :
    Breaks
      (get_object codec (codes "pr") (codes "bk") (codes "n") none)
      deleted_world
      not_found_error
      deleted_world
    × ((o : Object) × (v : ℕ) × Decodes codec.decode_object
          (Resource.object (codes "pr") (codes "bk") (codes "n") o.generation)
          o
          v
          written_world
        × ((l : Live) × (r : ℕ) × Decodes codec.decode_live
              (live (codes "pr") (codes "bk") (codes "n"))
              l
              r
              written_world
            × (o.generation ≡ l.generation))
        × (check_preconditions no_conditions (versions_of (some o)) false ≡ passed)
        × ((bucket : Bucket) × (u : ℕ) × Decodes codec.decode_bucket
              (bucket_key (codes "pr") (codes "bk"))
              bucket
              u
              written_world
            × (bucket.versioning ≡ true
                → Gives
                    (get_object codec (codes "pr") (codes "bk") (codes "n") (some o.generation))
                    deleted_world
                    o
                    deleted_world)))
delete_then_get_example =
    delete_then_get codec (codes "pr") (codes "bk") (codes "n") no_conditions written_world
      deleted_world
      (write_object-IsSound codec (codes "pr") request (some content) written_object empty_world
        written_world codec-ReadsBack written_object-IsPlain empty_world-IsSound
        (rw no_pointer (omega arith)) written).0
      (Gives_run (delete_object codec (codes "pr") (codes "bk") (codes "n") no_conditions)
        written_world tt delete_object_succeeds)

-- The last reference to the content is given up by another client between the writing of the file
-- and the count of the new reference.
abbrev releasing : Others
releasing = (λ w. w) ∷ (λ w. w) ∷ (λ w. (run (release_blob (codes "s")) [] w).1) ∷ []

abbrev shared_world : World
shared_world = record empty_world {
  kv = (Store.put none (Resource.blob_refs (codes "s")) (codes "1") 0 empty_world.kv).1;
  contents = λ b. str_eq b (codes "s");
}

abbrev raced_world : World
raced_world =
    (run (write_object codec (codes "pr") request (some content)) releasing shared_world).1

-- The write succeeds, and its content is not there.
content_lost :
    ((run (write_object codec (codes "pr") request (some content)) releasing shared_world).0
      ≡ returned written_object)
    × (raced_world.contents (codes "s") ≡ false)
unfolding write_object read_bucket publish_ref publish_attempts publish read_live read_existing
    check check_preconditions check_generation check_generation_not check_metageneration
    check_metageneration_not claim_generation put_generation next_generation retain_blob adjust_refs
    count_of move_live cas_live drop_generation release_blob on_result run Store.put Store.write
    Store.get Store.found new_memory bucket_key live Resource.object Resource.bucket_below
    Resource.blob_refs str_eq padded format_int format_digits etag_of or_default live_of ◌+ℤ◌
    Store.delete remove_content parse_int digits_value scan
content_lost = (refl, refl)
