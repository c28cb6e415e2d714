-- ===== src/Storage/Listing/Tests.antt =====
-- A bucket with two objects under one rollup, listed in pages of one entry.
use cloudrig.Prelude.{arith, select, ◌≡◌, refl, false, none, [], ◌∷◌, search_index}
use cloudrig.Prelude.Bytes.{Bytes, codes, str_eq, str_lt, has_prefix, cut, cut_prefix}
use cloudrig.Base64.{
  encode, decode, encode_char, decode_char, quantum, last_three, last_two, decode_groups,
  is_newline,
}
use cloudrig.Resource.{bucket_key, bucket_below, live, live_prefix, object_name}
use cloudrig.Rpc.{sort_by, insert_by}
use cloudrig.Store.{Memory, new_memory, encode_token}
use cloudrig.Store
use cloudrig.Storage.Program.{World, run, returned, on_result}
use cloudrig.Storage.Buckets.{read_bucket}
use cloudrig.Storage.Encoding.{codec}
use cloudrig.Store.Invariant.{IsValid, put-IsValid, new_memory-IsValid}
use cloudrig.Storage.{race_lost}
use cloudrig.Storage.Runs.{Breaks}
use cloudrig.Storage.Listing.Ending.{list_objects_total}
use cloudrig.Storage.Listing.{
  ListRequest, ListResult, rollup_of, is_seen, scan_entries, scan_pages, list_objects,
}

abbrev two_pointers : Memory
two_pointers =
    let one = (Store.put none (live (codes "p") (codes "b") (codes "a/1")) [] 0 new_memory).1 in
    let two = (Store.put none (live (codes "p") (codes "b") (codes "a/2")) [] 0 one).1 in
    (Store.put none (bucket_key (codes "p") (codes "b")) [] 0 two).1

abbrev world : World
world = record {
  kv = two_pointers;
  now = 0;
  contents = λ b. false;
  is_stuck = λ b. false;
  told = [];
}

abbrev page_from : Bytes → ListRequest
page_from token = record {
  bucket = codes "b";
  prefix = [];
  delimiter = codes "/";
  max_results = 1;
  page_token = token;
}

abbrev rollup_until : Bytes → ListResult
rollup_until name = record {
  objects = [];
  prefixes = codes "a/" ∷ [];
  next_page_token = encode_token (live (codes "p") (codes "b") name);
}

rollup_given :
    (run (list_objects codec 1 (codes "p") (page_from [])) [] world).0
    ≡ returned (rollup_until (codes "a/1"))
unfolding list_objects run read_bucket on_result scan_pages scan_entries rollup_of is_seen sort_by
    Store.put Store.write Store.get Store.found Store.list Store.scan Store.start new_memory
    Store.insert_key search_index str_lt str_eq has_prefix cut cut_prefix live live_prefix
    bucket_key bucket_below object_name insert_by
rollup_given = refl

-- The page that its token asks for gives the rollup again.
rollup_given_again :
    (run
      (list_objects codec 1
        (codes "p")
        (page_from (encode_token (live (codes "p") (codes "b") (codes "a/1")))))
      []
      world).0
    ≡ returned (rollup_until (codes "a/2"))
unfolding list_objects run read_bucket on_result scan_pages scan_entries rollup_of is_seen sort_by
    Store.put Store.write Store.get Store.found Store.list Store.scan Store.start new_memory
    Store.insert_key search_index str_lt str_eq has_prefix cut cut_prefix live live_prefix
    bucket_key bucket_below object_name Store.list_after Store.decode_token Store.decode_or_fail
    Store.encode_token Store.key_at encode decode insert_by encode_char decode_char quantum
    last_three last_two decode_groups is_newline
rollup_given_again = refl

two_pointers-IsValid : IsValid two_pointers
two_pointers-IsValid = put-IsValid none (bucket_key (codes "p") (codes "b")) [] 0 _ (
    put-IsValid none (live (codes "p") (codes "b") (codes "a/2")) [] 0 _ (
      put-IsValid none (live (codes "p") (codes "b") (codes "a/1")) [] 0 new_memory
        new_memory-IsValid))

list_objects_total_example :
    ¬ Breaks (list_objects codec 3 (codes "p") (page_from [])) world race_lost world
unfolding Store.put Store.write new_memory Store.insert_key search_index str_lt str_eq has_prefix
    live live_prefix bucket_key bucket_below Store.snapshot select
list_objects_total_example =
    list_objects_total codec (codes "p") (page_from []) 3 world world two_pointers-IsValid
      ((λ e. cc, omega arith), ((λ e. cc, omega arith), ((λ e. cc, omega arith), tt))) refl
      (omega arith)
