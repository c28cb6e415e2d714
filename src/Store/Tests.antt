-- ===== src/Store/Tests.antt =====
-- The store on concrete requests, and each theorem about it at an input that meets its
-- hypotheses.
use cloudrig.Prelude.{◌≡◌, refl, none, some, List, [], ◌∷◌, arith, search_index, select}
use cloudrig.Prelude.Bytes.{codes, str_eq, str_lt, has_prefix}
use cloudrig.Base64.{encode, decode}
use cloudrig.Store.{
  ok, err, invalid_page_token, Entry, Memory, new_memory, insert_key, write, get, found, put,
  delete, key_at, scan, start, list, list_after, decode_token, decode_or_fail, encode_token,
  snapshot, restore,
}
use cloudrig.Store.Keys.{contains}
use cloudrig.Store.Invariant.{IsValid, new_memory-IsValid}
use cloudrig.Store.Cas.{
  Op, puts, deletes, step, run, run-IsValid, put_outcome, PutOutcome, get-put, cas_sound,
}
use cloudrig.Store.Listing.{under, page, list_first}
use cloudrig.Store.Paging.{collect, collect-under}
use cloudrig.Store.Restoring.{restore-IsValid, restore-snapshot}

abbrev ops : List Op
ops =
    puts (codes "b/2") (codes "x") 0
    ∷ puts (codes "a") (codes "y") 0
    ∷ puts (codes "b/1") (codes "z") 0
    ∷ puts (codes "a") (codes "w") 1
    ∷ []

abbrev three : Memory
three = run new_memory ops

abbrev more : List Op
more = deletes (codes "a") 0 ∷ puts (codes "b/2") (codes "q") 7 ∷ []

three_keys : three.keys ≡ codes "a" ∷ codes "b/1" ∷ codes "b/2" ∷ []
unfolding run step put write insert_key search_index str_lt new_memory str_eq
three_keys = refl

three_read : get none (codes "a") three ≡ ok (codes "w", 2)
unfolding get found run step put write insert_key new_memory str_eq
three_read = refl

first_page :
    list none (codes "b/") 1 [] three
    ≡ ok (record { key = codes "b/1"; val = codes "z"; version = 1 } ∷ [], codes "Yi8x")
unfolding list start scan encode_token encode run step put write insert_key search_index str_lt
    new_memory str_eq has_prefix key_at
first_page = refl

wrong_prefix : list none (codes "a") 1 (codes "Yi8x") three ≡ err invalid_page_token
unfolding list list_after decode_token decode_or_fail decode has_prefix
wrong_prefix = refl

three-IsValid : IsValid three
three-IsValid = run-IsValid new_memory ops new_memory-IsValid

run-IsValid_example : IsValid (run new_memory ops)
run-IsValid_example = run-IsValid new_memory ops new_memory-IsValid

put_outcome_example :
    PutOutcome (codes "a") (codes "n") 1 three (put none (codes "a") (codes "n") 1 three)
put_outcome_example = put_outcome (codes "a") (codes "n") 1 three

get-put_example :
    get none (codes "a") (put none (codes "a") (codes "n") 2 three).1 ≡ ok (codes "n", 3)
unfolding run step put write insert_key new_memory str_eq
get-put_example = get-put (codes "a") (codes "n") 2 3 three refl

cas_sound_example :
    (run three (puts (codes "a") (codes "u") 1 ∷ deletes (codes "b/1") 0 ∷ [])).m (codes "a")
    ≡ some (record { val = codes "w"; version = 2 })
unfolding run step put delete write insert_key get found new_memory str_eq
cas_sound_example =
    cas_sound (codes "a") (codes "w") (codes "n") three
      (puts (codes "a") (codes "u") 1 ∷ deletes (codes "b/1") 0 ∷ []) {n = 2} {v = 3} three-IsValid
      (tt, (refl, tt)) (omega arith) refl (omega arith) refl

abbrev b2 : Entry
b2 = record { val = codes "x"; version = 1 }

list_first_example : list none (codes "b/") 1 [] three ≡ ok (page 1 (under (codes "b/") three))
list_first_example = list_first (codes "b/") 1 three three-IsValid

collect-under_example : collect 4 (codes "b/") 1 [] three ≡ some (under (codes "b/") three)
unfolding run step put write insert_key search_index str_lt new_memory str_eq snapshot select
    has_prefix
collect-under_example =
    collect-under 4 (codes "b/") 0 three three-IsValid
      ((λ e. cc, omega arith), ((λ e. cc, omega arith), ((λ e. cc, omega arith), tt))) (omega arith)

restore-IsValid_example : IsValid (restore (snapshot three) new_memory)
unfolding run step put write insert_key search_index str_lt new_memory str_eq snapshot contains
restore-IsValid_example = restore-IsValid (snapshot three) new_memory (refl, (refl, (refl, tt)))

restore-snapshot_example : restore (snapshot three) new_memory ≡ three
restore-snapshot_example = restore-snapshot three new_memory three-IsValid
