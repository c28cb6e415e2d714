-- ===== src/Storage/Absent.antt =====
-- Reading an object of services/storage/object.go that is not there, and one that was deleted.
use cloudrig.Prelude.{
  ℕ, suc, ◌≡◌, refl, ap, ◌∙◌, Bool-cases, none, true, [], inl, inr, if◌then◌else◌,
}
use cloudrig.Prelude.Bytes.{Bytes}
use cloudrig.Preconditions.{
  Preconditions, passed, precondition_failed, not_modified, check_preconditions, is_set,
}
use cloudrig.Resource
use cloudrig.Storage.{
  Failure, Codec, Object, not_found_error, precondition_error, not_modified_error,
}
use cloudrig.Storage.Program.{
  Program, returns, fails, World, Ended, returned, failed, run, on_result, ◌>>=◌, run-on_result,
  go_on,
}
use cloudrig.Storage.Publishing.{check, verdict, read_live, live_read}
use cloudrig.Storage.Objects.{
  resolve_live, get_object_if, chosen, absent_checked, empty_object, or_missing,
}
use cloudrig.Storage.Runs.{Ends, Gives, Breaks}
use cloudrig.Storage.Lookup.{goes_on, misses}

-- What a read of an object that is not there answers: without conditions that it is not there, with
-- conditions what they say of nothing, and the empty object where they hold.
abbrev pub absent_answer : Preconditions → Ended Object
absent_answer pre =
    if is_set pre
    then elim (check_preconditions pre none true) [
      | passed ↦ returned empty_object
      | precondition_failed ↦ failed precondition_error
      | not_modified ↦ failed not_modified_error
    ]
    else failed not_found_error

handles_on :
    {A B : Type 0} {z : Ended B} (x : Failure) (w u w' : World) (m : Program A)
    (h : Failure → Program B) (f : A → Program B)
    → Breaks m w x u
    → Ends (h x) u z w'
    → Ends (on_result m h f) w z w'
handles_on x w u w' m h f g k = run-on_result m h f [] w ∙ ap (go_on h f) g ∙ k

absent_checked_answers :
    (pre : Preconditions) (w : World)
    → Ends (absent_checked pre not_found_error) w (absent_answer pre) w
unfolding absent_checked check run on_result
absent_checked_answers pre w = elim (Bool-cases (is_set pre)) [
  | inl c ↦
      rw c
        (elim (check_preconditions pre none true)
          as (λ v.
            Ends (verdict v >>= λ _. returns empty_object) w
              (elim v [
                | passed ↦ returned empty_object
                | precondition_failed ↦ failed precondition_error
                | not_modified ↦ failed not_modified_error
              ])
              w) [ passed ↦ refl | precondition_failed ↦ refl | not_modified ↦ refl ])
  | inr c ↦ rw c refl
]

module _ (codec : Codec) where
  read_live-none :
      (p b n : Bytes) (w : World)
      → w.kv.m (Resource.live p b n) ≡ none
      → Gives (read_live codec p b n) w (record { generation = 0; highest = 0 }, 0) w
  unfolding read_live run
  read_live-none p b n w h = misses (Resource.live p b n) (live_read codec) w w h refl

  resolve_live-none :
      (p b n : Bytes) (left : ℕ) (w : World)
      → w.kv.m (Resource.live p b n) ≡ none
      → Gives (resolve_live codec p b n (suc left)) w (none, 0) w
  unfolding resolve_live run
  resolve_live-none p b n left w h =
      goes_on (record { generation = 0; highest = 0 }, 0) w w w (read_live codec p b n) fails _
        (read_live-none p b n w h) refl

  chosen-Breaks :
      (p b n : Bytes) (w : World)
      → w.kv.m (Resource.live p b n) ≡ none
      → Breaks (chosen codec p b n none) w not_found_error w
  unfolding run on_result
  chosen-Breaks p b n w h =
      run-on_result (resolve_live codec p b n 8) fails _ [] w
      ∙ ap (go_on fails (λ r. or_missing codec r >>= λ o. returns o.0))
          (resolve_live-none p b n 7 w h)

  -- A read of the current generation of an object that is not there changes nothing. It fails with
  -- not found where no condition is given; else it fails as the conditions say, and where they hold
  -- it succeeds with the empty object.
  pub get_absent :
      (p b n : Bytes) (pre : Preconditions) (w : World)
      → w.kv.m (Resource.live p b n) ≡ none
      → Ends (get_object_if codec p b n none pre) w (absent_answer pre) w
  unfolding get_object_if
  get_absent p b n pre w h =
      handles_on not_found_error w w w (chosen codec p b n none) (absent_checked pre) _
        (chosen-Breaks p b n w h) (absent_checked_answers pre w)
