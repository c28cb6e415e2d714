-- ===== src/Secrets/Tests.antt =====
-- A codec that reads back what it encodes, and instances of the theorems on
-- services/secretmanager.
use cloudrig.Prelude.{
  ℕ, ◌≡◌, refl, sym, ap, ◌∙◌, arith, false, Option, none, some, [], ◌∷◌, ◌++◌, ◌==◌, if◌then◌else◌,
  search_index, length, take, drop, take-append, drop-append_self,
}
use cloudrig.Prelude.Int.{ℤ, pos}
use cloudrig.Prelude.Bytes.{Bytes, codes, str_eq}
use cloudrig.Prelude.Decimal.{parse_int, digits_value, scan, format_int, format_digits}
use cloudrig.Prelude.Coding.{
  int_code, int_of, int_of-int_code, time_code, time_of, time_of-time_code, flag_code, flag_of,
  flag_of-flag_code,
}
use cloudrig.Store.{Memory, Entry, new_memory}
use cloudrig.Gerr.{failed_precondition}
use cloudrig.Store
use cloudrig.Store.Invariant.{IsValid, new_memory-IsValid, put-IsValid}
use cloudrig.Prelude.Bytes.{str_lt, has_prefix, cut_last}
use cloudrig.Secrets.Reading.{
  resolve, version_number, behind_slash, get_secret, read_entry, read_page, access_secret_version,
}
use cloudrig.Secrets.Writing
use cloudrig.Secrets.Writing.{
  moved, is_destroyed, replace_version, replaced, Step, number_after, is_corrupt, put_version,
  put_answer, new_version, state_text, add_secret_version, delete_secret, set_state,
}
use cloudrig.Secrets.Deletion.{IsDeleted, delete_secret_total}
use cloudrig.Secrets.Rotation.{reply_value, IsAccessible, add_then_access}
use cloudrig.Secrets.Destruction.{destroyed_for_good}
use cloudrig.Secrets.{
  join_slash, parse_version, parse_version_parts, ok, failed, parse_secret, parse_secret_parts,
  split_slash, version_prefix, version_key, version_number_text, State, unspecified, enabled,
  disabled, destroyed, Version, Stored, Codec, secret_key,
}
use cloudrig.Secrets.Rotation.{reply_value, ReadsBack}

state_code : State → ℕ
state_code unspecified = 0
state_code enabled = 1
state_code disabled = 2
state_code destroyed = 3

state_of : ℕ → State
state_of n =
    if n == 0
    then unspecified
    else if n == 1
    then enabled
    else if n == 2
    then disabled
    else destroyed

state_of-state_code : (s : State) → state_of (state_code s) ≡ s
unfolding state_of state_code
state_of-state_code unspecified = refl
state_of-state_code enabled = refl
state_of-state_code disabled = refl
state_of-state_code destroyed = refl

encode_stored : Stored → Bytes
encode_stored v =
    let w = v.version in
    state_code w.state
    ∷ (int_code w.create_time).0
    ∷ (int_code w.create_time).1
    ∷ (time_code w.destroy_time).0
    ∷ (time_code w.destroy_time).1
    ∷ flag_code w.checksum_given
    ∷ length w.name
    ∷ (w.name ++ v.payload)

decode_stored : Bytes → Option Stored
decode_stored (a ∷ b ∷ c ∷ d ∷ e ∷ f ∷ n ∷ s) = some (record {
  version = record {
    name = take n s;
    state = state_of a;
    create_time = int_of (b, c);
    destroy_time = time_of (d, e);
    checksum_given = flag_of f;
  };
  payload = drop n s;
})
decode_stored other = none

decode_stored-encode_stored : (v : Stored) → decode_stored (encode_stored v) ≡ some v
unfolding decode_stored encode_stored
decode_stored-encode_stored v =
    let w = v.version in
    rw (state_of-state_code w.state) (
      rw (int_of-int_code w.create_time) (
        rw (time_of-time_code w.destroy_time) (
          rw (flag_of-flag_code w.checksum_given) (
            rw (take-append (length w.name) w.name v.payload refl)
              (rw (drop-append_self (length w.name) w.name v.payload refl) refl)))))

some_value : {a b : Bytes} → ◌≡◌ {A = Option Bytes} (some a) (some b) → a ≡ b
some_value h = cc

abbrev codec : Codec ℕ
codec = record {
  encode_secret = λ x. some x.name;
  decode_secret = λ b. some (record { name = b; fields = λ f. none });
  encode_version = λ v. some (encode_stored v);
  decode_version = decode_stored;
  timestamp = λ t. 0;
  automatic = 1;
  by_name = λ p. none;
  by_json_name = λ p. none;
  checksum = λ b. pos 0;
}

codec-ReadsBack : ReadsBack codec
codec-ReadsBack v b e = ap decode_stored (sym (some_value e)) ∙ decode_stored-encode_stored v

abbrev name : Bytes
name = codes "projects/p/secrets/s"

abbrev stored_secret : Memory
stored_secret = (Store.put none (secret_key name) name 0 new_memory).1

stored_secret-IsValid : IsValid stored_secret
stored_secret-IsValid = put-IsValid none (secret_key name) name 0 new_memory new_memory-IsValid

name_parsed : parse_secret name ≡ ok (codes "p", codes "s")
unfolding parse_secret parse_secret_parts split_slash str_eq
name_parsed = refl

secret_read : get_secret codec name stored_secret ≡ ok (record { name = name; fields = λ f. none })
unfolding get_secret read_entry Store.get Store.found Store.put Store.write new_memory secret_key
    str_eq
secret_read = refl

delete_secret_total_example : IsDeleted name stored_secret (delete_secret codec name stored_secret)
delete_secret_total_example =
    delete_secret_total codec name stored_secret stored_secret-IsValid name_parsed secret_read

abbrev added : Step Version
added = add_secret_version codec name (7 ∷ []) none (pos 5) stored_secret

abbrev first_version : Version
first_version = record {
  name = codes "projects/p/secrets/s/versions/1";
  state = enabled;
  create_time = pos 5;
  destroy_time = none;
  checksum_given = false;
}

next_is_one : Writing.next_version name stored_secret ≡ ok (pos 1)
unfolding Writing.next_version number_after read_page Store.list Store.scan Store.start Store.put
    Store.write Store.insert_key new_memory secret_key version_prefix str_eq str_lt has_prefix
    search_index
next_is_one = refl

added_one : added ≡ (ok first_version, added.1)
unfolding add_secret_version parse_secret parse_secret_parts split_slash str_eq is_corrupt
    get_secret read_entry Store.get Store.found Store.put Store.write new_memory secret_key
    Writing.next_version number_after read_page Store.list Store.scan Store.start Store.insert_key
    version_prefix str_lt has_prefix search_index put_version put_answer new_version encode_stored
    version_key version_number_text state_text format_int format_digits state_code int_code
    time_code flag_code
added_one = refl

add_then_access_example : IsAccessible codec name 1 (7 ∷ []) first_version stored_secret added.1
add_then_access_example =
    add_then_access codec name (7 ∷ []) none (pos 5) 1 stored_secret added.1 codec-ReadsBack
      (omega arith) next_is_one added_one

abbrev first_stored : Stored
first_stored = record { version = first_version; payload = 7 ∷ [] }

abbrev first_name : Bytes
first_name = codes "projects/p/secrets/s/versions/1"

first_parsed : parse_version first_name ≡ ok (name, codes "1")
unfolding parse_version parse_version_parts join_slash parse_secret parse_secret_parts split_slash
    str_eq
first_parsed = refl

first_number : parse_int (codes "1") ≡ some (pos 1)
unfolding parse_int digits_value scan
first_number = refl

first_resolved : resolve codec name (codes "1") added.1 ≡ ok first_stored
unfolding resolve parse_int digits_value scan decode_stored state_of int_of time_of flag_of
    add_secret_version parse_secret parse_secret_parts split_slash str_eq is_corrupt get_secret
    read_entry Store.get Store.found Store.put Store.write new_memory secret_key
    Writing.next_version number_after read_page Store.list Store.scan Store.start Store.insert_key
    version_prefix str_lt has_prefix search_index put_version put_answer new_version encode_stored
    version_key version_number_text state_text format_int format_digits state_code int_code
    time_code flag_code
first_resolved = refl

first_filed : version_number first_name ≡ ok (pos 1)
unfolding version_number behind_slash cut_last parse_int digits_value scan
first_filed = refl

abbrev destroyed_version : Version
destroyed_version = record first_version { state = destroyed; destroy_time = some (pos 9) }

first_destroyed :
    set_state codec first_name destroyed (pos 9) added.1
    ≡ (ok destroyed_version, (set_state codec first_name destroyed (pos 9) added.1).1)
unfolding set_state moved is_destroyed parse_version parse_version_parts join_slash replace_version
    replaced version_number behind_slash cut_last resolve parse_int digits_value scan decode_stored
    state_of int_of time_of flag_of add_secret_version parse_secret parse_secret_parts split_slash
    str_eq is_corrupt get_secret read_entry Store.get Store.found Store.put Store.write new_memory
    secret_key Writing.next_version number_after read_page Store.list Store.scan Store.start
    Store.insert_key version_prefix str_lt has_prefix search_index put_version put_answer
    new_version encode_stored version_key version_number_text state_text format_int format_digits
    state_code int_code time_code flag_code
first_destroyed = refl

destroyed_for_good_example :
    ((w : Stored)
      → resolve codec name (codes "1") (set_state codec first_name destroyed (pos 9) added.1).1
        ≡ ok w
      → w.payload ≡ [])
    × (access_secret_version codec first_name
          (set_state codec first_name destroyed (pos 9) added.1).1
        ≡ failed failed_precondition)
    × ((later : State) (t : ℤ)
        → set_state codec first_name later t
            (set_state codec first_name destroyed (pos 9) added.1).1
          ≡ (failed failed_precondition, (set_state codec first_name destroyed (pos 9) added.1).1))
unfolding str_eq
destroyed_for_good_example =
    destroyed_for_good codec first_name name (codes "1") (pos 1) (pos 9) added.1
      (set_state codec first_name destroyed (pos 9) added.1).1 codec-ReadsBack first_parsed refl
      first_number
      (λ v e.
        ap (λ w. version_number w.version.name) (reply_value (sym e ∙ first_resolved))
        ∙ first_filed)
      first_destroyed
