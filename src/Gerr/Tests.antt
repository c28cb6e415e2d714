-- ===== src/Gerr/Tests.antt =====
-- Errors of core/gerr rendered, and its theorems at inputs that meet their hypotheses.
use cloudrig.Prelude.{◌≡◌, refl, [], ◌∷◌}
use cloudrig.Prelude.Bytes.{codes}
use cloudrig.Gerr.{
  Error, error_info, bad_request, new_error, with_details, http_status, find_or, canonical_http,
  lower_camel, camel, has_underscore, to_lower, to_upper,
}

camel_case : lower_camel (codes "CONDITION_NOT_MET") ≡ codes "conditionNotMet"
unfolding lower_camel camel has_underscore to_lower to_upper
camel_case = refl

abbrev bad : Error
bad =
    with_details
      (error_info (codes "FIELD_UNKNOWN") (codes "storage")
        ∷ bad_request (record { field = codes "name"; description = codes "too long" } ∷ [])
        ∷ [])
      (new_error 3 (codes "bad request"))

bad_status : http_status bad ≡ 400
unfolding with_details http_status find_or canonical_http new_error
bad_status = refl
