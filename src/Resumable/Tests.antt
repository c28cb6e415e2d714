-- ===== src/Resumable/Tests.antt =====
-- Runs and instances of the theorems on services/storage/resumable.go.
use cloudrig.Prelude.{◌≡◌, refl, arith, false, none, some, [], ◌∷◌}
use cloudrig.Prelude.Bytes.{codes, str_eq, cut_prefix, cut}
use cloudrig.Prelude.Int.{pos, negsuc}
use cloudrig.Prelude.Decimal.{parse_int, digits_value, scan}
use cloudrig.Resumable.{
  Session, finalized, resumable_chunk, parse_content_range, with_total, total_of, trim_left,
  trim_right,
}
use cloudrig.Resumable.Assembling.{
  IsAligned, resumable_chunk-IsAligned, send_every, send_every-concatenated,
}

abbrev begun : Session
begun = record { file = codes "ab"; offset = 2; total = negsuc 0; done = false }

resumable_chunk-IsAligned_example :
    IsAligned (resumable_chunk (codes "bytes 2-4/9") (codes "cde") false (some begun)).1
resumable_chunk-IsAligned_example =
    resumable_chunk-IsAligned (codes "bytes 2-4/9") (codes "cde") false (some begun) (refl, refl)

send_every-concatenated_example :
    send_every 6 (codes "cd") (codes "e" ∷ codes "f" ∷ []) begun
    ≡ (finalized (codes "abcdef"), none)
send_every-concatenated_example =
    send_every-concatenated 6 (codes "cd") (codes "e" ∷ codes "f" ∷ []) begun (refl, refl)
      (omega arith, (omega arith, tt)) refl

parse_content_range_example :
    parse_content_range (codes "bytes 2-4/9")
    ≡ some (record { start = pos 2; end = pos 4; total = pos 9; query = false })
unfolding parse_content_range trim_left trim_right cut cut_prefix total_of with_total str_eq
    parse_int digits_value scan
parse_content_range_example = refl
