-- ===== src/Logring/Tests.antt =====
-- Runs and instances of the theorems on core/logring/logring.go.
use cloudrig.Prelude.{◌≡◌, refl, some, [], ◌∷◌, ◌++◌, map}
use cloudrig.Prelude.Bytes.{codes}
use cloudrig.Logring.{Ring, write, write_loop, break_line, append_line, keep_last, trim_cr}
use cloudrig.Logring.Chunks.{split, then_write, write_chunks}
use cloudrig.Logring.Kept.{lines_of, lines-write}

abbrev two_lines : Ring
two_lines = record {
  max = 2;
  lines = codes "a" ∷ codes "b" ∷ [];
  partial = codes "c";
  subs = [];
  next = 0;
}

write_example : lines_of (write (codes "d\r\ne\nf") two_lines) ≡ some (codes "cd" ∷ codes "e" ∷ [])
unfolding write write_loop break_line append_line keep_last trim_cr
write_example = refl

write_chunks_example :
    then_write (codes "\ne") (write (codes "d\r") two_lines) ≡ write (codes "d\r\ne") two_lines
write_chunks_example = write_chunks (codes "d\r") (codes "\ne") two_lines

lines-write_example :
    lines_of (write (codes "d\ne") two_lines)
    ≡ some (
        keep_last 2
          ((codes "0" ∷ codes "a" ∷ codes "b" ∷ []) ++ map trim_cr (split (codes "cd\ne")).0))
unfolding keep_last
lines-write_example =
    lines-write (codes "d\ne") (codes "0" ∷ codes "a" ∷ codes "b" ∷ []) two_lines refl
