-- ===== src/Logring.antt =====
-- core/logring/logring.go: the last lines that a child process wrote. A follower's channel is its
-- buffered lines; a Ring numbers the channels that it makes. The limits on lines are not negative.
pub mod Chunks
pub mod Kept
mod Tests
use cloudrig.Prelude.{
  ℕ, zero, suc, ◌+◌, ◌-◌, Bool, true, false, not, ◌&&◌, Option, none, some, List, [], ◌∷◌, ◌++◌,
  map, ◌==◌, ltb, length, drop, if◌then◌else◌,
}
use cloudrig.Prelude.Bytes.{Bytes}

pub record Follower : Type 0 where
  pub id : ℕ
  pub buffer : List Bytes

pub record Ring : Type 0 where
  pub max : ℕ
  pub lines : List Bytes
  pub partial : Bytes
  pub subs : List Follower
  pub next : ℕ

pub new_ring : ℕ → Ring
new_ring max = record { max = max; lines = []; partial = []; subs = []; next = 0 }

-- The send that never blocks: a full channel loses the line.
pub offer : Bytes → Follower → Follower
offer line f = if ltb (length f.buffer) 256 then record f { buffer = f.buffer ++ line ∷ [] } else f

-- What is kept of the lines: the last ones, up to so many.
unfoldable pub keep_last {ℓ} : {A : Type ℓ} → ℕ → List A → List A
keep_last max lines = if ltb max (length lines) then drop (length lines - max) lines else lines

unfoldable pub append_line : Bytes → Ring → Ring
append_line line r = record r {
  lines = keep_last r.max (r.lines ++ line ∷ []);
  subs = map (offer line) r.subs;
}

abbrev pub is_empty : Bytes → Bool
is_empty [] = true
is_empty (c ∷ s) = false

-- strings.TrimRight(s, "\r")
unfoldable pub trim_cr : Bytes → Bytes
trim_cr [] = []
trim_cr (c ∷ s) = let rest = trim_cr s in if is_empty rest && c == 13 then [] else c ∷ rest

abbrev pub first_more : ℕ → Option (Bytes × Bytes) → Option (Bytes × Bytes)
first_more c none = none
first_more c (some (line, rest)) = some (c ∷ line, rest)

-- What stands before and behind the first newline, as bytes.IndexByte finds it.
unfoldable pub break_line : Bytes → Option (Bytes × Bytes)
break_line [] = none
break_line (c ∷ s) =
    let more = first_more c (break_line s) in if c == 10 then some ([], s) else more

-- The loop of Write, on the partial line.
unfoldable pub write_loop : ℕ → Bytes → Ring → Option Ring
write_loop zero partial r = none
write_loop (suc f) partial r = elim (break_line partial) [
  | none ↦ some (record r { partial = partial })
  | some (line, rest) ↦ write_loop f rest (append_line (trim_cr line) r)
]

-- Write, with the fuel that its loop takes at most.
unfoldable pub write : Bytes → Ring → Option Ring
write p r = let partial = r.partial ++ p in write_loop (suc (length partial)) partial r

pub snapshot : Ring → List Bytes
snapshot r = r.lines

pub join_lines : List Bytes → Bytes
join_lines [] = []
join_lines (l ∷ []) = l
join_lines (l ∷ m ∷ ls) = l ++ 10 ∷ join_lines (m ∷ ls)

pub tail : ℕ → Ring → Bytes
tail n r =
    let lines = snapshot r in
    join_lines (if ltb n (length lines) then drop (length lines - n) lines else lines)

pub follow : Ring → ℕ × Ring
follow r = (
  r.next,
  record r { subs = r.subs ++ record { id = r.next; buffer = [] } ∷ []; next = r.next + 1 },
)

pub without : ℕ → List Follower → List Follower
without id [] = []
without id (f ∷ fs) = let rest = without id fs in if f.id == id then rest else f ∷ rest

-- The function that Follow returns; the channel is closed the first time.
pub stop_following : ℕ → Ring → Ring
stop_following id r = record r { subs = without id r.subs }
