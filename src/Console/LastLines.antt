-- ===== src/Console/LastLines.antt =====
-- internal/console/tail.go: readLastNLines, with a bufio.Scanner over the file and a ring of
-- container/ring. A ring is the list of its values from the element that it stands for.
pub mod Last
use Prim.Native.Nat.{ℕ, zero, suc, ◌+◌, ◌*◌}
use remote_console.Prelude.{
  ◌≡◌, refl, Bool, true, false, Option, none, some, List, [], ◌∷◌, ◌++◌, Result, ok, err, Error,
  if◌then◌else◌, length, ltb, leb, nat_eq,
}
use remote_console.Prelude.Text.{Str, str, ◌==◌}
use remote_console.Prelude.Lines.{newline}

-- A carriage return at the end of a line is dropped.
unfoldable pub drop_cr : Str → Str
drop_cr [] = []
drop_cr (c ∷ s) =
    let rest = drop_cr s in if s == [] then (if nat_eq c b'\r' then [] else c ∷ []) else c ∷ rest

abbrev on_first : ℕ → List Str → List Str
on_first c [] = (c ∷ []) ∷ []
on_first c (line ∷ lines) = (c ∷ line) ∷ lines

-- bufio.ScanLines: what stands behind the last newline is a line too, if there is something.
unfoldable pub raw_lines : Str → List Str
raw_lines [] = []
raw_lines (c ∷ s) =
    let rest = raw_lines s in if nat_eq c newline then [] ∷ rest else on_first c rest

abbrev pub max_line_length : ℕ
max_line_length = 1024 * 1024

-- The lines up to the first that the buffer cannot hold, and whether there is such a line.
unfoldable pub scan : List Str → List Str × Bool
unfolding drop_cr
scan [] = ([], false)
scan (line ∷ lines) =
    let (rest, too_long) = scan lines in
    if ltb (length line) max_line_length then (drop_cr line ∷ rest, too_long) else ([], true)

unfoldable pub scan_lines : Str → Result (List Str)
unfolding scan raw_lines
scan_lines content =
    let (lines, too_long) = scan (raw_lines content) in
    if too_long
    then err (Error.wrap (str "error reading file: ") (Error.new (str "token too long")))
    else ok lines

module _ {A : Type 0} where
  -- ring.New
  abbrev pub ring : ℕ → List (Option A)
  ring zero = []
  ring (suc n) = none ∷ ring n

  -- r.Next()
  abbrev pub next : List (Option A) → List (Option A)
  next [] = []
  next (v ∷ r) = r ++ v ∷ []

  abbrev pub set_value : A → List (Option A) → List (Option A)
  set_value a [] = []
  set_value a (v ∷ r) = some a ∷ r

  abbrev in_front : Option A → List (Option A) → List (Option A)
  in_front v [] = v ∷ []
  in_front v (w ∷ r) = w ∷ v ∷ r

  -- The step back: the last element comes to the front.
  unfoldable prev : List (Option A) → List (Option A)
  prev [] = []
  prev (v ∷ r) = in_front v (prev r)

  -- r.Move(-count)
  unfoldable pub move_back : ℕ → List (Option A) → List (Option A)
  unfolding prev
  move_back zero r = r
  move_back (suc count) r = prev (move_back count r)

  -- The loop over the scanned lines.
  unfoldable pub fill : List (Option A) → List A → List (Option A)
  fill r [] = r
  fill r (line ∷ lines) = fill (next (set_value line r)) lines

  abbrev append_value : List (Option A) → List A → List A
  append_value [] lines = lines
  append_value (none ∷ r) lines = lines
  append_value (some a ∷ r) lines = a ∷ lines

  -- The loop that reads the ring.
  unfoldable pub read_ring : ℕ → List (Option A) → List A
  read_ring zero r = []
  read_ring (suc i) r = append_value r (read_ring i (next r))

  -- `num_lines` is positive.
  unfoldable pub last_of_ring : ℕ → List A → List A
  unfolding move_back fill read_ring
  last_of_ring num_lines lines =
      let count = length lines in
      let r = fill (ring num_lines) lines in
      if ltb count num_lines then read_ring count (move_back count r) else read_ring num_lines r

abbrev lines_of : ℕ → Str → Result (List Str) → Result (List Str × ℕ)
lines_of num_lines content (err e) = err e
lines_of num_lines content (ok lines) = ok (last_of_ring num_lines lines, length content)

-- `file` is what opening the file finds. The scanner has read all of it when it ends without an
-- error, so the position is the file's length.
unfoldable pub read_last_n_lines : Result Str → ℕ → Result (List Str × ℕ)
unfolding scan_lines last_of_ring
read_last_n_lines (err e) num_lines = err (Error.wrap (str "failed to open file: ") e)
read_last_n_lines (ok content) num_lines = lines_of num_lines content (scan_lines content)
