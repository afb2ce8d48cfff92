-- ===== src/Prelude/Lines.antt =====
-- bufio.Reader.ReadString('\n') and bytes.Buffer.ReadString('\n') until the first error: the lines
-- that end in a newline, each with it. What stands behind the last newline comes with io.EOF.
use Prim.Native.Nat.{ℕ}
use mathlib.Core.Path.{◌≡◌, refl}
use mathlib.Core.Bool.{false}
use mathlib.Core.List.{List, [], ◌∷◌, ◌++◌}
use remote_console.Prelude.Tests.{if◌then◌else◌, nat_eq}
use remote_console.Prelude.Lists.{All}
use remote_console.Prelude.Text.{Str}

abbrev pub newline : ℕ
newline = 10

abbrev prepend : ℕ → List Str → List Str
prepend c [] = []
prepend c (line ∷ lines) = (c ∷ line) ∷ lines

unfoldable pub complete_lines : Str → List Str
complete_lines [] = []
complete_lines (c ∷ s) =
    let rest = complete_lines s in if nat_eq c newline then (c ∷ []) ∷ rest else prepend c rest

-- No newline stands in the text.
abbrev pub IsLine : Str → Type 0
IsLine = All λ c. nat_eq c newline ≡ false

complete_lines-IsLine : (s : Str) → IsLine s → complete_lines s ≡ []
unfolding complete_lines
complete_lines-IsLine [] h = refl
complete_lines-IsLine (c ∷ s) h = rw (h.0, complete_lines-IsLine s h.1)

complete_lines-append :
    (line s : Str)
    → IsLine line
    → complete_lines (line ++ newline ∷ s) ≡ (line ++ newline ∷ []) ∷ complete_lines s
unfolding complete_lines
complete_lines-append [] s h = refl
complete_lines-append (c ∷ line) s h = rw (h.0, complete_lines-append line s h.1)

-- The text of the lines, and what stands behind the last.
abbrev pub text_of : List Str → Str → Str
text_of [] tail = tail
text_of (line ∷ lines) tail = line ++ newline ∷ text_of lines tail

abbrev pub with_newlines : List Str → List Str
with_newlines [] = []
with_newlines (line ∷ lines) = (line ++ newline ∷ []) ∷ with_newlines lines

pub complete_lines-text_of :
    (lines : List Str) (tail : Str)
    → All IsLine lines
    → IsLine tail
    → complete_lines (text_of lines tail) ≡ with_newlines lines
complete_lines-text_of [] tail h t = complete_lines-IsLine tail t
complete_lines-text_of (line ∷ lines) tail h t =
    rw
      (complete_lines-append line (text_of lines tail) h.0, complete_lines-text_of lines tail h.1 t)
