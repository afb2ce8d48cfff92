-- ===== src/Prelude/Filepath.antt =====
-- Clean, Dir and Join of Go's path/filepath, for Unix.
use Prim.Native.Nat.{ℕ}
use mathlib.Core.Path.{◌≡◌, refl}
use mathlib.Core.Logic.{◌≢◌}
use mathlib.Core.Bool.{Bool, false}
use mathlib.Core.List.{List, [], ◌∷◌, ◌++◌, reverse}
use remote_console.Prelude.Tests.{if◌then◌else◌, nat_eq}
use remote_console.Prelude.Text.{Str, str, ◌==◌}

abbrev slash : ℕ
slash = b'/'

abbrev on_first : ℕ → List Str → List Str
on_first c [] = (c ∷ []) ∷ []
on_first c (part ∷ parts) = (c ∷ part) ∷ parts

-- The elements between the slashes, empty ones included.
unfoldable elements : Str → List Str
elements [] = [] ∷ []
elements (c ∷ s) = let rest = elements s in if nat_eq c slash then [] ∷ rest else on_first c rest

-- An element `..` on what is kept so far, the last element first.
abbrev backtrack : Bool → List Str → List Str
backtrack rooted [] = if rooted then [] else str ".." ∷ []
backtrack rooted (top ∷ kept) = if top == str ".." then str ".." ∷ top ∷ kept else kept

abbrev keep : Bool → Str → List Str → List Str
keep rooted part kept =
    if part == []
    then kept
    else if part == str "."
    then kept
    else if part == str ".."
    then backtrack rooted kept
    else part ∷ kept

unfoldable keep_all : Bool → List Str → List Str → List Str
keep_all rooted [] kept = kept
keep_all rooted (part ∷ parts) kept = keep_all rooted parts (keep rooted part kept)

abbrev slash_joined : List Str → Str
slash_joined [] = []
slash_joined (part ∷ []) = part
slash_joined (part ∷ next ∷ parts) = part ++ slash ∷ slash_joined (next ∷ parts)

abbrev is_rooted : Str → Bool
is_rooted [] = false
is_rooted (c ∷ s) = nat_eq c slash

abbrev or_dot : Str → Str
or_dot [] = str "."
or_dot (c ∷ s) = c ∷ s

unfoldable pub clean : Str → Str
unfolding elements keep_all ◌==◌
clean path =
    let rooted = is_rooted path in
    let body = slash_joined (reverse (keep_all rooted (elements path) [])) in
    or_dot (if rooted then slash ∷ body else body)

-- The path up to its last slash, that included.
unfoldable parent : Str → Str
parent [] = []
parent (c ∷ s) =
    let rest = parent s in if rest == [] then (if nat_eq c slash then c ∷ [] else []) else c ∷ rest

unfoldable pub dir : Str → Str
unfolding clean parent ◌==◌
dir path = clean (parent path)

unfoldable pub join : Str → Str → Str
unfolding clean ◌==◌
join a b = if a == [] then (if b == [] then [] else clean b) else clean (a ++ slash ∷ b)

or_dot-nonempty : (s : Str) → or_dot s ≢ []
or_dot-nonempty [] h = cc
or_dot-nonempty (c ∷ s) h = cc

-- Dir gives a text for every path.
pub dir-nonempty : (path : Str) → dir path ≢ []
unfolding dir clean
dir-nonempty path = or_dot-nonempty _

clean_runs : clean (str "/var//log/./a/../b/") ≡ str "/var/log/b"
unfolding clean
clean_runs = refl

clean_empty_runs : clean [] ≡ str "."
unfolding clean
clean_empty_runs = refl

clean_up_runs : clean (str "a/../../b") ≡ str "../b"
unfolding clean
clean_up_runs = refl

dir_runs : dir (str "/tmp/consoleAgg/consoleAgg-host.log") ≡ str "/tmp/consoleAgg"
unfolding dir
dir_runs = refl

join_runs : join (str "/var/log/conman/") (str "console.x0") ≡ str "/var/log/conman/console.x0"
unfolding join
join_runs = refl
