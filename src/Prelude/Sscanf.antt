-- ===== src/Prelude/Sscanf.antt =====
-- The verb %d and the literal characters of fmt.Sscanf, on ASCII text.
use Prim.Native.Nat.{ℕ}
use mathlib.Core.Path.{◌≡◌, refl}
use mathlib.Core.Bool.{Bool, ◌||◌}
use mathlib.Core.Option.{Option, none, some}
use mathlib.Core.List.{[], ◌∷◌}
use remote_console.Prelude.Tests.{if◌then◌else◌, nat_eq}
use remote_console.Prelude.Text.{Str, str}
use remote_console.Prelude.Strings.{is_space, is_digit, atoi}
use remote_console.Prelude.Int.{ℤ, pos}

-- Spaces are skipped; a newline among them is an error, also behind a carriage return.
unfoldable skip_space : Str → Option Str
skip_space [] = some []
skip_space (c ∷ s) =
    let rest = skip_space s in
    if nat_eq c b'\n' then none else if is_space c then rest else some (c ∷ s)

abbrev cons_digit : ℕ → Str × Str → Str × Str
cons_digit c (digits, rest) = (c ∷ digits, rest)

-- The digits in front, and what follows them.
unfoldable digits_of : Str → Str × Str
digits_of [] = ([], [])
digits_of (c ∷ s) = let rest = digits_of s in if is_digit c then cons_digit c rest else ([], c ∷ s)

abbrev is_sign : ℕ → Bool
is_sign c = nat_eq c b'+' || nat_eq c b'-'

abbrev token : Str → Str × Str
token [] = ([], [])
token (c ∷ s) = if is_sign c then cons_digit c (digits_of s) else digits_of (c ∷ s)

abbrev parsed : Option ℤ → Str → Option (ℤ × Str)
parsed none rest = none
parsed (some i) rest = some (i, rest)

abbrev number_of : Str × Str → Option (ℤ × Str)
number_of (tok, rest) = parsed (atoi tok) rest

abbrev scan_token : Option Str → Option (ℤ × Str)
scan_token none = none
scan_token (some s) = number_of (token s)

-- %d
unfoldable pub scan_int : Str → Option (ℤ × Str)
unfolding skip_space digits_of atoi
scan_int s = scan_token (skip_space s)

-- A literal character of the format.
unfoldable pub scan_char : ℕ → Str → Option Str
scan_char expected [] = none
scan_char expected (c ∷ s) = if nat_eq c expected then some s else none

scan_int_runs : scan_int (str " 2024-10") ≡ some (pos 2024, str "-10")
unfolding scan_int
scan_int_runs = refl

scan_int_newline_runs : scan_int (str "\n5") ≡ none
unfolding scan_int
scan_int_newline_runs = refl
