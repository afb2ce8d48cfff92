-- ===== src/Prelude/Strings.antt =====
-- The functions of Go's strings, strconv and fmt that the program calls, on byte strings.
use Prim.Native.Nat.{ℕ, zero, suc, ◌+◌, ◌-◌, ◌*◌, ◌/◌, ◌%◌, ◌^◌}
use mathlib.Core.Path.{◌≡◌, refl, ap}
use mathlib.Core.Logic.{inl, inr}
use mathlib.Core.Bool.{Bool, true, false, ◌&&◌, ◌||◌}
use mathlib.Core.Option.{Option, none, some}
use mathlib.Core.List.{List, [], ◌∷◌, ◌++◌, reverse}
use native.Mathlib.Omega.{arith}
use remote_console.Prelude.Tests.{if◌then◌else◌, leb, ltb, nat_eq, Bool-cases, Option-cases}
use remote_console.Prelude.Lists.{length}
use remote_console.Prelude.Text.{Str, str}
use remote_console.Prelude.Int.{ℤ, pos, negsuc}

unfoldable pub has_prefix : Str → Str → Bool
has_prefix s [] = true
has_prefix [] (p ∷ ps) = false
has_prefix (c ∷ s) (p ∷ ps) = nat_eq c p && has_prefix s ps

abbrev suc_of : Option ℕ → Option ℕ
suc_of none = none
suc_of (some n) = some (suc n)

-- strings.Index; `none` for -1.
unfoldable pub index : Str → Str → Option ℕ
unfolding has_prefix
index [] sep = if has_prefix [] sep then some 0 else none
index (c ∷ s) sep = let rest = index s sep in if has_prefix (c ∷ s) sep then some 0 else suc_of rest

abbrev pub is_space : ℕ → Bool
is_space c = nat_eq c 32 || (leb 9 c && leb c 13)

abbrev push_field : Str → List Str → List Str
push_field [] fs = fs
push_field (c ∷ cs) fs = reverse (c ∷ cs) ∷ fs

-- strings.Fields on ASCII text; the first argument is the field being read, backwards.
unfoldable pub fields_from : Str → Str → List Str
fields_from field [] = push_field field []
fields_from field (c ∷ s) =
    let next = fields_from (if is_space c then [] else c ∷ field) s in
    if is_space c then push_field field next else next

unfoldable pub fields : Str → List Str
unfolding fields_from
fields s = fields_from [] s

abbrev pub is_digit : ℕ → Bool
is_digit c = leb b'0' c && leb c b'9'

unfoldable pub digits_value : ℕ → Str → Option ℕ
digits_value acc [] = some acc
digits_value acc (c ∷ s) =
    let rest = digits_value (acc * 10 + (c - 48)) s in if is_digit c then rest else none

-- A magnitude of at least one digit.
unfoldable pub magnitude : Str → Option ℕ
unfolding digits_value
magnitude [] = none
magnitude (c ∷ s) = digits_value 0 (c ∷ s)

abbrev non_negative : Option ℕ → Option ℤ
non_negative none = none
non_negative (some n) = if ltb n (2 ^ 63) then some (pos n) else none

abbrev negative : Option ℕ → Option ℤ
negative none = none
negative (some zero) = some (pos 0)
negative (some (suc n)) = if ltb n (2 ^ 63) then some (negsuc n) else none

-- strconv.Atoi; `none` for an error, of syntax or of range.
unfoldable pub atoi : Str → Option ℤ
unfolding magnitude
atoi [] = none
atoi (c ∷ s) =
    if nat_eq c b'-'
    then negative (magnitude s)
    else if nat_eq c b'+'
    then non_negative (magnitude s)
    else non_negative (magnitude (c ∷ s))

-- The decimal digits of n behind which `acc` stands, with fuel above n.
unfoldable pub decimal : ℕ → ℕ → Str → Str
decimal zero n acc = acc
decimal (suc f) n acc =
    let digit = n % 10 + 48 in
    let rest = decimal f (n / 10) (digit ∷ acc) in if ltb n 10 then digit ∷ acc else rest

-- The verb %d.
unfoldable pub itoa : ℤ → Str
unfolding decimal
itoa (pos n) = decimal (suc n) n []
itoa (negsuc n) = b'-' ∷ decimal (suc (suc n)) (suc n) []

pub has_prefix-found : (s p : Str) → has_prefix s p ≡ true → (rest : Str) × (s ≡ p ++ rest)
unfolding has_prefix
has_prefix-found s [] h = (s, refl)
has_prefix-found [] (p ∷ ps) h = absurd (ground arith)
has_prefix-found (c ∷ s) (p ∷ ps) h =
    let (rest, e) = has_prefix-found s ps (ground arith) in (rest, ground (arith, e))

-- What an index found is there.
pub index-found :
    (s sep : Str) (n : ℕ)
    → index s sep ≡ some n
    → (pre rest : Str) × (s ≡ pre ++ (sep ++ rest)) × (length pre ≡ n)
unfolding index
index-found [] sep n h = elim (Bool-cases (has_prefix [] sep)) [
  | inl here ↦ let (rest, e) = has_prefix-found [] sep here in ([], rest, e, ground arith)
  | inr gone ↦ absurd (ground arith)
]
index-found (c ∷ s) sep n h = elim (Bool-cases (has_prefix (c ∷ s) sep)) [
  | inl here ↦ let (rest, e) = has_prefix-found (c ∷ s) sep here in ([], rest, e, ground arith)
  | inr later ↦ elim (Option-cases (index s sep)) [
    | inl none_later ↦ absurd (ground arith)
    | inr (m, found) ↦
        let (pre, rest, e, l) = index-found s sep m found in
        (c ∷ pre, rest, ap (λ t. c ∷ t) e, ground arith)
  ]
]

itoa_runs : itoa (pos 2048) ≡ str "2048"
unfolding itoa
itoa_runs = refl

atoi_runs : atoi (str "-17") ≡ some (negsuc 16)
unfolding atoi
atoi_runs = refl

fields_runs : fields (str "  12 Z  ") ≡ str "12" ∷ str "Z" ∷ []
unfolding fields
fields_runs = refl

index_runs : index (str "# UPDATE_CONFIG=FALSE") (str "CONFIG=") ≡ some 9
unfolding index
index_runs = refl
