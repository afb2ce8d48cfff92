-- ===== src/Conman/Base64.antt =====
-- base64.StdEncoding.EncodeToString of Go's library, and the characters that it uses.
use remote_console.Prelude.{
  ℕ, ◌+◌, ◌-◌, ◌*◌, ◌/◌, ◌%◌, ◌≡◌, refl, Bool, true, ◌||◌, ◌&&◌, [], ◌∷◌, arith, leb, ltb, nat_eq,
  if◌then◌else◌, All,
}
use remote_console.Prelude.Text.{Str, str}

sextet : ℕ → ℕ
sextet v =
    if ltb v 26
    then v + 65
    else if ltb v 52
    then v + 71
    else if ltb v 62
    then v + 48 - 52
    else if nat_eq v 62
    then b'+'
    else b'/'

unfoldable pub encode_to_string : Str → Str
unfolding sextet
encode_to_string [] = []
encode_to_string (a ∷ []) = sextet (a / 4) ∷ sextet (a % 4 * 16) ∷ b'=' ∷ b'=' ∷ []
encode_to_string (a ∷ b ∷ []) =
    sextet (a / 4) ∷ sextet (a % 4 * 16 + b / 16) ∷ sextet (b % 16 * 4) ∷ b'=' ∷ []
encode_to_string (a ∷ b ∷ c ∷ s) =
    sextet (a / 4)
    ∷ sextet (a % 4 * 16 + b / 16)
    ∷ sextet (b % 16 * 4 + c / 64)
    ∷ sextet (c % 64)
    ∷ encode_to_string s

-- Neither a quote, nor a blank, nor another character that would end an argument.
abbrev pub is_plain : ℕ → Bool
is_plain c =
    (leb b'A' c && leb c b'Z')
    || (leb b'a' c && leb c b'z')
    || (leb b'0' c && leb c b'9')
    || nat_eq c b'+'
    || nat_eq c b'/'
    || nat_eq c b'='

sextet-plain : (v : ℕ) → is_plain (sextet v) ≡ true
unfolding sextet
sextet-plain v = ground arith

pub encode_to_string-plain : (s : Str) → All (λ c. is_plain c ≡ true) (encode_to_string s)
unfolding encode_to_string
encode_to_string-plain [] = tt
encode_to_string-plain (a ∷ []) =
    (sextet-plain (a / 4), (sextet-plain (a % 4 * 16), (refl, (refl, tt))))
encode_to_string-plain (a ∷ b ∷ []) = (
  sextet-plain (a / 4),
  (sextet-plain (a % 4 * 16 + b / 16), (sextet-plain (b % 16 * 4), (refl, tt))),
)
encode_to_string-plain (a ∷ b ∷ c ∷ s) = (
  sextet-plain (a / 4),
  (
    sextet-plain (a % 4 * 16 + b / 16),
    (sextet-plain (b % 16 * 4 + c / 64), (sextet-plain (c % 64), encode_to_string-plain s)),
  ),
)

encode_runs : encode_to_string (str "start /SP/console") ≡ str "c3RhcnQgL1NQL2NvbnNvbGU="
unfolding encode_to_string
encode_runs = refl
