-- ===== src/Prelude/Text.antt =====
-- Go strings: immutable sequences of bytes. A source literal is the list of its (ASCII) codes.
use Prim.Native.Nat.{ℕ, compare, Ordering}
use Prim.Native.Char.{code}
use Prim.Native.String.{String}
use mathlib.Core.Path.{◌≡◌, refl}
use mathlib.Core.Logic.{◌↔◌}
use mathlib.Core.Bool.{Bool, true, false, ◌&&◌}
use mathlib.Core.List.{List, [], ◌∷◌}
use native.Mathlib.Omega.{arith}
use native.Mathlib.Nat.{ℕ_set}
use remote_console.Prelude.Tests.{nat_eq}

abbrev pub Str : Type 0
Str = List ℕ

abbrev pub str : String → Str
str String.[] = []
str (String.◌∷◌ c s) = code c ∷ str s

infix 50 ◌==◌
unfoldable pub ◌==◌ : Str → Str → Bool
[] == [] = true
[] == (y ∷ ys) = false
(x ∷ xs) == [] = false
(x ∷ xs) == (y ∷ ys) = nat_eq x y && xs == ys

pub ==-sound : (s t : Str) → (s == t) ≡ true → s ≡ t
unfolding ◌==◌
==-sound [] [] h = refl
==-sound [] (y ∷ ys) h = ground arith
==-sound (x ∷ xs) [] h = ground arith
==-sound (x ∷ xs) (y ∷ ys) h = ground (arith, ==-sound xs ys)

pub ==-refl : (s : Str) → (s == s) ≡ true
unfolding ◌==◌
==-refl [] = refl
==-refl (x ∷ xs) = ground (arith, ==-refl xs)

pub ==_iff : (s t : Str) → ((s == t) ≡ true) ↔ (s ≡ t)
==_iff s t = (==-sound s t, λ e. rw (← e) (==-refl s))

pub Str-set : IsSet Str
Str-set = hlevel ℕ_set

-- `s <= t` on Go strings: lexicographic on bytes.
unfoldable pub str_leb : Str → Str → Bool
str_leb [] ys = true
str_leb (x ∷ xs) [] = false
str_leb (x ∷ xs) (y ∷ ys) =
    let rest = str_leb xs ys in
    elim (compare x y) [ Ordering.lt ↦ true | Ordering.eq ↦ rest | Ordering.gt ↦ false ]

pub str_leb-total : (s t : Str) → str_leb s t ≡ false → str_leb t s ≡ true
unfolding str_leb
str_leb-total [] t h = ground arith
str_leb-total (x ∷ xs) [] h = refl
str_leb-total (x ∷ xs) (y ∷ ys) h = ground (arith, str_leb-total xs ys)

pub str_leb-antisym : (s t : Str) → str_leb s t ≡ true → str_leb t s ≡ true → s ≡ t
unfolding str_leb
str_leb-antisym [] [] h k = refl
str_leb-antisym [] (y ∷ ys) h k = ground arith
str_leb-antisym (x ∷ xs) [] h k = ground arith
str_leb-antisym (x ∷ xs) (y ∷ ys) h k = ground (arith, str_leb-antisym xs ys)

pub str_leb_trans : (s t u : Str) → str_leb s t ≡ true → str_leb t u ≡ true → str_leb s u ≡ true
unfolding str_leb
str_leb_trans [] t u h k = refl
str_leb_trans (x ∷ xs) [] u h k = ground arith
str_leb_trans (x ∷ xs) (y ∷ ys) [] h k = ground arith
str_leb_trans (x ∷ xs) (y ∷ ys) (z ∷ zs) h k = ground (arith, str_leb_trans xs ys zs)
