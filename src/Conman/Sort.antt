-- ===== src/Conman/Sort.antt =====
-- sort.Strings of Go's library. Equal strings are identical, so the result is the only sorted list.
use remote_console.Prelude.{◌≡◌, refl, inl, inr, List, [], ◌∷◌, arith, if◌then◌else◌, In}
use remote_console.Prelude.Text.{Str, str_leb, str_leb-total, str_leb-antisym, str_leb_trans}

unfoldable pub insert : Str → List Str → List Str
insert x [] = x ∷ []
insert x (y ∷ ys) = let rest = insert x ys in if str_leb x y then x ∷ y ∷ ys else y ∷ rest

unfoldable pub sort_strings : List Str → List Str
unfolding insert
sort_strings [] = []
sort_strings (x ∷ xs) = insert x (sort_strings xs)

pub insert_comm : (a b : Str) (ys : List Str) → insert a (insert b ys) ≡ insert b (insert a ys)
unfolding insert
insert_comm a b [] = ground (arith, str_leb-total a b, str_leb-total b a, str_leb-antisym a b)
insert_comm a b (y ∷ ys) = ground (
  arith,
  insert_comm a b ys,
  str_leb-total a b,
  str_leb-total b a,
  str_leb-antisym a b,
  str_leb-total a y,
  str_leb-total b y,
  str_leb_trans a b y,
  str_leb_trans b a y,
)

In-insert_self : (x : Str) (ys : List Str) → In x (insert x ys)
unfolding insert
In-insert_self x [] = inl refl
In-insert_self x (y ∷ ys) = ground (arith, In-insert_self x ys)

In-insert : (a x : Str) (ys : List Str) → In a ys → In a (insert x ys)
unfolding insert
In-insert a x [] i = absurd i
In-insert a x (y ∷ ys) (inl e) = ground arith
In-insert a x (y ∷ ys) (inr i) = ground (arith, In-insert a x ys i)

pub In-sort_strings : (a : Str) (xs : List Str) → In a xs → In a (sort_strings xs)
unfolding sort_strings
In-sort_strings a [] i = absurd i
In-sort_strings a (x ∷ xs) (inl e) = rw e (In-insert_self x (sort_strings xs))
In-sort_strings a (x ∷ xs) (inr i) = In-insert a x (sort_strings xs) (In-sort_strings a xs i)
