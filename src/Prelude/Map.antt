-- ===== src/Prelude/Map.antt =====
-- Go's map[string]V as an association list.
pub mod Extensional
use mathlib.Core.Path.{◌≡◌, refl, sym, ap}
use mathlib.Core.Bool.{Bool, true}
use mathlib.Core.Logic.{inl, inr}
use mathlib.Core.Option.{Option, none, some}
use mathlib.Core.List.{List, [], ◌∷◌, map}
use native.Mathlib.Omega.{arith}
use remote_console.Prelude.Tests.{if◌then◌else◌, is_some, Bool-cases}
use remote_console.Prelude.Lists.{In}
use remote_console.Prelude.Text.{Str, ◌==◌, ==_iff, ==-sound, ==-refl}

abbrev pub Map {ℓ} : Type ℓ → Type ℓ
Map V = List (Str × V)

module _ {ℓ} {V : Type ℓ} where
  -- v, ok := m[k]
  unfoldable pub get : Map V → Str → Option V
  get [] k = none
  get ((j, v) ∷ m) k = if j == k then some v else get m k

  -- m[k] = v
  unfoldable pub put : Map V → Str → V → Map V
  put [] k v = (k, v) ∷ []
  put ((j, w) ∷ m) k v = if j == k then (j, v) ∷ m else (j, w) ∷ put m k v

  -- delete(m, k)
  unfoldable pub delete : Map V → Str → Map V
  delete [] k = []
  delete ((j, w) ∷ m) k = let rest = delete m k in if j == k then rest else (j, w) ∷ rest

  abbrev pub has : Map V → Str → Bool
  has m k = is_some (get m k)

  abbrev pub keys : Map V → List Str
  keys = map λ e. e.0

  -- No key stands twice.
  abbrev pub Distinct : Map V → Type ℓ
  Distinct [] = Unit
  Distinct ((k, v) ∷ m) = (get m k ≡ none) × Distinct m

  pub get-put :
      (m : Map V) (k j : Str) (v : V) → get (put m k v) j ≡ (if k == j then some v else get m j)
  unfolding get put
  get-put [] k j v = refl
  get-put ((i, w) ∷ m) k j v = ground (arith, ==_iff k j, ==_iff i k, ==_iff i j, get-put m k j v)

  pub get-delete : (m : Map V) (k j : Str) → get (delete m k) j ≡ (if k == j then none else get m j)
  unfolding get delete
  get-delete [] k j = ground arith
  get-delete ((i, w) ∷ m) k j = ground (arith, ==_iff k j, ==_iff i k, ==_iff i j, get-delete m k j)

  pub put-Distinct : (m : Map V) (k : Str) (v : V) → Distinct m → Distinct (put m k v)
  unfolding put get
  put-Distinct [] k v d = (refl, tt)
  put-Distinct ((i, w) ∷ m) k v d =
      ground (arith, ==_iff k i, ==_iff i k, put-Distinct m k v d.1, get-put m k i v)

  pub In-keys_of_get : (m : Map V) (k : Str) (v : V) → get m k ≡ some v → In k (keys m)
  unfolding get
  In-keys_of_get [] k v h = cc
  In-keys_of_get ((j, w) ∷ m) k v h = elim (Bool-cases (j == k)) [
    | inl e ↦ inl (sym (==-sound j k e))
    | inr e ↦ inr (In-keys_of_get m k v (ground arith))
  ]

  pub has_of_In-keys : (m : Map V) (k : Str) → In k (keys m) → has m k ≡ true
  unfolding get
  has_of_In-keys [] k i = absurd i
  has_of_In-keys ((j, w) ∷ m) k (inl e) = ground (arith, ==_iff j k)
  has_of_In-keys ((j, w) ∷ m) k (inr i) = ground (arith, has_of_In-keys m k i)

-- What is found is an entry.
pub In_of_get : {V : Type 0} (m : Map V) (k : Str) (v : V) → get m k ≡ some v → In (k, v) m
unfolding get
In_of_get [] k v h = absurd (cc)
In_of_get ((j, w) ∷ m) k v h = elim (Bool-cases (j == k)) [
  | inl e ↦
      let same = ==-sound j k e in
      let value : w ≡ v = ground (arith, e, h) in inl (rw (same, value) refl)
  | inr e ↦ inr (In_of_get m k v (ground (arith, e, h)))
]

-- A table with distinct keys has each of its entries.
pub get_of_In :
    {V : Type 0} (m : Map V) (k : Str) (v : V) → Distinct m → In (k, v) m → get m k ≡ some v
unfolding get
get_of_In [] k v d i = absurd i
get_of_In ((j, w) ∷ m) k v d (inl e) = rw (ap (λ p. p.0) e, ap (λ p. p.1) e, ==-refl j)
get_of_In ((j, w) ∷ m) k v d (inr i) = ground (arith, ==_iff j k, get_of_In m k v d.1 i)

pub get_of_delete-none :
    {V : Type 0} (m : Map V) (k j : Str) → get m j ≡ none → get (delete m k) j ≡ none
get_of_delete-none m k j h = ground (arith, get-delete m k j)

pub delete-Distinct : {V : Type 0} (m : Map V) (k : Str) → Distinct m → Distinct (delete m k)
unfolding delete
delete-Distinct [] k d = tt
delete-Distinct ((i, w) ∷ m) k d =
    ground (arith, delete-Distinct m k d.1, get_of_delete-none m k i d.0)
