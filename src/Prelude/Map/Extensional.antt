-- ===== src/Prelude/Map/Extensional.antt =====
-- Maps without a double key that look up alike hold the same entries.
use mathlib.Core.List.Perm
use mathlib.Core.List.{Perm}
use remote_console.Prelude.Tests.{Bool-cases}
use mathlib.Core.Path.{◌≡◌, refl}
use mathlib.Core.Logic.{inl, inr}
use mathlib.Core.Option.{none, some}
use mathlib.Core.List.{[], ◌∷◌}
use native.Mathlib.Omega.{arith}
use remote_console.Prelude.Text.{Str, ◌==◌, ==_iff, ==-sound, ==-refl}
use remote_console.Prelude.Map.{Map, get, delete, Distinct, get-delete, delete-Distinct}

module _ {V : Type 0} where
  delete_missing : (m : Map V) (k : Str) → get m k ≡ none → delete m k ≡ m
  unfolding get delete
  delete_missing [] k h = refl
  delete_missing ((j, w) ∷ m) k h = elim (Bool-cases (j == k)) [
    | inl e ↦ absurd (ground (arith, e, h))
    | inr e ↦
        let rest : get m k ≡ none = ground (arith, e, h) in rw (e, delete_missing m k rest) refl
  ]

  -- An entry can be moved to the front.
  Perm-delete :
      (m : Map V) (k : Str) (v : V) → Distinct m → get m k ≡ some v → Perm m ((k, v) ∷ delete m k)
  unfolding get delete
  Perm-delete [] k v d h = absurd (cc)
  Perm-delete ((j, w) ∷ m) k v d h = elim (Bool-cases (j == k)) [
    | inl e ↦
        let same = ==-sound j k e in
        let value : w ≡ v = ground (arith, e, h) in
        let missing : get m k ≡ none = ground (arith, d.0, same) in
        rw (e, delete_missing m k missing, same, value) (Perm.refl ((k, v) ∷ m))
    | inr e ↦
        let rest : get m k ≡ some v = ground (arith, e, h) in
        rw e (
          Perm.trans (Perm.cons (j, w) (Perm-delete m k v d.1 rest))
            (Perm.swap (k, v) (j, w) (delete m k)))
  ]

  pub Perm_of_get :
      (m n : Map V) → Distinct m → Distinct n → ((k : Str) → get m k ≡ get n k) → Perm m n
  unfolding get
  Perm_of_get [] [] d e h = Perm.nil
  Perm_of_get [] ((k, v) ∷ n) d e h = absurd (ground (arith, h k, ==-refl k))
  Perm_of_get ((k, v) ∷ m) n d e h =
      let found : get n k ≡ some v = ground (arith, h k, ==-refl k) in
      let rest =
        Perm_of_get m (delete n k) d.1 (delete-Distinct n k e)
          (λ j. ground (arith, h j, get-delete n k j, d.0, ==_iff k j)) in
      Perm.trans (Perm.cons (k, v) rest) (Perm.symm (Perm-delete n k v e found))
