-- ===== src/Nodes/Registry/Sweep.antt =====
-- The loop of a refresh that removes what was not fetched.
use remote_console.Prelude.{
  In, All, inl, inr, ◌≡◌, refl, Bool, true, false, none, List, [], ◌∷◌, arith,
}
use remote_console.Prelude.Text.{Str, ==_iff}
use remote_console.Prelude.Map.{Map, get, delete, has, get-delete}
use remote_console.Nodes.Info.{NodeConsoleInfo}
use remote_console.Nodes.Registry.{NodeMap, remove_missing}

module _ (by_id : Map NodeConsoleInfo) where
  get-remove_missing_of_fetched :
      (ids : List Str) (m : NodeMap) (c : Bool) (k : Str)
      → has by_id k ≡ true
      → get (remove_missing by_id ids (m, c)).0 k ≡ get m k
  unfolding remove_missing
  get-remove_missing_of_fetched [] m c k h = refl
  get-remove_missing_of_fetched (id ∷ ids) m c k h = ground (
    arith,
    ==_iff id k,
    get-delete m id k,
    get-remove_missing_of_fetched ids m c k h,
    get-remove_missing_of_fetched ids (delete m id) true k h,
  )

  pub get-remove_missing_of_none :
      (ids : List Str) (m : NodeMap) (c : Bool) (k : Str)
      → get m k ≡ none
      → get (remove_missing by_id ids (m, c)).0 k ≡ none
  unfolding remove_missing
  get-remove_missing_of_none [] m c k h = h
  get-remove_missing_of_none (id ∷ ids) m c k h = ground (
    arith,
    get-delete m id k,
    get-remove_missing_of_none ids m c k h,
    get-remove_missing_of_none ids (delete m id) true k,
  )

  pub get-remove_missing_of_missing :
      (ids : List Str) (m : NodeMap) (c : Bool) (k : Str)
      → has by_id k ≡ false
      → In k ids
      → get (remove_missing by_id ids (m, c)).0 k ≡ none
  unfolding remove_missing
  get-remove_missing_of_missing [] m c k h i = absurd i
  get-remove_missing_of_missing (id ∷ ids) m c k h (inl e) =
      ground
        (arith, ==_iff id k, get-delete m id k, get-remove_missing_of_none ids (delete m id) true k)
  get-remove_missing_of_missing (id ∷ ids) m c k h (inr i) = ground (
    arith,
    get-remove_missing_of_missing ids m c k h i,
    get-remove_missing_of_missing ids (delete m id) true k h i,
  )

  remove_missing_flag :
      (ids : List Str) (m : NodeMap) → (remove_missing by_id ids (m, true)).1 ≡ true
  unfolding remove_missing
  remove_missing_flag [] m = refl
  remove_missing_flag (id ∷ ids) m =
      ground (arith, remove_missing_flag ids m, remove_missing_flag ids (delete m id))

  pub remove_missing_unflagged :
      (ids : List Str) (m : NodeMap) (c : Bool)
      → (remove_missing by_id ids (m, c)).1 ≡ false
      → remove_missing by_id ids (m, c) ≡ (m, false)
  unfolding remove_missing
  remove_missing_unflagged [] m c h = ground arith
  remove_missing_unflagged (id ∷ ids) m c h =
      ground (arith, remove_missing_unflagged ids m c, remove_missing_flag ids (delete m id))

  pub remove_missing_idle :
      (ids : List Str) (s : NodeMap × Bool)
      → All (λ id. has by_id id ≡ true) ids
      → remove_missing by_id ids s ≡ s
  unfolding remove_missing
  remove_missing_idle [] s h = refl
  remove_missing_idle (id ∷ ids) s h = rw h.0 (remove_missing_idle ids s h.1)
