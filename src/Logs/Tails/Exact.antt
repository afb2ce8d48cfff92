-- ===== src/Logs/Tails/Exact.antt =====
-- What a call of AggregateFiles leaves in the map and of the watchers.
use remote_console.Prelude.{
  All, List, ℕ, ◌≡◌, refl, inl, inr, true, false, none, some, List, [], ◌∷◌, if◌then◌else◌, length,
  In, arith, Option-cases,
}
use remote_console.Prelude.Text.{Str, ==_iff}
use remote_console.Prelude.Map.{get, has, keys, get-put, get-delete, In-keys_of_get}
use remote_console.Nodes.Registry.{NodeMap}
use remote_console.Logs.Tails.{
  Tails, aggregate_file, stop_tailing, start_new, stop_removed, aggregate_files,
}
use remote_console.Logs.Tails.Live.{live, Reach, Reach-IsTended}

module _ (path : Str) where
  aggregate_file-kept :
      (t : Tails) (y x : Str) (c : ℕ)
      → get t.tail_cancel_by_node x ≡ some c
      → get (aggregate_file t path y).tail_cancel_by_node x ≡ some c
  unfolding aggregate_file
  aggregate_file-kept t y x c h =
      ground (arith, get-put t.tail_cancel_by_node y x t.next_context, ==_iff y x)

  start_new-kept :
      (xs : List Str) (t : Tails) (x : Str) (c : ℕ)
      → get t.tail_cancel_by_node x ≡ some c
      → get (start_new t path xs).tail_cancel_by_node x ≡ some c
  unfolding start_new
  start_new-kept [] t x c h = h
  start_new-kept (y ∷ ys) t x c h = start_new-kept ys _ x c (aggregate_file-kept t y x c h)

  aggregate_file-has :
      (t : Tails) (x : Str)
      → (c : ℕ) × (get (aggregate_file t path x).tail_cancel_by_node x ≡ some c)
  unfolding aggregate_file
  aggregate_file-has t x = elim (Option-cases (get t.tail_cancel_by_node x)) [
    | inl gone ↦ (
      t.next_context,
      ground (arith, get-put t.tail_cancel_by_node x x t.next_context, ==_iff x x),
    )
    | inr (c, e) ↦ (c, ground (arith, e))
  ]

  start_new-has :
      (xs : List Str) (t : Tails) (x : Str)
      → In x xs
      → has (start_new t path xs).tail_cancel_by_node x ≡ true
  unfolding start_new
  start_new-has [] t x i = absurd i
  start_new-has (y ∷ ys) t x (inl e) =
      let (c, h) = aggregate_file-has t x in
      rw (← e, start_new-kept ys (aggregate_file t path x) x c h) refl
  start_new-has (y ∷ ys) t x (inr i) = start_new-has ys _ x i

module _ (nodes : NodeMap) where
  stop_removed-kept :
      (xs : List Str) (t : Tails) (x : Str)
      → has nodes x ≡ true
      → get (stop_removed t nodes xs).tail_cancel_by_node x ≡ get t.tail_cancel_by_node x
  unfolding stop_removed stop_tailing
  stop_removed-kept [] t x h = refl
  stop_removed-kept (y ∷ ys) t x h = ground (
    arith,
    stop_removed-kept ys t x h,
    stop_removed-kept ys (stop_tailing t y) x h,
    get-delete t.tail_cancel_by_node y x,
    ==_iff y x,
  )

  stop_removed-gone :
      (xs : List Str) (t : Tails) (x : Str)
      → get t.tail_cancel_by_node x ≡ none
      → get (stop_removed t nodes xs).tail_cancel_by_node x ≡ none
  unfolding stop_removed stop_tailing
  stop_removed-gone [] t x h = h
  stop_removed-gone (y ∷ ys) t x h = ground (
    arith,
    stop_removed-gone ys t x h,
    stop_removed-gone ys (stop_tailing t y) x,
    get-delete t.tail_cancel_by_node y x,
    ==_iff y x,
  )

  stop_tailing-gone : (t : Tails) (x : Str) → get (stop_tailing t x).tail_cancel_by_node x ≡ none
  unfolding stop_tailing
  stop_tailing-gone t x = ground (arith, get-delete t.tail_cancel_by_node x x, ==_iff x x)

  stop_removed-removed :
      (xs : List Str) (t : Tails) (x : Str)
      → has nodes x ≡ false
      → In x xs
      → get (stop_removed t nodes xs).tail_cancel_by_node x ≡ none
  unfolding stop_removed
  stop_removed-removed [] t x h i = absurd i
  stop_removed-removed (y ∷ ys) t x h (inl e) =
      rw (← e)
        (ground (arith, stop_removed-gone ys (stop_tailing t x) x (stop_tailing-gone t x), h))
  stop_removed-removed (y ∷ ys) t x h (inr i) = stop_removed-removed ys _ x h i

pub aggregate_files-has :
    (t : Tails) (path : Str) (nodes : NodeMap) (x : Str)
    → has (aggregate_files t path nodes).tail_cancel_by_node x ≡ has nodes x
unfolding aggregate_files
aggregate_files-has t path nodes x =
    let started = start_new t path (keys nodes) in
    let ends = keys started.tail_cancel_by_node in
    elim (Option-cases (get nodes x)) [
      | inl gone ↦ elim (Option-cases (get started.tail_cancel_by_node x)) [
        | inl never ↦ ground (arith, stop_removed-gone nodes ends started x never, gone)
        | inr (c, e) ↦ ground (
          arith,
          stop_removed-removed nodes ends started x (rw gone refl)
              (In-keys_of_get started.tail_cancel_by_node x c e),
          gone,
        )
      ]
      | inr (p, e) ↦ ground (
        arith,
        stop_removed-kept nodes ends started x (rw e refl),
        start_new-has path (keys nodes) t x (In-keys_of_get nodes x p e),
        e,
      )
    ]

aggregate_files-kept :
    (t : Tails) (path : Str) (nodes : NodeMap) (x : Str) (c : ℕ)
    → has nodes x ≡ true
    → get t.tail_cancel_by_node x ≡ some c
    → get (aggregate_files t path nodes).tail_cancel_by_node x ≡ some c
unfolding aggregate_files
aggregate_files-kept t path nodes x c h k =
    let started = start_new t path (keys nodes) in
    rw (stop_removed-kept nodes (keys started.tail_cancel_by_node) started x h)
      (start_new-kept path (keys nodes) t x c k)

-- After any calls, a call leaves each node of its list with one watcher that is not canceled, and
-- every other node with none.
aggregate_files-live :
    {t : Tails} (path : Str)
    → Reach path t
    → (nodes : NodeMap) (x : Str)
    → length
        (live (aggregate_files t path nodes).canceled x (aggregate_files t path nodes).watchers)
      ≡ (if has nodes x then 1 else 0)
aggregate_files-live {t = t} path r nodes x =
    ground
      (arith, (Reach-IsTended (Reach.later r nodes)).tended x, aggregate_files-has t path nodes x)

-- After any calls, a call leaves a node that stays in the list the watcher that it had.
aggregate_files_kept :
    {t : Tails} (path : Str)
    → Reach path t
    → (nodes : NodeMap) (x : Str) (c : ℕ) → has nodes x ≡ true
    → live t.canceled x t.watchers ≡ c ∷ []
    → live (aggregate_files t path nodes).canceled x (aggregate_files t path nodes).watchers
      ≡ c ∷ []
aggregate_files_kept {t = t} path r nodes x c h k =
    let before = (Reach-IsTended r).tended x in
    let held : get t.tail_cancel_by_node x ≡ some c = ground (arith, before, k) in
    rw
      (
        (Reach-IsTended (Reach.later r nodes)).tended x,
        aggregate_files-kept t path nodes x c h held,
      )
      refl

abbrev pub aggregate_all : Str → Tails → List NodeMap → Tails
aggregate_all path t [] = t
aggregate_all path t (nodes ∷ calls) = aggregate_all path (aggregate_files t path nodes) calls

-- After any calls, a node that stays in the lists of all the calls that follow keeps the one watcher
-- that it had: none is started in its place.
pub aggregate_all_kept :
    {t : Tails} (path : Str)
    → Reach path t
    → (calls : List NodeMap) (x : Str) (c : ℕ) → All (λ nodes. has nodes x ≡ true) calls
    → live t.canceled x t.watchers ≡ c ∷ []
    → live (aggregate_all path t calls).canceled x (aggregate_all path t calls).watchers ≡ c ∷ []
aggregate_all_kept path r [] x c h k = k
aggregate_all_kept {t = t} path r (nodes ∷ calls) x c h k =
    aggregate_all_kept {t = aggregate_files t path nodes} path (Reach.later r nodes) calls x c h.1
      (aggregate_files_kept path r nodes x c h.0 k)
