-- ===== src/Logs/Tails/Live.antt =====
-- Each node of the list has one watcher that is not canceled, and no other node has one.
use remote_console.Prelude.{
  ℕ, ◌+◌, ◌<◌, ◌≡◌, refl, inl, inr, Bool, true, false, ◌&&◌, ◌||◌, not, Option, none, some, List,
  [], ◌∷◌, if◌then◌else◌, nat_eq, arith, Bool-cases, Option-cases,
}
use remote_console.Prelude.Text.{Str, ◌==◌, ==_iff}
use remote_console.Prelude.Map.{get, delete, has, keys, get-put, get-delete}
use remote_console.Nodes.Registry.{NodeMap}
use remote_console.Logs.Tails.{
  Watcher, Tails, no_tails, aggregate_file, stop_tailing, start_new, stop_removed, aggregate_files,
}

abbrev pub is_canceled : List ℕ → ℕ → Bool
is_canceled [] c = false
is_canceled (d ∷ ds) c = nat_eq d c || is_canceled ds c

abbrev add_if : Bool → ℕ → List ℕ → List ℕ
add_if true c cs = c ∷ cs
add_if false c cs = cs

-- The contexts of the watchers of a node that are not canceled.
abbrev pub live : List ℕ → Str → List Watcher → List ℕ
live canceled xname [] = []
live canceled xname (w ∷ ws) =
    add_if (w.xname == xname && not (is_canceled canceled w.context)) w.context
      (live canceled xname ws)

abbrev pub to_list : Option ℕ → List ℕ
to_list none = []
to_list (some c) = c ∷ []

-- The map holds the context of the one live watcher of a node; contexts are not used twice.
pub record IsTended (t : Tails) : Type 0 where
  pub tended : (x : Str) → live t.canceled x t.watchers ≡ to_list (get t.tail_cancel_by_node x)
  fresh : is_canceled t.canceled t.next_context ≡ false
  later : (c : ℕ) → t.next_context < c → is_canceled t.canceled c ≡ false
  known : (x : Str) (c : ℕ) → get t.tail_cancel_by_node x ≡ some c → c < t.next_context
  injective :
      (x y : Str) (c : ℕ)
      → get t.tail_cancel_by_node x ≡ some c
      → get t.tail_cancel_by_node y ≡ some c
      → x ≡ y

no_tails-IsTended : IsTended no_tails
unfolding get
no_tails-IsTended = record {
  tended = λ x. refl;
  fresh = refl;
  later = λ c h. refl;
  known = λ x c h. absurd (cc);
  injective = λ x y c h k. absurd (cc);
}

aggregate_file-IsTended :
    (t : Tails) (path x : Str) → IsTended t → IsTended (aggregate_file t path x)
unfolding aggregate_file
aggregate_file-IsTended t path x i = elim (Option-cases (get t.tail_cancel_by_node x)) [
  | inl gone ↦ rw gone (record {
    tended = λ y. ground (
      arith,
      i.tended y,
      i.fresh,
      get-put t.tail_cancel_by_node x y t.next_context,
      ==_iff x y,
      gone,
    );
    fresh = i.later (t.next_context + 1) (omega arith);
    later = λ c h. i.later c (omega (arith, h));
    known = λ y c h. ground (arith, i.known y c, get-put t.tail_cancel_by_node x y t.next_context);
    injective = λ y z c h k. ground (
      arith,
      i.known y c,
      i.known z c,
      i.injective y z c,
      get-put t.tail_cancel_by_node x y t.next_context,
      get-put t.tail_cancel_by_node x z t.next_context,
      ==_iff x y,
      ==_iff x z,
    );
  })
  | inr (c, e) ↦ rw e i
]

-- Canceling one context takes its watchers away and leaves the others.
without : ℕ → List ℕ → List ℕ
without c [] = []
without c (d ∷ ds) = let rest = without c ds in if nat_eq c d then rest else d ∷ rest

live-cancel :
    (c : ℕ) (canceled : List ℕ) (x : Str) (ws : List Watcher)
    → live (c ∷ canceled) x ws ≡ without c (live canceled x ws)
unfolding without
live-cancel c canceled x [] = refl
live-cancel c canceled x (w ∷ ws) = ground (arith, live-cancel c canceled x ws)

stop_known :
    (t : Tails) (x : Str) (c : ℕ)
    → IsTended t
    → get t.tail_cancel_by_node x ≡ some c
    → IsTended (record t {
      canceled = c ∷ t.canceled;
      tail_cancel_by_node = delete t.tail_cancel_by_node x;
    })
unfolding without
stop_known t x c i e = record {
  tended = λ y. ground (
    arith,
    live-cancel c t.canceled y t.watchers,
    i.tended y,
    get-delete t.tail_cancel_by_node x y,
    i.injective x y c,
    ==_iff x y,
  );
  fresh = ground (arith, i.fresh, i.known x c e);
  later = λ d h. ground (arith, i.later d, i.known x c e);
  known = λ y d h. ground (arith, i.known y d, get-delete t.tail_cancel_by_node x y);
  injective = λ y z d h k. ground (
    arith,
    i.injective y z d,
    get-delete t.tail_cancel_by_node x y,
    get-delete t.tail_cancel_by_node x z,
  );
}

stop_tailing-IsTended : (t : Tails) (x : Str) → IsTended t → IsTended (stop_tailing t x)
unfolding stop_tailing
stop_tailing-IsTended t x i = elim (Option-cases (get t.tail_cancel_by_node x)) [
  | inl gone ↦ rw (gone, stop_tailing) i
  | inr (c, e) ↦ rw (e, stop_tailing) (stop_known t x c i e)
]

start_new-IsTended :
    (t : Tails) (path : Str) (xs : List Str) → IsTended t → IsTended (start_new t path xs)
unfolding start_new
start_new-IsTended t path [] i = i
start_new-IsTended t path (x ∷ xs) i =
    start_new-IsTended (aggregate_file t path x) path xs (aggregate_file-IsTended t path x i)

stop_removed-IsTended :
    (t : Tails) (nodes : NodeMap) (xs : List Str) → IsTended t → IsTended (stop_removed t nodes xs)
unfolding stop_removed
stop_removed-IsTended t nodes [] i = i
stop_removed-IsTended t nodes (x ∷ xs) i = elim (Bool-cases (has nodes x)) [
  | inl kept ↦ rw kept (stop_removed-IsTended t nodes xs i)
  | inr gone ↦
      rw gone (stop_removed-IsTended (stop_tailing t x) nodes xs (stop_tailing-IsTended t x i))
]

-- The state after some calls, each with its own list of nodes.
pub data Reach (path : Str) : Tails → Type 0 where
  start : Reach path no_tails
  later : {t : Tails} → Reach path t → (nodes : NodeMap) → Reach path (aggregate_files t path nodes)

pub Reach-IsTended : {path : Str} {t : Tails} → Reach path t → IsTended t
unfolding aggregate_files
Reach-IsTended start = no_tails-IsTended
Reach-IsTended {path = path} (later {t} r nodes) =
    let started = start_new t path (keys nodes) in
    stop_removed-IsTended started nodes (keys started.tail_cancel_by_node)
      (start_new-IsTended t path (keys nodes) (Reach-IsTended r))
