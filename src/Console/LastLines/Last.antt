-- ===== src/Console/LastLines/Last.antt =====
-- The ring gives the last lines in order.
use Prim.Native.Nat.{ℕ, zero, suc, ◌-◌, ◌<◌, ◌≤◌}
use mathlib.Core.List.{append_assoc}
use remote_console.Prelude.{
  ◌≡◌, refl, ap, sym, inl, inr, ◌∙◌, Option, none, some, List, [], ◌∷◌, ◌++◌, ok, arith, length,
  drop, ltb, Bool-cases,
}
use remote_console.Prelude.Text.{Str}
use remote_console.Console.LastLines.{
  ring, prev, move_back, fill, read_ring, last_of_ring, scan_lines, read_last_n_lines,
}

module _ {A : Type 0} where
  abbrev values : List A → List (Option A)
  values [] = []
  values (a ∷ xs) = some a ∷ values xs

  length-values : (xs : List A) → length (values xs) ≡ length xs
  length-values [] = refl
  length-values (a ∷ xs) = ground (arith, length-values xs)

  append-empty : (r : List (Option A)) → r ++ [] ≡ r
  append-empty [] = refl
  append-empty (v ∷ r) = ap (λ t. v ∷ t) (append-empty r)

  fill-drop :
      (lines : List A) (v : Option A) (r : List (Option A))
      → fill (v ∷ r) lines ≡ drop (length lines) ((v ∷ r) ++ values lines)
  unfolding fill
  fill-drop [] v r = sym (append-empty (v ∷ r))
  fill-drop (a ∷ lines) v [] = fill-drop lines (some a) []
  fill-drop (a ∷ lines) v (w ∷ r) =
      fill-drop lines w (r ++ some a ∷ [])
      ∙ ap (drop (length lines)) (ap (λ t. w ∷ t) (append_assoc r (some a ∷ []) (values lines)))

  prev-snoc : (r : List (Option A)) (v : Option A) → prev (r ++ v ∷ []) ≡ v ∷ r
  unfolding prev
  prev-snoc [] v = refl
  prev-snoc (w ∷ r) v = rw (prev-snoc r v) refl

  move_back-append : (r s : List (Option A)) → move_back (length s) (r ++ s) ≡ s ++ r
  unfolding move_back
  move_back-append r [] = append-empty r
  move_back-append r (v ∷ s) =
      rw
        (← append_assoc r (v ∷ []) s, move_back-append (r ++ v ∷ []) s, ← append_assoc s r (v ∷ []))
        (prev-snoc (s ++ r) v)

  read_ring-values :
      (xs : List A) (r : List (Option A)) → read_ring (length xs) (values xs ++ r) ≡ xs
  unfolding read_ring
  read_ring-values [] r = refl
  read_ring-values (a ∷ xs) r =
      rw (append_assoc (values xs) r (some a ∷ []), read_ring-values xs (r ++ some a ∷ [])) refl

  drop_few : (c n : ℕ) (s : List (Option A)) → c ≤ n → drop c (ring n ++ s) ≡ ring (n - c) ++ s
  drop_few zero n s h = ap (λ k. ring k ++ s) (omega arith)
  drop_few (suc c) zero s h = absurd (omega (arith, h))
  drop_few (suc c) (suc n) s h =
      drop_few c n s (omega (arith, h)) ∙ ap (λ k. ring k ++ s) (omega arith)

  drop_many : (c n : ℕ) (s : List (Option A)) → n ≤ c → drop c (ring n ++ s) ≡ drop (c - n) s
  drop_many c zero s h = ap (λ k. drop k s) (omega arith)
  drop_many zero (suc n) s h = absurd (omega (arith, h))
  drop_many (suc c) (suc n) s h =
      drop_many c n s (omega (arith, h)) ∙ ap (λ k. drop k s) (omega arith)

  drop-values : (c : ℕ) (xs : List A) → drop c (values xs) ≡ values (drop c xs)
  drop-values zero xs = refl
  drop-values (suc c) [] = refl
  drop-values (suc c) (a ∷ xs) = drop-values c xs

  length-drop : (c : ℕ) (xs : List A) → length (drop c xs) ≡ length xs - c
  length-drop zero xs = omega arith
  length-drop (suc c) [] = omega arith
  length-drop (suc c) (a ∷ xs) = omega (arith, length-drop c xs)

  drop_none : (k : ℕ) (xs : List A) → k ≡ 0 → drop k xs ≡ xs
  drop_none k xs h = rw h refl

  read_few :
      (n : ℕ) (lines : List A)
      → length lines < n
      → read_ring (length lines) (move_back (length lines) (fill (ring n) lines)) ≡ lines
  read_few zero lines h = absurd (omega (arith, h))
  read_few (suc n) lines h =
      let c = length lines in
      let filled =
        fill-drop lines none (ring n) ∙ drop_few c (suc n) (values lines) (omega (arith, h)) in
      let m = suc n - c in
      let back : move_back c (ring m ++ values lines) ≡ values lines ++ ring m =
        ap (λ k. move_back k (ring m ++ values lines)) (sym (length-values lines))
        ∙ move_back-append (ring m) (values lines) in
      rw (filled, back) (read_ring-values lines (ring m))

  read_many :
      (n : ℕ) (lines : List A)
      → 0 < n
      → n ≤ length lines
      → read_ring n (fill (ring n) lines) ≡ drop (length lines - n) lines
  read_many zero lines p h = absurd (omega (arith, p))
  read_many (suc n) lines p h =
      let c = length lines in
      let filled =
        fill-drop lines none (ring n)
        ∙ drop_many c (suc n) (values lines) h
        ∙ drop-values (c - suc n) lines in
      let last = drop (c - suc n) lines in
      let size : suc n ≡ length last = omega (arith, length-drop (c - suc n) lines, h) in
      rw filled (
        ap (λ k. read_ring k (values last)) size
        ∙ ap (read_ring (length last)) (sym (append-empty (values last)))
        ∙ read_ring-values last [])

  -- Any number of lines but none: the ring gives the last ones in order, all if there are fewer.
  pub last_of_ring-drop :
      (n : ℕ) (lines : List A) → 0 < n → last_of_ring n lines ≡ drop (length lines - n) lines
  unfolding last_of_ring
  last_of_ring-drop n lines h = elim (Bool-cases (ltb (length lines) n)) [
    | inl few ↦
        rw few (
          read_few n lines (ground arith) ∙ sym (drop_none (length lines - n) lines (ground arith)))
    | inr many ↦ rw many (read_many n lines h (ground arith))
  ]

-- For a file without a line that is too long, and a positive number of lines, the call gives the last
-- lines in order, all if there are fewer, and the file's length as the position.
pub read_last_n_lines-drop :
    (content : Str) (lines : List Str) (n : ℕ)
    → 0 < n
    → scan_lines content ≡ ok lines
    → read_last_n_lines (ok content) n ≡ ok (drop (length lines - n) lines, length content)
unfolding read_last_n_lines
read_last_n_lines-drop content lines n h scanned = rw (scanned, last_of_ring-drop n lines h) refl
