-- ===== src/Console/Tail/Bounds.antt =====
-- What a line of the history takes from the rate limiter's bucket.
use Prim.Native.Nat.{zero, suc, ◌+◌, ◌*◌, ◌-◌, ◌≤◌, ◌<◌}
use remote_console.Prelude.{
  ℕ, ◌≡◌, refl, List, [], ◌∷◌, ◌++◌, ok, arith, length, ltb, drop, All, In, All-In, Bool-cases,
  Result-cases, inl, inr,
}
use remote_console.Prelude.Text.{Str}
use remote_console.Console.LastLines.{
  drop_cr, max_line_length, raw_lines, scan, scan_lines, read_last_n_lines,
}
use remote_console.Console.LastLines.Last.{read_last_n_lines-drop}
use remote_console.Console.Tail.{line_text}
use remote_console.Console.Tail.Session.{kilobytes, rate_limit_burst_kb}

abbrev IsShort : Str → Type 0
IsShort line = length line < max_line_length

length-drop_cr : (s : Str) → length (drop_cr s) ≤ length s
unfolding drop_cr
length-drop_cr [] = omega arith
length-drop_cr (c ∷ s) = ground (arith, length-drop_cr s)

scan-IsShort : (lines : List Str) → All IsShort (scan lines).0
unfolding scan
scan-IsShort [] = tt
scan-IsShort (line ∷ lines) = elim (Bool-cases (ltb (length line) max_line_length)) [
  | inl fits ↦ rw fits (ground (arith, fits, length-drop_cr line), scan-IsShort lines)
  | inr long ↦ rw long tt
]

scan_lines-IsShort :
    (content : Str) (lines : List Str) → scan_lines content ≡ ok lines → All IsShort lines
unfolding scan_lines
scan_lines-IsShort content lines h = elim (Bool-cases (scan (raw_lines content)).1) [
  | inl cut ↦ absurd (ground (arith, cut, h))
  | inr whole ↦
      let same : (scan (raw_lines content)).0 ≡ lines = ground (arith, whole, h) in
      rw (← same) (scan-IsShort (raw_lines content))
]

drop-IsShort : (n : ℕ) (lines : List Str) → All IsShort lines → All IsShort (drop n lines)
drop-IsShort zero lines h = h
drop-IsShort (suc n) [] h = tt
drop-IsShort (suc n) (line ∷ lines) h = drop-IsShort n lines h.1

length-snoc : (s : Str) (c : ℕ) → length (s ++ c ∷ []) ≡ suc (length s)
length-snoc [] c = refl
length-snoc (d ∷ s) c = ground (arith, length-snoc s c)

kilobytes_exact :
    (n : ℕ)
    → 1 ≤ n
    → n ≤ max_line_length
    → let kb = kilobytes n in
      (1 ≤ kb) × (kb * 10 ≤ rate_limit_burst_kb) × (n ≤ kb * 1024) × (kb * 1024 < n + 1024)
unfolding kilobytes
kilobytes_exact n l h =
    (omega (arith, l, h), omega (arith, l, h), omega (arith, l, h), omega (arith, l, h))

-- Each line of the history, with its newline, takes at least one kilobyte and at most a tenth of the
-- bucket, and exactly its length in kilobytes, rounded up: the uint16 does not wrap.
pub kilobytes-read_last_n_lines :
    (content : Str) (n position : ℕ) (lines : List Str) (line : Str)
    → 0 < n
    → read_last_n_lines (ok content) n ≡ ok (lines, position)
    → In line lines
    → let kb = kilobytes (length (line_text line)) in
      (1 ≤ kb)
      × (kb * 10 ≤ rate_limit_burst_kb)
      × (length (line_text line) ≤ kb * 1024)
      × (kb * 1024 < length (line_text line) + 1024)
kilobytes-read_last_n_lines content n position lines line p h i =
    elim (Result-cases (scan_lines content)) [
      | inr (e, failed) ↦ absurd (unfold read_last_n_lines in ground (arith, failed, h))
      | inl (all, scanned) ↦
          let same : drop (length all - n) all ≡ lines =
            ground (arith, h, read_last_n_lines-drop content all n p scanned) in
          let short : All IsShort lines =
            rw (← same)
              (drop-IsShort (length all - n) all (scan_lines-IsShort content all scanned)) in
          kilobytes_exact (length (line_text line)) (omega (arith, length-snoc line b'\n'))
            (omega (arith, length-snoc line b'\n', All-In IsShort lines short line i))
    ]
