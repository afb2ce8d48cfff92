-- ===== src/Logs/Rotation/Parse.antt =====
-- A line of the state file that parseTimestamp cannot slice.
use remote_console.Prelude.{
  ℕ, zero, suc, ◌+◌, ◌<◌, ◌≤◌, ◌≡◌, refl, ◌↔◌, ◌⊎◌, inl, inr, ◌≢◌, Bool, true, false, none, some,
  [], ◌∷◌, ◌++◌, length, drop, arith, nat_eq, Option-cases, length-append,
}
use remote_console.Prelude.Text.{Str, str, ==_iff}
use remote_console.Prelude.Int.{ℤ}
use remote_console.Prelude.Strings.{index, index-found}
use remote_console.Prelude.Lines.{newline}
use remote_console.Prelude.Filepath.{join}
use remote_console.Logs.Rotation.{Civil, panicked, parse_timestamp}

abbrev ends_in_newline : Str → Bool
ends_in_newline [] = false
ends_in_newline (c ∷ []) = nat_eq c newline
ends_in_newline (c ∷ d ∷ s) = ends_in_newline (d ∷ s)

append-ends_in_newline : (body : Str) → ends_in_newline (body ++ newline ∷ []) ≡ true
append-ends_in_newline [] = refl
append-ends_in_newline (c ∷ []) = refl
append-ends_in_newline (c ∷ d ∷ s) = append-ends_in_newline (d ∷ s)

not_quote_last : (pre : Str) → ends_in_newline (pre ++ b'"' ∷ []) ≡ false
not_quote_last [] = refl
not_quote_last (c ∷ []) = refl
not_quote_last (c ∷ d ∷ s) = not_quote_last (d ∷ s)

drop_nothing : (k : ℕ) → drop {A = ℕ} k [] ≡ []
drop_nothing zero = refl
drop_nothing (suc k) = refl

drop-ends_in_newline :
    (k : ℕ) (s : Str)
    → ends_in_newline s ≡ true
    → (drop k s ≡ []) ⊎ ((ends_in_newline (drop k s) ≡ true) × (length s ≡ k + length (drop k s)))
drop-ends_in_newline zero s h = inr (h, omega arith)
drop-ends_in_newline (suc k) [] h = inl refl
drop-ends_in_newline (suc k) (c ∷ []) h = inl (drop_nothing k)
drop-ends_in_newline (suc k) (c ∷ d ∷ s) h = ground (arith, drop-ends_in_newline k (d ∷ s) h)

closed :
    (s : Str) (k n : ℕ) (pre rest : Str)
    → ends_in_newline s ≡ true
    → drop k s ≡ pre ++ b'"' ∷ rest
    → length pre ≡ n
    → n + k + 2 ≤ length s
closed s k n pre [] h e l = absurd (
    ground
      (arith, drop-ends_in_newline k s h, not_quote_last pre, e, length-append pre (b'"' ∷ [])))
closed s k n pre (c ∷ rest) h e l =
    ground (arith, drop-ends_in_newline k s h, e, l, length-append pre (b'"' ∷ c ∷ rest))

-- Two bytes stand from a closing quote on.
quote-fits :
    (s : Str) (k n : ℕ)
    → ends_in_newline s ≡ true
    → index (drop k s) (str "\"") ≡ some n
    → n + k + 2 ≤ length s
quote-fits s k n h found =
    let (pre, rest, e, l) = index-found (drop k s) (str "\"") n found in closed s k n pre rest h e l

-- A complete line makes parseTimestamp panic exactly when it does not hold the prefix of the console
-- logs, and the first occurrence of the name of the aggregation log, which is not empty, reaches up to
-- the newline.
pub parse_timestamp-panicked_iff :
    (date : Civil → ℤ) (console_logs_path con_agg_log_file body : Str)
    → let line = body ++ newline ∷ [] in
      (parse_timestamp date console_logs_path con_agg_log_file line ≡ panicked) ↔ (
        (index line (join console_logs_path (str "console.")) ≡ none)
        × (con_agg_log_file ≢ [])
        × (p : ℕ) × (index line con_agg_log_file ≡ some p)
        × (length body < length con_agg_log_file + p + 1))
unfolding parse_timestamp
parse_timestamp-panicked_iff date console_logs_path con_agg_log_file body =
    let line = body ++ newline ∷ [] in
    let file_prefix = join console_logs_path (str "console.") in
    elim (Option-cases (index line file_prefix)) [
      | inl other ↦ elim (Option-cases (index line con_agg_log_file)) [
        | inl gone ↦ ground (arith, other, gone)
        | inr (p, there) ↦
            ground
              (arith, other, there, length-append body (newline ∷ []), ==_iff con_agg_log_file [])
      ]
      | inr (p, here) ↦
          elim (Option-cases (index (drop (p + length file_prefix) line) (str "\""))) [
            | inl unclosed ↦ ground (arith, here, unclosed)
            | inr (n, close) ↦ ground (
              arith,
              here,
              close,
              quote-fits line (p + length file_prefix) n (append-ends_in_newline body) close,
            )
          ]
    ]
