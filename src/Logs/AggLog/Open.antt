-- ===== src/Logs/AggLog/Open.antt =====
-- The logger and the file of the aggregation log belong together.
use remote_console.Prelude.{
  In, ℕ, ◌≡◌, refl, inl, inr, none, some, List, [], ◌∷◌, ok, arith, Option-cases,
}
use remote_console.Prelude.Text.{Str}
use remote_console.Logs.AggLog.{
  AggIo, AggLog, agg_log_file, open_agg_log_locked, ensure_agg_log, reopen_agg_log,
  write_to_agg_log,
}

-- The operations of the goroutines that share the log, each under the mutex.
pub data Operation : Type 0 where
  ensure reopen : AggIo → Operation
  print : Str → Str → Str → Operation

abbrev pub operate : Str → AggLog → Operation → AggLog
operate path s (ensure io) = ensure_agg_log s path io
operate path s (reopen io) = reopen_agg_log s path io
operate path s (print timestamp xname text) = write_to_agg_log s timestamp xname text

abbrev pub operate_all : Str → AggLog → List Operation → AggLog
operate_all path s [] = s
operate_all path s (o ∷ os) = operate_all path (operate path s o) os

-- A handle that is opened was not in use before: it is neither closed nor the log's own.
abbrev IsFresh : AggLog → AggIo → Type 0
IsFresh s io =
    (name : Str) (calf : ℕ)
    → io.open_file name ≡ ok calf
    → (In calf s.closed → ⊥) × (s.con_agg_file ≡ some calf → ⊥)

abbrev Admits : AggLog → Operation → Type 0
Admits s (ensure io) = IsFresh s io
Admits s (reopen io) = IsFresh s io
Admits s (print timestamp xname text) = Unit

abbrev pub no_log : Str → AggLog
no_log name = record {
  con_agg_logger = none;
  con_agg_log_file = name;
  con_agg_file = none;
  closed = [];
  printed = [];
}

pub data Reach (path : Str) : AggLog → Type 0 where
  start : (name : Str) → Reach path (no_log name)
  later : {s : AggLog} → Reach path s → (o : Operation) → Admits s o → Reach path (operate path s o)

abbrev pub IsPaired : AggLog → Type 0
IsPaired s =
    (s.con_agg_logger ≡ s.con_agg_file)
    × ((calf : ℕ) → s.con_agg_logger ≡ some calf → In calf s.closed → ⊥)

open_agg_log_locked-IsPaired :
    (s : AggLog) (path : Str) (io : AggIo)
    → IsPaired s
    → ((name : Str) (calf : ℕ) → io.open_file name ≡ ok calf → In calf s.closed → ⊥)
    → IsPaired (open_agg_log_locked s path io)
unfolding open_agg_log_locked
open_agg_log_locked-IsPaired s path io p f = (
  ground (arith, p.0),
  λ calf h i.
      ground (arith, p.1 calf, f s.con_agg_log_file calf, f (agg_log_file path io.hostname) calf),
)

operate-IsPaired :
    (path : Str) (s : AggLog) (o : Operation)
    → IsPaired s
    → Admits s o
    → IsPaired (operate path s o)
unfolding ensure_agg_log reopen_agg_log write_to_agg_log
operate-IsPaired path s (ensure io) p f = elim (Option-cases s.con_agg_logger) [
  | inl gone ↦
      rw (gone, ensure_agg_log)
        (open_agg_log_locked-IsPaired s path io p (λ name calf h. (f name calf h).0))
  | inr (logger, e) ↦ rw (e, ensure_agg_log) p
]
operate-IsPaired path s (reopen io) p f = elim (Option-cases s.con_agg_file) [
  | inl gone ↦
      rw (gone, reopen_agg_log)
        (open_agg_log_locked-IsPaired _ path io (refl, λ calf h. absurd (cc))
          (λ name calf h. (f name calf h).0))
  | inr (old, e) ↦
      rw (e, reopen_agg_log)
        (open_agg_log_locked-IsPaired _ path io (refl, λ calf h. absurd (cc))
          (λ name calf h i. ground (arith, f name calf h)))
]
operate-IsPaired path s (print timestamp xname text) p f = elim (Option-cases s.con_agg_logger) [
  | inl gone ↦ rw (gone, write_to_agg_log) p
  | inr (logger, e) ↦ rw (e, write_to_agg_log) p
]

-- However the goroutines that share the log take turns, it has a logger exactly when it has an open
-- file, which the logger writes to and which was not closed.
pub Reach-IsPaired : {path : Str} {s : AggLog} → Reach path s → IsPaired s
Reach-IsPaired (start name) = (refl, λ calf h. absurd (cc))
Reach-IsPaired (later r o a) = operate-IsPaired _ _ o (Reach-IsPaired r) a
