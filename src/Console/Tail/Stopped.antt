-- ===== src/Console/Tail/Stopped.antt =====
-- Which tails a tail session has stopped, in any interleaving of its goroutines.
use remote_console.Prelude.{ℕ, ◌≡◌, Bool, true, false, none, some, In, arith}
use remote_console.Console.Tail.Running.{opening, streaming, Running, phase_of}

record IsTended (r : Running) : Type 0 where
  unstarted : r.phase ≡ opening → (r.cts.tail ≡ none) × (r.late ≡ false)
  unwatched : r.waiting ≡ false → r.cts.closed_once ≡ true
  stopped :
      (tail : ℕ)
      → r.late ≡ false
      → r.cts.closed_once ≡ true
      → r.cts.tail ≡ some tail
      → In tail r.cts.stopped

phase_of-opening : (waits : Bool) → phase_of streaming waits ≡ opening → ⊥
phase_of-opening true h = absurd (ground (arith, h))
phase_of-opening false h = absurd (ground (arith, h))
