-- ===== src/Console/Tail/Leaked.antt =====
-- A tail that is started in a session that its client has closed.
use remote_console.Prelude.{
  ℕ, ◌≡◌, refl, true, false, none, some, [], ok, err, arith, Bool-cases, Option-cases, inl, inr,
}
use remote_console.Prelude.Text.{Str}
use remote_console.Console.Tail.{web_socket_done, Sending}
use remote_console.Console.Tail.Session.{
  new_console_tail_session, close_with_reason, wait_for_client_close, stream_turn, history_turn,
  start_tail,
}
use remote_console.Console.Tail.Running.{
  opening, Running, phase_of, Step, history, left, started, streamed, client, pumped, Reach, start,
  later,
}

-- Only the client closes a session whose tail is not started and whose handler goes on.
abbrev IsOpen : Running → Type 0
IsOpen r =
    r.phase ≡ opening
    → (r.cts.tail ≡ none) × (r.cts.stopped ≡ []) × (r.cts.closed_once ≡ true → r.waiting ≡ false)

history_turn-IsOpen :
    (r : Running) (text : Str) (io : Sending)
    → r.phase ≡ opening
    → IsOpen r
    → IsOpen (record r {
      cts = (history_turn r.cts text io).0;
      phase = phase_of opening (history_turn r.cts text io).1;
    })
unfolding history_turn
history_turn-IsOpen r text io p i = elim (Bool-cases io.done) [
  | inl d ↦ rw d (λ q. absurd (ground (arith, q)))
  | inr d ↦ elim (Option-cases io.write) [
    | inl w ↦ rw (d, w) (λ q. i p)
    | inr (e, w) ↦ rw (d, w) (λ q. absurd (ground (arith, q)))
  ]
]

Step-IsOpen : {r s : Running} → Step r s → IsOpen r → IsOpen s
unfolding wait_for_client_close close_with_reason
Step-IsOpen {r} (history text io p room) i = history_turn-IsOpen r text io p i
Step-IsOpen {r} (left reason message p) i = λ q. absurd (ground (arith, q))
Step-IsOpen {r} (started (ok tail) p) i = λ q. absurd (unfold start_tail in ground (arith, q))
Step-IsOpen {r} (started (err e) p) i = λ q. absurd (unfold start_tail in ground (arith, q))
Step-IsOpen {r} (streamed event p room) i = elim (Bool-cases (stream_turn r.cts event).1) [
  | inl on ↦ λ q. absurd (ground (arith, on, q))
  | inr off ↦ λ q. absurd (ground (arith, off, q))
]
Step-IsOpen {r} (client none w) i =
    λ q. let (a, b, c) = i q in (a, b, λ d. absurd (ground (arith, w, c d)))
Step-IsOpen {r} (client (some e) w) i = λ q. ground (arith, i q)
Step-IsOpen {r} (pumped ws step) i = i

Reach-IsOpen : {node_id : Str} {r : Running} → Reach node_id r → IsOpen r
unfolding new_console_tail_session
Reach-IsOpen start = λ p. (refl, refl, λ c. absurd (ground (arith, c)))
Reach-IsOpen (later r s) = Step-IsOpen s (Reach-IsOpen r)

-- In every interleaving, when a session was closed before its tail is started, and the stream then
-- finds the web socket done, the handler ends with a tail that was not stopped, and
-- waitForClientClose has returned before.
pub late_tail_leaked :
    {node_id : Str} {r : Running}
    → Reach node_id r
    → (tail : ℕ) → r.phase ≡ opening
    → r.cts.closed_once ≡ true
    → let (cts, goes_on) = stream_turn (start_tail r.cts (ok tail)).0 web_socket_done in
      (goes_on ≡ false) × (cts.tail ≡ some tail) × (cts.stopped ≡ []) × (r.waiting ≡ false)
unfolding start_tail stream_turn
late_tail_leaked r tail p c = ground (arith, Reach-IsOpen r p, c)
