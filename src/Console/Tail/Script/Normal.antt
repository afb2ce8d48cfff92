-- ===== src/Console/Tail/Script/Normal.antt =====
-- A tail session that does not follow closes with the code of a normal closure.
use remote_console.Prelude.{
  ◌≡◌, refl, true, Option, none, some, [], arith, Bool-cases, Option-cases, inl, inr,
}
use remote_console.Prelude.Text.{Str}
use remote_console.Console.WebSocket.{
  WebSocketSession, close_normal_closure, session_close_normal, close, map_close_reason, enqueue,
  pump_message, pump_ping, pump_close,
}
use remote_console.Console.Tail.{Sending}
use remote_console.Console.Tail.Session.{
  ConsoleTailSession, new_console_tail_session, close_with_reason, wait_for_client_close,
  history_turn,
}
use remote_console.Console.Tail.Running.{PumpStep, taken, ticked, drained, opening, phase_of}

-- A session that is closed has closed with the code of a normal closure and without a text.
pub record IsNormal (cts : ConsoleTailSession) : Type 0 where
  pub code : cts.closed_once ≡ true → cts.ws.close_code ≡ close_normal_closure
  pub reason : cts.closed_once ≡ true → cts.ws.close_reason ≡ []

pub close_with_reason-IsNormal :
    (cts : ConsoleTailSession)
    → IsNormal cts
    → ((close_with_reason cts session_close_normal []).closed_once ≡ true)
      × IsNormal (close_with_reason cts session_close_normal [])
unfolding close_with_reason close map_close_reason
close_with_reason-IsNormal cts k = elim (Bool-cases cts.closed_once) [
  | inl c ↦ simp c (refl, k)
  | inr c ↦ elim (Option-cases cts.tail) [
    | inl e ↦ rw (c, e) (refl, record { code = λ h. refl; reason = λ h. refl })
    | inr (tail, e) ↦ rw (c, e) (refl, record { code = λ h. refl; reason = λ h. refl })
  ]
]

pub history_turn-IsNormal :
    (cts : ConsoleTailSession) (text : Str) (io : Sending)
    → IsNormal cts
    → phase_of opening (history_turn cts text io).1 ≡ opening
    → IsNormal (history_turn cts text io).0
unfolding history_turn enqueue
history_turn-IsNormal cts text io k h = elim (Bool-cases io.done) [
  | inl over ↦ absurd (ground (arith, over, h))
  | inr going ↦ elim (Option-cases io.write) [
    | inl fine ↦ rw (going, fine) (record { code = k.code; reason = k.reason })
    | inr (e, failed) ↦ absurd (ground (arith, going, failed, h))
  ]
]

pub wait_for_client_close-IsNormal :
    (cts : ConsoleTailSession) (error : Option _)
    → IsNormal cts
    → IsNormal (wait_for_client_close cts error).0
unfolding wait_for_client_close
wait_for_client_close-IsNormal cts none k = k
wait_for_client_close-IsNormal cts (some e) k = (close_with_reason-IsNormal cts k).1

pub wait_for_client_close-closed :
    (cts : ConsoleTailSession) (error : Option _)
    → cts.closed_once ≡ true
    → (wait_for_client_close cts error).0.closed_once ≡ true
unfolding wait_for_client_close close_with_reason
wait_for_client_close-closed cts none c = c
wait_for_client_close-closed cts (some e) c = ground (arith, c)

pub new_console_tail_session-IsNormal :
    (node_id : Str) → IsNormal (new_console_tail_session node_id)
unfolding new_console_tail_session
new_console_tail_session-IsNormal node_id = record {
  code = λ h. absurd (cc);
  reason = λ h. absurd (cc);
}

pub PumpStep-IsNormal :
    (cts : ConsoleTailSession) (ws : WebSocketSession)
    → PumpStep cts.ws ws
    → IsNormal cts
    → IsNormal (record cts { ws = ws })
unfolding pump_message pump_ping pump_close
PumpStep-IsNormal cts _ (taken m rest none p h) k = record {
  code = λ c. ground (arith, h, k.code c);
  reason = λ c. ground (arith, h, k.reason c);
}
PumpStep-IsNormal cts _ (taken m rest (some e) p h) k = record {
  code = λ c. ground (arith, h, k.code c);
  reason = λ c. ground (arith, h, k.reason c);
}
PumpStep-IsNormal cts _ (ticked none p) k = record { code = k.code; reason = k.reason }
PumpStep-IsNormal cts _ (ticked (some e) p) k = record { code = k.code; reason = k.reason }
PumpStep-IsNormal cts _ (drained none p c h) k = record { code = k.code; reason = k.reason }
PumpStep-IsNormal cts _ (drained (some e) p c h) k = record { code = k.code; reason = k.reason }
