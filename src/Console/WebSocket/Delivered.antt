-- ===== src/Console/WebSocket/Delivered.antt =====
-- The writers, the closers and writePump in any interleaving.
use mathlib.Core.List.{append_assoc}
use remote_console.Prelude.{
  ◌<◌, ◌≤◌, ◌≡◌, ◌∙◌, refl, ap, ◌⊎◌, inl, inr, true, false, Option, none, some, List, [], ◌∷◌, ◌++◌,
  Error, length, arith,
}
use remote_console.Prelude.Text.{Str}
use remote_console.Console.WebSocket.{
  WebSockMessage, SessionCloseReason, Frame, message, ping, close_frame, running, broken,
  WebSocketSession, send_capacity, new_web_socket_session, write, enqueue, close, pump_message,
  pump_ping, pump_close,
}

-- `accepted` are the messages for which Write returned without an error.
pub record Traffic : Type 0 where
  pub ws : WebSocketSession
  pub accepted : List WebSockMessage

-- A message counts once Write has returned without an error.
abbrev pub accept : List WebSockMessage → WebSockMessage → Option Error → List WebSockMessage
accept accepted m none = accepted ++ m ∷ []
accept accepted m (some e) = accepted

pub data Step (t : Traffic) : Traffic → Type 0 where
  sending :
      (m : WebSockMessage)
      → length t.ws.send < send_capacity
      → Step t (record {
        ws = (write t.ws m true).0;
        accepted = accept t.accepted m (write t.ws m true).1;
      })
  refusing :
      (m : WebSockMessage)
      → t.ws.canceled ≡ true
      → Step t (record {
        ws = (write t.ws m false).0;
        accepted = accept t.accepted m (write t.ws m false).1;
      })
  closing :
      (reason : SessionCloseReason) (text : Str) → Step t (record t { ws = close t.ws reason text })
  pumped :
      (m : WebSockMessage) (rest : List WebSockMessage) (error : Option Error)
      → t.ws.pump ≡ running
      → t.ws.send ≡ m ∷ rest
      → Step t (record t { ws = pump_message t.ws error })
  pinged :
      (error : Option Error) → t.ws.pump ≡ running → Step t (record t { ws = pump_ping t.ws error })
  ended :
      (error : Option Error)
      → t.ws.pump ≡ running
      → t.ws.canceled ≡ true
      → t.ws.send ≡ []
      → Step t (record t { ws = pump_close t.ws error })

pub data Reach : Traffic → Type 0 where
  start : Reach (record { ws = new_web_socket_session; accepted = [] })
  later : {s t : Traffic} → Reach s → Step s t → Reach t

abbrev pub messages_of : List Frame → List WebSockMessage
messages_of [] = []
messages_of (message m ∷ frames) = m ∷ messages_of frames
messages_of (ping ∷ frames) = messages_of frames
messages_of (close_frame code reason ∷ frames) = messages_of frames

messages_of-append :
    (fs gs : List Frame) → messages_of (fs ++ gs) ≡ messages_of fs ++ messages_of gs
messages_of-append [] gs = refl
messages_of-append (message m ∷ fs) gs = ap (λ ms. m ∷ ms) (messages_of-append fs gs)
messages_of-append (ping ∷ fs) gs = messages_of-append fs gs
messages_of-append (close_frame code reason ∷ fs) gs = messages_of-append fs gs

append-empty : (ms : List WebSockMessage) → ms ++ [] ≡ ms
append-empty [] = refl
append-empty (m ∷ ms) = ap (λ xs. m ∷ xs) (append-empty ms)

-- An accepted message is written, or was lost at a failed write, or waits in the channel.
pub record IsFifo (t : Traffic) (lost : List WebSockMessage) : Type 0 where
  pub in_order : t.accepted ≡ messages_of t.ws.frames ++ (lost ++ t.ws.send)
  pub few : length lost ≤ 1
  pub only_broken : (t.ws.pump ≡ broken) ⊎ (lost ≡ [])

append-nested :
    (xs ys zs : List WebSockMessage) (m : WebSockMessage)
    → (xs ++ (ys ++ zs)) ++ m ∷ [] ≡ xs ++ (ys ++ (zs ++ m ∷ []))
append-nested xs ys zs m =
    append_assoc xs (ys ++ zs) (m ∷ []) ∙ ap (λ t. xs ++ t) (append_assoc ys zs (m ∷ []))

Step-IsFifo :
    {s t : Traffic} (lost : List WebSockMessage)
    → Step s t
    → IsFifo s lost
    → (now : List WebSockMessage) × IsFifo t now
unfolding write enqueue close pump_message pump_ping pump_close
Step-IsFifo {s} lost (sending m h) k = (
  lost,
  record {
    in_order =
        ap (λ ms. ms ++ m ∷ []) k.in_order
        ∙ append-nested (messages_of s.ws.frames) lost s.ws.send m;
    few = k.few;
    only_broken = k.only_broken;
  },
)
Step-IsFifo {s} lost (refusing m c) k =
    (lost, record { in_order = k.in_order; few = k.few; only_broken = k.only_broken })
Step-IsFifo {s} lost (closing reason text) k =
    (lost, record { in_order = k.in_order; few = k.few; only_broken = k.only_broken })
Step-IsFifo {s} lost (pumped m rest none p h) k = (
  [],
  record {
    in_order =
        let kept : s.accepted ≡ messages_of s.ws.frames ++ s.ws.send =
          ground (arith, k.in_order, k.only_broken, p) in
        ground (
          arith,
          kept,
          h,
          messages_of-append s.ws.frames (message m ∷ []),
          append_assoc (messages_of s.ws.frames) (m ∷ []) rest,
        );
    few = omega arith;
    only_broken = inr refl;
  },
)
Step-IsFifo {s} lost (pumped m rest (some e) p h) k = (
  m ∷ [],
  record {
    in_order =
        let kept : s.accepted ≡ messages_of s.ws.frames ++ s.ws.send =
          ground (arith, k.in_order, k.only_broken, p) in
        ground (arith, kept, h);
    few = omega arith;
    only_broken = ground (arith, h);
  },
)
Step-IsFifo {s} lost (pinged none p) k = (
  lost,
  record {
    in_order = ground (
      arith,
      k.in_order,
      messages_of-append s.ws.frames (ping ∷ []),
      append-empty (messages_of s.ws.frames),
    );
    few = k.few;
    only_broken = k.only_broken;
  },
)
Step-IsFifo lost (pinged (some e) p) k =
    (lost, record { in_order = k.in_order; few = k.few; only_broken = inl refl })
Step-IsFifo {s} lost (ended none p c h) k = (
  lost,
  record {
    in_order = ground (
      arith,
      k.in_order,
      messages_of-append s.ws.frames (close_frame s.ws.close_code s.ws.close_reason ∷ []),
      append-empty (messages_of s.ws.frames),
    );
    few = k.few;
    only_broken = ground (arith, k.only_broken, p);
  },
)
Step-IsFifo {s} lost (ended (some e) p c h) k = (
  lost,
  record { in_order = k.in_order; few = k.few; only_broken = ground (arith, k.only_broken, p) },
)

-- In every interleaving of writers, closers and writePump, the messages that Write accepted are those
-- that were written, in their order, then at most one that was lost, at a write that failed and ended
-- writePump, then those in the channel.
pub Reach-IsFifo : {t : Traffic} → Reach t → (lost : List WebSockMessage) × IsFifo t lost
Reach-IsFifo start = ([], record { in_order = refl; few = omega arith; only_broken = inr refl })
Reach-IsFifo (later r s) = let (lost, k) = Reach-IsFifo r in Step-IsFifo lost s k

-- In every interleaving, when writePump sends its close frame, it has written all messages that
-- Write accepted, in their order, and the frame goes last, with the code and the text that the
-- session holds.
pub pump_close-delivers :
    {t : Traffic}
    → Reach t
    → t.ws.pump ≡ running
    → t.ws.canceled ≡ true
    → t.ws.send ≡ []
    → (messages_of (pump_close t.ws none).frames ≡ t.accepted)
      × ((pump_close t.ws none).frames
          ≡ t.ws.frames ++ close_frame t.ws.close_code t.ws.close_reason ∷ [])
unfolding pump_close
pump_close-delivers {t} r p c h =
    let (lost, k) = Reach-IsFifo r in
    let kept : t.accepted ≡ messages_of t.ws.frames ++ [] =
      ground (arith, k.in_order, k.only_broken, p, h) in
    (
      ground (
        arith,
        kept,
        messages_of-append t.ws.frames (close_frame t.ws.close_code t.ws.close_reason ∷ []),
        append-empty (messages_of t.ws.frames),
      ),
      refl,
    )
