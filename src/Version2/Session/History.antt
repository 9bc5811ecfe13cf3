-- ===== src/Version2/Session/History.antt =====
-- A connection of version 2: chunks arrive while a read is outstanding, and writes complete, in any
-- order.
use async_echo_server.Base.{
  ℕ, ◌≤◌, ◌<◌, ◌≡◌, refl, ap, ap₂, sym, subst, ◌∙◌, Bool, true, false, List, [], ◌∷◌, ◌++◌, map, ok,
  arith, length, drop, length-append, length-drop, take-append, append-nil, false≢true,
}
use async_echo_server.Platform.{Platform}
use async_echo_server.MsgNode.{MsgNode, max_length}
use async_echo_server.Version2.{LongWire}
use async_echo_server.Version2.Wire.{
  Receiver, header, body, broken, refused, failed, Reception, absorb,
}
use async_echo_server.Version2.Replies.{replies}
use async_echo_server.Version2.Session.{
  CSession, Request, async_read_some, async_write, close_socket, clear_session, handle_write,
}
use async_echo_server.Version2.Session.Read.{returned, handle_read}
use async_echo_server.Version2.Session.State.{Roomy, Settled, settle}
use async_echo_server.Version2.Session.Refine.{Meets, Waits, handle_read-echoes}

-- What `async_read_some` does with the chunk that came in.
abbrev pub arrive : CSession → List ℕ → CSession
arrive s chunk = record s { buffer = chunk ++ drop (length chunk) s.buffer }

abbrev pub IsChunk : List ℕ → Type 0
IsChunk chunk = (0 < length chunk) × (length chunk ≤ max_length)

-- A handler has asked for the next chunk.
unfoldable pub is_armed : List Request → Bool
is_armed [] = false
is_armed (async_read_some ∷ acts) = true
is_armed (async_write bytes ∷ acts) = is_armed acts
is_armed (close_socket ∷ acts) = is_armed acts
is_armed (clear_session ∷ acts) = is_armed acts

-- What was given to the socket, in order.
unfoldable pub writes : List Request → List (List ℕ)
writes [] = []
writes (async_write bytes ∷ acts) = bytes ∷ writes acts
writes (async_read_some ∷ acts) = writes acts
writes (close_socket ∷ acts) = writes acts
writes (clear_session ∷ acts) = writes acts

-- The session, the bytes that came in, the calls that were made, and whether a read is outstanding. A
-- chunk needs an outstanding read, and a completed write a queue that is not empty.
pub data History (p : Platform) (l : LongWire) (s₀ : CSession)
    : CSession → List ℕ → List Request → Bool → Type 0 where
  opened : History p l s₀ s₀ [] [] true
  received :
      (s s' : CSession) (got chunk : List ℕ) (asked acts : List Request)
      → History p l s₀ s got asked true
      → IsChunk chunk
      → handle_read p l (arrive s chunk) false (length chunk) ≡ returned s' acts
      → History p l s₀ s' (got ++ chunk) (asked ++ acts) (is_armed acts)
  written :
      (s s' : CSession) (got : List ℕ) (asked acts : List Request) (reading : Bool)
      → History p l s₀ s got asked reading
      → handle_write s false ≡ ok (s', acts)
      → History p l s₀ s' got (asked ++ acts) reading

Roomy-arrive :
    (s : CSession) (chunk : List ℕ) → length chunk ≤ max_length → Roomy s → Roomy (arrive s chunk)
Roomy-arrive s chunk le w = record {
  room = omega (
    arith,
    length-append chunk (drop (length chunk) s.buffer),
    length-drop (length chunk) s.buffer,
    w.room,
  );
  head_total = w.head_total;
  head_room = w.head_room;
}

arrive-Waits :
    (s : CSession) (rx : Receiver) (chunk : List ℕ)
    → length chunk ≤ max_length
    → Waits s rx
    → Waits (arrive s chunk) rx
arrive-Waits s (header h) chunk le a = record {
  parse = a.parse;
  roomy = Roomy-arrive s chunk le a.roomy;
  cur = a.cur;
  short = a.short;
  kept = a.kept;
}
arrive-Waits s (body len text) chunk le a = record {
  parse = a.parse;
  roomy = Roomy-arrive s chunk le a.roomy;
  recv = a.recv;
  held = a.held;
  holds = a.holds;
  short = a.short;
}
arrive-Waits s broken chunk le a = record {
  parse = a.parse;
  roomy = Roomy-arrive s chunk le a.roomy;
  held = a.held;
}
arrive-Waits s refused chunk le a = a
arrive-Waits s failed chunk le a = a

-- A chunk that has arrived is handled as the receiver takes its bytes.
pub arrived-echoes :
    (p : Platform) (l : LongWire) (s : CSession) (chunk : List ℕ) (rx : Receiver)
    → Waits s rx
    → IsChunk chunk
    → Meets s.send_que (absorb p rx chunk) (handle_read p l (arrive s chunk) false (length chunk))
arrived-echoes p l s chunk rx a (pos, le) =
    subst
      (λ xs.
        Meets s.send_que (absorb p rx xs) (handle_read p l (arrive s chunk) false (length chunk)))
      (take-append (length chunk) chunk (drop (length chunk) s.buffer) refl)
      (handle_read-echoes p l (arrive s chunk) (length chunk) rx (arrive-Waits s rx chunk le a) pos
        le)

pub received-echoes :
    (p : Platform) (l : LongWire) (s s' : CSession) (chunk : List ℕ) (acts : List Request)
    (rx : Receiver)
    → Waits s rx
    → IsChunk chunk
    → handle_read p l (arrive s chunk) false (length chunk) ≡ returned s' acts
    → Settled s.send_que (absorb p rx chunk) s' acts
received-echoes p l s s' chunk acts rx a c e =
    subst (Meets s.send_que (absorb p rx chunk)) e (arrived-echoes p l s chunk rx a c)

is_armed-writes :
    (ws : List (List ℕ)) (bs : List Request) → is_armed (map async_write ws ++ bs) ≡ is_armed bs
unfolding is_armed
is_armed-writes [] bs = refl
is_armed-writes (w ∷ ws) bs = is_armed-writes ws bs

pub writes-append : (acts bs : List Request) → writes (acts ++ bs) ≡ writes acts ++ writes bs
unfolding writes
writes-append [] bs = refl
writes-append (async_write w ∷ acts) bs = ap (◌∷◌ w) (writes-append acts bs)
writes-append (async_read_some ∷ acts) bs = writes-append acts bs
writes-append (close_socket ∷ acts) bs = writes-append acts bs
writes-append (clear_session ∷ acts) bs = writes-append acts bs

writes-map : (ws : List (List ℕ)) → writes (map async_write ws) ≡ ws
unfolding writes
writes-map [] = refl
writes-map (w ∷ ws) = ap (◌∷◌ w) (writes-map ws)

writes-settle : (rx : Receiver) → writes (settle rx) ≡ []
unfolding writes
writes-settle (header h) = refl
writes-settle (body len text) = refl
writes-settle broken = refl
writes-settle refused = refl
writes-settle failed = refl

pub writes-Settled :
    (que : List MsgNode) (r : Reception) (s : CSession) (acts : List Request)
    → Settled que r s acts
    → writes acts ≡ (replies que r.1).1
writes-Settled que r s acts m =
    ap writes m.1
    ∙ writes-append (map async_write (replies que r.1).1) (settle r.0)
    ∙ ap₂ ◌++◌ (writes-map (replies que r.1).1) (writes-settle r.0)
    ∙ append-nil (replies que r.1).1

-- Whoever has asked for more waits.
pub armed-Waits :
    (que : List MsgNode) (r : Reception) (s : CSession) (acts : List Request)
    → Settled que r s acts
    → is_armed acts ≡ true
    → Waits s r.0
unfolding is_armed
armed-Waits que (header h, ms) s acts m e = m.2
armed-Waits que (body len text, ms) s acts m e = m.2
armed-Waits que (broken, ms) s acts m e = m.2
armed-Waits que (refused, ms) s acts m e = absurd (
    false≢true
      (sym (is_armed-writes (replies que ms).1 (clear_session ∷ [])) ∙ ap is_armed (sym m.1) ∙ e))
armed-Waits que (failed, ms) s acts m e = absurd m.2
