-- ===== src/Session/Receive/Stream.antt =====
-- A connection as a stream: Asio puts each chunk at the start of the buffer and runs `HandleRead`,
-- as long as the handler has asked for more.
use async_echo_server.Base.{
  ℕ, ◌≤◌, ◌<◌, ◌≡◌, refl, ap, ap₂, sym, ◌∙◌, subst, Bool, true, false, List, [], ◌∷◌, ◌++◌, map,
  flatten, length, drop, All, take-append, append-nil, if◌then◌else◌,
}
use async_echo_server.Platform.{Platform}
use async_echo_server.Wire.{
  Message, header, body, refused, failed, Receiver, Reception, absorb, after,
}
use async_echo_server.Wire.Laws.{absorb-append, absorb-refused, absorb-failed, absorb-nil}
use async_echo_server.MsgNode.{max_length}
use async_echo_server.Session.{
  Session, Action, async_read, async_write, post_msg, close_socket, clear_session,
}
use async_echo_server.Session.Receive.{
  Outcome, returned, threw_after, corrupted, unfinished, prepend, handle_read,
}
use async_echo_server.Session.Receive.State.{
  Effect, deliver, await, drop_session, other, effect, settle, message_of, Holds,
}
use async_echo_server.Session.Receive.Arrival.{arrive, arrive-Waits, Waits-Holds}
use async_echo_server.Session.Receive.Refine.{Meets, Waits, handle_read-refines}

-- A handler has asked for the next chunk.
unfoldable pub is_armed : List Action → Bool
is_armed [] = false
is_armed (async_read ∷ acts) = true
is_armed (async_write bytes ∷ acts) = is_armed acts
is_armed (post_msg r ∷ acts) = is_armed acts
is_armed (close_socket ∷ acts) = is_armed acts
is_armed (clear_session ∷ acts) = is_armed acts

-- The messages that were posted, in order.
unfoldable pub posted : List Action → List Message
posted [] = []
posted (post_msg r ∷ acts) = message_of r ∷ posted acts
posted (async_read ∷ acts) = posted acts
posted (async_write bytes ∷ acts) = posted acts
posted (close_socket ∷ acts) = posted acts
posted (clear_session ∷ acts) = posted acts

abbrev pub resume : Outcome → (Session → Outcome) → Outcome
resume (returned s acts) next = if is_armed acts then prepend acts (next s) else returned s acts
resume (threw_after acts) next = threw_after acts
resume corrupted next = corrupted
resume unfinished next = unfinished

unfoldable pub receive : Platform → Session → List (List ℕ) → Outcome
receive p s [] = returned s []
receive p s (chunk ∷ chunks) =
    resume (handle_read p (arrive s chunk) false (length chunk)) (λ s'. receive p s' chunks)

-- What `async_read_some` can bring: some bytes, and no more than the buffer takes.
abbrev pub IsChunk : List ℕ → Type 0
IsChunk chunk = (0 < length chunk) × (length chunk ≤ max_length)

-- The session has posted the messages of `r`, and stands where the receiver does.
abbrev pub Received : Reception → Outcome → Type 0
Received r (returned s acts) = (posted acts ≡ r.1) × Holds s r.0
Received r (threw_after acts) = (r.0 ≡ failed) × (posted acts ≡ r.1)
Received r corrupted = r.0 ≡ failed
Received r unfinished = ⊥

-- The same two readings of the effects.
delivered : List Effect → List Message
delivered [] = []
delivered (deliver m ∷ es) = m ∷ delivered es
delivered (await ∷ es) = delivered es
delivered (drop_session ∷ es) = delivered es
delivered (other ∷ es) = delivered es

awaits : List Effect → Bool
awaits [] = false
awaits (await ∷ es) = true
awaits (deliver m ∷ es) = awaits es
awaits (drop_session ∷ es) = awaits es
awaits (other ∷ es) = awaits es

posted-effect : (acts : List Action) → posted acts ≡ delivered (map effect acts)
unfolding posted delivered
posted-effect [] = refl
posted-effect (async_read ∷ acts) = posted-effect acts
posted-effect (async_write bytes ∷ acts) = posted-effect acts
posted-effect (post_msg r ∷ acts) = ap (◌∷◌ (message_of r)) (posted-effect acts)
posted-effect (close_socket ∷ acts) = posted-effect acts
posted-effect (clear_session ∷ acts) = posted-effect acts

is_armed-effect : (acts : List Action) → is_armed acts ≡ awaits (map effect acts)
unfolding is_armed awaits
is_armed-effect [] = refl
is_armed-effect (async_read ∷ acts) = refl
is_armed-effect (async_write bytes ∷ acts) = is_armed-effect acts
is_armed-effect (post_msg r ∷ acts) = is_armed-effect acts
is_armed-effect (close_socket ∷ acts) = is_armed-effect acts
is_armed-effect (clear_session ∷ acts) = is_armed-effect acts

delivered-deliver :
    (ms : List Message) (es : List Effect) → delivered (map deliver ms ++ es) ≡ ms ++ delivered es
unfolding delivered
delivered-deliver [] es = refl
delivered-deliver (m ∷ ms) es = ap (◌∷◌ m) (delivered-deliver ms es)

awaits-deliver : (ms : List Message) (es : List Effect) → awaits (map deliver ms ++ es) ≡ awaits es
unfolding awaits
awaits-deliver [] es = refl
awaits-deliver (m ∷ ms) es = awaits-deliver ms es

delivered-settle : (rx : Receiver) → delivered (settle rx) ≡ []
unfolding delivered
delivered-settle (header h) = refl
delivered-settle (body id len bytes) = refl
delivered-settle refused = refl
delivered-settle failed = refl

posted-settled :
    (acts : List Action) (r : Reception)
    → map effect acts ≡ map deliver r.1 ++ settle r.0
    → posted acts ≡ r.1
posted-settled acts r e =
    posted-effect acts
    ∙ ap delivered e
    ∙ delivered-deliver r.1 (settle r.0)
    ∙ ap (◌++◌ r.1) (delivered-settle r.0)
    ∙ append-nil r.1

is_armed-settled :
    (acts : List Action) (r : Reception)
    → map effect acts ≡ map deliver r.1 ++ settle r.0
    → is_armed acts ≡ awaits (settle r.0)
is_armed-settled acts r e = is_armed-effect acts ∙ ap awaits e ∙ awaits-deliver r.1 (settle r.0)

posted-append : (xs ys : List Action) → posted (xs ++ ys) ≡ posted xs ++ posted ys
unfolding posted
posted-append [] ys = refl
posted-append (async_read ∷ xs) ys = posted-append xs ys
posted-append (async_write bytes ∷ xs) ys = posted-append xs ys
posted-append (post_msg r ∷ xs) ys = ap (◌∷◌ (message_of r)) (posted-append xs ys)
posted-append (close_socket ∷ xs) ys = posted-append xs ys
posted-append (clear_session ∷ xs) ys = posted-append xs ys

Received-prepend :
    (acts : List Action) (ms : List Message) (r : Reception) (o : Outcome)
    → posted acts ≡ ms
    → Received r o
    → Received (after ms r) (prepend acts o)
Received-prepend acts ms r (returned s bs) e m = (posted-append acts bs ∙ ap₂ ◌++◌ e m.0, m.1)
Received-prepend acts ms r (threw_after bs) e m = (m.0, posted-append acts bs ∙ ap₂ ◌++◌ e m.1)
Received-prepend acts ms r corrupted e m = m
Received-prepend acts ms r unfinished e m = m

posted-deliver :
    (acts : List Action) (ms : List Message) → map effect acts ≡ map deliver ms → posted acts ≡ ms
unfolding delivered
posted-deliver acts ms e =
    posted-effect acts
    ∙ ap delivered (e ∙ sym (append-nil (map deliver ms)))
    ∙ delivered-deliver ms []
    ∙ append-nil ms

-- After a chunk that took the receiver to `r`, the rest of the stream.
resume-Received :
    (p : Platform) (r : Reception) (ys : List ℕ) (next : Session → Outcome) (o : Outcome)
    → Meets r o
    → ((s : Session) → Waits s r.0 → Received (absorb p r.0 ys) (next s))
    → Received (after r.1 (absorb p r.0 ys)) (resume o next)
unfolding awaits
resume-Received p (header h, ms) ys next (returned s acts) m k =
    rw (is_armed-settled acts (header h, ms) m.0)
      (Received-prepend acts ms _ (next s) (posted-settled acts (header h, ms) m.0) (k s m.1))
resume-Received p (body id len bytes, ms) ys next (returned s acts) m k =
    rw (is_armed-settled acts (body id len bytes, ms) m.0) (
      Received-prepend acts ms _ (next s) (posted-settled acts (body id len bytes, ms) m.0)
        (k s m.1))
resume-Received p (refused, ms) ys next (returned s acts) m k =
    rw (is_armed-settled acts (refused, ms) m.0, absorb-refused p ys)
      (posted-settled acts (refused, ms) m.0 ∙ sym (append-nil ms), tt)
resume-Received p (failed, ms) ys next (returned s acts) m k = absurd m.1
resume-Received p (rx, ms) ys next (threw_after acts) m k =
    rw (m.0, absorb-failed p ys) (refl, posted-deliver acts ms m.1 ∙ sym (append-nil ms))
resume-Received p (rx, ms) ys next corrupted m k = rw (m, absorb-failed p ys) refl
resume-Received p (rx, ms) ys next unfinished m k = absurd m

handle_chunk :
    (p : Platform) (s : Session) (rx : Receiver) (chunk : List ℕ)
    → Waits s rx
    → IsChunk chunk
    → Meets (absorb p rx chunk) (handle_read p (arrive s chunk) false (length chunk))
handle_chunk p s rx chunk a c =
    subst (λ xs. Meets (absorb p rx xs) (handle_read p (arrive s chunk) false (length chunk)))
      (take-append (length chunk) chunk (drop (length chunk) s.buffer) refl)
      (handle_read-refines p (arrive s chunk) (length chunk) rx (arrive-Waits s rx chunk c.1 a) c.0
        c.1)

-- However the stream of a connection is cut into chunks, the session posts the messages that the
-- receiver of `Wire` finds in the whole stream, in order, and stands where that receiver does; a
-- run that ends in an exception or outside a buffer is one whose stream has a header with a
-- negative length.
pub receive-Received :
    (p : Platform) (s : Session) (rx : Receiver) (chunks : List (List ℕ))
    → Waits s rx
    → All IsChunk chunks
    → Received (absorb p rx (flatten chunks)) (receive p s chunks)
unfolding receive flatten posted
receive-Received p s rx [] a c = rw (absorb-nil p rx) (refl, Waits-Holds s rx a)
receive-Received p s rx (chunk ∷ chunks) a c = rw (absorb-append p rx chunk (flatten chunks)) (
    resume-Received p (absorb p rx chunk) (flatten chunks) (λ s'. receive p s' chunks) _
      (handle_chunk p s rx chunk a c.0)
      (λ s' a'. receive-Received p s' (absorb p rx chunk).0 chunks a' c.1))
