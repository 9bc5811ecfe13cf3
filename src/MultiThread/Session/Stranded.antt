-- ===== src/MultiThread/Session/Stranded.antt =====
-- HandleRead of the multi-threaded server on a header with a negative length.
use async_echo_server.Base.{
  ap₂, take, ℕ, ◌≤◌, ◌<◌, ◌≡◌, refl, sym, subst, false, List, [], ◌∷◌, map,
}
use async_echo_server.Platform.{Platform}
use async_echo_server.Wire.{Message, failed, Receiver, absorb}
use async_echo_server.MsgNode.{ReciveNode, max_length}
use async_echo_server.Session.{
  Session, Action, async_read, async_write, post_msg, close_socket, clear_session,
}
use async_echo_server.Session.Receive as V3Read
use async_echo_server.Session.Receive.State.{message_of, effect, deliver}
use async_echo_server.Session.Receive.Asks.{reads, clears}
use async_echo_server.Session.Receive.Stream.{posted}
use async_echo_server.Session.Receive.Refine.{Meets, Waits, handle_read-refines}
use async_echo_server.MultiThread.Session.Read.{
  Outcome, returned, caught, corrupted, unfinished, handle_read,
}
use async_echo_server.MultiThread.Session.Same.{without_catch, handle_read-V3}

-- The handler has returned from its `catch` block, after it posted these messages; it has neither asked
-- for the next chunk nor had the session removed. Or it has left an array.
abbrev pub Stranded : List Message → Outcome → Type 0
Stranded ms (returned s acts) = ⊥
Stranded ms (caught s acts) = (posted acts ≡ ms) × (reads acts ≡ 0) × (clears acts ≡ false)
Stranded ms corrupted = Unit
Stranded ms unfinished = ⊥

first_message :
    (r : ReciveNode) (m : Message) → deliver (message_of r) ≡ deliver m → message_of r ≡ m
first_message r m e = cc

deliveries :
    (acts : List Action) (ms : List Message)
    → map effect acts ≡ map deliver ms
    → (posted acts ≡ ms) × (reads acts ≡ 0) × (clears acts ≡ false)
unfolding posted
deliveries [] [] e = (refl, refl, refl)
deliveries [] (m ∷ ms) e = cc
deliveries (async_read ∷ acts) [] e = cc
deliveries (async_read ∷ acts) (m ∷ ms) e = cc
deliveries (async_write w ∷ acts) [] e = cc
deliveries (async_write w ∷ acts) (m ∷ ms) e = cc
deliveries (post_msg r ∷ acts) [] e = cc
deliveries (post_msg r ∷ acts) (m ∷ ms) e =
    let (same, r0, c0) = deliveries acts ms (cc) in (ap₂ ◌∷◌ (first_message r m (cc)) same, r0, c0)
deliveries (close_socket ∷ acts) [] e = cc
deliveries (close_socket ∷ acts) (m ∷ ms) e = cc
deliveries (clear_session ∷ acts) [] e = cc
deliveries (clear_session ∷ acts) (m ∷ ms) e = cc

Meets-Stranded :
    (ms : List Message) (o : Outcome) → Meets (failed, ms) (without_catch o) → Stranded ms o
Meets-Stranded ms (returned s acts) m = m.1
Meets-Stranded ms (caught s acts) m = deliveries acts ms m.1
Meets-Stranded ms corrupted m = tt
Meets-Stranded ms unfinished m = m

-- A chunk of 1 to 2048 bytes that brings a waiting session to a header with a negative length makes
-- HandleRead leave an array, or catch the exception of the new node: it has then posted the messages
-- that were complete before, and the session stays with the server although no chunk is asked for.
pub handle_read-Stranded :
    (p : Platform) (s : Session) (n : ℕ) (rx : Receiver) (ms : List Message)
    → Waits s rx
    → 0 < n
    → n ≤ max_length
    → absorb p rx (take n s.buffer) ≡ (failed, ms)
    → Stranded ms (handle_read p s false n)
handle_read-Stranded p s n rx ms w pos le e = Meets-Stranded ms (handle_read p s false n) (
    subst (Meets (failed, ms)) (sym (handle_read-V3 p s false n)) (
      subst (λ r. Meets r (V3Read.handle_read p s false n)) e
        (handle_read-refines p s n rx w pos le)))
