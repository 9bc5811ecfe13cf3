-- ===== src/Whole/Keeps.antt =====
-- What the receiving of a whole stream leaves as it was, and the nodes that it hands over.
use async_echo_server.Base.{
  ℕ, ◌≡◌, refl, ap, ◌∙◌, Bool, true, false, List, [], ◌∷◌, map, length, All, if◌then◌else◌,
}
use async_echo_server.Platform.{Platform}
use async_echo_server.MsgNode.{ReciveNode}
use async_echo_server.Wire.{Message}
use async_echo_server.Session.{
  Session, Action, async_read, async_write, post_msg, close_socket, clear_session,
}
use async_echo_server.Session.Receive.{
  Outcome, returned, threw_after, corrupted, unfinished, prepend, handle_read,
}
use async_echo_server.Session.Receive.State.{message_of}
use async_echo_server.Session.Receive.Arrival.{arrive}
use async_echo_server.Session.Receive.Settles.{handle_read-Kept, Kept}
use async_echo_server.Session.Receive.Stream.{is_armed, posted, resume, receive, IsChunk}
use async_echo_server.Whole.{nodes}

prepend-Kept : (s : Session) (acts : List Action) (o : Outcome) → Kept s o → Kept s (prepend acts o)
prepend-Kept s acts (returned s' bs) k = k
prepend-Kept s acts (threw_after bs) k = tt
prepend-Kept s acts corrupted k = tt
prepend-Kept s acts unfinished k = tt

Kept-trans : (s t : Session) (o : Outcome) → Kept s (returned t []) → Kept t o → Kept s o
Kept-trans s t (returned u acts) a b = (b.0 ∙ a.0, b.1 ∙ a.1)
Kept-trans s t (threw_after acts) a b = tt
Kept-trans s t corrupted a b = tt
Kept-trans s t unfinished a b = tt

resume-Kept :
    (s : Session) (o : Outcome) (next : Session → Outcome)
    → Kept s o
    → ((t : Session) → Kept t (next t))
    → Kept s (resume o next)
resume-Kept s (returned t acts) next a k = by_armed (is_armed acts)
  where
    by_armed : (b : Bool) → Kept s (if b then prepend acts (next t) else returned t acts)
    by_armed true = prepend-Kept s acts (next t) (Kept-trans s t (next t) a (k t))
    by_armed false = a
resume-Kept s (threw_after acts) next a k = tt
resume-Kept s corrupted next a k = tt
resume-Kept s unfinished next a k = tt

pub receive-Kept :
    (p : Platform) (chunks : List (List ℕ)) (s : Session)
    → All IsChunk chunks
    → Kept s (receive p s chunks)
unfolding receive
receive-Kept p [] s h = (refl, refl)
receive-Kept p (chunk ∷ chunks) s h =
    resume-Kept s (handle_read p (arrive s chunk) false (length chunk)) (λ t. receive p t chunks)
      (handle_read-Kept p (arrive s chunk) false (length chunk) h.0.0)
      (λ t. receive-Kept p chunks t h.1)

nodes-posted : (acts : List Action) → map message_of (nodes acts) ≡ posted acts
unfolding nodes posted
nodes-posted [] = refl
nodes-posted (async_read ∷ acts) = nodes-posted acts
nodes-posted (async_write bytes ∷ acts) = nodes-posted acts
nodes-posted (post_msg r ∷ acts) = ap (◌∷◌ (message_of r)) (nodes-posted acts)
nodes-posted (close_socket ∷ acts) = nodes-posted acts
nodes-posted (clear_session ∷ acts) = nodes-posted acts

only :
    (rs : List ReciveNode) (m : Message)
    → map message_of rs ≡ m ∷ []
    → (r : ReciveNode) × (rs ≡ r ∷ []) × (message_of r ≡ m)
only [] m e = cc
only (r ∷ []) m e = (r, refl, cc)
only (r ∷ q ∷ rs) m e = cc

-- A handler that has posted one message has handed over one node.
pub posted-one :
    (acts : List Action) (m : Message)
    → posted acts ≡ m ∷ []
    → (r : ReciveNode) × (nodes acts ≡ r ∷ []) × (message_of r ≡ m)
posted-one acts m e = only (nodes acts) m (nodes-posted acts ∙ e)
