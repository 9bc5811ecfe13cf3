-- ===== src/MultiThread/Session/Frames.antt =====
-- A connection to the multi-threaded server as a stream of chunks.
use async_echo_server.Base.{
  ℕ, ◌≡◌, refl, ap, ◌∙◌, Bool, true, false, List, [], ◌∷◌, map, flatten, length, All, if◌then◌else◌,
}
use async_echo_server.Platform.{Platform}
use async_echo_server.Wire.{Message}
use async_echo_server.Wire.Frames.{frame, IsAcceptable}
use async_echo_server.Session.{Session, Action}
use async_echo_server.Session.Receive as V3Read
use async_echo_server.Session.Receive.State.{AtHeader}
use async_echo_server.Session.Receive.Arrival.{arrive}
use async_echo_server.Session.Receive.Stream.{is_armed, posted, resume, IsChunk}
use async_echo_server.Session.Receive.Stream as V3Stream
use async_echo_server.Session.Receive.RoundTrip as V3RoundTrip
use async_echo_server.MultiThread.Session.Read.{
  Outcome, returned, caught, corrupted, unfinished, prepend, handle_read,
}
use async_echo_server.MultiThread.Session.Same.{without_catch, prepend-V3, handle_read-V3}

-- The handler runs again on the next chunk if it has asked for one.
abbrev pub go_on : Outcome → (Session → Outcome) → Outcome
go_on (returned s acts) next = if is_armed acts then prepend acts (next s) else returned s acts
go_on (caught s acts) next = caught s acts
go_on corrupted next = corrupted
go_on unfinished next = unfinished

unfoldable pub receive : Platform → Session → List (List ℕ) → Outcome
receive p s [] = returned s []
receive p s (chunk ∷ chunks) =
    go_on (handle_read p (arrive s chunk) false (length chunk)) (λ s'. receive p s' chunks)

if-V3 :
    (b : Bool) (x y : Outcome) (x' y' : V3Read.Outcome)
    → without_catch x ≡ x'
    → without_catch y ≡ y'
    → without_catch (if b then x else y) ≡ (if b then x' else y')
if-V3 true x y x' y' h k = h
if-V3 false x y x' y' h k = k

go_on-V3 :
    (o : Outcome) (next : Session → Outcome) (next' : Session → V3Read.Outcome)
    → ((s : Session) → without_catch (next s) ≡ next' s)
    → without_catch (go_on o next) ≡ resume (without_catch o) next'
go_on-V3 (returned s acts) next next' h =
    if-V3 (is_armed acts) _ _ _ _ (prepend-V3 acts (next s) ∙ ap (V3Read.prepend acts) (h s)) refl
go_on-V3 (caught s acts) next next' h = refl
go_on-V3 corrupted next next' h = refl
go_on-V3 unfinished next next' h = refl

receive-V3 :
    (p : Platform) (s : Session) (chunks : List (List ℕ))
    → without_catch (receive p s chunks) ≡ V3Stream.receive p s chunks
unfolding receive V3Stream.receive
receive-V3 p s [] = refl
receive-V3 p s (chunk ∷ chunks) =
    go_on-V3 (handle_read p (arrive s chunk) false (length chunk)) (λ s'. receive p s' chunks)
      (λ s'. V3Stream.receive p s' chunks) (λ s'. receive-V3 p s' chunks)
    ∙ ap (λ o. resume o (λ s'. V3Stream.receive p s' chunks))
        (handle_read-V3 p (arrive s chunk) false (length chunk))

returned-V3 :
    (o : Outcome) (s : Session) (acts : List Action)
    → without_catch o ≡ V3Read.returned s acts
    → o ≡ returned s acts
returned-V3 (returned s' bs) s acts e = cc
returned-V3 (caught s' bs) s acts e = cc
returned-V3 corrupted s acts e = cc
returned-V3 unfinished s acts e = cc

-- The framing of the multi-threaded server holds: frames with ids and lengths of at most 2048 that
-- arrive back to back on a session that waits for a header, cut into chunks of 1 to 2048 bytes in
-- any way, make HandleRead post exactly their messages, in order, and no exception is caught; at
-- the end the session waits for a new header.
pub receive-messages :
    (p : Platform) (s : Session) (ms : List Message) (chunks : List (List ℕ))
    → AtHeader s []
    → All IsAcceptable ms
    → All IsChunk chunks
    → flatten chunks ≡ flatten (map frame ms)
    → (s' : Session) × (acts : List Action) × (receive p s chunks ≡ returned s' acts)
      × (posted acts ≡ ms)
      × AtHeader s' []
receive-messages p s ms chunks a ok_ms ok_chunks e =
    let (s', acts, r, same, at) = V3RoundTrip.receive-frames p s ms chunks a ok_ms ok_chunks e in
    (s', acts, returned-V3 (receive p s chunks) s' acts (receive-V3 p s chunks ∙ r), same, at)
