-- ===== src/Session/Send/Safety.antt =====
-- What holds of a session's outgoing line after any history of sends, completed and failed writes.
use async_echo_server.Base.{
  ◌+◌, ◌≤◌, ◌≡◌, refl, ap, sym, ◌∙◌, inl, inr, true, false, List, [], ◌∷◌, ◌++◌, map, length, arith,
  Bool-cases, append-nil,
}
use async_echo_server.Platform.{Platform}
use async_echo_server.MsgNode.{SendNode, wire_bytes, max_send_queue}
use async_echo_server.Session.{Session, Action}
use async_echo_server.Session.Send.{send_string, send_chars}
use async_echo_server.Session.Send.Line.{
  Line, Step, sends_string, sends_chars, completes, fails, Opened, Reach, here, next, after_send,
}
use async_echo_server.Session.Send.Queue.{front, Enqueued, full, first, later, enqueue-Enqueued}
use async_echo_server.Session.Send.Order.{Inv, Step-Inv, Reach-Inv}

length-front : (que : List SendNode) → length (front que) ≤ 1
unfolding front
length-front [] = omega arith
length-front (node ∷ que) = omega arith

-- On a line that starts empty, no history of sends, completed and failed writes has two
-- `async_write` operations on the socket at the same time.
pub one_write_at_a_time :
    (p : Platform) {l u : Line} → Opened l → Reach p l u → length u.writing ≤ 1
one_write_at_a_time p {l} {u} o r = elim (Bool-cases u.broken) [
  | inl t ↦ omega (arith, ap length ((Reach-Inv p o r).stuck t).0)
  | inr f ↦ omega (arith, ap length ((Reach-Inv p o r).flow f), length-front u.session.send_que)
]

-- On a line that starts empty, after any history the frames that Asio has written, followed by
-- those in the queue, are exactly the frames that `Send` accepted, in the order of the calls.
pub frames_in_order :
    (p : Platform) {l u : Line}
    → Opened l
    → Reach p l u
    → u.written ++ map wire_bytes u.session.send_que ≡ u.accepted
frames_in_order p o r = (Reach-Inv p o r).order

-- On a line that starts empty the queue never holds more than `MAX_SENDQUEUE` + 1 frames.
pub queue_bounded :
    (p : Platform) {l u : Line}
    → Opened l
    → Reach p l u
    → length u.session.send_que ≤ max_send_queue + 1
queue_bounded p o r = omega (arith, (Reach-Inv p o r).bound)

-- On a line that starts empty and on which no write has failed, a frame that waits is not
-- forgotten: the head of a queue that is not empty is being written.
pub waiting_is_written :
    (p : Platform) {l u : Line} (node : SendNode) (que : List SendNode)
    → Opened l
    → Reach p l u
    → u.broken ≡ false
    → u.session.send_que ≡ node ∷ que
    → u.writing ≡ wire_bytes node ∷ []
unfolding front
waiting_is_written p node que o r sound q = (Reach-Inv p o r).flow sound ∙ ap front q

-- Nothing more goes out.
record Same (u t : Line) : Type 0 where
  dead : t.broken ≡ true
  kept : t.written ≡ u.written
  quiet : t.writing ≡ []

sent_when_broken :
    (u : Line) (s' : Session) (acts : List Action)
    → Inv u
    → u.broken ≡ true
    → Enqueued u.session s' acts
    → Same u (after_send u s' acts)
sent_when_broken u s' acts v b (full over same none_written) = record {
  dead = b;
  kept = refl;
  quiet = rw none_written (append-nil u.writing ∙ (v.stuck b).0);
}
sent_when_broken u s' acts v b (later node before le same none_written) = record {
  dead = b;
  kept = refl;
  quiet = rw none_written (append-nil u.writing ∙ (v.stuck b).0);
}
sent_when_broken u s' acts v b (first node empty same written) =
    absurd (omega (arith, (v.stuck b).1, ap length empty))

Step-Same : (p : Platform) {u t : Line} → Inv u → u.broken ≡ true → Step p u t → Same u t
unfolding send_string send_chars
Step-Same p {u} v b (sends_string msg id s' acts e same) =
    rw same (sent_when_broken u s' acts v b (enqueue-Enqueued p u.session _ _ id s' acts e))
Step-Same p {u} v b (sends_chars buffer len id s' acts e same) =
    rw same (sent_when_broken u s' acts v b (enqueue-Enqueued p u.session _ _ id s' acts e))
Step-Same p {u} v b (completes bytes rest s' acts w e same) =
    absurd (omega (arith, ap length (sym w ∙ (v.stuck b).0)))
Step-Same p {u} v b (fails bytes rest s' acts w e same) =
    absurd (omega (arith, ap length (sym w ∙ (v.stuck b).0)))

Reach-Same : (p : Platform) {u t : Line} → Inv u → u.broken ≡ true → Reach p u t → Inv t × Same u t
Reach-Same p {u} v b here = (v, record { dead = b; kept = refl; quiet = (v.stuck b).0 })
Reach-Same p {u} v b (next r st) =
    let (w, same) = Reach-Same p v b r in
    let after = Step-Same p w same.dead st in
    (
      Step-Inv p st w,
      record { dead = after.dead; kept = after.kept ∙ same.kept; quiet = after.quiet },
    )

-- Once a write has failed, on a line that started empty, nothing is written any more: whatever is
-- still sent, no further write starts.
pub broken_is_final :
    (p : Platform) {l u t : Line}
    → Opened l
    → Reach p l u
    → u.broken ≡ true
    → Reach p u t
    → (t.broken ≡ true) × (t.written ≡ u.written) × (t.writing ≡ [])
broken_is_final p o r b later_on =
    let same = (Reach-Same p (Reach-Inv p o r) b later_on).1 in (same.dead, same.kept, same.quiet)
