-- ===== src/Version2/Session/Echo.antt =====
-- What a connection of version 2 sends back, over any history of chunks and completed writes.
use async_echo_server.Base.{
  ℕ, ◌+◌, ◌≤◌, ◌≡◌, refl, sym, subst, Bool, true, false, List, [], ◌∷◌, ◌++◌, map, ok, arith,
  length, drop, length-append, Exec, threw, corrupt,
}
use async_echo_server.Base.Runs.{run-append, run-nil}
use async_echo_server.MsgNode.{MsgNode}
use async_echo_server.Platform.{Platform}
use async_echo_server.Version2.{LongWire, max_send_queue}
use async_echo_server.Version2.Wire.{
  Reception, Receiver, header, body, broken, refused, failed, feed, absorb,
}
use async_echo_server.Version2.Replies.{echo_node, echo_bytes}
use async_echo_server.Version2.Texts.{absorb-IsShort}
use async_echo_server.Version2.Session.{CSession, Request, handle_write}
use async_echo_server.Version2.Session.State.{AtHeader, Settled}
use async_echo_server.Version2.Session.Refine.{Waits}
use async_echo_server.Version2.Session.History.{
  History, opened, received, written, writes, writes-Settled, received-echoes, armed-Waits,
  is_armed,
}
use async_echo_server.Version2.Session.Order.{Ordered, Ordered-replies, Ordered-written}

-- The session stands where the receiver of the bytes that came in does, if it reads on, and has sent
-- its texts back in order.
abbrev Follows : CSession → List Request → Bool → Reception → Type 0
Follows s asked reading r =
    (reading ≡ true → Waits s r.0) × (length r.1 ≤ max_send_queue + 1 → Ordered s asked r.1)

Follows-received :
    (p : Platform) (l : LongWire) (s s' : CSession) (got chunk : List ℕ) (asked acts : List Request)
    → Follows s asked true (absorb p (header []) got)
    → Settled s.send_que (absorb p (absorb p (header []) got).0 chunk) s' acts
    → Follows s' (asked ++ acts) (is_armed acts) (absorb p (header []) (got ++ chunk))
Follows-received p l s s' got chunk asked acts (w, o) m =
    rw (run-append (feed p) (header []) got chunk) (
      λ e. armed-Waits s.send_que (absorb p before.0 chunk) s' acts m e,
      λ few.
          Ordered-replies s s' asked acts before.1 (absorb p before.0 chunk).1
            (o (omega (arith, length-append before.1 (absorb p before.0 chunk).1)))
            (absorb-IsShort p got chunk)
            (omega (arith, length-append before.1 (absorb p before.0 chunk).1)) m.0
            (writes-Settled s.send_que (absorb p before.0 chunk) s' acts m),
    )
  where
    before : Reception
    before = absorb p (header []) got

-- A completed write changes the queue only.
abbrev ChangesQueue : CSession → Exec (CSession × List Request) → Type 0
ChangesQueue s (ok (s', acts)) = (que : List MsgNode) × (s' ≡ record s { send_que = que })
ChangesQueue s threw = Unit
ChangesQueue s corrupt = Unit

handle_write-ChangesQueue :
    (s : CSession) (que : List MsgNode)
    → ChangesQueue s (handle_write (record s { send_que = que }) false)
unfolding handle_write
handle_write-ChangesQueue s [] = tt
handle_write-ChangesQueue s (node ∷ []) = ([], refl)
handle_write-ChangesQueue s (node ∷ next ∷ rest) = (next ∷ rest, refl)

Waits-queue :
    (s : CSession) (que : List MsgNode) (rx : Receiver)
    → Waits s rx
    → Waits (record s { send_que = que }) rx
Waits-queue s que (header h) a = record {
  parse = a.parse;
  roomy = record {
    room = a.roomy.room;
    head_total = a.roomy.head_total;
    head_room = a.roomy.head_room;
  };
  cur = a.cur;
  short = a.short;
  kept = a.kept;
}
Waits-queue s que (body len text) a = record {
  parse = a.parse;
  roomy = record {
    room = a.roomy.room;
    head_total = a.roomy.head_total;
    head_room = a.roomy.head_room;
  };
  recv = a.recv;
  held = a.held;
  holds = a.holds;
  short = a.short;
}
Waits-queue s que broken a = record {
  parse = a.parse;
  roomy = record {
    room = a.roomy.room;
    head_total = a.roomy.head_total;
    head_room = a.roomy.head_room;
  };
  held = a.held;
}
Waits-queue s que refused a = a
Waits-queue s que failed a = a

written-Waits :
    (s s' : CSession) (acts : List Request) (rx : Receiver)
    → handle_write s false ≡ ok (s', acts)
    → Waits s rx
    → Waits s' rx
written-Waits s s' acts rx e a =
    let (que, same) = subst (ChangesQueue s) e (handle_write-ChangesQueue s s.send_que) in
    subst (λ k. Waits k rx) (sym same) (Waits-queue s que rx a)

history-Follows :
    (p : Platform) (l : LongWire) (s₀ : CSession) {s : CSession} {got : List ℕ}
    {asked : List Request} {reading : Bool}
    → AtHeader s₀ []
    → s₀.send_que ≡ []
    → History p l s₀ s got asked reading
    → Follows s asked reading (absorb p (header []) got)
unfolding writes drop
history-Follows p l s₀ a e opened = rw (run-nil (feed p) (header [])) (
  λ t. a,
  λ few. record { queued = []; queue = e; short = tt; in_order = refl; fewer = omega arith },
)
history-Follows p l s₀ a e (received s s' got chunk asked acts h c r) =
    let (w, o) = history-Follows p l s₀ a e h in
    Follows-received p l s s' got chunk asked acts (w, o)
      (received-echoes p l s s' chunk acts _ (w refl) c r)
history-Follows p l s₀ a e (written s s' got asked acts reading h r) =
    let (w, o) = history-Follows p l s₀ a e h in
    (λ t. written-Waits s s' acts _ r (w t), λ few. Ordered-written s s' asked acts _ (o few) r)

-- A session of version 2 that starts before a header with an empty queue sends back the texts of the
-- frames it gets: after any history of chunks of 1 to 2048 bytes and completed writes, as long as at
-- most 1001 texts have been completed, the frames that were given to the socket, followed by those
-- that wait behind the first of the queue, are those of the texts in order, each with a length of
-- zero in front.
pub texts_come_back :
    (p : Platform) (l : LongWire) (s₀ s : CSession) (got : List ℕ) (asked : List Request)
    (reading : Bool)
    → AtHeader s₀ []
    → s₀.send_que ≡ []
    → History p l s₀ s got asked reading
    → length (absorb p (header []) got).1 ≤ max_send_queue + 1
    → (queued : List (List ℕ)) × (s.send_que ≡ map echo_node queued)
      × (writes asked ++ map echo_bytes (drop 1 queued)
          ≡ map echo_bytes (absorb p (header []) got).1)
texts_come_back p l s₀ s got asked reading a e h few =
    let o = (history-Follows p l s₀ a e h).1 few in (o.queued, o.queue, o.in_order)
