-- ===== src/Version2/Session/Refine.antt =====
-- CSession::HandleRead of version 2 as a whole, against the receiver of `Version2.Wire`.
use async_echo_server.Base.{
  subst, ℕ, zero, suc, ◌+◌, ◌≤◌, ◌<◌, ◌≡◌, ap, ap₂, sym, ◌∙◌, false, List, [], ◌++◌, map, Exec, ok,
  threw, corrupt, take, arith, eq_false, map-append, append_assoc, append-nil, drop-zero, drop,
}
use async_echo_server.Base.Runs.{ahead, run-append, run-nil}
use async_echo_server.Platform.{Platform}
use async_echo_server.MsgNode.{MsgNode, max_length}
use async_echo_server.Version2.{LongWire}
use async_echo_server.Version2.Wire.{
  Receiver, header, body, broken, refused, failed, Reception, feed, absorb,
}
use async_echo_server.Version2.Replies.{reply, replies}
use async_echo_server.Version2.Session.{CSession, Request, async_write}
use async_echo_server.Version2.Session.Read.{
  Round, returns, continues, Outcome, returned, threw_after, corrupted, unfinished, round, prepend,
  proceed, read_loop, handle_read,
}
use async_echo_server.Version2.Session.State.{
  settle, AtHeader, AtBody, AtBroken, Settled, window, RoundMeets,
}
use async_echo_server.Version2.Session.Bodies.{body-meets, broken-meets}
use async_echo_server.Version2.Session.Headers.{header-meets}

-- From the queue `que` on, the handler has done what the receiver that came to `r` did, and has sent
-- the texts back. It fails exactly with it.
abbrev pub Meets : List MsgNode → Reception → Outcome → Type 0
Meets que r (returned s acts) = Settled que r s acts
Meets que r (threw_after acts) = (r.0 ≡ failed) × (acts ≡ map async_write (replies que r.1).1)
Meets que r corrupted = r.0 ≡ failed
Meets que r unfinished = ⊥

-- Two rows of texts, one after the other.
join-writes :
    (que que' : List MsgNode) (ms ns : List (List ℕ)) (acts bs tail : List Request)
    → que' ≡ (replies que ms).0
    → acts ≡ map async_write (replies que ms).1
    → bs ≡ map async_write (replies que' ns).1 ++ tail
    → acts ++ bs ≡ map async_write (replies que (ms ++ ns)).1 ++ tail
join-writes que que' ms ns acts bs tail q e f =
    ap₂ ◌++◌ e (f ∙ ap (λ k. map async_write (replies k ns).1 ++ tail) q)
    ∙ sym (append_assoc (map async_write (replies que ms).1) _ tail)
    ∙ ap (λ k. k ++ tail)
        (sym (map-append async_write (replies que ms).1 (replies (replies que ms).0 ns).1)
          ∙ ap (λ q. map async_write q.1) (sym (run-append reply que ms ns)))

join-queue :
    (que : List MsgNode) (ms ns : List (List ℕ))
    → (replies (replies que ms).0 ns).0 ≡ (replies que (ms ++ ns)).0
join-queue que ms ns = ap (λ q. q.0) (sym (run-append reply que ms ns))

-- Texts that were sent back before.
pub Meets-prepend :
    (p : Platform) (que que' : List MsgNode) (acts : List Request) (ms : List (List ℕ))
    (r : Reception) (o : Outcome)
    → que' ≡ (replies que ms).0
    → acts ≡ map async_write (replies que ms).1
    → Meets que' r o
    → Meets que (ahead (feed p) ms r) (prepend acts o)
Meets-prepend p que que' acts ms r (returned s bs) q e m = (
  m.0 ∙ ap (λ k. (replies k r.1).0) q ∙ join-queue que ms r.1,
  join-writes que que' ms r.1 acts bs (settle r.0) q e m.1,
  m.2,
)
Meets-prepend p que que' acts ms r (threw_after bs) q e m =
    (m.0, join-writes que que' ms r.1 acts bs [] q e (m.1 ∙ sym (append-nil _)) ∙ append-nil _)
Meets-prepend p que que' acts ms r corrupted q e m = m
Meets-prepend p que que' acts ms r unfinished q e m = m

proceed-Meets :
    (p : Platform) (que : List MsgNode) (buffer : List ℕ) (c n : ℕ) (r : Reception) (e : Exec Round)
    (next : CSession → ℕ → ℕ → Outcome)
    → RoundMeets p que buffer c n r e
    → ((s' : CSession) (c' n' : ℕ)
        → AtHeader s' []
        → 0 < n'
        → n' < n
        → c' + n' ≡ c + n
        → Meets s'.send_que (absorb p (header []) (window s' c' n')) (next s' c' n'))
    → Meets que r (proceed e next)
unfolding proceed
proceed-Meets p que buffer c n r (ok (returns s acts)) next m k = m
proceed-Meets p que buffer c n r (ok (continues s c' n' acts)) next
      (ms, q, e, at, same, pos, lt, sum, eq) k =
    subst (λ x. Meets que x (prepend acts (next s c' n'))) (sym eq)
      (subst
        (λ b.
          Meets que (ahead (feed p) ms (absorb p (header []) (take n' (drop c' b))))
            (prepend acts (next s c' n')))
        same
        (Meets-prepend p que s.send_que acts ms _ (next s c' n') q e (k s c' n' at pos lt sum)))
proceed-Meets p que buffer c n r threw next m k = (
  ap (λ q. q.0) m,
  sym (
      ap (λ q. map async_write (replies que q.1).1) m
      ∙ ap (λ q. map async_write q.1) (run-nil reply que)),
)
proceed-Meets p que buffer c n r corrupt next m k = ap (λ q. q.0) m

read_loop-suc :
    (p : Platform) (l : LongWire) (fuel : ℕ) (s : CSession) (c n : ℕ)
    → 0 < n
    → read_loop p l (suc fuel) s c n ≡ proceed (round p l s c n) (read_loop p l fuel)
unfolding read_loop
read_loop-suc p l fuel s c n pos = rw (eq_false n 0 (omega arith), read_loop)

-- The loop ends, since each round uses up a byte, and has then done what the receiver does.
loop-Meets :
    (p : Platform) (l : LongWire) (fuel : ℕ) (s : CSession) (c n : ℕ) (r : Reception)
    → 0 < n
    → n < fuel
    → c + n ≤ max_length
    → RoundMeets p s.send_que s.buffer c n r (round p l s c n)
    → Meets s.send_que r (read_loop p l fuel s c n)
loop-Meets p l zero s c n r pos lt inside m = absurd (omega arith)
loop-Meets p l (suc fuel) s c n r pos lt inside m = rw (read_loop-suc p l fuel s c n pos) (
    proceed-Meets p s.send_que s.buffer c n r (round p l s c n) (read_loop p l fuel) m
      (λ s' c' n' at pos' lt' sum.
        loop-Meets p l fuel s' c' n' _ pos' (omega arith) (omega arith)
          (header-meets p l s' c' n' at (omega arith) pos')))

-- A session that waits for more bytes, at some point of the stream.
abbrev pub Waits : CSession → Receiver → Type 0
Waits s (header h) = AtHeader s h
Waits s (body len text) = AtBody s len text
Waits s broken = AtBroken s
Waits s refused = ⊥
Waits s failed = ⊥

round-meets :
    (p : Platform) (l : LongWire) (s : CSession) (n : ℕ) (rx : Receiver)
    → Waits s rx
    → 0 < n
    → n ≤ max_length
    → RoundMeets p s.send_que s.buffer 0 n (absorb p rx (window s 0 n)) (round p l s 0 n)
round-meets p l s n (header h) a pos le = header-meets p l s 0 n a (omega arith) pos
round-meets p l s n (body len text) a pos le = body-meets p l s 0 n a (omega arith)
round-meets p l s n broken a pos le = broken-meets p l s 0 n a pos (omega arith)
round-meets p l s n refused a pos le = absurd a
round-meets p l s n failed a pos le = absurd a

-- HandleRead of version 2 on a chunk of 1 to 2048 bytes at the start of the buffer of a waiting session
-- does what the receiver of Version2.Wire does with these bytes: it sends the completed texts back in
-- order, each at the end of the queue unless that is full and written at once if it is alone there,
-- and then waits in the state of the receiver or drops the session; it fails exactly where the
-- receiver does, and the loop always ends.
pub handle_read-echoes :
    (p : Platform) (l : LongWire) (s : CSession) (n : ℕ) (rx : Receiver)
    → Waits s rx
    → 0 < n
    → n ≤ max_length
    → Meets s.send_que (absorb p rx (take n s.buffer)) (handle_read p l s false n)
unfolding handle_read
handle_read-echoes p l s n rx a pos le =
    subst (λ xs. Meets s.send_que (absorb p rx (take n xs)) (read_loop p l (suc n) s 0 n))
      (drop-zero s.buffer)
      (loop-Meets p l (suc n) s 0 n _ pos (omega arith) (omega arith)
        (round-meets p l s n rx a pos le))
