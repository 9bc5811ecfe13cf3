-- ===== src/Session/Receive/Refine.antt =====
-- CSession::HandleRead as a whole, against the receiver of `Wire`.
use async_echo_server.Base.{
  subst, ℕ, zero, suc, ◌+◌, ◌≤◌, ◌<◌, ◌≡◌, ap, sym, ◌∙◌, false, List, [], ◌++◌, map, Exec, ok,
  threw, corrupt, take, arith, eq_false, map-append, append_assoc, drop-zero, ap₂,
}
use async_echo_server.Platform.{Platform}
use async_echo_server.Wire.{
  Message, header, body, refused, failed, Receiver, Reception, absorb, after,
}
use async_echo_server.MsgNode.{max_length}
use async_echo_server.Session.{Session, Action}
use async_echo_server.Session.Receive.{
  Round, returns, continues, Outcome, returned, threw_after, corrupted, unfinished, round, prepend,
  proceed, read_loop, handle_read,
}
use async_echo_server.Session.Receive.State.{Effect, deliver, effect, AtHeader, AtBody, settle}
use async_echo_server.Session.Receive.Rounds.{RoundMeets, Settled, window}
use async_echo_server.Session.Receive.Bodies.{body-meets}
use async_echo_server.Session.Receive.Headers.{header-meets}

-- The handler has done what the receiver that came to `r` did. It fails exactly with it.
abbrev pub Meets : Reception → Outcome → Type 0
Meets r (returned s acts) = Settled r s acts
Meets r (threw_after acts) = (r.0 ≡ failed) × (map effect acts ≡ map deliver r.1)
Meets r corrupted = r.0 ≡ failed
Meets r unfinished = ⊥

append-effects :
    (acts bs : List Action) (ms ns : List Message) (tail : List Effect)
    → map effect acts ≡ map deliver ms
    → map effect bs ≡ map deliver ns ++ tail
    → map effect (acts ++ bs) ≡ map deliver (ms ++ ns) ++ tail
append-effects acts bs ms ns tail e f =
    map-append effect acts bs
    ∙ ap₂ ◌++◌ e f
    ∙ sym (append_assoc (map deliver ms) (map deliver ns) tail)
    ∙ ap (λ k. k ++ tail) (sym (map-append deliver ms ns))

-- Deliveries that came before.
Meets-prepend :
    (acts : List Action) (ms : List Message) (r : Reception) (o : Outcome)
    → map effect acts ≡ map deliver ms
    → Meets r o
    → Meets (after ms r) (prepend acts o)
Meets-prepend acts ms r (returned s bs) e m =
    (append-effects acts bs ms r.1 (settle r.0) e m.0, m.1)
Meets-prepend acts ms r (threw_after bs) e m =
    (m.0, map-append effect acts bs ∙ ap₂ ◌++◌ e m.1 ∙ sym (map-append deliver ms r.1))
Meets-prepend acts ms r corrupted e m = m
Meets-prepend acts ms r unfinished e m = m

proceed-Meets :
    (p : Platform) (buffer : List ℕ) (c n : ℕ) (r : Reception) (e : Exec Round)
    (next : Session → ℕ → ℕ → Outcome)
    → RoundMeets p buffer c n r e
    → ((s' : Session) (c' n' : ℕ)
        → AtHeader s' []
        → 0 < n'
        → n' < n
        → c' + n' ≡ c + n
        → Meets (absorb p (header []) (window s' c' n')) (next s' c' n'))
    → Meets r (proceed e next)
unfolding proceed
proceed-Meets p buffer c n r (ok (returns s acts)) next m k = m
proceed-Meets p buffer c n r (ok (continues s c' n' acts)) next (ms, e, at, same, pos, lt, sum, eq)
      k =
    rw (eq, ← same) (Meets-prepend acts ms _ (next s c' n') e (k s c' n' at pos lt sum))
proceed-Meets p buffer c n r threw next m k = (ap (λ q. q.0) m, ap (λ q. map deliver q.1) (sym m))
proceed-Meets p buffer c n r corrupt next m k = ap (λ q. q.0) m

read_loop-suc :
    (p : Platform) (fuel : ℕ) (s : Session) (c n : ℕ)
    → 0 < n
    → read_loop p (suc fuel) s c n ≡ proceed (round p s c n) (read_loop p fuel)
unfolding read_loop
read_loop-suc p fuel s c n pos = rw (eq_false n 0 (omega arith), read_loop)

-- The loop ends, since each round uses up a byte, and has then done what the receiver does.
loop-Meets :
    (p : Platform) (fuel : ℕ) (s : Session) (c n : ℕ) (r : Reception)
    → 0 < n
    → n < fuel
    → c + n ≤ max_length
    → RoundMeets p s.buffer c n r (round p s c n)
    → Meets r (read_loop p fuel s c n)
loop-Meets p zero s c n r pos lt inside m = absurd (omega arith)
loop-Meets p (suc fuel) s c n r pos lt inside m = rw (read_loop-suc p fuel s c n pos) (
    proceed-Meets p s.buffer c n r (round p s c n) (read_loop p fuel) m (λ s' c' n' at pos' lt' sum.
      loop-Meets p fuel s' c' n' _ pos' (omega arith) (omega arith)
        (header-meets p s' c' n' at (omega arith))))

-- A session that waits for more bytes, at some point of the stream.
abbrev pub Waits : Session → Receiver → Type 0
Waits s (header h) = AtHeader s h
Waits s (body id len bytes) = AtBody s id len bytes
Waits s refused = ⊥
Waits s failed = ⊥

round-meets :
    (p : Platform) (s : Session) (n : ℕ) (rx : Receiver)
    → Waits s rx
    → n ≤ max_length
    → RoundMeets p s.buffer 0 n (absorb p rx (window s 0 n)) (round p s 0 n)
round-meets p s n (header h) a le = header-meets p s 0 n a (omega arith)
round-meets p s n (body id len bytes) a le = body-meets p s 0 n a (omega arith)
round-meets p s n refused a le = absurd a
round-meets p s n failed a le = absurd a

-- HandleRead on a chunk that lies at the start of the buffer does what the receiver of `Wire` does
-- with the same bytes: it posts the messages that they complete, in order, then either waits for
-- more in the state of the receiver, or drops the session; it fails exactly where a header has a
-- negative length, and never runs out of fuel.
pub handle_read-refines :
    (p : Platform) (s : Session) (n : ℕ) (rx : Receiver)
    → Waits s rx
    → 0 < n
    → n ≤ max_length
    → Meets (absorb p rx (take n s.buffer)) (handle_read p s false n)
unfolding handle_read
handle_read-refines p s n rx a pos le =
    subst (λ xs. Meets (absorb p rx (take n xs)) (read_loop p (suc n) s 0 n)) (drop-zero s.buffer)
      (loop-Meets p (suc n) s 0 n _ pos (omega arith) (omega arith) (round-meets p s n rx a le))
