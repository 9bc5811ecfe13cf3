-- ===== src/Session/Receive/Rounds.antt =====
-- A round of CSession::HandleRead, against the receiver of `Wire`.
use async_echo_server.Base.{
  refl, ℕ, ◌+◌, ◌<◌, ◌≡◌, List, [], ◌++◌, map, Exec, ok, threw, corrupt, take, drop, length, zero,
  suc, ◌∷◌, take-zero, length-append, length-drop, ap, arith,
}
use async_echo_server.Platform.{Platform}
use async_echo_server.Wire.{Message, failed, Reception, absorb, after, header}
use async_echo_server.Session.{Session, Action, ReciveNode, max_length}
use async_echo_server.Session.Receive.{Round, returns, continues, finish_message}
use async_echo_server.Session.Receive.State.{
  deliver, effect, settle, Holds, AtHeader, message_of, await,
}
use async_echo_server.Memory.{zeros, length-zeros}
use async_echo_server.MsgNode.{ReciveNode}
use async_echo_server.Wire.Laws.{absorb-nil}
use async_echo_server.Session.Receive.Steps.{finished, cleared, finish_last, finish_more}

-- The receiver has come to `r`, and the session with it, for good.
abbrev pub Settled : Reception → Session → List Action → Type 0
Settled r s acts = (map effect acts ≡ map deliver r.1 ++ settle r.0) × Holds s r.0

-- With the `n` bytes of the buffer at `c` before it, the receiver comes to `r`.
abbrev pub RoundMeets : Platform → List ℕ → ℕ → ℕ → Reception → Exec Round → Type 0
RoundMeets p buffer c n r (ok (returns s' acts)) = Settled r s' acts
RoundMeets p buffer c n r (ok (continues s' c' n' acts)) =
    (ms : List Message) × (map effect acts ≡ map deliver ms)
    × AtHeader s' []
    × (s'.buffer ≡ buffer)
    × (0 < n')
    × (n' < n)
    × (c' + n' ≡ c + n)
    × (r ≡ after ms (absorb p (header []) (take n' (drop c' buffer))))
RoundMeets p buffer c n r threw = r ≡ (failed, [])
RoundMeets p buffer c n r corrupt = r ≡ (failed, [])

-- The bytes of the chunk that are still to be used.
abbrev pub window : Session → ℕ → ℕ → List ℕ
window s c n = take n (drop c s.buffer)

-- What stays true of a session's buffers in every state that waits.
pub record Roomy (s : Session) : Type 0 where
  pub room : length s.buffer ≡ max_length
  pub head_total : s.recv_head_node.total_len ≡ 4
  pub head_room : length s.recv_head_node.chars ≡ 5

finished-AtHeader :
    (s : Session) (recv : ReciveNode) (buffer : List ℕ)
    → Roomy s
    → length buffer ≡ max_length
    → AtHeader (record (finished s recv) { buffer = buffer }) []
finished-AtHeader s recv buffer w room = record {
  parse = refl;
  room = room;
  head_total = w.head_total;
  head_room = omega (
    arith,
    length-append (zeros node.total_len) (drop node.total_len node.chars),
    length-zeros node.total_len,
    length-drop node.total_len node.chars,
    w.head_total,
    w.head_room,
  );
  cur = refl;
  short = omega arith;
  kept = take-zero (cleared node).chars;
}
  where
    open s use {recv_head_node as node}

-- A complete message is delivered, and the rest of the chunk is read from a new header on.
pub finish-meets :
    (p : Platform) (s : Session) (recv : ReciveNode) (c n c₀ n₀ : ℕ) (m : Message) (r : Reception)
    → Roomy s
    → message_of recv ≡ m
    → n < n₀
    → c + n ≡ c₀ + n₀
    → r ≡ after (m ∷ []) (absorb p (header []) (window s c n))
    → RoundMeets p s.buffer c₀ n₀ r (finish_message s recv c n)
finish-meets p s recv c zero c₀ n₀ m r w e fewer same h =
    rw
      (
        finish_last s recv c w.room (omega (arith, w.head_total)) w.head_room,
        h,
        take-zero (drop c s.buffer),
        absorb-nil p (header []),
      )
      (
        ap (λ k. deliver k ∷ await ∷ []) e,
        finished-AtHeader s recv (zeros max_length) w (length-zeros max_length),
      )
finish-meets p s recv c (suc n) c₀ n₀ m r w e fewer same h =
    rw (finish_more s recv c (suc n) (omega (arith, w.head_total)) w.head_room (omega arith)) (
      m ∷ [],
      ap (λ k. deliver k ∷ []) e,
      finished-AtHeader s recv s.buffer w w.room,
      refl,
      omega arith,
      fewer,
      same,
      h,
    )
