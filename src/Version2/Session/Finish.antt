-- ===== src/Version2/Session/Finish.antt =====
-- A round of `HandleRead` that completes a message.
use async_echo_server.Base.{
  ℕ, zero, suc, ◌+◌, ◌-◌, ◌≤◌, ◌<◌, ◌≡◌, refl, ap, sym, ◌∙◌, List, [], ◌∷◌, ◌++◌, map, arith,
  length, take, drop, take-zero, take-add, drop-add, length-append, length-drop,
}
use async_echo_server.Base.Runs.{ahead, run_one, run-nil}
use async_echo_server.Platform.{Platform}
use async_echo_server.Memory.{zeros, length-zeros}
use async_echo_server.MsgNode.{MsgNode, max_length}
use async_echo_server.Session.Receive.Steps.{cleared}
use async_echo_server.Version2.{LongWire}
use async_echo_server.Version2.Wire.{header, feed, absorb, Reception}
use async_echo_server.Version2.Replies.{reply}
use async_echo_server.Version2.Session.{CSession, async_read_some, async_write}
use async_echo_server.Version2.Session.Read.{finish_message}
use async_echo_server.Version2.Session.State.{Roomy, AtHeader, window, RoundMeets}
use async_echo_server.Version2.Session.Steps.{finished, finish_last, finish_more}

pub window-split :
    (s : CSession) (c n k : ℕ) → k ≤ n → window s c n ≡ window s c k ++ window s (c + k) (n - k)
window-split s c n k h =
    ap (λ m. take m (drop c s.buffer)) (omega arith)
    ∙ take-add k (n - k) (drop c s.buffer)
    ∙ ap (λ xs. window s c k ++ take (n - k) xs) (sym (drop-add c k s.buffer))

finished-AtHeader :
    (s : CSession) (recv : MsgNode) (que : List MsgNode) (buffer : List ℕ)
    → Roomy s
    → length buffer ≡ max_length
    → AtHeader (record (finished s recv que) { buffer = buffer }) []
finished-AtHeader s recv que buffer w room = record {
  parse = refl;
  roomy = record {
    room = room;
    head_total = w.head_total;
    head_room = omega (
      arith,
      length-append (zeros node.total_len) (drop node.total_len node.chars),
      length-zeros node.total_len,
      length-drop node.total_len node.chars,
      w.head_total,
      w.head_room,
    );
  };
  cur = refl;
  short = omega arith;
  kept = take-zero (cleared node).chars;
}
  where
    open s use {recv_head_node as node}

module _ (p : Platform) (l : LongWire) (s : CSession) (w : Roomy s) (c₀ n₀ : ℕ) where
  -- A complete message is sent back, and the rest of the chunk is read from a new header on.
  pub finish-meets :
      (recv : MsgNode) (text : List ℕ) (c n : ℕ) (r : Reception)
      → recv.total_len ≡ length text
      → length text ≤ max_length
      → length text ≤ length recv.chars
      → take (length text) recv.chars ≡ text
      → n < n₀
      → c + n ≡ c₀ + n₀
      → r ≡ ahead (feed p) (text ∷ []) (absorb p (header []) (window s c n))
      → RoundMeets p s.send_que s.buffer c₀ n₀ r (finish_message p l s recv c n)
  finish-meets recv text c zero r total bound room same fewer sum h =
      rw
        (
          finish_last p l s w recv text total bound room same c,
          h,
          take-zero (drop c s.buffer),
          run-nil (feed p) (header []),
        )
        (
          sym (ap (λ q. q.0) (run_one reply s.send_que text)),
          ap (λ q. map async_write q.1 ++ async_read_some ∷ [])
              (sym (run_one reply s.send_que text)),
          finished-AtHeader s recv (reply s.send_que text).0 (zeros max_length) w
              (length-zeros max_length),
        )
  finish-meets recv text c (suc n) r total bound room same fewer sum h =
      rw (finish_more p l s w recv text total bound room same c (suc n) (omega arith)) (
        text ∷ [],
        sym (ap (λ q. q.0) (run_one reply s.send_que text)),
        ap (λ q. map async_write q.1) (sym (run_one reply s.send_que text)),
        finished-AtHeader s recv (reply s.send_que text).0 s.buffer w w.room,
        refl,
        omega arith,
        fewer,
        sum,
        h,
      )
