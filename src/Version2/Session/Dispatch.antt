-- ===== src/Version2/Session/Dispatch.antt =====
-- What a round does with a complete header: it refuses it, or opens a message.
use async_echo_server.Base.{
  ℕ, zero, suc, ◌+◌, ◌≤◌, ◌<◌, ◌≡◌, refl, ap, sym, ◌∙◌, inl, inr, true, List, [], ◌∷◌, ◌++◌, map,
  ok, drop, arith, Bool-cases, test→eq, take-zero, if◌then◌else◌, ◌==◌,
}
use async_echo_server.Base.Runs.{ahead, run-nil}
use async_echo_server.Platform.{Platform, short_gt, is_negative, short_le}
use async_echo_server.Memory.{zeros, length-zeros, length-window}
use async_echo_server.MsgNode.{MsgNode, max_length}
use async_echo_server.Version2.{LongWire}
use async_echo_server.Version2.Wire.{
  broken, refused, Receiver, gather, open_message, feed, absorb, absorb-refused, absorb-failed,
  absorb-broken,
}
use async_echo_server.Version2.Replies.{reply}
use async_echo_server.Version2.Session.{CSession, async_write, clear_session}
use async_echo_server.Version2.Session.Read.{returns, begin_message}
use async_echo_server.Version2.Session.State.{
  Roomy, NodeHolds, window, RoundMeets, Settled, Holds, settle,
}
use async_echo_server.Version2.Session.Openings.{
  data_node, begin_partial, begin_full, begin_negative, begin_overflow, begin_broken,
}
use async_echo_server.Version2.Session.Bodies.{message-meets}

-- A round that completed no message.
pub silent :
    (que : List MsgNode) (rx : Receiver) (s : CSession)
    → s.send_que ≡ que
    → Holds s rx
    → Settled que (rx, []) s (settle rx)
silent que rx s e h = (
  e ∙ sym (ap (λ q. q.0) (run-nil reply que)),
  sym (ap (λ q. map async_write q.1 ++ settle rx) (run-nil reply que)),
  h,
)

data_node-NodeHolds : (len : ℕ) → len ≤ max_length → NodeHolds (data_node len) len []
data_node-NodeHolds len h = record {
  total = refl;
  bound = h;
  node_room = length-zeros (len + 1);
  cur = refl;
  kept = take-zero (zeros (len + 1));
}

module _ (p : Platform) (l : LongWire) (s : CSession) (c n c₀ n₀ : ℕ) (w : Roomy s)
    (inside : c + n ≤ max_length) (fewer : n < n₀) (sum : c + n ≡ c₀ + n₀) where
  -- A header with an acceptable length: its message begins.
  begin-meets :
      (len : ℕ)
      → len ≤ max_length
      → RoundMeets p s.send_que s.buffer c₀ n₀
          (ahead (feed p) (gather len []).1 (absorb p (gather len []).0 (window s c n)))
          (begin_message p l s len c n)
  begin-meets len bound =
      message-meets p l s w c₀ n₀ (data_node len) c n (data_node-NodeHolds len bound) inside true
        (begin_message p l s len c n) refl sum (λ k done enough. omega arith) (omega arith)
        (λ lt. begin_partial p l s w c n inside len bound (omega arith))
        (λ k done enough.
          let e : k ≡ len = omega arith in
          rw e (begin_full p l s w c n inside len bound (omega arith)))

  -- The length -1, with or without bytes behind the header.
  minus_one :
      (n' : ℕ)
      → n' ≡ n
      → RoundMeets p s.send_que s.buffer c₀ n₀
          (absorb p broken (window s c n'))
          (begin_message p l s 0xffff c n')
  minus_one zero e =
      rw
        (take-zero (drop c s.buffer), run-nil (feed p) broken, begin_broken p l s c w (omega arith))
        (silent s.send_que broken _ refl (record {
          parse = refl;
          roomy = record {
            room = length-zeros max_length;
            head_total = w.head_total;
            head_room = w.head_room;
          };
          held = refl;
        }))
  minus_one (suc n') e =
      rw
        (
          begin_overflow p l s w c (suc n') (omega arith) (omega arith),
          absorb-broken p (window s c (suc n'))
              (omega (arith, length-window s.buffer c (suc n') (omega (arith, w.room)))),
        )
        refl

  -- What follows a complete header.
  pub dispatch-meets :
      (len : ℕ)
      → RoundMeets p s.send_que s.buffer c₀ n₀
          (ahead (feed p) (open_message len).1 (absorb p (open_message len).0 (window s c n)))
          (if short_gt len max_length
            then ok (returns s (clear_session ∷ []))
            else begin_message p l s len c n)
  unfolding open_message
  dispatch-meets len = elim (Bool-cases (short_gt len max_length)) [
    | inl e ↦ rw (e, absorb-refused p (window s c n)) (silent s.send_que refused s refl tt)
    | inr e ↦ rw e (elim (Bool-cases (is_negative len)) [
      | inl neg ↦ rw neg (elim (Bool-cases (len == 0xffff)) [
        | inl one ↦ rw one (rw (test→eq len 0xffff one) (minus_one n refl))
        | inr more ↦
            rw
              (more, absorb-failed p (window s c n), begin_negative p l s w c n inside len neg more)
              refl
      ])
      | inr nat ↦ rw nat (begin-meets len (short_le len max_length nat e))
    ])
  ]
