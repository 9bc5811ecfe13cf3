-- ===== src/Version2/Session/Headers.antt =====
-- A round that comes to a header: the header stays incomplete, or is completed.
use async_echo_server.Base.{
  ℕ, ◌+◌, ◌-◌, ◌≤◌, ◌<◌, ◌≡◌, refl, ap, sym, ◌∙◌, inl, inr, List, [], ◌∷◌, ◌++◌, length, take,
  arith, ltb, Bool-cases, ltb→lt, ltb→le, length-append,
}
use async_echo_server.Base.Runs.{ahead, run-append}
use async_echo_server.Platform.{Platform}
use async_echo_server.Memory.{length-zeros, length-window}
use async_echo_server.MsgNode.{max_length}
use async_echo_server.Session.Receive.Steps.{header_node, filled-kept, length-filled}
use async_echo_server.Version2.{LongWire}
use async_echo_server.Version2.Wire.{
  header, begin, feed, absorb, absorb-header, absorb-header_full, begin-take,
}
use async_echo_server.Version2.Session.{CSession}
use async_echo_server.Version2.Session.Read.{round, read_header}
use async_echo_server.Version2.Session.State.{Roomy, AtHeader, window, RoundMeets}
use async_echo_server.Version2.Session.Openings.{read_header_partial, read_header_full}
use async_echo_server.Version2.Session.Finish.{window-split}
use async_echo_server.Version2.Session.Dispatch.{dispatch-meets, silent}

into_header :
    (p : Platform) (l : LongWire) (s : CSession) (c n : ℕ) {h : List ℕ}
    → AtHeader s h
    → round p l s c n ≡ read_header p l s c n
unfolding round
into_header p l s c n a = ground (arith, a.parse)

-- The first byte of a header.
absorb-one :
    (p : Platform) (h xs : List ℕ)
    → 0 < length xs
    → length h + length xs < 2
    → absorb p (header h) xs ≡ (header (h ++ xs), [])
absorb-one p h [] pos lt = absurd (omega arith)
absorb-one p [] (x ∷ []) pos lt = absorb-header p x
absorb-one p [] (x ∷ y ∷ xs) pos lt = absurd (omega arith)
absorb-one p (a ∷ h) (x ∷ xs) pos lt = absurd (omega arith)

module _ (p : Platform) (l : LongWire) (s : CSession) (c n : ℕ) {h : List ℕ} (a : AtHeader s h)
    (inside : c + n ≤ max_length) where
  size : (k : ℕ) → k ≤ n → length (window s c k) ≡ k
  size k le = length-window s.buffer c k (omega (arith, a.roomy.room))

  kept :
      (k : ℕ)
      → k ≤ n
      → length h + k ≤ 2
      → take (length (h ++ window s c k)) (header_node s.recv_head_node s.buffer c k).chars
        ≡ h ++ window s c k
  kept k le fits =
      filled-kept s.recv_head_node s.buffer c k h a.cur a.kept
        (omega (arith, a.cur, a.roomy.head_room)) (omega (arith, a.roomy.room))

  room-filled :
      (k : ℕ)
      → k ≤ n
      → length h + k ≤ 2
      → length (header_node s.recv_head_node s.buffer c k).chars ≡ 3
  room-filled k le fits =
      length-filled s.recv_head_node s.buffer c k (omega (arith, a.cur, a.roomy.head_room))
        (omega (arith, a.roomy.room))
      ∙ a.roomy.head_room

  module _ (k : ℕ) (le : k ≤ n) (whole : length h + k ≡ 2) where
    -- The header node with its last bytes has the whole header.
    header_node-begin :
        begin p (header_node s.recv_head_node s.buffer c k).chars ≡ begin p (h ++ window s c k)
    header_node-begin =
        sym (begin-take p (header_node s.recv_head_node s.buffer c k).chars)
        ∙ ap (begin p) (
            ap (λ m. take m (header_node s.recv_head_node s.buffer c k).chars)
              (omega (arith, length-append h (window s c k), size k le))
            ∙ kept k le (omega arith))

    header-split :
        absorb p (header h) (window s c n)
        ≡ ahead (feed p) (begin p (header_node s.recv_head_node s.buffer c k).chars).1 (
            absorb p
              (begin p (header_node s.recv_head_node s.buffer c k).chars).0
              (window s (c + k) (n - k)))
    header-split =
        ap (absorb p (header h)) (window-split s c n k le)
        ∙ run-append (feed p) (header h) (window s c k) (window s (c + k) (n - k))
        ∙ ap (λ q. ahead (feed p) q.1 (absorb p q.0 (window s (c + k) (n - k))))
            (absorb-header_full p h (window s c k) a.short (omega (arith, size k le))
              ∙ sym header_node-begin)

    header-full :
        RoundMeets p s.send_que s.buffer c n (absorb p (header h) (window s c n)) (round p l s c n)
    unfolding begin
    header-full =
        rw
          (
            into_header p l s c n a,
            read_header_full p l s a.roomy c n inside k (omega (arith, a.cur)) le,
            header-split,
          )
          (dispatch-meets p l
            (record s { recv_head_node = header_node s.recv_head_node s.buffer c k }) (c + k)
            (n - k) c n roomy (omega arith) (omega (arith, a.short)) (omega arith) _)
      where
        roomy : Roomy (record s { recv_head_node = header_node s.recv_head_node s.buffer c k })
        roomy = record {
          room = a.roomy.room;
          head_total = a.roomy.head_total;
          head_room = room-filled k le (omega arith);
        }

  header-partial :
      0 < n
      → length h + n < 2
      → RoundMeets p s.send_que s.buffer c n (absorb p (header h) (window s c n)) (round p l s c n)
  header-partial pos lt =
      rw
        (
          into_header p l s c n a,
          read_header_partial p l s a.roomy c n inside (omega (arith, a.cur)),
          absorb-one p h (window s c n) (omega (arith, size n (omega arith)))
              (omega (arith, size n (omega arith))),
        )
        (silent s.send_que (header (h ++ window s c n)) _ refl (record {
          parse = a.parse;
          roomy = record {
            room = length-zeros max_length;
            head_total = a.roomy.head_total;
            head_room = room-filled n (omega arith) (omega arith);
          };
          cur = omega (arith, a.cur, length-append h (window s c n), size n (omega arith));
          short = omega (arith, length-append h (window s c n), size n (omega arith));
          kept = kept n (omega arith) (omega arith);
        }))

  -- A round between messages.
  pub header-meets :
      0 < n
      → RoundMeets p s.send_que s.buffer c n (absorb p (header h) (window s c n)) (round p l s c n)
  header-meets pos = elim (Bool-cases (ltb (length h + n) 2)) [
    | inl t ↦ header-partial pos (ltb→lt (length h + n) 2 t)
    | inr f ↦
        header-full (2 - length h) (omega (arith, ltb→le (length h + n) 2 f, a.short))
          (omega (arith, a.short))
  ]
