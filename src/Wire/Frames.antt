-- ===== src/Wire/Frames.antt =====
-- The frames of the protocol, written down independently of the code.
use async_echo_server.Base.{
  ℕ, ◌/◌, ◌%◌, ◌≤◌, ◌≡◌, refl, ap, ◌∙◌, List, [], ◌∷◌, ◌++◌, map, flatten, length, get_or, arith,
  All, eq_false,
}
use async_echo_server.Platform.{Platform, short_at, short_gt_le, is_negative_lt}
use async_echo_server.Wire.{Message, header, gather, open_message, begin, absorb, after, limit}
use async_echo_server.Wire.Laws.{absorb-append, absorb-header_full, absorb-body_full, absorb-nil}

-- High byte first.
abbrev pub big_endian : ℕ → List ℕ
big_endian w = (w / 256) ∷ (w % 256) ∷ []

unfoldable pub frame : Message → List ℕ
frame m = big_endian m.id ++ big_endian (length m.text) ++ m.text

-- The messages that a receiver takes.
pub record IsAcceptable (m : Message) : Type 0 where
  pub small_id : m.id ≤ limit
  pub small_text : length m.text ≤ limit

pub short_at-big_endian : (p : Platform) (w : ℕ) → w ≤ limit → short_at p (w / 256) (w % 256) ≡ w
short_at-big_endian p w h =
    p.network_to_host-load (w / 256) (w % 256) (omega arith) (omega arith) ∙ omega arith

begin-frame :
    (p : Platform) (m : Message)
    → IsAcceptable m
    → begin p (big_endian m.id ++ big_endian (length m.text)) ≡ gather m.id (length m.text) []
unfolding begin open_message get_or
begin-frame p m a = rw (
  short_at-big_endian p m.id a.small_id,
  short_at-big_endian p (length m.text) a.small_text,
  short_gt_le m.id limit a.small_id,
  short_gt_le (length m.text) limit a.small_text,
  is_negative_lt (length m.text) (omega (arith, a.small_text)),
)

absorb-text :
    (p : Platform) (id : ℕ) (text : List ℕ)
    → after (gather id (length text) []).1 (absorb p (gather id (length text) []).0 text)
      ≡ (header [], record { id = id; text = text } ∷ [])
unfolding gather
absorb-text p id [] = rw (absorb-nil p (header []))
absorb-text p id (x ∷ xs) =
    rw (eq_false 0 (length (x ∷ xs)) (omega arith))
      (absorb-body_full p id (length (x ∷ xs)) [] (x ∷ xs) (omega arith) (omega arith))

-- One frame gives its message and leaves the receiver before the next header.
pub absorb-frame :
    (p : Platform) (m : Message)
    → IsAcceptable m
    → absorb p (header []) (frame m) ≡ (header [], m ∷ [])
unfolding frame
absorb-frame p m a =
    absorb-append p (header []) (big_endian m.id ++ big_endian (length m.text)) m.text
    ∙ ap (λ q. after q.1 (absorb p q.0 m.text))
        (absorb-header_full p [] (big_endian m.id ++ big_endian (length m.text)) (omega arith) refl
          ∙ begin-frame p m a)
    ∙ absorb-text p m.id m.text

-- Frames that follow one another without a gap are told apart.
pub absorb-frames :
    (p : Platform) (ms : List Message)
    → All IsAcceptable ms
    → absorb p (header []) (flatten (map frame ms)) ≡ (header [], ms)
unfolding flatten
absorb-frames p [] a = absorb-nil p (header [])
absorb-frames p (m ∷ ms) a =
    absorb-append p (header []) (frame m) (flatten (map frame ms))
    ∙ ap (λ q. after q.1 (absorb p q.0 (flatten (map frame ms)))) (absorb-frame p m a.0)
    ∙ ap (after (m ∷ [])) (absorb-frames p ms a.1)
