-- ===== src/Version2/Texts.antt =====
-- The frames that a client of version 2 sends, and the texts that a receiver takes.
use async_echo_server.Base.{
  ℕ, ◌≤◌, ◌≡◌, refl, ap, ◌∙◌, subst, inl, inr, List, [], ◌∷◌, ◌++◌, map, flatten, length, get_or,
  arith, All, Bool-cases, test→eq, ◌==◌, append_assoc, All-append,
}
use async_echo_server.Base.Runs.{run, ahead, run-append, run-nil}
use async_echo_server.Platform.{
  Platform, short_gt, is_negative, short_le, short_gt_le, is_negative_lt,
}
use async_echo_server.Wire.Frames.{big_endian, short_at-big_endian}
use async_echo_server.Version2.Wire.{
  limit, Receiver, Reception, header, body, broken, refused, failed, gather, open_message, begin,
  feed, absorb, absorb-header_full, gather_full,
}

-- A length in network order, and the text.
abbrev pub text_frame : List ℕ → List ℕ
text_frame text = big_endian (length text) ++ text

abbrev pub IsShort : List ℕ → Type 0
IsShort text = length text ≤ limit

begin-text_frame :
    (p : Platform) (text : List ℕ)
    → IsShort text
    → begin p (big_endian (length text)) ≡ gather (length text) []
unfolding begin open_message get_or
begin-text_frame p text h = rw (
  short_at-big_endian p (length text) h,
  short_gt_le (length text) limit h,
  is_negative_lt (length text) (omega arith),
)

absorb-text_frame :
    (p : Platform) (text rest : List ℕ)
    → IsShort text
    → absorb p (header []) (text_frame text ++ rest)
      ≡ ahead (feed p) (text ∷ []) (absorb p (header []) rest)
absorb-text_frame p text rest h =
    ap (absorb p (header [])) (append_assoc (big_endian (length text)) text rest)
    ∙ run-append (feed p) (header []) (big_endian (length text)) (text ++ rest)
    ∙ ap (λ q. ahead (feed p) q.1 (absorb p q.0 (text ++ rest)))
        (absorb-header_full p [] (big_endian (length text)) (omega arith) refl
          ∙ begin-text_frame p text h)
    ∙ gather_full p (length text) [] text rest (omega arith)

-- Frames that follow one another without a gap are told apart.
pub absorb-text_frames :
    (p : Platform) (texts : List (List ℕ))
    → All IsShort texts
    → absorb p (header []) (flatten (map text_frame texts)) ≡ (header [], texts)
unfolding flatten
absorb-text_frames p [] h = run-nil (feed p) (header [])
absorb-text_frames p (text ∷ texts) h =
    absorb-text_frame p text (flatten (map text_frame texts)) h.0
    ∙ ap (ahead (feed p) (text ∷ [])) (absorb-text_frames p texts h.1)

-- A message is begun only with an acceptable length.
abbrev IsSound : Receiver → Type 0
IsSound (header h) = Unit
IsSound (body len text) = len ≤ limit
IsSound broken = Unit
IsSound refused = Unit
IsSound failed = Unit

abbrev IsSoundReception : Reception → Type 0
IsSoundReception r = IsSound r.0 × All IsShort r.1

gather-IsSound : (len : ℕ) (text : List ℕ) → len ≤ limit → IsSoundReception (gather len text)
unfolding gather
gather-IsSound len text h = elim (Bool-cases (length text == len)) [
  | inl e ↦ rw e (tt, (omega (arith, test→eq (length text) len e), tt))
  | inr e ↦ rw e (h, tt)
]

open_message-IsSound : (len : ℕ) → IsSoundReception (open_message len)
unfolding open_message
open_message-IsSound len = elim (Bool-cases (short_gt len limit)) [
  | inl e ↦ rw e (tt, tt)
  | inr e ↦ rw e (elim (Bool-cases (is_negative len)) [
    | inl neg ↦ rw neg (elim (Bool-cases (len == 0xffff)) [
      | inl one ↦ rw one (tt, tt)
      | inr more ↦ rw more (tt, tt)
    ])
    | inr nat ↦ rw nat (gather-IsSound len [] (short_le len limit nat e))
  ])
]

feed-IsSound : (p : Platform) (rx : Receiver) (b : ℕ) → IsSound rx → IsSoundReception (feed p rx b)
unfolding feed begin
feed-IsSound p (header h) b s = elim (Bool-cases (length (h ++ b ∷ []) == 2)) [
  | inl e ↦ rw e (open_message-IsSound _)
  | inr e ↦ rw e (tt, tt)
]
feed-IsSound p (body len text) b s = gather-IsSound len (text ++ b ∷ []) s
feed-IsSound p broken b s = (tt, tt)
feed-IsSound p refused b s = (tt, tt)
feed-IsSound p failed b s = (tt, tt)

All-right : (xs ys : List (List ℕ)) → All IsShort (xs ++ ys) → All IsShort ys
All-right [] ys h = h
All-right (x ∷ xs) ys h = All-right xs ys h.1

absorb-IsShort_from :
    (p : Platform) (rx : Receiver) (xs : List ℕ) → IsSound rx → All IsShort (absorb p rx xs).1
unfolding run
absorb-IsShort_from p rx [] s = tt
absorb-IsShort_from p rx (x ∷ xs) s =
    let (s', short) = feed-IsSound p rx x s in
    All-append IsShort (feed p rx x).1 _ short (absorb-IsShort_from p (feed p rx x).0 xs s')

-- The texts that are completed by the second part of a stream.
pub absorb-IsShort :
    (p : Platform) (xs ys : List ℕ) → All IsShort (absorb p (absorb p (header []) xs).0 ys).1
absorb-IsShort p xs ys = All-right (absorb p (header []) xs).1 _ (
    subst (λ r. All IsShort r.1) (run-append (feed p) (header []) xs ys)
      (absorb-IsShort_from p (header []) (xs ++ ys) tt))
