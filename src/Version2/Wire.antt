-- ===== src/Version2/Wire.antt =====
-- What the framing of version 2 promises, with no buffer in it: a receiver that takes the stream of a
-- connection one byte at a time. A frame is a length, a `short` in network order, and that many bytes.
use async_echo_server.Base.{
  ℕ, ◌+◌, ◌<◌, ◌≡◌, refl, sym, ap, ◌∙◌, List, [], ◌∷◌, ◌++◌, append-nil, append_assoc, arith,
  length, length-append, eq_false, eq_true, ◌==◌, if◌then◌else◌, get_or, take,
}
use async_echo_server.Base.Runs.{run, run_one, run_step, run_stays, run-nil, ahead, run-append}
use async_echo_server.Platform.{Platform, short_at, short_gt, is_negative}

-- Waiting for the rest of a header, or of a message of this length of which these bytes have come, or
-- for a message of the length -1, which has no room (`broken`); or done with the connection, since a
-- length was too large (`refused`), or negative with bytes behind a -1 or below it (`failed`).
pub data Receiver : Type 0 where
  header : List ℕ → Receiver
  body : ℕ → List ℕ → Receiver
  broken : Receiver
  refused : Receiver
  failed : Receiver

abbrev pub limit : ℕ
limit = 2048

-- A receiver, and the texts that were completed.
abbrev pub Reception : Type 0
Reception = Receiver × List (List ℕ)

unfoldable pub gather : ℕ → List ℕ → Reception
gather len text = if length text == len then (header [], text ∷ []) else (body len text, [])

-- A header with this length.
unfoldable pub open_message : ℕ → Reception
open_message len =
    if short_gt len limit
    then (refused, [])
    else if is_negative len
    then (if len == 0xffff then (broken, []) else (failed, []))
    else gather len []

unfoldable pub begin : Platform → List ℕ → Reception
begin p h = open_message (short_at p (get_or h 0 0) (get_or h 1 0))

unfoldable pub feed : Platform → Receiver → ℕ → Reception
feed p (header h) b = let h' = h ++ b ∷ [] in if length h' == 2 then begin p h' else (header h', [])
feed p (body len text) b = gather len (text ++ b ∷ [])
feed p broken b = (failed, [])
feed p refused b = (refused, [])
feed p failed b = (failed, [])

abbrev pub absorb : Platform → Receiver → List ℕ → Reception
absorb p = run (feed p)

pub absorb-failed : (p : Platform) (xs : List ℕ) → absorb p failed xs ≡ (failed, [])
unfolding feed
absorb-failed p xs = run_stays (feed p) failed xs (λ x. refl)

pub absorb-refused : (p : Platform) (xs : List ℕ) → absorb p refused xs ≡ (refused, [])
unfolding feed
absorb-refused p xs = run_stays (feed p) refused xs (λ x. refl)

pub absorb-broken : (p : Platform) (xs : List ℕ) → 0 < length xs → absorb p broken xs ≡ (failed, [])
unfolding feed
absorb-broken p [] pos = absurd (omega arith)
absorb-broken p (x ∷ xs) pos = run_step (feed p) broken failed x xs _ refl (absorb-failed p xs)

length_snoc : (xs : List ℕ) (x : ℕ) → length (xs ++ x ∷ []) ≡ length xs + 1
length_snoc xs x = length-append xs (x ∷ [])

-- The first byte of a header.
pub absorb-header : (p : Platform) (x : ℕ) → absorb p (header []) (x ∷ []) ≡ (header (x ∷ []), [])
unfolding feed
absorb-header p x = run_one (feed p) (header []) x

-- The bytes that complete a header.
pub absorb-header_full :
    (p : Platform) (h xs : List ℕ)
    → length h < 2
    → length h + length xs ≡ 2
    → absorb p (header h) xs ≡ begin p (h ++ xs)
unfolding feed
absorb-header_full p [] [] lt e = absurd (omega arith)
absorb-header_full p [] (x ∷ []) lt e = absurd (omega arith)
absorb-header_full p [] (x ∷ y ∷ []) lt e =
    run_step (feed p) (header []) (header (x ∷ [])) x (y ∷ []) _ refl
      (run_one (feed p) (header (x ∷ [])) y)
absorb-header_full p [] (x ∷ y ∷ z ∷ xs) lt e = absurd (omega arith)
absorb-header_full p (a ∷ []) [] lt e = absurd (omega arith)
absorb-header_full p (a ∷ []) (x ∷ []) lt e = run_one (feed p) (header (a ∷ [])) x
absorb-header_full p (a ∷ []) (x ∷ y ∷ xs) lt e = absurd (omega arith)
absorb-header_full p (a ∷ b ∷ h) xs lt e = absurd (omega arith)

feed-body :
    (p : Platform) (len : ℕ) (text : List ℕ) (b : ℕ)
    → length text + 1 < len
    → feed p (body len text) b ≡ (body len (text ++ b ∷ []), [])
unfolding feed gather
feed-body p len text b lt =
    rw (eq_false (length (text ++ b ∷ [])) len (omega (arith, length_snoc text b)))

-- A piece that leaves the message incomplete.
pub absorb-body :
    (p : Platform) (len : ℕ) (text xs : List ℕ)
    → length text + length xs < len
    → absorb p (body len text) xs ≡ (body len (text ++ xs), [])
absorb-body p len text [] lt =
    run-nil (feed p) (body len text) ∙ ap (λ k. (body len k, [])) (sym (append-nil text))
absorb-body p len text (x ∷ xs) lt =
    run_step (feed p) (body len text) (body len (text ++ x ∷ [])) x xs _
      (feed-body p len text x (omega arith))
      (absorb-body p len (text ++ x ∷ []) xs (omega (arith, length_snoc text x))
        ∙ ap (λ k. (body len k, [])) (append_assoc text (x ∷ []) xs))

-- The piece that completes it.
pub absorb-body_full :
    (p : Platform) (len : ℕ) (text xs : List ℕ)
    → length text < len
    → length text + length xs ≡ len
    → absorb p (body len text) xs ≡ (header [], (text ++ xs) ∷ [])
unfolding feed gather
absorb-body_full p len text [] lt e = absurd (omega arith)
absorb-body_full p len text (x ∷ []) lt e =
    run_one (feed p) (body len text) x
    ∙ rw (eq_true (length (text ++ x ∷ [])) len (omega (arith, length_snoc text x)))
absorb-body_full p len text (x ∷ y ∷ ys) lt e =
    run_step (feed p) (body len text) (body len (text ++ x ∷ [])) x (y ∷ ys) _
      (feed-body p len text x (omega arith))
      (absorb-body_full p len (text ++ x ∷ []) (y ∷ ys) (omega (arith, length_snoc text x))
          (omega (arith, length_snoc text x))
        ∙ ap (λ k. (header [], k ∷ [])) (append_assoc text (x ∷ []) (y ∷ ys)))

-- A piece that does not complete a message which has begun.
pub gather_partial :
    (p : Platform) (len : ℕ) (text xs : List ℕ)
    → length text + length xs < len
    → ahead (feed p) (gather len text).1 (absorb p (gather len text).0 xs)
      ≡ (body len (text ++ xs), [])
unfolding gather
gather_partial p len text xs lt =
    rw (eq_false (length text) len (omega arith), absorb-body p len text xs lt)

-- The piece that completes it, and what follows.
pub gather_full :
    (p : Platform) (len : ℕ) (text xs ys : List ℕ)
    → length text + length xs ≡ len
    → ahead (feed p) (gather len text).1 (absorb p (gather len text).0 (xs ++ ys))
      ≡ ahead (feed p) ((text ++ xs) ∷ []) (absorb p (header []) ys)
unfolding gather
gather_full p len text [] ys e = rw (eq_true (length text) len (omega arith), append-nil text)
gather_full p len text (x ∷ xs) ys e = rw (
  eq_false (length text) len (omega arith),
  run-append (feed p) (body len text) (x ∷ xs) ys,
  absorb-body_full p len text (x ∷ xs) (omega arith) e,
)

-- A header is read from its two bytes.
pub begin-take : (p : Platform) (xs : List ℕ) → begin p (take 2 xs) ≡ begin p xs
unfolding begin take get_or
begin-take p [] = refl
begin-take p (a ∷ []) = refl
begin-take p (a ∷ b ∷ xs) = refl
