-- ===== src/Wire/Laws.antt =====
-- The receiver on whole pieces of the stream.
use async_echo_server.Base.{
  ℕ, ◌+◌, ◌<◌, ◌≡◌, refl, sym, ap, ◌∙◌, List, [], ◌∷◌, ◌++◌, append-nil, append_assoc, arith,
  length, length-append, eq_false, eq_true, take, get_or-take,
}
use async_echo_server.Platform.{Platform}
use async_echo_server.Wire.{
  Message, Receiver, header, body, refused, failed, Reception, gather, begin, feed, after, absorb,
}

after-after : (ms ns : List Message) (r : Reception) → after ms (after ns r) ≡ after (ms ++ ns) r
after-after ms ns r = ap (λ k. (r.0, k)) (sym (append_assoc ms ns r.1))

pub absorb-append :
    (p : Platform) (rx : Receiver) (xs ys : List ℕ)
    → absorb p rx (xs ++ ys) ≡ after (absorb p rx xs).1 (absorb p (absorb p rx xs).0 ys)
unfolding absorb
absorb-append p rx [] ys = refl
absorb-append p rx (x ∷ xs) ys =
    ap (after (feed p rx x).1) (absorb-append p (feed p rx x).0 xs ys)
    ∙ after-after (feed p rx x).1 (absorb p (feed p rx x).0 xs).1 _

pub absorb-failed : (p : Platform) (xs : List ℕ) → absorb p failed xs ≡ (failed, [])
unfolding absorb feed
absorb-failed p [] = refl
absorb-failed p (x ∷ xs) = absorb-failed p xs

pub absorb-refused : (p : Platform) (xs : List ℕ) → absorb p refused xs ≡ (refused, [])
unfolding absorb feed
absorb-refused p [] = refl
absorb-refused p (x ∷ xs) = absorb-refused p xs

length-snoc : (xs : List ℕ) (x : ℕ) → length (xs ++ x ∷ []) ≡ length xs + 1
length-snoc xs x = length-append xs (x ∷ [])

feed-header :
    (p : Platform) (h : List ℕ) (b : ℕ)
    → length h + 1 < 4
    → feed p (header h) b ≡ (header (h ++ b ∷ []), [])
unfolding feed
feed-header p h b lt = rw (eq_false (length (h ++ b ∷ [])) 4 (omega (arith, length-snoc h b)))

feed-body :
    (p : Platform) (id len : ℕ) (text : List ℕ) (b : ℕ)
    → length text + 1 < len
    → feed p (body id len text) b ≡ (body id len (text ++ b ∷ []), [])
unfolding feed gather
feed-body p id len text b lt =
    rw (eq_false (length (text ++ b ∷ [])) len (omega (arith, length-snoc text b)))

-- A byte that completes nothing.
absorb-step :
    (p : Platform) (rx rx' : Receiver) (x : ℕ) (xs : List ℕ) (r : Reception)
    → feed p rx x ≡ (rx', [])
    → absorb p rx' xs ≡ r
    → absorb p rx (x ∷ xs) ≡ r
unfolding absorb
absorb-step p rx rx' x xs r e h = rw e h

absorb-one : (p : Platform) (rx : Receiver) (x : ℕ) → absorb p rx (x ∷ []) ≡ feed p rx x
unfolding absorb
absorb-one p rx x = ap (λ k. ((feed p rx x).0, k)) (append-nil (feed p rx x).1)

-- A piece that leaves the header incomplete.
pub absorb-header :
    (p : Platform) (h xs : List ℕ)
    → length h + length xs < 4
    → absorb p (header h) xs ≡ (header (h ++ xs), [])
unfolding absorb
absorb-header p h [] lt = ap (λ k. (header k, [])) (sym (append-nil h))
absorb-header p h (x ∷ xs) lt =
    absorb-step p (header h) (header (h ++ x ∷ [])) x xs _ (feed-header p h x (omega arith)) (
      absorb-header p (h ++ x ∷ []) xs (omega (arith, length-snoc h x))
      ∙ ap (λ k. (header k, [])) (append_assoc h (x ∷ []) xs))

-- The piece that completes it.
pub absorb-header_full :
    (p : Platform) (h xs : List ℕ)
    → length h < 4
    → length h + length xs ≡ 4
    → absorb p (header h) xs ≡ begin p (h ++ xs)
unfolding feed
absorb-header_full p h [] lt e = absurd (omega arith)
absorb-header_full p h (x ∷ []) lt e =
    absorb-one p (header h) x
    ∙ rw (eq_true (length (h ++ x ∷ [])) 4 (omega (arith, length-snoc h x)))
absorb-header_full p h (x ∷ y ∷ ys) lt e =
    absorb-step p (header h) (header (h ++ x ∷ [])) x (y ∷ ys) _ (feed-header p h x (omega arith)) (
      absorb-header_full p (h ++ x ∷ []) (y ∷ ys) (omega (arith, length-snoc h x))
        (omega (arith, length-snoc h x))
      ∙ ap (begin p) (append_assoc h (x ∷ []) (y ∷ ys)))

-- A piece that leaves the message incomplete.
pub absorb-body :
    (p : Platform) (id len : ℕ) (text xs : List ℕ)
    → length text + length xs < len
    → absorb p (body id len text) xs ≡ (body id len (text ++ xs), [])
unfolding absorb
absorb-body p id len text [] lt = ap (λ k. (body id len k, [])) (sym (append-nil text))
absorb-body p id len text (x ∷ xs) lt =
    absorb-step p (body id len text) (body id len (text ++ x ∷ [])) x xs _
      (feed-body p id len text x (omega arith))
      (absorb-body p id len (text ++ x ∷ []) xs (omega (arith, length-snoc text x))
        ∙ ap (λ k. (body id len k, [])) (append_assoc text (x ∷ []) xs))

-- The piece that completes it.
pub absorb-body_full :
    (p : Platform) (id len : ℕ) (text xs : List ℕ)
    → length text < len
    → length text + length xs ≡ len
    → absorb p (body id len text) xs ≡ (header [], record { id = id; text = text ++ xs } ∷ [])
unfolding feed gather
absorb-body_full p id len text [] lt e = absurd (omega arith)
absorb-body_full p id len text (x ∷ []) lt e =
    absorb-one p (body id len text) x
    ∙ rw (eq_true (length (text ++ x ∷ [])) len (omega (arith, length-snoc text x)))
absorb-body_full p id len text (x ∷ y ∷ ys) lt e =
    absorb-step p (body id len text) (body id len (text ++ x ∷ [])) x (y ∷ ys) _
      (feed-body p id len text x (omega arith))
      (absorb-body_full p id len (text ++ x ∷ []) (y ∷ ys) (omega (arith, length-snoc text x))
          (omega (arith, length-snoc text x))
        ∙ ap (λ k. (header [], record { id = id; text = k } ∷ []))
            (append_assoc text (x ∷ []) (y ∷ ys)))

-- Only the first four bytes of a header are read.
pub begin-take : (p : Platform) (xs : List ℕ) → begin p (take 4 xs) ≡ begin p xs
unfolding begin
begin-take p xs = rw (
  get_or-take 4 xs 0 0 (omega arith),
  get_or-take 4 xs 1 0 (omega arith),
  get_or-take 4 xs 2 0 (omega arith),
  get_or-take 4 xs 3 0 (omega arith),
)

pub absorb-nil : (p : Platform) (rx : Receiver) → absorb p rx [] ≡ (rx, [])
unfolding absorb
absorb-nil p rx = refl
