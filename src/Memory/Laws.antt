-- ===== src/Memory/Laws.antt =====
-- Lengths and contents after the array operations.
use async_echo_server.Base.{
  ℕ, ◌+◌, ◌≤◌, ◌<◌, ◌≡◌, ◌∙◌, ap, List, [], ◌∷◌, ◌++◌, ok, arith, length, take, drop, le→leb,
  lt→ltb, length-append, length-take, length-drop, length-replicate, drop_all, append-nil,
  take-append, append_assoc,
}
use async_echo_server.Memory.Defs.{zeros, splice, memset, memcpy, put_char, new_chars}

pub length-zeros : (n : ℕ) → length (zeros n) ≡ n
unfolding zeros
length-zeros n = length-replicate n 0

pub length-splice :
    (dst : List ℕ) (off : ℕ) (bs : List ℕ)
    → off + length bs ≤ length dst
    → length (splice dst off bs) ≡ length dst
unfolding splice
length-splice dst off bs h = omega (
  arith,
  length-append (take off dst ++ bs) (drop (off + length bs) dst),
  length-append (take off dst) (bs),
  length-append (bs) (drop (off + length bs) dst),
  length-append (take off dst) (bs ++ drop (off + length bs) dst),
  length-take off dst,
  length-drop (off + length bs) dst,
)

-- What a write at `off` makes of the bytes up to its end.
pub take-splice :
    (dst : List ℕ) (off n : ℕ) (bs : List ℕ)
    → off ≤ length dst
    → n ≡ off + length bs
    → take n (splice dst off bs) ≡ take off dst ++ bs
unfolding splice
take-splice dst off n bs h e =
    take-append n (take off dst ++ bs) (drop (off + length bs) dst)
      (omega (arith, length-append (take off dst) bs, length-take off dst))

-- A write leaves the bytes before it as they were.
pub take-splice_before :
    (dst : List ℕ) (off : ℕ) (bs : List ℕ)
    → off ≤ length dst
    → take off (splice dst off bs) ≡ take off dst
unfolding splice
take-splice_before dst off bs h = rw (append_assoc (take off dst) bs (drop (off + length bs) dst)) (
    take-append off (take off dst) (bs ++ drop (off + length bs) dst)
      (omega (arith, length-take off dst)))

pub memset_lem : (dst : List ℕ) (n : ℕ) → n ≤ length dst → memset dst n ≡ ok (zeros n ++ drop n dst)
unfolding memset
memset_lem dst n h = rw (le→leb n (length dst) h)

-- Filling the whole array.
pub memset_all : (dst : List ℕ) (n : ℕ) → length dst ≡ n → memset dst n ≡ ok (zeros n)
memset_all dst n h =
    memset_lem dst n (omega arith)
    ∙ ap ok (rw (drop_all n dst (omega arith)) (append-nil (zeros n)))

pub memcpy_lem :
    (dst : List ℕ) (off : ℕ) (src : List ℕ) (from n : ℕ)
    → off + n ≤ length dst
    → from + n ≤ length src
    → memcpy dst off src from n ≡ ok (splice dst off (take n (drop from src)))
unfolding memcpy
memcpy_lem dst off src from n h k =
    rw (le→leb (off + n) (length dst) h, le→leb (from + n) (length src) k)

pub put_char_lem :
    (dst : List ℕ) (i c : ℕ) → i < length dst → put_char dst i c ≡ ok (splice dst i (c ∷ []))
unfolding put_char
put_char_lem dst i c h = rw (lt→ltb i (length dst) h)

pub new_chars_lem : (n : ℕ) → n < 0x8000 → new_chars n ≡ ok (zeros (n + 1))
unfolding new_chars
new_chars_lem n h = rw (lt→ltb n 0x8000 h)

-- The bytes that a `memcpy` reads are as many as it is told.
pub length-window :
    (src : List ℕ) (from n : ℕ) → from + n ≤ length src → length (take n (drop from src)) ≡ n
length-window src from n h = omega (arith, length-take n (drop from src), length-drop from src)
