-- ===== src/Platform/Machine.antt =====
-- The integers of the code: `short` as a 16-bit pattern, `size_t` modulo 2 ^ 64.
use async_echo_server.Base.{
  ℕ, ◌+◌, ◌-◌, ◌%◌, ◌^◌, ◌≤◌, ◌<◌, ◌≡◌, Bool, true, false, ◌&&◌, not, arith, ltb, leb,
  if◌then◌else◌,
}

-- The conversion of a `short` to a `size_t` copies the sign.
unfoldable pub size_of_short : ℕ → ℕ
size_of_short w = if ltb w 0x8000 then w else w + (2 ^ 64 - 2 ^ 16)

-- The conversion of an integer to a `short` keeps the low 16 bits.
unfoldable pub short_of_size : ℕ → ℕ
short_of_size n = n % 2 ^ 16

unfoldable pub add_size : ℕ → ℕ → ℕ
add_size a b = (a + b) % 2 ^ 64

unfoldable pub sub_size : ℕ → ℕ → ℕ
sub_size a b = (a + 2 ^ 64 - b) % 2 ^ 64

unfoldable pub is_negative : ℕ → Bool
is_negative w = leb 0x8000 w

-- `w > k` for a `short` w and a constant k ≥ 0.
unfoldable pub short_gt : ℕ → ℕ → Bool
unfolding is_negative
short_gt w k = not (is_negative w) && ltb k w

pub size_of_short_lem : (w : ℕ) → w < 0x8000 → size_of_short w ≡ w
unfolding size_of_short
size_of_short_lem w h = ground arith

pub short_of_size_lem : (n : ℕ) → n < 2 ^ 16 → short_of_size n ≡ n
unfolding short_of_size
short_of_size_lem n h = omega arith

pub add_size_lem : (a b : ℕ) → a + b < 2 ^ 64 → add_size a b ≡ a + b
unfolding add_size
add_size_lem a b h = omega arith

pub sub_size_lem : (a b : ℕ) → b ≤ a → a < 2 ^ 64 → sub_size a b ≡ a - b
unfolding sub_size
sub_size_lem a b h k = omega arith

pub size_of_negative : (w : ℕ) → is_negative w ≡ true → w < 2 ^ 16 → 2 ^ 63 ≤ size_of_short w
unfolding is_negative size_of_short
size_of_negative w h k = ground arith

-- A `short` that passes the test `w > k` and is not negative is at most k.
pub short_le : (w k : ℕ) → is_negative w ≡ false → short_gt w k ≡ false → w ≤ k
unfolding short_gt
short_le w k h g = ground arith

pub not-negative : (w : ℕ) → is_negative w ≡ false → w < 0x8000
unfolding is_negative
not-negative w h = ground arith

pub short_gt_le : (w k : ℕ) → w ≤ k → short_gt w k ≡ false
unfolding short_gt
short_gt_le w k h = ground arith

pub is_negative_lt : (w : ℕ) → w < 0x8000 → is_negative w ≡ false
unfolding is_negative
is_negative_lt w h = ground arith

pub is_negative_ge : (w : ℕ) → 0x8000 ≤ w → is_negative w ≡ true
unfolding is_negative
is_negative_ge w h = ground arith
