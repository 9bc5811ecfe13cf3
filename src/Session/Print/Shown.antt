-- ===== src/Session/Print/Shown.antt =====
-- What PrintRecvData prints, byte by byte.
use async_echo_server.Base.{
  test→eq, false≢true, ℕ, zero, suc, ◌/◌, ◌%◌, ◌≤◌, ◌<◌, ◌≡◌, ◌≢◌, refl, ap, sym, ◌∙◌, Bool, true,
  false, List, [], ◌∷◌, ◌++◌, map, flatten, ok, ltb, ◌==◌, if◌then◌else◌, length, take, replicate,
  All, arith, append_assoc, append-nil, le→leb, eq_false, inl, inr, Bool-cases, ◌⊎◌, same, same→eq,
}
use async_echo_server.Session.Print.{
  int_of_char, hex_digit, hex_from, put_hex, skip_blank, word, print_loop, print_recv_data,
}

-- A byte below 128 as two digits, and another as the digits of a negative number.
unfoldable pub shown : ℕ → List ℕ
shown b =
    let digits = hex_digit (b / 16) ∷ hex_digit (b % 16) ∷ [] in
    if ltb b 128 then digits else 102 ∷ 102 ∷ 102 ∷ 102 ∷ 102 ∷ 102 ∷ digits

-- Whatever is checked of all numbers below n.
abbrev all_below : ℕ → (ℕ → Bool) → Bool
all_below zero f = true
all_below (suc n) f = if f n then all_below n f else false

all_below-elem : (n : ℕ) (f : ℕ → Bool) (b : ℕ) → all_below n f ≡ true → b < n → f b ≡ true
all_below-elem zero f b e lt = absurd (omega arith)
all_below-elem (suc n) f b e lt = elim (Bool-cases (f n)) [
  | inl t ↦ elim (Bool-cases (b == n)) [
    | inl same_b ↦ ap f (test→eq b n same_b) ∙ t
    | inr other ↦ all_below-elem n f b (if_true (f n) (all_below n f) t e) (smaller b n other lt)
  ]
  | inr g ↦ absurd (false≢true (sym (ap (λ k. if k then all_below n f else false) g) ∙ e))
]
  where
    if_true : (x y : Bool) → x ≡ true → (if x then y else false) ≡ true → y ≡ true
    if_true true y t e = e
    if_true false y t e = cc

    smaller : (b n : ℕ) → (b == n) ≡ false → b < suc n → b < n
    smaller b n other lt = ground (arith, other, lt)

put_hex-shown : (b : ℕ) → b < 256 → put_hex (int_of_char b) ≡ shown b
unfolding put_hex int_of_char shown hex_from hex_digit same length replicate
put_hex-shown b h =
    same→eq (put_hex (int_of_char b)) (shown b)
      (all_below-elem 256 (λ b. same (put_hex (int_of_char b)) (shown b)) b refl h)

hex_digit-plain : (d : ℕ) → hex_digit d ≢ 10
unfolding hex_digit
hex_digit-plain d = ground arith

word-plain : (w : List ℕ) → All (λ c. c ≢ 10) w → word (w ++ 10 ∷ []) ≡ (w, 10 ∷ [])
unfolding word
word-plain [] h = refl
word-plain (c ∷ w) h = rw (eq_false c 10 h.0, word-plain w h.1)

skip_blank-plain : (c : ℕ) (w : List ℕ) → c ≢ 10 → skip_blank (c ∷ w) ≡ c ∷ w
unfolding skip_blank
skip_blank-plain c w h = rw (eq_false c 10 h)

-- Nothing is unread in the stream, or the end of a line.
abbrev IsBlank : List ℕ → Type 0
IsBlank unread = (unread ≡ []) ⊎ (unread ≡ 10 ∷ [])

word-digits : (b : ℕ) → word (skip_blank (shown b ++ 10 ∷ [])) ≡ (shown b, 10 ∷ [])
unfolding shown
word-digits b = elim (Bool-cases (ltb b 128)) [
  | inl t ↦
      rw
        (
          t,
          skip_blank-plain (hex_digit (b / 16)) (hex_digit (b % 16) ∷ 10 ∷ [])
              (hex_digit-plain (b / 16)),
        )
        (word-plain (hex_digit (b / 16) ∷ hex_digit (b % 16) ∷ []) two)
  | inr f ↦
      rw
        (
          f,
          skip_blank-plain 102
              (102 ∷ 102 ∷ 102 ∷ 102 ∷ 102 ∷ hex_digit (b / 16) ∷ hex_digit (b % 16) ∷ 10 ∷ [])
              (omega arith),
        )
        (word-plain
          (102 ∷ 102 ∷ 102 ∷ 102 ∷ 102 ∷ 102 ∷ hex_digit (b / 16) ∷ hex_digit (b % 16) ∷ [])
          (f_plain, (f_plain, (f_plain, (f_plain, (f_plain, (f_plain, two)))))))
]
  where
    f_plain : ◌≢◌ {A = ℕ} 102 10
    f_plain = omega arith

    two : All (λ c. c ≢ 10) (hex_digit (b / 16) ∷ hex_digit (b % 16) ∷ [])
    two = (hex_digit-plain (b / 16), (hex_digit-plain (b % 16), tt))

word-shown :
    (unread : List ℕ) (b : ℕ)
    → IsBlank unread
    → word (skip_blank (unread ++ shown b ++ 10 ∷ [])) ≡ (shown b, 10 ∷ [])
unfolding skip_blank
word-shown unread b (inl e) = rw e (word-digits b)
word-shown unread b (inr e) = rw e (word-digits b)

print_loop-shown :
    (unread result chunk : List ℕ)
    → IsBlank unread
    → All (λ b. b < 256) chunk
    → print_loop unread result chunk ≡ result ++ flatten (map shown chunk)
unfolding print_loop flatten
print_loop-shown unread result [] e h = sym (append-nil result)
print_loop-shown unread result (b ∷ chunk) e h =
    rw (put_hex-shown b h.0, word-shown unread b e)
      (print_loop-shown (10 ∷ []) (result ++ shown b) chunk (inr refl) h.1
        ∙ append_assoc result (shown b) (flatten (map shown chunk)))

-- PrintRecvData of a chunk prints 0x and then two digits for each byte below 128, but for each other
-- byte eight digits: its `char` is negative, and the digits are those of the `int`.
pub print_recv_data-shown :
    (chunk : List ℕ) (n : ℕ)
    → n ≤ length chunk
    → All (λ b. b < 256) (take n chunk)
    → print_recv_data chunk n ≡ ok (48 ∷ 120 ∷ flatten (map shown (take n chunk)))
unfolding print_recv_data
print_recv_data-shown chunk n le h =
    rw (le→leb n (length chunk) le)
      (ap ok (print_loop-shown [] (48 ∷ 120 ∷ []) (take n chunk) (inl refl) h))
