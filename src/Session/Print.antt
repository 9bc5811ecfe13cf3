-- ===== src/Session/Print.antt =====
-- CSession::PrintRecvData, which HandleRead calls first: the hexadecimal text that it prints for a
-- chunk.
pub mod Shown
mod Tests
use async_echo_server.Base.{
  ℕ, zero, suc, ◌+◌, ◌-◌, ◌/◌, ◌%◌, ◌^◌, ◌<◌, ◌≡◌, refl, ap, ap₂, sym, ◌∙◌, Bool, true, false, List,
  [], ◌∷◌, ◌++◌, Exec, ok, corrupt, ltb, leb, ◌==◌, if◌then◌else◌, length, take, replicate, arith,
  inl, inr, Bool-cases, eq_false, ◌≢◌, ◌%◌, append-nil, append_assoc, test→eq, false≢true, ◌⊎◌,
  flatten, ◌≤◌, All, map, append-nil, le→leb, append_assoc,
}
use async_echo_server.Base.{same}

-- `int(data[i])`, for a `char` that is signed, as a 32-bit pattern.
unfoldable pub int_of_char : ℕ → ℕ
int_of_char b = if ltb b 128 then b else b + (2 ^ 32 - 256)

unfoldable pub hex_digit : ℕ → ℕ
hex_digit d = if ltb d 10 then 48 + d else 87 + d

-- The digits of a number below 16 ^ k, without zeros in front, before the digits that follow.
unfoldable pub hex_from : ℕ → ℕ → List ℕ → List ℕ
unfolding hex_digit
hex_from zero n digits = digits
hex_from (suc k) n digits =
    let more = hex_from k (n / 16) (hex_digit (n % 16) ∷ digits) in
    if ltb n 16 then hex_digit n ∷ digits else more

-- `ss << hex << setw(2) << setfill('0') << n`
unfoldable pub put_hex : ℕ → List ℕ
unfolding hex_from
put_hex n = let digits = hex_from 8 n [] in replicate (2 - length digits) 48 ++ digits

-- `ss >> hexstr`: the blanks in front are skipped, and a word is taken up to the next blank.
unfoldable pub skip_blank : List ℕ → List ℕ
skip_blank [] = []
skip_blank (c ∷ cs) = let rest = skip_blank cs in if c == 10 then rest else c ∷ cs

unfoldable pub word : List ℕ → List ℕ × List ℕ
word [] = ([], [])
word (c ∷ cs) = let r = word cs in if c == 10 then ([], c ∷ cs) else (c ∷ r.0, r.1)

-- The loop, with what is unread in the stream and the result so far.
unfoldable pub print_loop : List ℕ → List ℕ → List ℕ → List ℕ
unfolding put_hex skip_blank word int_of_char
print_loop ss result [] = result
print_loop ss result (b ∷ chunk) =
    let r = word (skip_blank (ss ++ put_hex (int_of_char b) ++ 10 ∷ [])) in
    print_loop r.1 (result ++ r.0) chunk

-- PrintRecvData(data, length): the text behind "receive raw data is : ".
unfoldable pub print_recv_data : List ℕ → ℕ → Exec (List ℕ)
unfolding print_loop
print_recv_data chunk n =
    if leb n (length chunk) then ok (print_loop [] (48 ∷ 120 ∷ []) (take n chunk)) else corrupt
