-- ===== src/Memory/Defs.antt =====
-- The array operations that the servers call.
use async_echo_server.Base.{
  ℕ, ◌+◌, ◌&&◌, List, [], ◌∷◌, ◌++◌, Exec, ok, threw, corrupt, length, take, drop, replicate, ltb,
  leb, ◌==◌, if◌then◌else◌,
}

unfoldable pub zeros : ℕ → List ℕ
zeros n = replicate n 0

-- The array with the bytes `bs` written from `off` on.
unfoldable pub splice : List ℕ → ℕ → List ℕ → List ℕ
splice dst off bs = take off dst ++ bs ++ drop (off + length bs) dst

-- memset(dst, 0, n)
unfoldable pub memset : List ℕ → ℕ → Exec (List ℕ)
unfolding zeros
memset dst n = if leb n (length dst) then ok (zeros n ++ drop n dst) else corrupt

-- memcpy(dst + off, src + from, n)
unfoldable pub memcpy : List ℕ → ℕ → List ℕ → ℕ → ℕ → Exec (List ℕ)
unfolding splice
memcpy dst off src from n =
    if leb (off + n) (length dst) && leb (from + n) (length src)
    then ok (splice dst off (take n (drop from src)))
    else corrupt

-- dst[i] = c
unfoldable pub put_char : List ℕ → ℕ → ℕ → Exec (List ℕ)
unfolding splice
put_char dst i c = if ltb i (length dst) then ok (splice dst i (c ∷ [])) else corrupt

-- `new char[n + 1]()` for a `short` n: the size is an `int`, which may be 0, and throws below 0.
unfoldable pub new_chars : ℕ → Exec (List ℕ)
unfolding zeros
new_chars n = if ltb n 0x8000 then ok (zeros (n + 1)) else if n == 0xffff then ok [] else threw
