-- ===== src/Pool/Turns.antt =====
-- AsioIOServicePool::GetIOService, called again and again.
use async_echo_server.Base.{
  ℕ, zero, suc, ◌+◌, ◌*◌, ◌-◌, subst, sym, append_assoc, eq_true, eq_false, ◌++◌, ◌^◌, ◌<◌, ◌≡◌, ap,
  ◌∙◌, List, [], ◌∷◌, length, length-replicate, Exec, ok, ◌>>=◌, lt→ltb, arith,
}
use native.Mathlib.Nat.{suc-mul}
use async_echo_server.Platform.{add_size_lem}
use async_echo_server.Pool.{fresh_context, AsioIoServicePool, new_pool, get_io_service}

-- The indices that so many calls hand out, and the pool after them.
unfoldable pub calls : ℕ → AsioIoServicePool → Exec (List ℕ × AsioIoServicePool)
calls zero pool = ok ([], pool)
calls (suc n) pool = do
  (i, pool') ← get_io_service pool
  (is, last) ← calls n pool'
  ok (i ∷ is, last)

-- The indices from i on.
unfoldable pub range : ℕ → ℕ → List ℕ
range i zero = []
range i (suc n) = i ∷ range (suc i) n

-- A whole round of the indices, so many times.
unfoldable pub rounds : ℕ → ℕ → List ℕ
rounds size zero = []
rounds size (suc q) = range 0 size ++ rounds size q

abbrev pub at : AsioIoServicePool → ℕ → AsioIoServicePool
at pool i = record pool { next_io_service = i }

module _ (pool : AsioIoServicePool) (size : ℕ) (small : size < 2 ^ 64)
    (len : length pool.io_services ≡ size) where
  get-inside : (i : ℕ) → suc i < size → get_io_service (at pool i) ≡ ok (i, at pool (suc i))
  unfolding get_io_service
  get-inside i h =
      let e : i + 1 ≡ suc i = omega arith in
      rw (
        len,
        lt→ltb i size (omega arith),
        add_size_lem i 1 (omega arith),
        eq_false (i + 1) size (omega arith),
        e,
      )

  get-last : (i : ℕ) → i + 1 ≡ size → get_io_service (at pool i) ≡ ok (i, at pool 0)
  unfolding get_io_service
  get-last i h =
      rw (len, lt→ltb i size (omega arith), add_size_lem i 1 (omega arith), eq_true (i + 1) size h)

  calls-step :
      (n : ℕ) (p p' last : AsioIoServicePool) (i : ℕ) (is : List ℕ)
      → get_io_service p ≡ ok (i, p')
      → calls n p' ≡ ok (is, last)
      → calls (suc n) p ≡ ok (i ∷ is, last)
  unfolding calls
  calls-step n p p' last i is g c = rw (g, c)

  calls-range : (n i : ℕ) → i + n < size → calls n (at pool i) ≡ ok (range i n, at pool (i + n))
  unfolding range
  calls-range zero i h =
      let e : i ≡ i + 0 = omega arith in unfold calls in ap (λ k. ok ([], at pool k)) e
  calls-range (suc n) i h =
      let e : suc i + n ≡ i + suc n = omega arith in
      calls-step n (at pool i) (at pool (suc i)) (at pool (i + suc n)) i (range (suc i) n)
        (get-inside i (omega arith))
        (calls-range n (suc i) (omega arith) ∙ ap (λ k. ok (range (suc i) n, at pool k)) e)

  calls-round :
      (n m i : ℕ) (js : List ℕ) (last : AsioIoServicePool)
      → i + suc n ≡ size
      → calls m (at pool 0) ≡ ok (js, last)
      → calls (suc n + m) (at pool i) ≡ ok (range i (suc n) ++ js, last)
  unfolding range
  calls-round zero m i js last h e =
      let k : suc zero + m ≡ suc m = omega arith in
      ap (λ t. calls t (at pool i)) k
      ∙ calls-step m (at pool i) (at pool 0) last i js (get-last i (omega arith)) e
  calls-round (suc n) m i js last h e =
      let k : suc (suc n) + m ≡ suc (suc n + m) = omega arith in
      ap (λ t. calls t (at pool i)) k
      ∙ calls-step (suc n + m) (at pool i) (at pool (suc i)) last i (range (suc i) (suc n) ++ js)
          (get-inside i (omega arith)) (calls-round n m (suc i) js last (omega arith) e)

  whole_round :
      (m : ℕ) (js : List ℕ) (last : AsioIoServicePool)
      → 0 < size
      → calls m (at pool 0) ≡ ok (js, last)
      → calls (size + m) (at pool 0) ≡ ok (range 0 size ++ js, last)
  whole_round m js last pos e =
      let k : suc (size - 1) ≡ size = omega arith in
      subst (λ t. calls (t + m) (at pool 0) ≡ ok (range 0 t ++ js, last)) k
        (calls-round (size - 1) m 0 js last (omega arith) e)

  calls-rounds :
      (q r : ℕ)
      → r < size
      → calls (q * size + r) (at pool 0) ≡ ok (rounds size q ++ range 0 r, at pool r)
  unfolding rounds
  calls-rounds zero r h =
      let e : zero * size + r ≡ r = omega arith in
      let z : 0 + r ≡ r = omega arith in
      ap (λ t. calls t (at pool 0)) e
      ∙ calls-range r 0 (omega arith)
      ∙ ap (λ t. ok (range 0 r, at pool t)) z
  calls-rounds (suc q) r h =
      let e : suc q * size + r ≡ size + (q * size + r) =
        let k : (q * size + size) + r ≡ size + (q * size + r) = omega arith in
        ap (λ t. t + r) (suc-mul q size) ∙ k in
      ap (λ t. calls t (at pool 0)) e
      ∙ whole_round (q * size + r) (rounds size q ++ range 0 r) (at pool r) (omega arith)
          (calls-rounds q r h)
      ∙ ap (λ l. ok (l, at pool r)) (sym (append_assoc (range 0 size) (rounds size q) (range 0 r)))

-- A pool of any number of contexts: so many whole rounds of calls of GetIOService, and r more, hand
-- out the contexts in the order of their indices, round after round, and then the first r of them;
-- the next call gets the context r.
pub get_io_service-rounds :
    (size q r : ℕ)
    → size < 2 ^ 64
    → r < size
    → calls (q * size + r) (new_pool size)
      ≡ ok (rounds size q ++ range 0 r, record (new_pool size) { next_io_service = r })
unfolding new_pool
get_io_service-rounds size q r small h =
    calls-rounds (new_pool size) size small (length-replicate size fresh_context) q r h
