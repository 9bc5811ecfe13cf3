-- ===== src/Base/Runs.antt =====
-- A machine that takes a stream one item at a time and gives out what it has completed.
use mathlib.Core.Path.{◌≡◌, refl, sym, ap, ◌∙◌}
use mathlib.Core.List.{List, [], ◌∷◌, ◌++◌, append_assoc, append-nil}

module _ {B R M : Type 0} (feed : R → B → R × List M) where
  -- What was given out before comes first.
  abbrev pub ahead : List M → R × List M → R × List M
  ahead ms r = (r.0, ms ++ r.1)

  unfoldable pub run : R → List B → R × List M
  run rx [] = (rx, [])
  run rx (b ∷ bs) = ahead (feed rx b).1 (run (feed rx b).0 bs)

  pub run-nil : (rx : R) → run rx [] ≡ (rx, [])
  unfolding run
  run-nil rx = refl

  pub run-append :
      (rx : R) (xs ys : List B) → run rx (xs ++ ys) ≡ ahead (run rx xs).1 (run (run rx xs).0 ys)
  unfolding run
  run-append rx [] ys = refl
  run-append rx (x ∷ xs) ys =
      ap (ahead (feed rx x).1) (run-append (feed rx x).0 xs ys)
      ∙ ap (λ k. ((run (run (feed rx x).0 xs).0 ys).0, k)) (sym (append_assoc (feed rx x).1 _ _))

  pub run_one : (rx : R) (x : B) → run rx (x ∷ []) ≡ feed rx x
  unfolding run
  run_one rx x = ap (λ k. ((feed rx x).0, k)) (append-nil (feed rx x).1)

  -- An item that completes nothing.
  pub run_step :
      (rx rx' : R) (x : B) (xs : List B) (r : R × List M)
      → feed rx x ≡ (rx', [])
      → run rx' xs ≡ r
      → run rx (x ∷ xs) ≡ r
  unfolding run
  run_step rx rx' x xs r e h = rw e h

  -- A state that no item changes.
  pub run_stays : (rx : R) (xs : List B) → ((x : B) → feed rx x ≡ (rx, [])) → run rx xs ≡ (rx, [])
  unfolding run
  run_stays rx [] h = refl
  run_stays rx (x ∷ xs) h = run_step rx rx x xs _ (h x) (run_stays rx xs h)
