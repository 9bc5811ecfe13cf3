-- ===== src/Main/Shutdown.antt =====
-- `main` and the signal handler: when `main` leaves its loop, and when it does not.
use async_echo_server.Base.{
  List, [], ◌∷◌, sym, ◌∙◌, ℕ, ◌≡◌, ◌≢◌, refl, ◌⊎◌, inl, inr, true, false, arith, ◌==◌, Bool-cases,
  ◌||◌,
}
use async_echo_server.Main.{
  testing, entering, holding, waiting, stopping, Program, sigint, sigterm, signal_handler,
  test_flag,
}

-- `main`, and signals that arrive on a thread that can take the mutex.
pub data Step (m n : Program) : Type 0 where
  tests : m.phase ≡ testing → n ≡ test_flag m → Step m n
  locks : m.phase ≡ entering → n ≡ record m { phase = holding } → Step m n
  waits : m.phase ≡ holding → n ≡ record m { phase = waiting } → Step m n
  wakes : m.phase ≡ waiting → n ≡ record m { phase = testing } → Step m n
  signals : (sig : ℕ) → m.phase ≢ holding → n ≡ signal_handler m sig → Step m n

pub data Run (m : Program) : Program → Type 0 where
  here : Run m m
  next : {n o : Program} → Run m n → Step n o → Run m o

abbrev pub begun : Program
begun = record { is_server_terminated = false; phase = testing }

-- The signals that were handled in a run, the last one first.
unfoldable pub handled : {m n : Program} → Run m n → List ℕ
handled here = []
handled (next r (tests w same)) = handled r
handled (next r (locks w same)) = handled r
handled (next r (waits w same)) = handled r
handled (next r (wakes w same)) = handled r
handled (next r (signals sig w same)) = sig ∷ handled r

-- One of the two signals that ask for the end is among them.
unfoldable pub IsAsked : List ℕ → Type 0
IsAsked [] = ⊥
IsAsked (sig ∷ sigs) = ((sig ≡ sigint) ⊎ (sig ≡ sigterm)) ⊎ IsAsked sigs

-- The flag is set only where the end was asked for, and past the loop it is set.
pub record Told (m : Program) (sigs : List ℕ) : Type 0 where
  pub asked : m.is_server_terminated ≡ true → IsAsked sigs
  pub seen : m.phase ≡ stopping → m.is_server_terminated ≡ true
  pub heard : IsAsked sigs → m.is_server_terminated ≡ true

same_flag :
    (m n : Program) (sigs : List ℕ)
    → Told m sigs
    → n.is_server_terminated ≡ m.is_server_terminated
    → (n.phase ≡ stopping → n.is_server_terminated ≡ true)
    → Told n sigs
same_flag m n sigs t same seen = record {
  asked = λ e. t.asked (sym same ∙ e);
  seen = seen;
  heard = λ a. same ∙ t.heard a;
}

test_flag-seen :
    (m : Program) → (test_flag m).phase ≡ stopping → (test_flag m).is_server_terminated ≡ true
unfolding test_flag
test_flag-seen m e = ground arith

is_asked :
    (sig : ℕ) → ((sig == sigint) || (sig == sigterm)) ≡ true → (sig ≡ sigint) ⊎ (sig ≡ sigterm)
is_asked sig t = ground arith

not_asked :
    (sig : ℕ) (sigs : List ℕ)
    → ((sig == sigint) || (sig == sigterm)) ≡ false
    → IsAsked (sig ∷ sigs)
    → IsAsked sigs
unfolding IsAsked
not_asked sig sigs f (inl a) = absurd (ground arith)
not_asked sig sigs f (inr a) = a

signal_handler-Told :
    (m : Program) (sig : ℕ) (sigs : List ℕ) → Told m sigs → Told (signal_handler m sig) (sig ∷ sigs)
unfolding signal_handler IsAsked
signal_handler-Told m sig sigs h = elim (Bool-cases ((sig == sigint) || (sig == sigterm))) [
  | inl t ↦ rw t (record { asked = λ e. inl (is_asked sig t); seen = λ e. refl; heard = λ a. refl })
  | inr f ↦ rw f (record {
    asked = λ e. inr (h.asked e);
    seen = h.seen;
    heard = λ a. h.heard (not_asked sig sigs f a);
  })
]

pub Run-Told : {n : Program} (r : Run begun n) → Told n (handled r)
unfolding handled IsAsked
Run-Told here = record { asked = λ e. cc; seen = λ e. cc; heard = λ a. absurd a }
Run-Told (next {n} r (tests w same)) = rw same (
    same_flag n (test_flag n) (handled r) (Run-Told r) (unfold test_flag in refl)
      (test_flag-seen n))
Run-Told (next {n} r (locks w same)) =
    rw same (same_flag n (record n { phase = holding }) (handled r) (Run-Told r) refl (λ e. cc))
Run-Told (next {n} r (waits w same)) =
    rw same (same_flag n (record n { phase = waiting }) (handled r) (Run-Told r) refl (λ e. cc))
Run-Told (next {n} r (wakes w same)) =
    rw same (same_flag n (record n { phase = testing }) (handled r) (Run-Told r) refl (λ e. cc))
Run-Told (next {n} r (signals sig w same)) =
    rw same (signal_handler-Told n sig (handled r) (Run-Told r))

-- `main` stops the network only after a SIGINT or a SIGTERM: in any run from the start that brings it
-- past its loop, one of these two is among the signals that were handled, and the flag is set. No
-- spurious wakeup of the condition variable, and no other signal, ends the program.
pub stopping_was_signalled :
    {m : Program} (r : Run begun m)
    → m.phase ≡ stopping
    → IsAsked (handled r) × (m.is_server_terminated ≡ true)
stopping_was_signalled r e = let told = Run-Told r in (told.asked (told.seen e), told.seen e)

pub record Deaf (m : Program) : Type 0 where
  pub flag : m.is_server_terminated ≡ true
  pub asleep : m.phase ≡ waiting
  pub only :
      (n : Program)
      → Step m n
      → (n ≡ record m { phase = testing }) ⊎ ((sig : ℕ) × (n ≡ signal_handler m sig))

asleep-only :
    (m n : Program)
    → m.phase ≡ waiting
    → Step m n
    → (n ≡ record m { phase = testing }) ⊎ ((sig : ℕ) × (n ≡ signal_handler m sig))
asleep-only m n a (tests w same) = cc
asleep-only m n a (locks w same) = cc
asleep-only m n a (waits w same) = cc
asleep-only m n a (wakes w same) = inl same
asleep-only m n a (signals sig w same) = inr (sig, same)

abbrev deaf : Program
deaf = record { is_server_terminated = true; phase = waiting }

entering≢holding : entering ≢ holding
entering≢holding e = cc

-- `main` tests the flag without the mutex. So a SIGINT or SIGTERM that is handled between the test
-- and the wait can be lost: `main` then waits with the flag set, and only another signal or a
-- spurious wakeup gets it out.
pub signal_can_be_lost :
    (m : Program) (sig : ℕ)
    → m.phase ≡ entering
    → ((sig == sigint) || (sig == sigterm)) ≡ true
    → (n : Program) × Run m n × Deaf n
signal_can_be_lost m sig at t = (
  deaf,
  next (next (next here (signals sig free flagged)) (locks refl refl)) (waits refl refl),
  record { flag = refl; asleep = refl; only = λ n. asleep-only deaf n refl },
)
  where
    free : m.phase ≢ holding
    free h = entering≢holding (sym at ∙ h)

    flagged : record { is_server_terminated = true; phase = entering } ≡ signal_handler m sig
    flagged = unfold signal_handler in rw (t, at)
