-- ===== src/Main/Tests.antt =====
-- A run of `main` that ends, and one that misses its signal.
use async_echo_server.Base.{◌≡◌, ◌≢◌, refl, true, false, [], ◌∷◌}
use async_echo_server.Main.{
  Program, testing, holding, entering, stopping, signal_handler, test_flag,
}
use async_echo_server.Main.Shutdown.{
  Run, begun, handled, IsAsked, here, next, tests, signals, Deaf, stopping_was_signalled,
  signal_can_be_lost,
}

abbrev stopped : Program
stopped = record { is_server_terminated = true; phase = stopping }

testing≢holding : testing ≢ holding
testing≢holding e = cc

-- A SIGHUP, which changes nothing, and a SIGTERM.
abbrev ending : Run begun stopped
unfolding signal_handler test_flag
ending =
    next (next (next here (signals 1 testing≢holding refl)) (signals 15 testing≢holding refl))
      (tests refl refl)

stopping_was_signalled_example : IsAsked (handled ending) × (stopped.is_server_terminated ≡ true)
stopping_was_signalled_example = stopping_was_signalled ending refl

handled_signals : handled ending ≡ 15 ∷ 1 ∷ []
unfolding handled ending
handled_signals = refl

abbrev past_the_test : Program
past_the_test = record { is_server_terminated = false; phase = entering }

signal_can_be_lost_example : (n : Program) × Run past_the_test n × Deaf n
signal_can_be_lost_example = signal_can_be_lost past_the_test 2 refl refl
