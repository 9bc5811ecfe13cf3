-- ===== src/Main.antt =====
-- Server-version-3/main.cpp and Singleton.h: how the program waits for its end, and how the logic
-- system comes to be.
pub mod Shutdown
pub mod Once
mod Tests
use async_echo_server.Base.{ℕ, Bool, true, false, ◌==◌, ◌||◌, if◌then◌else◌, Option, none, some}

-- Where `main` is: about to test `is_server_terminated`; past the test with a false flag, without
-- the mutex; with the mutex, about to wait; waiting; or past the loop, at `ioc.stop()`.
pub data Phase : Type 0 where
  testing entering holding waiting stopping : Phase

pub record Program : Type 0 where
  pub is_server_terminated : Bool
  pub phase : Phase

-- The numbers of the two signals on the platform of the build.
abbrev pub sigint : ℕ
sigint = 2

abbrev pub sigterm : ℕ
sigterm = 15

-- `cond_terminated.notify_one()`: the wait ends, the lock goes out of scope, the flag is next.
abbrev pub notify_one : Phase → Phase
notify_one waiting = testing
notify_one testing = testing
notify_one entering = entering
notify_one holding = holding
notify_one stopping = stopping

-- signal_handler(sig), on a thread that can take the mutex.
unfoldable pub signal_handler : Program → ℕ → Program
signal_handler m sig =
    if (sig == sigint) || (sig == sigterm)
    then record m { is_server_terminated = true; phase = notify_one m.phase }
    else m

-- The test of the loop.
unfoldable pub test_flag : Program → Program
test_flag m = record m { phase = if m.is_server_terminated then stopping else entering }

-- `s_flag` is whether the instance has been made.
pub record Singleton {ℓ} (T : Type ℓ) : Type ℓ where
  pub s_flag : Bool
  pub instance_ : Option T

-- GetInstance(); `made` is what `new T` gives where it runs.
unfoldable pub get_instance {ℓ} : {T : Type ℓ} → Singleton T → T → Singleton T × Option T
get_instance s made =
    let s' = if s.s_flag then s else record s { s_flag = true; instance_ = some made } in
    (s', s'.instance_)
