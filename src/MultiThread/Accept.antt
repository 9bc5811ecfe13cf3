-- ===== src/MultiThread/Accept.antt =====
-- Server-version-3-multi-thread/CServer.cpp: HandleAccept starts the session, whose handlers run on
-- another thread, and only then takes the mutex and inserts it.
use async_echo_server.Base.{ℕ, ◌≡◌, refl, List, none, some}
use async_echo_server.Server.{find_session, insert_session, erase_session}
use async_echo_server.Server.Sessions.{erase_session-absent, insert_session-found}

-- How far HandleAccept has come with the session, and whether its thread still handles it.
pub data Stage : Type 0 where
  accepted started inserted : Stage

pub data Reader : Type 0 where
  not_started reading finished : Reader

-- The map, with the one session of this uuid that is being accepted.
pub record Acceptor : Type 0 where
  pub sessions : List (List ℕ × List ℕ)
  pub stage : Stage
  pub reader : Reader

module _ (uuid : List ℕ) where
  -- Start(); the insertion under the mutex; and ClearSession, under the mutex, by a handler of the
  -- session that fails.
  pub data Step (a b : Acceptor) : Type 0 where
    starts : a.stage ≡ accepted → b ≡ record a { stage = started; reader = reading } → Step a b
    inserts :
        a.stage ≡ started
        → b ≡ record a { stage = inserted; sessions = insert_session uuid uuid a.sessions }
        → Step a b
    clears :
        a.reader ≡ reading
        → b ≡ record a { reader = finished; sessions = erase_session uuid a.sessions }
        → Step a b

  pub data Run (a : Acceptor) : Acceptor → Type 0 where
    here : Run a a
    next : {b c : Acceptor} → Run a b → Step b c → Run a c

  -- The session is in the map, its handlers are over, and nothing more happens with it.
  pub record Leaked (a : Acceptor) : Type 0 where
    pub kept : find_session uuid a.sessions ≡ some uuid
    pub over : a.reader ≡ finished
    pub last : (b : Acceptor) → Step a b → ⊥

  no_more : (a b : Acceptor) → a.stage ≡ inserted → a.reader ≡ finished → Step a b → ⊥
  no_more a b s r (starts t same) = cc
  no_more a b s r (inserts t same) = cc
  no_more a b s r (clears t same) = cc

  leak : List (List ℕ × List ℕ) → Acceptor
  leak m = record {
    sessions = insert_session uuid uuid (erase_session uuid m);
    stage = inserted;
    reader = finished;
  }

  -- A session that is accepted under a uuid that the map does not have can fail on its own thread
  -- between Start and the insertion: ClearSession then finds nothing to erase, and the session is put
  -- into the map after its last handler has run, where it stays.
  pub session_can_leak :
      (m : List (List ℕ × List ℕ))
      → find_session uuid m ≡ none
      → (a : Acceptor) × Run (record { sessions = m; stage = accepted; reader = not_started }) a
        × Leaked a
  unfolding leak
  session_can_leak m absent = (
    leak m,
    next (next (next here (starts refl refl)) (clears refl refl)) (inserts refl refl),
    record {
      kept =
          insert_session-found uuid uuid (erase_session uuid m)
            (erase_session-absent uuid uuid m absent);
      over = refl;
      last = λ b. no_more (leak m) b refl refl;
    },
  )
