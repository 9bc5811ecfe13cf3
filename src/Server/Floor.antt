-- ===== src/Server/Floor.antt =====
-- The outstanding reads of sessions beside the map of a server, for sessions of any version.
use async_echo_server.Base.{
  ℕ, ◌+◌, ◌-◌, ◌<◌, ◌≡◌, ◌∙◌, ap, ◌⊎◌, inl, inr, Bool, true, false, none, List, ◌∷◌, ◌++◌, arith,
  if◌then◌else◌, All, All-swap, All-at, All-zip,
}
use async_echo_server.Base.{same}
use async_echo_server.Server.{find_session, insert_session, erase_session}
use async_echo_server.Server.Sessions.{
  find_session-erase_session, erase_session-absent, find_session-insert_session,
}

-- The map of sessions, and the same after a handler of this uuid that asked for the removal or not.
abbrev pub Sessions : Type 0
Sessions = List (List ℕ × List ℕ)

abbrev pub told : Sessions → List ℕ → Bool → Sessions
told m uuid b = if b then erase_session uuid m else m

told-absent :
    (m : Sessions) (uuid u : List ℕ) (b : Bool)
    → find_session u m ≡ none
    → find_session u (told m uuid b) ≡ none
told-absent m uuid u true gone = erase_session-absent u uuid m gone
told-absent m uuid u false gone = gone

-- A connection has the uuid of its session and a number of outstanding reads.
module _ {C : Type 0} (uuid_of : C → List ℕ) (reading_of : C → ℕ) where
  -- One read is outstanding; or none is, and the server has removed the session.
  abbrev pub Good : Sessions → C → Type 0
  Good m c = (reading_of c ≡ 1) ⊎ ((find_session (uuid_of c) m ≡ none) × (reading_of c ≡ 0))

  abbrev pub IsFresh : List ℕ → List C → Type 0
  IsFresh uuid conns = All (λ c. same (uuid_of c) uuid ≡ false) conns

  told-Good : (m : Sessions) (uuid : List ℕ) (b : Bool) (c : C) → Good m c → Good (told m uuid b) c
  told-Good m uuid b c (inl one) = inl one
  told-Good m uuid b c (inr (gone, z)) = inr (told-absent m uuid (uuid_of c) b gone, z)

  -- A read of the session has completed, and its handler has asked for another or for the removal.
  pub read-Good :
      (m : Sessions) (c c' : C) (r : ℕ) (b : Bool)
      → 0 < reading_of c
      → uuid_of c' ≡ uuid_of c
      → reading_of c' ≡ reading_of c - 1 + r
      → r ≡ (if b then 0 else 1)
      → Good m c
      → Good (told m (uuid_of c) b) c'
  read-Good m c c' r b pos u e rest (inr (gone, z)) = absurd (omega (arith, pos, z))
  read-Good m c c' r true pos u e rest (inl one) =
      inr (rw u (find_session-erase_session (uuid_of c) m), omega (arith, e, rest, one))
  read-Good m c c' r false pos u e rest (inl one) = inl (omega (arith, e, rest, one))

  -- Another handler has run, which asks for no chunk.
  pub other-Good :
      (m : Sessions) (c c' : C) (b : Bool)
      → uuid_of c' ≡ uuid_of c
      → reading_of c' ≡ reading_of c
      → Good m c
      → Good (told m (uuid_of c) b) c'
  other-Good m c c' b u e (inl one) = inl (e ∙ one)
  other-Good m c c' b u e (inr (gone, z)) = inr (
    ap (λ w. find_session w (told m (uuid_of c) b)) u
        ∙ told-absent m (uuid_of c) (uuid_of c) b gone,
    e ∙ z,
  )

  -- The handler of one connection has run, and changed nothing of the others.
  pub run-Good :
      (m : Sessions) (c c' : C) (before after : List C) (b : Bool)
      → Good (told m (uuid_of c) b) c'
      → All (Good m) (before ++ c ∷ after)
      → All (Good (told m (uuid_of c) b)) (before ++ c' ∷ after)
  run-Good m c c' before after b good all =
      All-swap before after c c' (told-Good m (uuid_of c) b) good all

  pub run-IsFresh :
      (uuid : List ℕ) (c c' : C) (before after : List C)
      → uuid_of c' ≡ uuid_of c
      → IsFresh uuid (before ++ c ∷ after)
      → IsFresh uuid (before ++ c' ∷ after)
  run-IsFresh uuid c c' before after u all =
      All-swap before after c c' (λ d f. f)
        (ap (λ w. same w uuid) u ∙ All-at (λ d. same (uuid_of d) uuid ≡ false) before after c all)
        all

  insert-Good :
      (m : Sessions) (u : List ℕ) (c : C)
      → same (uuid_of c) u ≡ false
      → Good m c
      → Good (insert_session u u m) c
  insert-Good m u c d (inl one) = inl one
  insert-Good m u c d (inr (gone, z)) =
      inr (find_session-insert_session (uuid_of c) u u m d gone, z)

  -- A session with a fresh uuid is inserted.
  pub accept-Good :
      (m : Sessions) (u : List ℕ) (conns : List C)
      → IsFresh u conns
      → All (Good m) conns
      → All (Good (insert_session u u m)) conns
  accept-Good m u conns fresh good = All-zip conns (λ c. insert-Good m u c) fresh good
