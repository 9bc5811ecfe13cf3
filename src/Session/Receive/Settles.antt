-- ===== src/Session/Receive/Settles.antt =====
-- What CSession::HandleRead asks for, whatever the state of the session and the bytes.
use async_echo_server.Base.{
  false≢true, sym, subst, eq_false, arith, ◌<◌, suc, zero, true, false, ℕ, ◌≡◌, refl, Bool, List,
  [], ◌∷◌, ◌++◌, Exec, ok, threw, corrupt, if◌then◌else◌, ◌==◌,
}
use async_echo_server.Platform.{Platform}
use async_echo_server.MsgNode.{SendNode}
use async_echo_server.Session.{
  Session, Action, async_read, async_write, post_msg, close_socket, clear_session, close,
}
use async_echo_server.Session.Receive.{
  Round, returns, continues, Outcome, returned, threw_after, corrupted, unfinished, round, prepend,
  proceed, read_loop, handle_read,
}
use async_echo_server.Session.Receive.Asks.{
  reads, clears, Resolved, Silent, Settles, Owns, round-Settles,
}

module _ (uuid : List ℕ) (que : List SendNode) where
  -- What a handler of the session with this uuid and queue has asked for once it returns.
  abbrev pub Settled : Outcome → Type 0
  Settled (returned s acts) = Owns uuid que s × Resolved acts
  Settled (threw_after acts) = Unit
  Settled corrupted = Unit
  Settled unfinished = Unit

  Silent-Resolved :
      (acts acts' : List Action) → Silent acts → Resolved acts' → Resolved (acts ++ acts')
  Silent-Resolved [] acts' h r = r
  Silent-Resolved (async_read ∷ acts) acts' h r = absurd (ground (arith, h.0))
  Silent-Resolved (async_write w ∷ acts) acts' h r = Silent-Resolved acts acts' h r
  Silent-Resolved (post_msg n ∷ acts) acts' h r = Silent-Resolved acts acts' h r
  Silent-Resolved (close_socket ∷ acts) acts' h r = Silent-Resolved acts acts' h r
  Silent-Resolved (clear_session ∷ acts) acts' h r = absurd (false≢true (sym h.1))

  prepend-Settled :
      (acts : List Action) (o : Outcome) → Silent acts → Settled o → Settled (prepend acts o)
  prepend-Settled acts (returned s bs) h (u, r) = (u, Silent-Resolved acts bs h r)
  prepend-Settled acts (threw_after bs) h r = tt
  prepend-Settled acts corrupted h r = tt
  prepend-Settled acts unfinished h r = tt

  proceed-Settled :
      (e : Exec Round) (next : Session → ℕ → ℕ → Outcome)
      → Settles uuid que e
      → ((s : Session) (c n : ℕ) → Owns uuid que s → (n == 0) ≡ false → Settled (next s c n))
      → Settled (proceed e next)
  unfolding proceed
  proceed-Settled (ok (returns s acts)) next h k = h
  proceed-Settled (ok (continues s c n acts)) next (u, silent, more) k =
      prepend-Settled acts (next s c n) silent (k s c n u more)
  proceed-Settled threw next h k = tt
  proceed-Settled corrupt next h k = tt

  read_loop-more :
      (p : Platform) (fuel : ℕ) (s : Session) (c n : ℕ)
      → (n == 0) ≡ false
      → read_loop p (suc fuel) s c n ≡ proceed (round p s c n) (read_loop p fuel)
  unfolding read_loop
  read_loop-more p fuel s c n more = rw (more, read_loop)

  loop-Settled :
      (p : Platform) (fuel : ℕ) (s : Session) (c n : ℕ)
      → Owns uuid que s
      → (n == 0) ≡ false
      → Settled (read_loop p fuel s c n)
  loop-Settled p zero s c n u more = unfold read_loop in tt
  loop-Settled p (suc fuel) s c n u more = subst Settled (sym (read_loop-more p fuel s c n more)) (
      proceed-Settled (round p s c n) (read_loop p fuel) (round-Settles uuid que p s c n u)
        (loop-Settled p fuel))

settled :
    (p : Platform) (s : Session) (error : Bool) (bytes : ℕ)
    → 0 < bytes
    → Settled s.uuid s.send_que (handle_read p s error bytes)
unfolding handle_read close
settled p s true bytes pos = ((refl, refl), refl)
settled p s false bytes pos =
    loop-Settled s.uuid s.send_que p (suc bytes) s 0 bytes (refl, refl)
      (eq_false bytes 0 (omega arith))

-- Whatever the session, its buffer and the bytes are: a call of HandleRead with at least one byte
-- that returns has kept the uuid, and has either asked for the next chunk exactly once, or had
-- the session removed from the server without asking for a chunk.
pub handle_read-Resolved :
    (p : Platform) (s : Session) (error : Bool) (bytes : ℕ) (s' : Session) (acts : List Action)
    → 0 < bytes
    → handle_read p s error bytes ≡ returned s' acts
    → (s'.uuid ≡ s.uuid) × (reads acts ≡ (if clears acts then 0 else 1))
handle_read-Resolved p s error bytes s' acts pos e =
    let (owned, resolved) = subst (Settled s.uuid s.send_que) e (settled p s error bytes pos) in
    (owned.0, resolved)

-- A run leaves the session with its uuid and its queue of frames.
abbrev pub Kept : Session → Outcome → Type 0
Kept s (returned s' acts) = Owns s.uuid s.send_que s'
Kept s (threw_after acts) = Unit
Kept s corrupted = Unit
Kept s unfinished = Unit

Settled-Kept : (s : Session) (o : Outcome) → Settled s.uuid s.send_que o → Kept s o
Settled-Kept s (returned s' acts) h = h.0
Settled-Kept s (threw_after acts) h = tt
Settled-Kept s corrupted h = tt
Settled-Kept s unfinished h = tt

-- So does every call of HandleRead with at least one byte.
pub handle_read-Kept :
    (p : Platform) (s : Session) (error : Bool) (bytes : ℕ)
    → 0 < bytes
    → Kept s (handle_read p s error bytes)
handle_read-Kept p s error bytes pos = Settled-Kept s _ (settled p s error bytes pos)

-- On an error the session is closed and removed, whatever it was doing.
pub handle_read-error :
    (p : Platform) (s : Session) (bytes : ℕ)
    → handle_read p s true bytes
      ≡ returned (record s { b_close = true }) (close_socket ∷ clear_session ∷ [])
unfolding handle_read close
handle_read-error p s bytes = refl
