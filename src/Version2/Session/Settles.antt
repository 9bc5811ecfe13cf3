-- ===== src/Version2/Session/Settles.antt =====
-- What HandleRead and HandleWrite of version 2 leave behind, whatever the state of the session.
use async_echo_server.Base.{
  ℕ, zero, suc, ◌<◌, ◌≡◌, refl, subst, eq_false, arith, true, false, Bool, List, [], ◌∷◌, Exec, ok,
  threw, corrupt, ◌==◌,
}
use async_echo_server.Platform.{Platform}
use async_echo_server.MsgNode.{MsgNode}
use async_echo_server.Version2.{LongWire}
use async_echo_server.Version2.Session.{CSession, Request, close, handle_write}
use async_echo_server.Version2.Session.Read.{
  Round, returns, continues, Outcome, returned, threw_after, corrupted, unfinished, round, prepend,
  proceed, read_loop, handle_read,
}
use async_echo_server.Version2.Session.Asks.{
  reads, Resolved, Silent, Silent-Resolved, Settles, round-Settles,
}

module _ (uuid : List ℕ) where
  -- What a handler of the session of this uuid has asked for once it returns.
  abbrev Done : Outcome → Type 0
  Done (returned s acts) = (s.uuid ≡ uuid) × Resolved acts
  Done (threw_after acts) = Unit
  Done corrupted = Unit
  Done unfinished = Unit

  prepend-Done : (acts : List Request) (o : Outcome) → Silent acts → Done o → Done (prepend acts o)
  prepend-Done acts (returned s bs) h (u, r) = (u, Silent-Resolved acts bs h r)
  prepend-Done acts (threw_after bs) h r = tt
  prepend-Done acts corrupted h r = tt
  prepend-Done acts unfinished h r = tt

  proceed-Done :
      (e : Exec Round) (next : CSession → ℕ → ℕ → Outcome)
      → Settles uuid e
      → ((s : CSession) (c n : ℕ) → s.uuid ≡ uuid → (n == 0) ≡ false → Done (next s c n))
      → Done (proceed e next)
  unfolding proceed
  proceed-Done (ok (returns s acts)) next h k = h
  proceed-Done (ok (continues s c n acts)) next (u, silent, more) k =
      prepend-Done acts (next s c n) silent (k s c n u more)
  proceed-Done threw next h k = tt
  proceed-Done corrupt next h k = tt

  loop-Done :
      (p : Platform) (l : LongWire) (fuel : ℕ) (s : CSession) (c n : ℕ)
      → s.uuid ≡ uuid
      → (n == 0) ≡ false
      → Done (read_loop p l fuel s c n)
  unfolding read_loop
  loop-Done p l zero s c n u more = tt
  loop-Done p l (suc fuel) s c n u more =
      rw (more, read_loop)
        (proceed-Done (round p l s c n) (read_loop p l fuel) (round-Settles uuid p l s c n u)
          (loop-Done p l fuel))

handle_read-Done :
    (p : Platform) (l : LongWire) (s : CSession) (error : Bool) (bytes : ℕ)
    → 0 < bytes
    → Done s.uuid (handle_read p l s error bytes)
unfolding handle_read close
handle_read-Done p l s true bytes pos = (refl, refl)
handle_read-Done p l s false bytes pos =
    loop-Done s.uuid p l (suc bytes) s 0 bytes refl (eq_false bytes 0 (omega arith))

-- A read that completes ends in another read or in the removal of the session.
pub read-Resolved :
    (p : Platform) (l : LongWire) (s : CSession) (error : Bool) (bytes : ℕ) (s' : CSession)
    (acts : List Request)
    → 0 < bytes
    → handle_read p l s error bytes ≡ returned s' acts
    → (s'.uuid ≡ s.uuid) × Resolved acts
read-Resolved p l s error bytes s' acts pos e =
    subst (Done s.uuid) e (handle_read-Done p l s error bytes pos)

abbrev Keeps : List ℕ → Exec (CSession × List Request) → Type 0
Keeps uuid (ok (s, acts)) = (s.uuid ≡ uuid) × (reads acts ≡ 0)
Keeps uuid threw = Unit
Keeps uuid corrupt = Unit

handle_write-Keeps :
    (s : CSession) (que : List MsgNode) (error : Bool)
    → Keeps s.uuid (handle_write (record s { send_que = que }) error)
unfolding handle_write close
handle_write-Keeps s que true = (refl, refl)
handle_write-Keeps s [] false = tt
handle_write-Keeps s (node ∷ []) false = (refl, refl)
handle_write-Keeps s (node ∷ next ∷ rest) false = (refl, refl)

-- A write that completes asks for no read.
pub write-Keeps :
    (s : CSession) (error : Bool) (s' : CSession) (acts : List Request)
    → handle_write s error ≡ ok (s', acts)
    → (s'.uuid ≡ s.uuid) × (reads acts ≡ 0)
write-Keeps s error s' acts e = subst (Keeps s.uuid) e (handle_write-Keeps s s.send_que error)
