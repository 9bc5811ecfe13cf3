-- ===== src/Version2/Server/Reading.antt =====
-- The server of version 2 with its sessions: the outstanding accept, and the outstanding reads beside
-- the map.
use async_echo_server.Base.{
  ◌-◌, ◌+◌, ℕ, ◌≡◌, ◌∙◌, refl, sym, subst, true, false, List, [], ◌∷◌, ◌++◌, arith, All, Bool-cases,
  inl, inr, All-at,
}
use async_echo_server.Platform.{Platform}
use async_echo_server.Base.{same}
use async_echo_server.Server.Accept.{Ensures}
use async_echo_server.Server.Floor as Floor
use async_echo_server.Server.Floor.{told, run-Good, run-IsFresh, read-Good, other-Good, accept-Good}
use async_echo_server.Version2.{LongWire}
use async_echo_server.Version2.Session.{CSession, Request}
use async_echo_server.Version2.Session.Asks.{reads, clears}
use async_echo_server.Version2.Session.Settles.{read-Resolved, write-Keeps}
use async_echo_server.Version2.Server.{CServer, clear_session, new_server}
use async_echo_server.Version2.Server.Accept.{
  Listens, Accepted, start_accept-Listens, handle_accept-Accepted, refused-Listens,
}
use async_echo_server.Version2.Server.House.{
  Conn, House, uuid_of, reading_of, tell, IsFresh, Runs, Step, accepts, reads_chunk, writes_done,
  Reach, opens, next,
}

abbrev pub Good : List (List ℕ × List ℕ) → Conn → Type 0
Good = Floor.Good uuid_of reading_of

tell-told :
    (server : CServer) (uuid : List ℕ) (acts : List Request)
    → ((tell server uuid acts).sessions ≡ told server.sessions uuid (clears acts))
      × ((tell server uuid acts).accepting ≡ server.accepting)
unfolding clear_session
tell-told server uuid acts = elim (Bool-cases (clears acts)) [
  | inl t ↦ rw t (refl, refl)
  | inr f ↦ rw f (refl, refl)
]

record Inv (h : House) : Type 0 where
  listening : (s : CSession) × (h.server.accepting ≡ s ∷ []) × IsFresh s.uuid h.conns
  good : All (Good h.server.sessions) h.conns

run-Inv :
    (g h : House) (c : Conn) (s : CSession) (reading : ℕ) (acts : List Request)
    → Inv g
    → Runs g h c s reading acts
    → s.uuid ≡ c.session.uuid
    → (Good g.server.sessions c
        → Good
            (told g.server.sessions c.session.uuid (clears acts))
            (record { session = s; reading = reading }))
    → Inv h
run-Inv g h c s reading acts v (before, after, was, same_h) u k =
    let (a, la, fresh) = v.listening in
    let old = subst (All (Good g.server.sessions)) was v.good in
    let (kept, waits) = tell-told g.server c.session.uuid acts in
    let c' : Conn = record { session = s; reading = reading } in
    rw same_h (record {
      listening = (
        a,
        waits ∙ la,
        run-IsFresh uuid_of reading_of a.uuid c c' before after u
            (subst (IsFresh a.uuid) was fresh),
      );
      good =
          subst (λ m. All (Good m) (before ++ c' ∷ after)) (sym kept)
            (run-Good uuid_of reading_of g.server.sessions c c' before after (clears acts)
              (k (All-at (Good g.server.sessions) before after c old)) old);
    })

accept-Inv :
    (g : House) (s : CSession) (uuid : List ℕ) (r : CServer × CSession × List Request)
    → Inv g
    → g.server.accepting ≡ s ∷ []
    → Accepted r s uuid g.server.sessions
    → same r.1.uuid uuid ≡ false
    → IsFresh uuid g.conns
    → Inv (record { server = r.0; conns = record { session = r.1; reading = reads r.2 } ∷ g.conns })
accept-Inv g s uuid r v la a other fresh = record {
  listening = (
    a.listens.pending,
    a.listens.only,
    subst (λ u. IsFresh u (record { session = r.1; reading = reads r.2 } ∷ g.conns))
        (sym a.listens.drawn) (other, fresh),
  );
  good = (
    inl a.one_read,
    subst (λ m. All (Good m) g.conns) (sym a.listens.kept)
        (accept-Good uuid_of reading_of g.server.sessions s.uuid g.conns mine v.good),
  );
}
  where
    first_of : (b d : CSession) → b ∷ [] ≡ d ∷ [] → b ≡ d
    first_of b d e = cc

    mine : IsFresh s.uuid g.conns
    mine =
        let (b, lb, fresh_b) = v.listening in
        subst (λ x. IsFresh x.uuid g.conns) (first_of b s (sym lb ∙ la)) fresh_b

refuse-Inv :
    (g : House) (uuid : List ℕ) (server : CServer)
    → Inv g
    → Listens server uuid g.server.sessions
    → IsFresh uuid g.conns
    → Inv (record { server = server; conns = g.conns })
refuse-Inv g uuid server v l fresh = record {
  listening = (l.pending, l.only, subst (λ u. IsFresh u g.conns) (sym l.drawn) fresh);
  good = subst (λ m. All (Good m) g.conns) (sym l.kept) v.good;
}

module _ (p : Platform) (l : LongWire) where
  Step-Inv : {g h : House} → Step p l g h → Inv g → Inv h
  Step-Inv {g} {h} (accepts s false uuid buffer server s' acts la e other fresh same_h) v =
      rw same_h (
        accept-Inv g s uuid (server, s', acts) v la
          (subst (Ensures (λ r. Accepted r s uuid g.server.sessions)) e
            (handle_accept-Accepted g.server.sessions s uuid buffer))
          other fresh)
  Step-Inv {g} {h} (accepts s true uuid buffer server s' acts la e other fresh same_h) v =
      rw same_h (
        refuse-Inv g uuid server v
          (subst (Ensures (λ r. Listens r.0 uuid g.server.sessions)) e
            (refused-Listens g.server.sessions s uuid buffer))
          fresh)
  Step-Inv {g} {h} (reads_chunk c buffer error bytes s acts open_read pos e run) v =
      let (u, r) =
        read-Resolved p l (record c.session { buffer = buffer }) error bytes s acts pos e in
      run-Inv g h c s _ acts v run u (
        read-Good uuid_of reading_of g.server.sessions c
          (record { session = s; reading = c.reading - 1 + reads acts }) (reads acts) (clears acts)
          open_read u refl r)
  Step-Inv {g} {h} (writes_done c error s acts e run) v =
      let (u, r) = write-Keeps c.session error s acts e in
      run-Inv g h c s _ acts v run u (
        other-Good uuid_of reading_of g.server.sessions c
          (record { session = s; reading = c.reading + reads acts }) (clears acts) u
          (omega (arith, r)))

  Reach-Inv : {h : House} → Reach p l h → Inv h
  Reach-Inv (opens uuid buffer server e) =
      let w = subst (Ensures (λ x. Listens x uuid [])) e (opening uuid buffer) in
      record { listening = (w.pending, w.only, tt); good = tt }
    where
      opening : (uuid buffer : List ℕ) → Ensures (λ x. Listens x uuid []) (new_server uuid buffer)
      opening uuid buffer = unfold new_server in start_accept-Listens [] uuid buffer
  Reach-Inv (next r st) = Step-Inv st (Reach-Inv r)

  -- After any history of accepts, reads and completed writes on a server of version 2, each with or
  -- without an error, in which Boost draws fresh uuids and no handler throws, exactly one accept is
  -- outstanding, and every session that was started either has exactly one read outstanding, or has
  -- none and is not in the map of the server.
  pub listens_and_reads :
      {h : House}
      → Reach p l h
      → ((s : CSession) × (h.server.accepting ≡ s ∷ [])) × All (Good h.server.sessions) h.conns
  listens_and_reads r = let v = Reach-Inv r in let (s, e, fresh) = v.listening in ((s, e), v.good)
