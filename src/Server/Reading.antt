-- ===== src/Server/Reading.antt =====
-- CServer with its sessions: the outstanding accept, and the outstanding reads beside the map.
use async_echo_server.Base.{
  ℕ, ◌+◌, ◌-◌, ◌≡◌, ◌∙◌, subst, inl, inr, true, false, List, [], ◌∷◌, arith, All, Bool-cases, sym,
  All-at, refl, ◌++◌,
}
use async_echo_server.Server.Handlers.{Keeps, handle_write-Keeps, send_string-Keeps}
use async_echo_server.Session.Receive.Settles.{handle_read-Resolved}
use async_echo_server.Session.Receive.Asks.{reads, clears}
use async_echo_server.Platform.{Platform}
use async_echo_server.Base.{same}
use async_echo_server.Server.{new_server, CServer, clear_session}
use async_echo_server.Session.{Session, Action}
use async_echo_server.Server.Floor as Floor
use async_echo_server.Server.Floor.{told, run-Good, run-IsFresh, read-Good, other-Good, accept-Good}
use async_echo_server.Server.House.{
  accepts, reads_chunk, writes_done, sends, opens, next, Step, Reach, Conn, House, tell, IsFresh,
  Runs,
}
use async_echo_server.Server.Accept.{
  Ensures, Listens, Accepted, start_accept-Listens, handle_accept-Accepted, refused-Listens,
}

abbrev uuid_of : Conn → List ℕ
uuid_of c = c.session.uuid

abbrev reading_of : Conn → ℕ
reading_of c = c.reading

-- One read is outstanding; or none is, and the server has removed the session.
abbrev pub Good : List (List ℕ × List ℕ) → Conn → Type 0
Good = Floor.Good uuid_of reading_of

tell-told :
    (server : CServer) (uuid : List ℕ) (acts : List Action)
    → (tell server uuid acts).sessions ≡ told server.sessions uuid (clears acts)
unfolding clear_session
tell-told server uuid acts = elim (Bool-cases (clears acts)) [ inl t ↦ rw t | inr f ↦ rw f ]

tell-accepting :
    (server : CServer) (uuid : List ℕ) (acts : List Action)
    → (tell server uuid acts).accepting ≡ server.accepting
unfolding clear_session
tell-accepting server uuid acts = ground arith

record Inv (h : House) : Type 0 where
  listening : (s : Session) × (h.server.accepting ≡ s ∷ []) × IsFresh s.uuid h.conns
  good : All (Good h.server.sessions) h.conns

run-Inv :
    (g h : House) (c : Conn) (s : Session) (reading : ℕ) (acts : List Action)
    → Inv g
    → Runs g h c s reading acts
    → s.uuid ≡ c.session.uuid
    → (Good g.server.sessions c
        → Good
            (told g.server.sessions c.session.uuid (clears acts))
            (record { session = s; reading = reading }))
    → Inv h
run-Inv g h c s reading acts v (before, after, was, same_h) u k =
    let (a, la, fresh) = v.listening in
    let old = subst (All (Good g.server.sessions)) was v.good in
    let c' : Conn = record { session = s; reading = reading } in
    rw same_h (record {
      listening = (
        a,
        tell-accepting g.server c.session.uuid acts ∙ la,
        run-IsFresh uuid_of reading_of a.uuid c c' before after u
            (subst (IsFresh a.uuid) was fresh),
      );
      good =
          subst (λ m. All (Good m) (before ++ c' ∷ after))
            (sym (tell-told g.server c.session.uuid acts))
            (run-Good uuid_of reading_of g.server.sessions c c' before after (clears acts)
              (k (All-at (Good g.server.sessions) before after c old)) old);
    })

first_of : {A : Type 0} (a b : A) → a ∷ [] ≡ b ∷ [] → a ≡ b
first_of a b e = cc

accept-Inv :
    (g : House) (s : Session) (uuid buffer : List ℕ) (r : CServer × Session × List Action)
    → Inv g
    → g.server.accepting ≡ s ∷ []
    → Accepted r s uuid g.server.sessions
    → same r.1.uuid uuid ≡ false
    → IsFresh uuid g.conns
    → Inv (record { server = r.0; conns = record { session = r.1; reading = reads r.2 } ∷ g.conns })
accept-Inv g s uuid buffer r v la a other fresh = record {
  listening = (
    a.listens.pending,
    a.listens.only,
    subst (λ u. IsFresh u (record { session = r.1; reading = reads r.2 } ∷ g.conns))
        (sym a.listens.drawn) (other, fresh),
  );
  good = (
    inl a.one_read,
    subst (λ m. All (Good m) g.conns) (sym a.listens.kept)
        (accept-Good uuid_of reading_of g.server.sessions s.uuid g.conns mine v.good),
  );
}
  where
    mine : IsFresh s.uuid g.conns
    mine =
        let (b, lb, fresh_b) = v.listening in
        subst (λ x. IsFresh x.uuid g.conns) (first_of b s (sym lb ∙ la)) fresh_b

refuse-Inv :
    (g : House) (uuid : List ℕ) (server : CServer)
    → Inv g
    → Listens server uuid g.server.sessions
    → IsFresh uuid g.conns
    → Inv (record { server = server; conns = g.conns })
refuse-Inv g uuid server v l fresh = record {
  listening = (l.pending, l.only, subst (λ u. IsFresh u g.conns) (sym l.drawn) fresh);
  good = subst (λ m. All (Good m) g.conns) (sym l.kept) v.good;
}

module _ (p : Platform) where
  Step-Inv : {g h : House} → Step p g h → Inv g → Inv h
  Step-Inv {g} {h} (accepts s false uuid buffer server s' acts la e other fresh same_h) v =
      rw same_h (
        accept-Inv g s uuid buffer (server, s', acts) v la
          (subst (Ensures (λ r. Accepted r s uuid g.server.sessions)) e
            (handle_accept-Accepted g.server.sessions s uuid buffer))
          other fresh)
  Step-Inv {g} {h} (accepts s true uuid buffer server s' acts la e other fresh same_h) v =
      rw same_h (
        refuse-Inv g uuid server v
          (subst (Ensures (λ r. Listens r.0 uuid g.server.sessions)) e
            (refused-Listens g.server.sessions s uuid buffer))
          fresh)
  Step-Inv {g} {h} (reads_chunk c buffer error bytes s acts open_read pos e run) v =
      let (u, r) =
        handle_read-Resolved p (record c.session { buffer = buffer }) error bytes s acts pos e in
      run-Inv g h c s _ acts v run u (
        read-Good uuid_of reading_of g.server.sessions c
          (record { session = s; reading = c.reading - 1 + reads acts }) (reads acts) (clears acts)
          open_read u refl r)
  Step-Inv {g} {h} (writes_done c error s acts e run) v =
      let (u, r) = subst (Keeps c.session.uuid) e (handle_write-Keeps c.session error) in
      run-Inv g h c s _ acts v run u (
        other-Good uuid_of reading_of g.server.sessions c
          (record { session = s; reading = c.reading + reads acts }) (clears acts) u
          (omega (arith, r)))
  Step-Inv {g} {h} (sends c msg msg_id s acts e run) v =
      let (u, r) = subst (Keeps c.session.uuid) e (send_string-Keeps p c.session msg msg_id) in
      run-Inv g h c s _ acts v run u (
        other-Good uuid_of reading_of g.server.sessions c
          (record { session = s; reading = c.reading + reads acts }) (clears acts) u
          (omega (arith, r)))

  Reach-Inv : {h : House} → Reach p h → Inv h
  Reach-Inv (opens uuid buffer server e) =
      let l = subst (Ensures (λ x. Listens x uuid [])) e (opening uuid buffer) in
      record { listening = (l.pending, l.only, tt); good = tt }
    where
      opening : (uuid buffer : List ℕ) → Ensures (λ x. Listens x uuid []) (new_server uuid buffer)
      opening uuid buffer = unfold new_server in start_accept-Listens [] uuid buffer
  Reach-Inv (next r st) = Step-Inv st (Reach-Inv r)

  -- After any history of accepts, reads, completed writes and sends, each with or without an error,
  -- in which Boost draws fresh uuids and no handler throws, the server has exactly one accept
  -- outstanding.
  pub always_accepting : {h : House} → Reach p h → (s : Session) × (h.server.accepting ≡ s ∷ [])
  always_accepting r = let (s, e, fresh) = (Reach-Inv r).listening in (s, e)

  -- After any such history every session that was started either has exactly one read outstanding,
  -- or has none and is not in the map of the server.
  pub read_or_removed : {h : House} → Reach p h → All (Good h.server.sessions) h.conns
  read_or_removed r = (Reach-Inv r).good
