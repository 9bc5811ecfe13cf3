-- ===== src/Version2/Server/Accept.antt =====
-- StartAccept and HandleAccept of version 2: what they leave behind when they return.
use async_echo_server.Base.{ℕ, ◌≡◌, refl, ap, true, false, List, [], ◌∷◌}
use async_echo_server.Memory.{memset}
use async_echo_server.MsgNode.{max_length}
use async_echo_server.Server.{insert_session}
use async_echo_server.Server.Accept.{Ensures, bind-Ensures, then-Ensures}
use async_echo_server.Version2.{head_length}
use async_echo_server.Version2.Session.{
  CSession, Request, async_read_some, new_data_node, new_session, rearm, start,
}
use async_echo_server.Version2.Session.Asks.{reads}
use async_echo_server.Version2.Server.{CServer, start_accept, handle_accept}

-- One accept is outstanding, for a session of this uuid.
pub record Listens (server : CServer) (uuid : List ℕ) (m : List (List ℕ × List ℕ)) : Type 0 where
  pub pending : CSession
  pub only : server.accepting ≡ pending ∷ []
  pub drawn : pending.uuid ≡ uuid
  pub kept : server.sessions ≡ m

pub start_accept-Listens :
    (m : List (List ℕ × List ℕ)) (uuid buffer : List ℕ)
    → Ensures
        (λ server. Listens server uuid m)
        (start_accept (record { sessions = m; accepting = [] }) uuid buffer)
unfolding start_accept
start_accept-Listens m uuid buffer =
    then-Ensures (λ s. s.uuid ≡ uuid) (λ server. Listens server uuid m) (new_session uuid buffer) _
      drawn (λ s u. record { pending = s; only = refl; drawn = u; kept = refl })
  where
    drawn : Ensures (λ s. s.uuid ≡ uuid) (new_session uuid buffer)
    drawn =
        unfold new_session in
        bind-Ensures (λ s. s.uuid ≡ uuid) (new_data_node head_length) _ (λ head. refl)

pub record Accepted (r : CServer × CSession × List Request) (s : CSession) (uuid : List ℕ)
    (m : List (List ℕ × List ℕ)) : Type 0 where
  pub same_uuid : r.1.uuid ≡ s.uuid
  pub one_read : reads r.2 ≡ 1
  pub listens : Listens r.0 uuid (insert_session s.uuid s.uuid m)

start-Ensures :
    (s : CSession) → Ensures (λ r. (r.0.uuid ≡ s.uuid) × (r.1 ≡ async_read_some ∷ [])) (start s)
unfolding start rearm
start-Ensures s =
    bind-Ensures (λ r. (r.0.uuid ≡ s.uuid) × (r.1 ≡ async_read_some ∷ []))
      (memset s.buffer max_length) _ (λ b. (refl, refl))

pub handle_accept-Accepted :
    (m : List (List ℕ × List ℕ)) (s : CSession) (uuid buffer : List ℕ)
    → Ensures
        (λ r. Accepted r s uuid m)
        (handle_accept (record { sessions = m; accepting = [] }) s false uuid buffer)
unfolding handle_accept
handle_accept-Accepted m s uuid buffer = then-Ensures _ _ (start s) _ (start-Ensures s) (λ r q.
    then-Ensures (λ server. Listens server uuid (insert_session s.uuid s.uuid m)) _
      (start_accept (record { sessions = insert_session r.0.uuid r.0.uuid m; accepting = [] }) uuid
        buffer)
      _ (rw (q.0) (start_accept-Listens (insert_session s.uuid s.uuid m) uuid buffer))
      (λ server l. record { same_uuid = q.0; one_read = ap reads q.1; listens = l }))

pub refused-Listens :
    (m : List (List ℕ × List ℕ)) (s : CSession) (uuid buffer : List ℕ)
    → Ensures
        (λ r. Listens r.0 uuid m)
        (handle_accept (record { sessions = m; accepting = [] }) s true uuid buffer)
unfolding handle_accept
refused-Listens m s uuid buffer =
    then-Ensures _ _ (start_accept (record { sessions = m; accepting = [] }) uuid buffer) _
      (start_accept-Listens m uuid buffer) (λ server l. l)
