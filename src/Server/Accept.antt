-- ===== src/Server/Accept.antt =====
-- CServer::StartAccept and CServer::HandleAccept: what they leave behind when they return.
use async_echo_server.Base.{
  ℕ, ◌≡◌, refl, ap, true, false, List, [], ◌∷◌, Exec, ok, threw, corrupt, ◌>>=◌,
}
use async_echo_server.Memory.{memset}
use async_echo_server.MsgNode.{new_msg_node, head_total_len, max_length}
use async_echo_server.Session.Receive.Asks.{reads}
use async_echo_server.Server.{CServer, insert_session, start_accept, handle_accept}
use async_echo_server.Session.{async_read, start, rearm, new_session, Session, Action}

-- What StartAccept and HandleAccept do when they return.
pub record Listens (server : CServer) (uuid : List ℕ) (m : List (List ℕ × List ℕ)) : Type 0 where
  pub pending : Session
  pub only : server.accepting ≡ pending ∷ []
  pub drawn : pending.uuid ≡ uuid
  pub kept : server.sessions ≡ m

-- Whatever the run returns has the property.
abbrev pub Ensures : {A : Type 0} → (A → Type 0) → Exec A → Type 0
Ensures P (ok a) = P a
Ensures P threw = Unit
Ensures P corrupt = Unit

pub bind-Ensures :
    {A B : Type 0} (P : B → Type 0) (e : Exec A) (f : A → Exec B)
    → ((a : A) → Ensures P (f a))
    → Ensures P (e >>= f)
bind-Ensures P (ok a) f h = h a
bind-Ensures P threw f h = tt
bind-Ensures P corrupt f h = tt

-- The same, of a run that goes on with a value that has a property.
pub then-Ensures :
    {A B : Type 0} (Q : A → Type 0) (P : B → Type 0) (e : Exec A) (f : A → Exec B)
    → Ensures Q e
    → ((a : A) → Q a → Ensures P (f a))
    → Ensures P (e >>= f)
then-Ensures Q P (ok a) f q h = h a q
then-Ensures Q P threw f q h = tt
then-Ensures Q P corrupt f q h = tt

pub start_accept-Listens :
    (m : List (List ℕ × List ℕ)) (uuid buffer : List ℕ)
    → Ensures
        (λ server. Listens server uuid m)
        (start_accept (record { sessions = m; accepting = [] }) uuid buffer)
unfolding start_accept
start_accept-Listens m uuid buffer =
    then-Ensures (λ s. s.uuid ≡ uuid) (λ server. Listens server uuid m) (new_session uuid buffer) _
      drawn (λ s u. record { pending = s; only = refl; drawn = u; kept = refl })
  where
    drawn : Ensures (λ s. s.uuid ≡ uuid) (new_session uuid buffer)
    drawn =
        unfold new_session in
        bind-Ensures (λ s. s.uuid ≡ uuid) (new_msg_node head_total_len) _ (λ head. refl)

pub record Accepted (r : CServer × Session × List Action) (s : Session) (uuid : List ℕ)
    (m : List (List ℕ × List ℕ)) : Type 0 where
  pub same_uuid : r.1.uuid ≡ s.uuid
  pub one_read : reads r.2 ≡ 1
  pub listens : Listens r.0 uuid (insert_session s.uuid s.uuid m)

start-Ensures :
    (s : Session) → Ensures (λ r. (r.0.uuid ≡ s.uuid) × (r.1 ≡ async_read ∷ [])) (start s)
unfolding start rearm
start-Ensures s =
    bind-Ensures (λ r. (r.0.uuid ≡ s.uuid) × (r.1 ≡ async_read ∷ [])) (memset s.buffer max_length) _
      (λ b. (refl, refl))

pub handle_accept-Accepted :
    (m : List (List ℕ × List ℕ)) (s : Session) (uuid buffer : List ℕ)
    → Ensures
        (λ r. Accepted r s uuid m)
        (handle_accept (record { sessions = m; accepting = [] }) s false uuid buffer)
unfolding handle_accept
handle_accept-Accepted m s uuid buffer = then-Ensures _ _ (start s) _ (start-Ensures s) (λ r q.
    then-Ensures (λ server. Listens server uuid (insert_session s.uuid s.uuid m)) _
      (start_accept (record { sessions = insert_session r.0.uuid r.0.uuid m; accepting = [] }) uuid
        buffer)
      _ (rw (q.0) (start_accept-Listens (insert_session s.uuid s.uuid m) uuid buffer))
      (λ server l. record { same_uuid = q.0; one_read = ap reads q.1; listens = l }))

pub refused-Listens :
    (m : List (List ℕ × List ℕ)) (s : Session) (uuid buffer : List ℕ)
    → Ensures
        (λ r. Listens r.0 uuid m)
        (handle_accept (record { sessions = m; accepting = [] }) s true uuid buffer)
unfolding handle_accept
refused-Listens m s uuid buffer =
    then-Ensures _ _ (start_accept (record { sessions = m; accepting = [] }) uuid buffer) _
      (start_accept-Listens m uuid buffer) (λ server l. l)
