-- ===== src/MultiThread/Server/InTurn.antt =====
-- On which contexts the sessions of the server are made.
use async_echo_server.Base.{
  ℕ, suc, ◌+◌, ◌*◌, ◌^◌, ◌<◌, ◌≡◌, refl, ap, sym, ◌∙◌, inl, inr, none, Bool-cases, ltb, Bool, true,
  false, List, [], ◌∷◌, ◌++◌, map, length, All, append-nil, Exec, ok, ◌>>=◌, Exec-cases, arith,
  append_assoc, map-append,
}
use async_echo_server.Memory.{zeros, memset_all}
use async_echo_server.MsgNode.{max_length}
use async_echo_server.MsgNode.Laws.{new_msg_node_lem, fresh_node}
use async_echo_server.Session.{Session, Action, async_read}
use async_echo_server.Server.{insert_session}
use async_echo_server.Pool as V3
use async_echo_server.Pool.Turns.{calls, range, rounds, get_io_service-rounds}
use async_echo_server.MultiThread.Session.{new_session, start}
use async_echo_server.MultiThread.Pool.{
  AsioIoServicePool, new_pool, get_io_service, get_io_service-Pool,
}
use async_echo_server.MultiThread.Server.{CServer, start_accept, handle_accept, new_server}

-- A completed accept, and what Boost and the memory give for the next session.
pub record Accepted : Type 0 where
  pub session : Session
  pub error : Bool
  pub uuid : List ℕ
  pub buffer : List ℕ

-- The calls of HandleAccept, one after the other.
unfoldable pub accepts :
    AsioIoServicePool → CServer → List Accepted → Exec (AsioIoServicePool × CServer)
accepts pool server [] = ok (pool, server)
accepts pool server (a ∷ more) = do
  (pool', server', s, acts) ← handle_accept pool server a.session a.error a.uuid a.buffer
  accepts pool' server' more

-- The contexts of the sessions that were made, in order.
abbrev pub contexts : CServer → List ℕ
contexts server = map (λ a. a.0) server.accepting

-- The same pool in version 3.
abbrev pub old : AsioIoServicePool → V3.AsioIoServicePool
old pool = record {
  io_services = pool.io_services;
  workers = pool.works;
  threads = pool.threads;
  next_io_service = pool.next_io_service;
}

abbrev pub moved : AsioIoServicePool → ℕ → AsioIoServicePool
moved pool i = record pool { next_io_service = i }

made : (uuid buffer : List ℕ) → (s : Session) × (new_session uuid buffer ≡ ok s)
unfolding new_session
made uuid buffer = (
  record {
    uuid = uuid;
    buffer = buffer;
    b_close = false;
    send_que = [];
    recv_msg_node = none;
    b_head_parse = false;
    recv_head_node = fresh_node 4;
  },
  rw (new_msg_node_lem 4 (omega arith)),
)

started :
    (s : Session)
    → length s.buffer ≡ max_length
    → start s ≡ ok (record s { buffer = zeros max_length }, async_read ∷ [])
unfolding start
started s room = rw (memset_all s.buffer max_length room)

-- The first of several calls.
first_call :
    (n : ℕ) (v last : V3.AsioIoServicePool) (is : List ℕ)
    → calls (suc n) v ≡ ok (is, last)
    → (i : ℕ) × (v' : V3.AsioIoServicePool) × (js : List ℕ) × (V3.get_io_service v ≡ ok (i, v'))
      × (calls n v' ≡ ok (js, last))
      × (is ≡ i ∷ js)
unfolding calls
first_call n v last is e = elim (Exec-cases (V3.get_io_service v)) [
  | inl (r, g) ↦ elim (Exec-cases (calls n r.1)) [
    | inl (q, c) ↦
        let same : ◌≡◌ {A = Exec (List ℕ × V3.AsioIoServicePool)} (ok (is, last))
            (ok (r.0 ∷ q.0, q.1)) =
          sym e ∙ rw (g, c) refl in
        (r.0, r.1, q.0, g, cc, cc)
    | inr (inl c) ↦ absurd (ground (arith, g))
    | inr (inr c) ↦ absurd (ground (arith, g))
  ]
  | inr (inl g) ↦ absurd (ground arith)
  | inr (inr g) ↦ absurd (ground arith)
]

-- A call changes the next index only.
call-next :
    (v v' : V3.AsioIoServicePool) (i : ℕ)
    → V3.get_io_service v ≡ ok (i, v')
    → v' ≡ record v { next_io_service = v'.next_io_service }
unfolding V3.get_io_service
call-next v v' i e = elim (Bool-cases (ltb v.next_io_service (length v.io_services))) [
  | inl t ↦ ground arith
  | inr f ↦ absurd (ground arith)
]

get-moved :
    (pool : AsioIoServicePool) (v' : V3.AsioIoServicePool) (i : ℕ)
    → V3.get_io_service (old pool) ≡ ok (i, v')
    → get_io_service pool ≡ ok (i, moved pool v'.next_io_service)
get-moved pool v' i e = get_io_service-Pool pool ∙ rw e

-- StartAccept makes a session on the context that the pool hands out.
pub start_accept-made :
    (pool pool' : AsioIoServicePool) (server : CServer) (uuid buffer : List ℕ) (i : ℕ)
    → get_io_service pool ≡ ok (i, pool')
    → (s : Session) × (start_accept pool server uuid buffer
        ≡ ok (pool', record server { accepting = server.accepting ++ (i, s) ∷ [] }))
unfolding start_accept
start_accept-made pool pool' server uuid buffer i g =
    let (s, new) = made uuid buffer in (s, rw (g, new))

handle_accept-made :
    (pool pool' : AsioIoServicePool) (server : CServer) (a : Accepted) (i : ℕ)
    → length a.session.buffer ≡ max_length
    → get_io_service pool ≡ ok (i, pool')
    → (server' : CServer) × (s : Session) × (acts : List Action) × (handle_accept pool server
          a.session a.error a.uuid a.buffer
        ≡ ok (pool', server', s, acts))
      × (contexts server' ≡ contexts server ++ i ∷ [])
unfolding handle_accept
handle_accept-made pool pool' server a i room g = by_error a.error
  where
    by_error :
        (b : Bool)
        → (server' : CServer) × (s : Session) × (acts : List Action) × (handle_accept pool server
              a.session b a.uuid a.buffer
            ≡ ok (pool', server', s, acts))
          × (contexts server' ≡ contexts server ++ i ∷ [])
    by_error false =
        let entered = record server {
          sessions = insert_session a.session.uuid a.session.uuid server.sessions;
        } in
        let (s, begun) = start_accept-made pool pool' entered a.uuid a.buffer i g in
        (
          record entered { accepting = server.accepting ++ (i, s) ∷ [] },
          record a.session { buffer = zeros max_length },
          async_read ∷ [],
          rw (started a.session room, begun),
          map-append (λ x. x.0) server.accepting ((i, s) ∷ []),
        )
    by_error true =
        let (s, begun) = start_accept-made pool pool' server a.uuid a.buffer i g in
        (
          record server { accepting = server.accepting ++ (i, s) ∷ [] },
          a.session,
          [],
          rw begun,
          map-append (λ x. x.0) server.accepting ((i, s) ∷ []),
        )

-- What so many calls of GetIOService hand out is what the sessions are made on.
accepts-calls :
    (done : List Accepted) (pool : AsioIoServicePool) (server : CServer) (is : List ℕ)
    (last : V3.AsioIoServicePool)
    → All (λ a. length a.session.buffer ≡ max_length) done
    → calls (length done) (old pool) ≡ ok (is, last)
    → (server' : CServer) × (accepts pool server done
        ≡ ok (moved pool last.next_io_service, server'))
      × (contexts server' ≡ contexts server ++ is)
unfolding accepts calls
accepts-calls [] pool server is last h e = (
  server,
  ap (λ n. ok (moved pool n, server)) cc,
  sym (append-nil (contexts server)) ∙ ap (◌++◌ (contexts server)) cc,
)
accepts-calls (a ∷ more) pool server is last h e =
    let (i, v', js, g, c, same) = first_call (length more) (old pool) last is e in
    let pool' : AsioIoServicePool = moved pool v'.next_io_service in
    let (server', s, acts, handled, extended) =
      handle_accept-made pool pool' server a i h.0 (get-moved pool v' i g) in
    let (last', rest, all) =
      accepts-calls more pool' server' js last h.1
        (ap (calls (length more)) (sym (call-next (old pool) v' i g)) ∙ c) in
    (
      last',
      rw (handled, rest),
      all
          ∙ ap (λ k. k ++ js) extended
          ∙ append_assoc (contexts server) (i ∷ []) js
          ∙ ap (◌++◌ (contexts server)) (sym same),
    )

-- A server on a new pool of `size` contexts: after the constructor and any calls of HandleAccept, each
-- for a session with a buffer of 2048 bytes and with or without an error, all of them return, and the
-- sessions that were made, one by the constructor and one by each call, are on the contexts 0, 1 and so
-- on in turn, round after round; the next session gets the next context.
pub accepts-in_turn :
    (size q r : ℕ) (uuid buffer : List ℕ) (done : List Accepted)
    → size < 2 ^ 64
    → r < size
    → suc (length done) ≡ q * size + r
    → All (λ a. length a.session.buffer ≡ max_length) done
    → (server : CServer) × ((do
      (pool, opened) ← new_server (new_pool size) uuid buffer
      accepts pool opened done)
        ≡ ok (moved (new_pool size) r, server))
      × (contexts server ≡ rounds size q ++ range 0 r)
unfolding new_server new_pool V3.new_pool
accepts-in_turn size q r uuid buffer done small below count h =
    let (i, v', js, g, c, same) =
      first_call (length done) (old (new_pool size))
        (record (V3.new_pool size) { next_io_service = r }) (rounds size q ++ range 0 r)
        (ap (λ n. calls n (V3.new_pool size)) count ∙ get_io_service-rounds size q r small below) in
    let pool' : AsioIoServicePool = moved (new_pool size) v'.next_io_service in
    let (s, begun) =
      start_accept-made (new_pool size) pool' (record { sessions = []; accepting = [] }) uuid buffer
        i (get-moved (new_pool size) v' i g) in
    let (server, rest, all) =
      accepts-calls done pool' (record { sessions = []; accepting = (i, s) ∷ [] }) js
        (record (V3.new_pool size) { next_io_service = r }) h
        (ap (calls (length done)) (sym (call-next (old (new_pool size)) v' i g)) ∙ c) in
    (server, rw (begun, rest), all ∙ sym same)
