-- ===== src/Version2/Session/Asks.antt =====
-- What the handlers of a session of version 2 ask for, whatever its state and the bytes are.
use async_echo_server.Base.{
  ℕ, suc, ◌≡◌, refl, sym, false≢true, arith, true, false, Bool, Option, none, some, List, [], ◌∷◌,
  ◌++◌, map, Exec, ok, threw, corrupt, ◌>>=◌, if◌then◌else◌, ◌==◌, ltb,
}
use async_echo_server.Platform.{Platform, size_of_short, add_size, short_gt}
use async_echo_server.Memory.{memset}
use async_echo_server.MsgNode.{MsgNode, clear, terminate, copy_in, advance, get_short, max_length}
use async_echo_server.Version2.{LongWire, head_length, int_of_short, send}
use async_echo_server.Version2.Session.{
  CSession, Request, async_read_some, async_write, close_socket, clear_session, new_data_node,
  rearm, send_chars,
}
use async_echo_server.Version2.Session.Read.{
  Round, returns, continues, wait_for_more, finish_message, begin_message, read_header, read_body,
  round,
}

-- How often a chunk is asked for.
abbrev pub reads : List Request → ℕ
reads [] = 0
reads (async_read_some ∷ acts) = suc (reads acts)
reads (async_write w ∷ acts) = reads acts
reads (close_socket ∷ acts) = reads acts
reads (clear_session ∷ acts) = reads acts

-- Whether the session is removed from the server.
abbrev pub clears : List Request → Bool
clears [] = false
clears (clear_session ∷ acts) = true
clears (async_write w ∷ acts) = clears acts
clears (close_socket ∷ acts) = clears acts
clears (async_read_some ∷ acts) = clears acts

-- One read and no removal, or a removal and no read.
abbrev pub Resolved : List Request → Type 0
Resolved acts = reads acts ≡ (if clears acts then 0 else 1)

-- Neither.
abbrev pub Silent : List Request → Type 0
Silent acts = (reads acts ≡ 0) × (clears acts ≡ false)

writes-Silent : (ws : List (List ℕ)) → Silent (map async_write ws)
writes-Silent [] = (refl, refl)
writes-Silent (w ∷ ws) = writes-Silent ws

pub Silent-Resolved :
    (acts acts' : List Request) → Silent acts → Resolved acts' → Resolved (acts ++ acts')
Silent-Resolved [] acts' h r = r
Silent-Resolved (async_read_some ∷ acts) acts' h r = absurd (ground (arith, h.0))
Silent-Resolved (async_write w ∷ acts) acts' h r = Silent-Resolved acts acts' h r
Silent-Resolved (close_socket ∷ acts) acts' h r = Silent-Resolved acts acts' h r
Silent-Resolved (clear_session ∷ acts) acts' h r = absurd (false≢true (sym h.1))

abbrev armed : Exec (List ℕ) → CSession → Exec (CSession × List Request)
armed e s = e >>= λ b. ok (record s { buffer = b }, async_read_some ∷ [])

abbrev sent : Exec (List MsgNode × List (List ℕ)) → CSession → Exec (CSession × List Request)
sent e s = e >>= λ q. ok (record s { send_que = q.0 }, map async_write q.1)

module _ (uuid : List ℕ) where
  abbrev pub Settles : Exec Round → Type 0
  Settles (ok (returns s acts)) = (s.uuid ≡ uuid) × Resolved acts
  Settles (ok (continues s copy_len bytes acts)) =
      (s.uuid ≡ uuid) × Silent acts × ((bytes == 0) ≡ false)
  Settles threw = Unit
  Settles corrupt = Unit

  bind-Settles {ℓ} :
      {A : Type ℓ} (e : Exec A) (f : A → Exec Round) → ((a : A) → Settles (f a)) → Settles (e >>= f)
  bind-Settles (ok a) f h = h a
  bind-Settles threw f h = tt
  bind-Settles corrupt f h = tt

  test-Settles :
      (b : Bool) (x y : Exec Round)
      → Settles x
      → (b ≡ false → Settles y)
      → Settles (if b then x else y)
  test-Settles true x y h k = h
  test-Settles false x y h k = k refl

  -- The session after Send, and its calls.
  sent-Settles :
      (e : Exec (List MsgNode × List (List ℕ))) (s : CSession)
      (f : CSession × List Request → Exec Round)
      → ((que : List MsgNode) (ws : List (List ℕ))
          → Settles (f (record s { send_que = que }, map async_write ws)))
      → Settles (sent e s >>= f)
  sent-Settles (ok q) s f h = h q.0 q.1
  sent-Settles threw s f h = tt
  sent-Settles corrupt s f h = tt

  armed-Settles :
      (e : Exec (List ℕ)) (s : CSession) (acts : List Request)
      → s.uuid ≡ uuid
      → Silent acts
      → Settles (armed e s >>= λ r. ok (returns r.0 (acts ++ r.1)))
  armed-Settles (ok b) s acts u h = (u, Silent-Resolved acts (async_read_some ∷ []) h refl)
  armed-Settles threw s acts u h = tt
  armed-Settles corrupt s acts u h = tt

  wait_for_more-Settles : (s : CSession) → s.uuid ≡ uuid → Settles (wait_for_more s)
  unfolding rearm
  wait_for_more-Settles s u = armed-Settles (memset s.buffer max_length) s [] u (refl, refl)

  module _ (p : Platform) (l : LongWire) where
    finish_message-Settles :
        (s : CSession) (recv : MsgNode) (copy_len bytes : ℕ)
        → s.uuid ≡ uuid
        → Settles (finish_message p l s recv copy_len bytes)
    unfolding finish_message send_chars rearm
    finish_message-Settles s recv copy_len bytes u =
        sent-Settles (send l s.send_que recv.chars (int_of_short recv.total_len))
          (record s { recv_msg_node = some recv }) _
          (λ que ws. bind-Settles (clear s.recv_head_node) _ (λ head.
            test-Settles (bytes == 0) _ _
              (armed-Settles (memset s.buffer max_length)
                (record s {
                  recv_msg_node = some recv;
                  send_que = que;
                  b_head_parse = false;
                  recv_head_node = head;
                })
                (map async_write ws) u (writes-Silent ws))
              (λ f. (u, writes-Silent ws, f))))

    begin_message-Settles :
        (s : CSession) (data_len copy_len bytes : ℕ)
        → s.uuid ≡ uuid
        → Settles (begin_message p l s data_len copy_len bytes)
    unfolding begin_message
    begin_message-Settles s data_len copy_len bytes u =
        bind-Settles (new_data_node data_len) _ (λ recv.
          test-Settles (ltb bytes (size_of_short data_len)) _ _
            (bind-Settles (copy_in recv s.buffer copy_len bytes) _
              (λ node. wait_for_more-Settles _ u))
            (λ f. bind-Settles (copy_in recv s.buffer copy_len (size_of_short data_len)) _ (λ node.
              bind-Settles (terminate (advance node (size_of_short data_len))) _
                (λ ended. finish_message-Settles s _ _ _ u))))

    read_header-Settles :
        (s : CSession) (copy_len bytes : ℕ)
        → s.uuid ≡ uuid
        → Settles (read_header p l s copy_len bytes)
    unfolding read_header
    read_header-Settles s copy_len bytes u =
        test-Settles (ltb (add_size bytes (size_of_short s.recv_head_node.cur_len)) head_length) _ _
          (bind-Settles (copy_in s.recv_head_node s.buffer copy_len bytes) _
            (λ head. wait_for_more-Settles _ u))
          (λ f. bind-Settles (copy_in s.recv_head_node s.buffer copy_len _) _ (λ head.
            bind-Settles (get_short p head.chars 0) _ (λ raw_len.
              test-Settles (short_gt (p.network_to_host_short raw_len) max_length) _ _ (u, refl)
                (λ g. begin_message-Settles (record s { recv_head_node = head }) _ _ _ u))))

    read_body-Settles :
        (s : CSession) (recv : MsgNode) (copy_len bytes : ℕ)
        → s.uuid ≡ uuid
        → Settles (read_body p l s recv copy_len bytes)
    unfolding read_body
    read_body-Settles s recv copy_len bytes u =
        test-Settles (ltb bytes _) _ _
          (bind-Settles (copy_in recv s.buffer copy_len bytes) _
            (λ node. wait_for_more-Settles _ u))
          (λ f. bind-Settles (copy_in recv s.buffer copy_len _) _ (λ node.
            bind-Settles (terminate (advance node _)) _
              (λ ended. finish_message-Settles s _ _ _ u)))

    pub round-Settles :
        (s : CSession) (copy_len bytes : ℕ) → s.uuid ≡ uuid → Settles (round p l s copy_len bytes)
    unfolding round
    round-Settles s copy_len bytes u = by_case s.b_head_parse s.recv_msg_node
      where
        by_case :
            (b : Bool) (o : Option MsgNode)
            → Settles (elim b [
              | false ↦ read_header p l s copy_len bytes
              | true ↦ elim o [ none ↦ corrupt | some recv ↦ read_body p l s recv copy_len bytes ]
            ])
        by_case false o = read_header-Settles s copy_len bytes u
        by_case true none = tt
        by_case true (some recv) = read_body-Settles s recv copy_len bytes u
