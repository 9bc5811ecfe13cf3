-- ===== src/Session/Receive/Asks.antt =====
-- What a round of HandleRead asks for, whatever the state of the session and the bytes.
use async_echo_server.Base.{
  suc, true, false, ℕ, ◌≡◌, refl, Bool, Option, none, some, List, [], ◌∷◌, Exec, ok, threw, corrupt,
  ◌>>=◌, if◌then◌else◌, ◌==◌, ltb,
}
use async_echo_server.Platform.{Platform, size_of_short, add_size, short_gt}
use async_echo_server.Memory.{memset}
use async_echo_server.MsgNode.{
  ReciveNode, SendNode, new_recive_node, clear, terminate, copy_in, advance, get_short,
  head_total_len, head_id_len, max_length,
}
use async_echo_server.Session.{
  Session, Action, async_read, async_write, post_msg, close_socket, clear_session, rearm,
}
use async_echo_server.Session.Receive.{
  Round, returns, continues, leave, finish_message, begin_message, read_header, read_body, round,
}

-- How often a chunk is asked for.
abbrev pub reads : List Action → ℕ
reads [] = 0
reads (async_read ∷ acts) = suc (reads acts)
reads (async_write w ∷ acts) = reads acts
reads (post_msg n ∷ acts) = reads acts
reads (close_socket ∷ acts) = reads acts
reads (clear_session ∷ acts) = reads acts

-- Whether the session is removed from the server.
abbrev pub clears : List Action → Bool
clears [] = false
clears (clear_session ∷ acts) = true
clears (async_write w ∷ acts) = clears acts
clears (post_msg n ∷ acts) = clears acts
clears (close_socket ∷ acts) = clears acts
clears (async_read ∷ acts) = clears acts

-- One read and no removal, or a removal and no read.
abbrev pub Resolved : List Action → Type 0
Resolved acts = reads acts ≡ (if clears acts then 0 else 1)

-- Neither.
abbrev pub Silent : List Action → Type 0
Silent acts = (reads acts ≡ 0) × (clears acts ≡ false)

abbrev with_post : ReciveNode → Exec (Session × List Action) → Exec Round
with_post recv e = e >>= λ r. ok (returns r.0 (post_msg recv ∷ r.1))

module _ (uuid : List ℕ) (que : List SendNode) where
  -- A handler changes neither the uuid nor the queue of frames.
  abbrev pub Owns : Session → Type 0
  Owns s = (s.uuid ≡ uuid) × (s.send_que ≡ que)

  abbrev pub Settles : Exec Round → Type 0
  Settles (ok (returns s acts)) = Owns s × Resolved acts
  Settles (ok (continues s copy_len bytes acts)) = Owns s × Silent acts × ((bytes == 0) ≡ false)
  Settles threw = Unit
  Settles corrupt = Unit

  bind-Settles {ℓ} :
      {A : Type ℓ} (e : Exec A) (f : A → Exec Round) → ((a : A) → Settles (f a)) → Settles (e >>= f)
  bind-Settles (ok a) f h = h a
  bind-Settles threw f h = tt
  bind-Settles corrupt f h = tt

  if-Settles : (b : Bool) (x y : Exec Round) → Settles x → Settles y → Settles (if b then x else y)
  if-Settles true x y h k = h
  if-Settles false x y h k = k

  test-Settles :
      (b : Bool) (x y : Exec Round)
      → Settles x
      → (b ≡ false → Settles y)
      → Settles (if b then x else y)
  test-Settles true x y h k = h
  test-Settles false x y h k = k refl

  armed-Settles :
      (e : Exec (List ℕ)) (s : Session)
      → Owns s
      → Settles (leave (e >>= λ b. ok (record s { buffer = b }, async_read ∷ [])))
  armed-Settles (ok b) s u = (u, refl)
  armed-Settles threw s u = tt
  armed-Settles corrupt s u = tt

  posted-Settles :
      (e : Exec (List ℕ)) (s : Session) (recv : ReciveNode)
      → Owns s
      → Settles (with_post recv (e >>= λ b. ok (record s { buffer = b }, async_read ∷ [])))
  posted-Settles (ok b) s recv u = (u, refl)
  posted-Settles threw s recv u = tt
  posted-Settles corrupt s recv u = tt

  leave-Settles : (s : Session) → Owns s → Settles (leave (rearm s))
  unfolding rearm
  leave-Settles s u = armed-Settles (memset s.buffer max_length) s u

  finish_message-Settles :
      (s : Session) (recv : ReciveNode) (copy_len bytes : ℕ)
      → Owns s
      → Settles (finish_message s recv copy_len bytes)
  unfolding finish_message rearm
  finish_message-Settles s recv copy_len bytes u = bind-Settles (clear s.recv_head_node) _ (λ head.
      test-Settles (bytes == 0) _ _
        (posted-Settles (memset s.buffer max_length)
          (record s { recv_msg_node = some recv; b_head_parse = false; recv_head_node = head }) recv
          u)
        (λ f. (u, (refl, refl), f)))

  begin_message-Settles :
      (s : Session) (msg_id msg_len copy_len bytes : ℕ)
      → Owns s
      → Settles (begin_message s msg_id msg_len copy_len bytes)
  unfolding begin_message
  begin_message-Settles s msg_id msg_len copy_len bytes u =
      bind-Settles (new_recive_node msg_len msg_id) _ (λ recv.
        if-Settles (ltb bytes (size_of_short msg_len)) _ _
          (bind-Settles (copy_in recv.node s.buffer copy_len bytes) _ (λ node. leave-Settles _ u))
          (bind-Settles (copy_in recv.node s.buffer copy_len (size_of_short msg_len)) _ (λ node.
            bind-Settles (terminate (advance node (size_of_short msg_len))) _
              (λ ended. finish_message-Settles s _ _ _ u))))

  read_header-Settles :
      (p : Platform) (s : Session) (copy_len bytes : ℕ)
      → Owns s
      → Settles (read_header p s copy_len bytes)
  unfolding read_header
  read_header-Settles p s copy_len bytes u =
      if-Settles (ltb (add_size bytes (size_of_short s.recv_head_node.cur_len)) head_total_len) _ _
        (bind-Settles (copy_in s.recv_head_node s.buffer copy_len bytes) _
          (λ head. leave-Settles _ u))
        (bind-Settles (copy_in s.recv_head_node s.buffer copy_len _) _ (λ head.
          bind-Settles (get_short p head.chars 0) _ (λ raw_id.
            if-Settles (short_gt (p.network_to_host_short raw_id) max_length) _ _ (u, refl)
              (bind-Settles (get_short p head.chars head_id_len) _ (λ raw_len.
                if-Settles (short_gt (p.network_to_host_short raw_len) max_length) _ _ (u, refl)
                  (begin_message-Settles _ _ _ _ _ u))))))

  read_body-Settles :
      (s : Session) (recv : ReciveNode) (copy_len bytes : ℕ)
      → Owns s
      → Settles (read_body s recv copy_len bytes)
  unfolding read_body
  read_body-Settles s recv copy_len bytes u =
      if-Settles (ltb bytes _) _ _
        (bind-Settles (copy_in recv.node s.buffer copy_len bytes) _ (λ node. leave-Settles _ u))
        (bind-Settles (copy_in recv.node s.buffer copy_len _) _ (λ node.
          bind-Settles (terminate (advance node _)) _ (λ ended. finish_message-Settles s _ _ _ u)))

  pub round-Settles :
      (p : Platform) (s : Session) (copy_len bytes : ℕ)
      → Owns s
      → Settles (round p s copy_len bytes)
  unfolding round
  round-Settles p s copy_len bytes u = by_case s.b_head_parse s.recv_msg_node
    where
      by_case :
          (b : Bool) (o : Option ReciveNode)
          → Settles (elim b [
            | false ↦ read_header p s copy_len bytes
            | true ↦ elim o [ none ↦ corrupt | some recv ↦ read_body s recv copy_len bytes ]
          ])
      by_case false o = read_header-Settles p s copy_len bytes u
      by_case true none = tt
      by_case true (some recv) = read_body-Settles s recv copy_len bytes u
