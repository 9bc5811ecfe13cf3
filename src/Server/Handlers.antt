-- ===== src/Server/Handlers.antt =====
-- What the handlers of a session other than HandleRead ask for.
use async_echo_server.Base.{
  threw, corrupt, ltb, if◌then◌else◌, length, false, true, ◌++◌, ◌>>=◌, ℕ, ◌≡◌, refl, List, [], ◌∷◌,
  Bool, Exec, ok,
}
use async_echo_server.Platform.{Platform, short_of_size}
use async_echo_server.MsgNode.{SendNode, new_send_node, max_send_queue}
use async_echo_server.Session.{Session, Action, close}
use async_echo_server.Session.Send.{enqueue, write_front, send_string, pop, handle_write}
use async_echo_server.Session.Receive.Asks.{reads}

-- The uuid is kept and no chunk is asked for.
abbrev pub Keeps : List ℕ → Exec (Session × List Action) → Type 0
Keeps uuid (ok (s, acts)) = (s.uuid ≡ uuid) × (reads acts ≡ 0)
Keeps uuid threw = Unit
Keeps uuid corrupt = Unit

write_front-Keeps :
    (uuid : List ℕ) (s : Session) (que : List SendNode)
    → s.uuid ≡ uuid
    → Keeps uuid (write_front que >>= λ acts. ok (s, acts))
unfolding write_front
write_front-Keeps uuid s [] u = tt
write_front-Keeps uuid s (n ∷ que) u = (u, refl)

bind-Keeps {ℓ} :
    {A : Type ℓ} (uuid : List ℕ) (e : Exec A) (f : A → Exec (Session × List Action))
    → ((a : A) → Keeps uuid (f a))
    → Keeps uuid (e >>= f)
bind-Keeps uuid (ok a) f h = h a
bind-Keeps uuid threw f h = tt
bind-Keeps uuid corrupt f h = tt

if-Keeps :
    (uuid : List ℕ) (b : Bool) (x y : Exec (Session × List Action))
    → Keeps uuid x
    → Keeps uuid y
    → Keeps uuid (if b then x else y)
if-Keeps uuid true x y h k = h
if-Keeps uuid false x y h k = k

pub handle_write-Keeps : (s : Session) (error : Bool) → Keeps s.uuid (handle_write s error)
unfolding handle_write close
handle_write-Keeps s true = (refl, refl)
handle_write-Keeps s false = bind-Keeps s.uuid (pop s.send_que) _ rest
  where
    rest :
        (que : List SendNode)
        → Keeps s.uuid (
            let s' = record s { send_que = que } in
            elim que [
              | [] ↦ ok (s', [])
              | node ∷ more ↦ (do acts ← write_front (node ∷ more); ok (s', acts))
            ])
    rest [] = (refl, refl)
    rest (n ∷ que) = write_front-Keeps s.uuid (record s { send_que = n ∷ que }) (n ∷ que) refl

enqueue-Keeps :
    (p : Platform) (s : Session) (msg : List ℕ) (len msg_id : ℕ)
    → Keeps s.uuid (enqueue p s msg len msg_id)
unfolding enqueue
enqueue-Keeps p s msg len msg_id =
    if-Keeps s.uuid (ltb max_send_queue (length s.send_que)) _ _ (refl, refl)
      (bind-Keeps s.uuid (new_send_node p msg len msg_id) _ (λ node.
        if-Keeps s.uuid (ltb 0 (length s.send_que)) _ _ (refl, refl)
          (write_front-Keeps s.uuid (record s { send_que = s.send_que ++ node ∷ [] })
            (s.send_que ++ node ∷ []) refl)))

pub send_string-Keeps :
    (p : Platform) (s : Session) (msg : List ℕ) (msg_id : ℕ)
    → Keeps s.uuid (send_string p s msg msg_id)
unfolding send_string
send_string-Keeps p s msg msg_id =
    enqueue-Keeps p s (msg ++ 0 ∷ []) (short_of_size (length msg)) msg_id
