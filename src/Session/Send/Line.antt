-- ===== src/Session/Send/Line.antt =====
-- One session's outgoing line: the calls of `Send` from the logic thread and the completions of
-- `async_write` from Asio, in any order that Asio allows.
use async_echo_server.Base.{ℕ, ◌≡◌, Bool, true, false, List, [], ◌∷◌, ◌++◌, map, ok, length, drop}
use async_echo_server.Platform.{Platform}
use async_echo_server.MsgNode.{wire_bytes}
use async_echo_server.Session.{
  Session, Action, async_read, async_write, post_msg, close_socket, clear_session,
}
use async_echo_server.Session.Send.{send_chars, send_string, handle_write}

-- The writes that a handler starts.
unfoldable pub writes : List Action → List (List ℕ)
writes [] = []
writes (async_write bytes ∷ acts) = bytes ∷ writes acts
writes (async_read ∷ acts) = writes acts
writes (post_msg r ∷ acts) = writes acts
writes (close_socket ∷ acts) = writes acts
writes (clear_session ∷ acts) = writes acts

-- `writing` are the operations that Asio has not completed, `written` the buffers that it has
-- written, `accepted` the frames that `Send` has taken into its queue; a write has failed once
-- `broken` is set.
pub record Line : Type 0 where
  pub session : Session
  pub writing : List (List ℕ)
  pub written : List (List ℕ)
  pub accepted : List (List ℕ)
  pub broken : Bool

-- The frames that a call of `Send` has put behind the queue.
abbrev pub taken : Session → Session → List (List ℕ)
taken s s' = map wire_bytes (drop (length s.send_que) s'.send_que)

abbrev pub after_send : Line → Session → List Action → Line
after_send l s' acts = record l {
  session = s';
  writing = l.writing ++ writes acts;
  accepted = l.accepted ++ taken l.session s';
}

abbrev pub after_write : Line → Session → List Action → List ℕ → List (List ℕ) → Line
after_write l s' acts bytes rest = record l {
  session = s';
  writing = rest ++ writes acts;
  written = l.written ++ bytes ∷ [];
}

abbrev pub after_failure : Line → Session → List Action → List (List ℕ) → Line
after_failure l s' acts rest = record l {
  session = s';
  writing = rest ++ writes acts;
  broken = true;
}

-- `u` is what comes of `l`. A write completes only when one is under way.
pub data Step (p : Platform) (l : Line) (u : Line) : Type 0 where
  sends_string :
      (msg : List ℕ) (id : ℕ) (s' : Session) (acts : List Action)
      → send_string p l.session msg id ≡ ok (s', acts)
      → u ≡ after_send l s' acts
      → Step p l u
  sends_chars :
      (buffer : List ℕ) (len id : ℕ) (s' : Session) (acts : List Action)
      → send_chars p l.session buffer len id ≡ ok (s', acts)
      → u ≡ after_send l s' acts
      → Step p l u
  completes :
      (bytes : List ℕ) (rest : List (List ℕ)) (s' : Session) (acts : List Action)
      → l.writing ≡ bytes ∷ rest
      → handle_write l.session false ≡ ok (s', acts)
      → u ≡ after_write l s' acts bytes rest
      → Step p l u
  fails :
      (bytes : List ℕ) (rest : List (List ℕ)) (s' : Session) (acts : List Action)
      → l.writing ≡ bytes ∷ rest
      → handle_write l.session true ≡ ok (s', acts)
      → u ≡ after_failure l s' acts rest
      → Step p l u

-- A line that has just been opened.
pub record Opened (l : Line) : Type 0 where
  pub empty : l.session.send_que ≡ []
  pub idle : l.writing ≡ []
  pub nothing_written : l.written ≡ []
  pub nothing_accepted : l.accepted ≡ []
  pub sound : l.broken ≡ false

pub data Reach (p : Platform) (l : Line) : Line → Type 0 where
  here : Reach p l l
  next : {t u : Line} → Reach p l t → Step p t u → Reach p l u
