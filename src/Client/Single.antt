-- ===== src/Client/Single.antt =====
-- json-Client-multi-thread/main.cpp: a client that makes one request.
use async_echo_server.Base.{
  ℕ, ◌≡◌, ap, inl, inr, List, [], ◌∷◌, append-nil, Exec, Exec-cases, ok, ◌>>=◌,
}
use async_echo_server.Platform.{Platform}
use async_echo_server.Client.{LowFirst, hello_id, send_request, read_reply, talk}

module _ (p : Platform) (m : LowFirst p) where
  -- The reply, what was written, and what is left of the stream.
  unfoldable pub exchange : List ℕ → List ℕ → Exec ((ℕ × List ℕ) × List ℕ × List ℕ)
  unfolding send_request read_reply
  exchange request stream = do
    sent ← send_request p m hello_id request
    (msgid, msg, rest) ← read_reply p m stream
    ok ((msgid, msg), sent, rest)

  -- The client does what a thread of json-Client does in a last round, errors included.
  pub exchange-talk :
      (request stream : List ℕ)
      → talk p m 1 request stream
        ≡ (do (reply, sent, rest) ← exchange request stream; ok (reply ∷ [], sent, rest))
  unfolding exchange talk
  exchange-talk request stream = elim (Exec-cases (send_request p m hello_id request)) [
    | inl (sent, e) ↦ elim (Exec-cases (read_reply p m stream)) [
      | inl (r, f) ↦ rw (e, f) (ap (λ k. ok ((r.0, r.1) ∷ [], k, r.2)) (append-nil sent))
      | inr (inl f) ↦ rw (e, f)
      | inr (inr f) ↦ rw (e, f)
    ]
    | inr (inl e) ↦ rw e
    | inr (inr e) ↦ rw e
  ]
