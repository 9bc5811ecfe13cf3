-- ===== src/Server/Sessions.antt =====
-- The laws of the map of sessions.
use async_echo_server.Base.{ℕ, ◌≡◌, refl, true, false, none, some, List, [], ◌∷◌, arith, eq_true}
use async_echo_server.Base.{same}
use async_echo_server.Server.{find_session, insert_session, erase_session}

pub same_refl : (u : List ℕ) → same u u ≡ true
unfolding same
same_refl [] = refl
same_refl (a ∷ xs) = rw (eq_true a a refl) (same_refl xs)

pub find_session-erase_session :
    (u : List ℕ) (m : List (List ℕ × List ℕ)) → find_session u (erase_session u m) ≡ none
unfolding find_session erase_session
find_session-erase_session u [] = refl
find_session-erase_session u ((k, s) ∷ m) = ground (arith, find_session-erase_session u m)

-- An entry that is not there does not appear.
pub erase_session-absent :
    (u v : List ℕ) (m : List (List ℕ × List ℕ))
    → find_session u m ≡ none
    → find_session u (erase_session v m) ≡ none
unfolding find_session erase_session
erase_session-absent u v [] e = refl
erase_session-absent u v ((k, s) ∷ m) e = ground (arith, erase_session-absent u v m)

pub find_session-insert_session :
    (u v w : List ℕ) (m : List (List ℕ × List ℕ))
    → same u v ≡ false
    → find_session u m ≡ none
    → find_session u (insert_session v w m) ≡ none
unfolding find_session insert_session
find_session-insert_session u v w [] d e = rw d
find_session-insert_session u v w ((k, s) ∷ m) d e =
    ground (arith, find_session-insert_session u v w m d)

-- The session that is accepted is found.
pub insert_session-found :
    (u w : List ℕ) (m : List (List ℕ × List ℕ))
    → find_session u m ≡ none
    → find_session u (insert_session u w m) ≡ some w
unfolding find_session insert_session
insert_session-found u w [] e = rw (same_refl u)
insert_session-found u w ((k, s) ∷ m) e = ground (arith, insert_session-found u w m)
