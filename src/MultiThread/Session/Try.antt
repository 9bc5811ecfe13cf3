-- ===== src/MultiThread/Session/Try.antt =====
-- The body of a `try` block that changes the session: an exception leaves the session as it is at that
-- point, and the `catch` block goes on with it.
use async_echo_server.Base.{◌≡◌, refl, Bool, true, false, Exec, ok, threw, corrupt, if◌then◌else◌}
use async_echo_server.Base as Base
use async_echo_server.Session.{Session}

pub data Try {ℓ} (A : Type ℓ) : Type ℓ where
  done : A → Try A
  raised : Session → Try A
  faulty : Try A

infixl 5 ◌>>=◌
abbrev pub ◌>>=◌ {ℓ κ} : {A : Type ℓ} {B : Type κ} → Try A → (A → Try B) → Try B
done a >>= f = f a
raised s >>= f = raised s
faulty >>= f = faulty

-- A call that may throw, made while the session is s.
abbrev pub attempt {ℓ} : {A : Type ℓ} → Session → Exec A → Try A
attempt s (ok a) = done a
attempt s threw = raised s
attempt s corrupt = faulty

-- The same run without the `catch`.
abbrev pub uncaught {ℓ} : {A : Type ℓ} → Try A → Exec A
uncaught (done a) = ok a
uncaught (raised s) = threw
uncaught faulty = corrupt

pub uncaught-attempt {ℓ κ} :
    {A : Type ℓ} {B : Type κ} (s : Session) (e : Exec A) (f : A → Try B) (g : A → Exec B)
    → ((a : A) → uncaught (f a) ≡ g a)
    → uncaught (attempt s e >>= f) ≡ Base.◌>>=◌ e g
uncaught-attempt s (ok a) f g h = h a
uncaught-attempt s threw f g h = refl
uncaught-attempt s corrupt f g h = refl

pub uncaught-if {ℓ} :
    {A : Type ℓ} (b : Bool) (x y : Try A) (x' y' : Exec A)
    → uncaught x ≡ x'
    → uncaught y ≡ y'
    → uncaught (if b then x else y) ≡ (if b then x' else y')
uncaught-if true x y x' y' h k = h
uncaught-if false x y x' y' h k = k
