-- ===== src/Base/Faults.antt =====
-- What a run of C++ code comes to: a value, an exception, or an access outside its object.
use mathlib.Core.Path.{◌≡◌, refl}
use mathlib.Core.Logic.{◌⊎◌, inl, inr}

-- `threw` is an exception: `std::bad_array_new_length` from a `new char[n]` with a negative `n`,
-- `std::system_error` from the join of a thread that is not joinable, or that of a read from a
-- connection that has ended. `corrupt` is a read or a write outside of the array that it names, or
-- through a null pointer.
pub data Exec {ℓ} (A : Type ℓ) : Type ℓ where
  ok : A → Exec A
  threw : Exec A
  corrupt : Exec A

infixl 5 ◌>>=◌
abbrev pub ◌>>=◌ {ℓ κ} : {A : Type ℓ} {B : Type κ} → Exec A → (A → Exec B) → Exec B
ok a >>= f = f a
threw >>= f = threw
corrupt >>= f = corrupt

pub Exec-cases {ℓ} :
    {A : Type ℓ} (e : Exec A) → ((a : A) × (e ≡ ok a)) ⊎ ((e ≡ threw) ⊎ (e ≡ corrupt))
Exec-cases (ok a) = inl (a, refl)
Exec-cases threw = inr (inl refl)
Exec-cases corrupt = inr (inr refl)
