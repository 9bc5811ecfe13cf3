-- ===== src/Main/Once.antt =====
-- Singleton::GetInstance, called again and again.
use async_echo_server.Base.{ap, ◌≡◌, refl, true, false, Option, none, some, List, [], ◌∷◌, map}
use async_echo_server.Main.{Singleton, get_instance}

abbrev pub unmade {ℓ} : {T : Type ℓ} → Singleton T
unmade = record { s_flag = false; instance_ = none }

-- The results of calls, one for each object that `new` would give.
unfoldable pub get_instances {ℓ} : {T : Type ℓ} → Singleton T → List T → List (Option T)
get_instances s [] = []
get_instances s (x ∷ xs) = let (s', r) = get_instance s x in r ∷ get_instances s' xs

made-get_instances {ℓ} :
    {T : Type ℓ} (o : Option T) (xs : List T)
    → get_instances (record { s_flag = true; instance_ = o }) xs ≡ map (λ x. o) xs
unfolding get_instances get_instance
made-get_instances o [] = refl
made-get_instances o (x ∷ xs) = ap (◌∷◌ o) (made-get_instances o xs)

-- However often GetInstance is called, every call returns the instance that the first call made.
pub get_instances-first {ℓ} :
    {T : Type ℓ} (x : T) (xs : List T) → get_instances unmade (x ∷ xs) ≡ map (λ y. some x) (x ∷ xs)
unfolding get_instances get_instance
get_instances-first x xs = ap (◌∷◌ (some x)) (made-get_instances (some x) xs)
