-- ===== src/Prelude/Results.antt =====
-- Code that may raise returns a `Result`. An exception is its class and its message.
use Prim.Native.String.{String}
use mathlib.Core.Path.{◌≡◌, refl}
use mathlib.Core.Logic.{◌≢◌}

pub data Error : Type 0 where
  value_error runtime_error index_error key_error type_error router_error memory_error re_error :
      String → Error

pub data Result {ℓ} (A : Type ℓ) : Type ℓ where
  ok : A → Result A
  raise : Error → Result A

infixl 10 ◌>>=◌
abbrev pub ◌>>=◌ {ℓ κ} : {A : Type ℓ} {B : Type κ} → Result A → (A → Result B) → Result B
ok a >>= f = f a
raise e >>= f = raise e

-- What never raises returns.
pub ok_of_ne_raise {ℓ} :
    {A : Type ℓ} (r : Result A) → ((e : Error) → r ≢ raise e) → (a : A) × (r ≡ ok a)
ok_of_ne_raise (ok a) h = (a, refl)
ok_of_ne_raise (raise e) h = absurd (h e refl)
