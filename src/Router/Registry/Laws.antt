-- ===== src/Router/Registry/Laws.antt =====
-- The registry as a map from names, and the invariant that a model stands under its own name.
use agentcook.Prelude.{
  String, List, [], ◌∷◌, none, some, arith, ◌≡◌, refl, str_eq, eq_iff, if◌then◌else◌, All,
}
use agentcook.Prelude.Dict
use agentcook.Prelude.Dict.{get-put, get-remove}
use agentcook.Router.Registry.{ModelConfig, ModelRegistry, register, unregister, get, clear}

-- Every model stands under its name.
abbrev pub IsKeyed : {Float : Type 0} → List (String × ModelConfig Float) → Type 0
IsKeyed models = All (λ e. e.1.name ≡ e.0) models

module _ {Float : Type 0} where
  -- A lookup after `register` and `unregister`: the name that was written or removed gives the new
  -- model or none, and every other name what it gave before.
  pub get-register-unregister :
      (config : ModelConfig Float) (name other : String) (models : ModelRegistry Float)
      → (get other (register config models)
          ≡ (if str_eq config.name other then some config else get other models))
        × (get other (unregister name models).1
            ≡ (if str_eq name other then none else get other models))
        × ((unregister name models).0 ≡ get name models)
  unfolding get register unregister
  get-register-unregister config name other models =
      (get-put config.name other config models, get-remove name other models, refl)

  register-IsKeyed :
      (config : ModelConfig Float) (models : ModelRegistry Float)
      → IsKeyed models
      → IsKeyed (register config models)
  unfolding register Dict.put
  register-IsKeyed config [] h = (refl, tt)
  register-IsKeyed config ((k, m) ∷ rest) h =
      ground (arith, register-IsKeyed config rest h.1, eq_iff k config.name)

  unregister-IsKeyed :
      (name : String) (models : ModelRegistry Float)
      → IsKeyed models
      → IsKeyed (unregister name models).1
  unfolding unregister Dict.remove
  unregister-IsKeyed name [] h = tt
  unregister-IsKeyed name ((k, m) ∷ rest) h = ground (arith, unregister-IsKeyed name rest h.1)

  get-IsKeyed :
      (name : String) (models : ModelRegistry Float) (m : ModelConfig Float)
      → IsKeyed models
      → get name models ≡ some m
      → m.name ≡ name
  unfolding get Dict.get
  get-IsKeyed name [] m h e = absurd (ground arith)
  get-IsKeyed name ((k, m') ∷ rest) m h e =
      ground (arith, get-IsKeyed name rest m h.1, eq_iff k name)

-- The registries that a sequence of calls can lead to.
pub data Reachable {Float : Type 0} : ModelRegistry Float → Type 0 where
  fresh : Reachable []
  registered :
      {models : ModelRegistry Float} (config : ModelConfig Float)
      → Reachable models
      → Reachable (register config models)
  unregistered :
      {models : ModelRegistry Float} (name : String)
      → Reachable models
      → Reachable (unregister name models).1
  cleared : {models : ModelRegistry Float} → Reachable models → Reachable (clear models)

Reachable-IsKeyed :
    {Float : Type 0} {models : ModelRegistry Float} → Reachable models → IsKeyed models
unfolding clear
Reachable-IsKeyed fresh = tt
Reachable-IsKeyed (registered {models = ms} config r) =
    register-IsKeyed config ms (Reachable-IsKeyed r)
Reachable-IsKeyed (unregistered {models = ms} name r) =
    unregister-IsKeyed name ms (Reachable-IsKeyed r)
Reachable-IsKeyed (cleared r) = tt

-- After any sequence of `register`, `unregister` and `clear`, the model that `get` finds under a name
-- has that name.
pub name-get :
    {Float : Type 0} {models : ModelRegistry Float} (name : String) (m : ModelConfig Float)
    → Reachable models
    → get name models ≡ some m
    → m.name ≡ name
name-get {models} name m r e = get-IsKeyed name models m (Reachable-IsKeyed r) e
