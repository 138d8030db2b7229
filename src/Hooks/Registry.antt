-- ===== src/Hooks/Registry.antt =====
-- `HookRegistry` of hook_runtime.py.
pub mod Laws
use agentcook.Prelude.{
  String, ℕ, ◌+◌, ◌-◌, Bool, not, List, [], ◌∷◌, ◌++◌, Option, none, some, map, length, keep_if,
  str_eq, if◌then◌else◌,
}
use agentcook.Prelude.Dict
use agentcook.Prelude.Dict.{Dict}
use agentcook.Hooks.Context.{HookEvent, event_value, Hook}

module _ (Output World : Type 0) where
  -- The dict of events is keyed by the values of the enum.
  pub record HookRegistry : Type 0 where
    pub hooks : Dict (List (Hook Output World))
    pub global_hooks : List (Hook Output World)

  abbrev pub hooks_at : HookEvent → HookRegistry → List (Hook Output World)
  hooks_at event r = elim (Dict.get (event_value event) r.hooks) [ none ↦ [] | some hs ↦ hs ]

  unfoldable pub register : HookEvent → Hook Output World → Bool → HookRegistry → HookRegistry
  register event hook global_hook r =
      if global_hook
      then record r { global_hooks = r.global_hooks ++ hook ∷ [] }
      else record r { hooks = Dict.put (event_value event) (hooks_at event r ++ hook ∷ []) r.hooks }

  abbrev pub without : String → List (Hook Output World) → List (Hook Output World)
  without name hooks = keep_if (λ h. not (str_eq h.name name)) hooks

  -- The loop over the dict of `unregister`.
  unfoldable pub remove_named :
      String → Dict (List (Hook Output World)) → ℕ × Dict (List (Hook Output World))
  remove_named name [] = (0, [])
  remove_named name ((event, hooks) ∷ d) =
      let (removed, d') = remove_named name d in
      (length hooks - length (without name hooks) + removed, (event, without name hooks) ∷ d')

  unfoldable pub unregister : String → HookRegistry → ℕ × HookRegistry
  unregister name r =
      let (removed, hooks') = remove_named name r.hooks in
      let global' = without name r.global_hooks in
      (
        removed + (length r.global_hooks - length global'),
        record { hooks = hooks'; global_hooks = global' },
      )

  unfoldable pub get_hooks : HookEvent → HookRegistry → List (Hook Output World)
  get_hooks event r = r.global_hooks ++ hooks_at event r

  unfoldable pub count_hooks : Dict (List (Hook Output World)) → ℕ
  count_hooks [] = 0
  count_hooks ((event, hooks) ∷ d) = length hooks + count_hooks d

  unfoldable pub total_hooks : HookRegistry → ℕ
  total_hooks r = length r.global_hooks + count_hooks r.hooks

  unfoldable pub clear : HookRegistry → HookRegistry
  clear r = record { hooks = []; global_hooks = [] }
