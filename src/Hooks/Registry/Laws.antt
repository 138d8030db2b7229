-- ===== src/Hooks/Registry/Laws.antt =====
-- What removing hooks by name does.
use agentcook.Prelude.{
  String, ◌+◌, ◌≤◌, ◌≡◌, refl, ap, sym, ◌∙◌, Bool, not, List, [], ◌∷◌, ◌++◌, Option, none, some,
  length, keep_if, str_eq, inl, inr, Bool-cases, arith,
}
use agentcook.Prelude.Dict
use agentcook.Prelude.Dict.{Dict}
use agentcook.Hooks.Context.{HookEvent, event_value, Hook}
use agentcook.Hooks.Registry.{
  HookRegistry, hooks_at, without, remove_named, unregister, get_hooks, count_hooks, total_hooks,
}

length-keep_if : {A : Type 0} (p : A → Bool) (xs : List A) → length (keep_if p xs) ≤ length xs
length-keep_if p [] = omega arith
length-keep_if p (x ∷ xs) = ground (arith, length-keep_if p xs)

keep_if-append :
    {A : Type 0} (p : A → Bool) (xs ys : List A)
    → keep_if p (xs ++ ys) ≡ keep_if p xs ++ keep_if p ys
keep_if-append p [] ys = refl
keep_if-append p (x ∷ xs) ys = ground (arith, keep_if-append p xs ys)

module _ {Output World : Type 0} (name : String) where
  abbrev kept : List (Hook Output World) → List (Hook Output World)
  kept = without Output World name

  abbrev kept? : Option (List (Hook Output World)) → List (Hook Output World)
  kept? none = []
  kept? (some hooks) = kept hooks

  abbrev found : Option (List (Hook Output World)) → List (Hook Output World)
  found none = []
  found (some hooks) = hooks

  count_hooks-remove_named :
      (d : Dict (List (Hook Output World)))
      → (remove_named Output World name d).0
          + count_hooks Output World (remove_named Output World name d).1
        ≡ count_hooks Output World d
  unfolding remove_named count_hooks
  count_hooks-remove_named [] = refl
  count_hooks-remove_named ((event, hooks) ∷ d) =
      omega
        (arith, count_hooks-remove_named d, length-keep_if (λ h. not (str_eq h.name name)) hooks)

  found-remove_named :
      (key : String) (d : Dict (List (Hook Output World)))
      → found (Dict.get key (remove_named Output World name d).1) ≡ kept? (Dict.get key d)
  unfolding remove_named Dict.get
  found-remove_named key [] = refl
  found-remove_named key ((event, hooks) ∷ d) = elim (Bool-cases (str_eq event key)) [
    | inl e ↦ rw e refl
    | inr e ↦ rw e (found-remove_named key d)
  ]

  found-eq : (o : Option (List (Hook Output World))) → kept? o ≡ kept (found o)
  found-eq none = refl
  found-eq (some hooks) = refl

  -- After `unregister` every event has the hooks that it had, less those with the name and in their
  -- order; the answer is the number of hooks that are gone from the registry.
  pub get_hooks-unregister :
      (event : HookEvent) (r : HookRegistry Output World)
      → (get_hooks Output World event (unregister Output World name r).1
          ≡ without Output World name (get_hooks Output World event r))
        × ((unregister Output World name r).0
              + total_hooks Output World (unregister Output World name r).1
            ≡ total_hooks Output World r)
  unfolding get_hooks unregister total_hooks
  get_hooks-unregister event r = (
    ap (λ hs. kept r.global_hooks ++ hs)
          (found-remove_named (event_value event) r.hooks
            ∙ found-eq (Dict.get (event_value event) r.hooks))
        ∙ sym (
            keep_if-append (λ h. not (str_eq h.name name)) r.global_hooks
              (hooks_at Output World event r)),
    omega (
      arith,
      count_hooks-remove_named r.hooks,
      length-keep_if (λ h. not (str_eq h.name name)) r.global_hooks,
    ),
  )
