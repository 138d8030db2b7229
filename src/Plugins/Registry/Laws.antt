-- ===== src/Plugins/Registry/Laws.antt =====
-- Which plugin a name has.
use agentcook.Prelude.{
  ◌≡◌, ◌⊎◌, refl, sym, ◌∙◌, true, false, [], ◌∷◌, ◌++◌, none, some, if◌then◌else◌, inl, inr,
  Bool-cases, Option-cases, arith,
}
use agentcook.Prelude.Chars.{Chars, same, same_iff}
use agentcook.Plugins.Parts.{Attempt, success, failure, already_registered}
use agentcook.Plugins.Loader.{PluginEntry}
use agentcook.Plugins.Registry.{PluginRegistry, get, register}

other : (j i k : Chars) → same i j ≡ false → same i k ≡ true → same j k ≡ false
other j i k t s = elim (Bool-cases (same j k)) [
  | inr e ↦ e
  | inl e ↦
      absurd (ground (arith, t, (same_iff i j).1 ((same_iff i k).0 s ∙ sym ((same_iff j k).0 e))))
]

-- What a name has behind a new entry, whose name is new.
get-append :
    (k j : Chars) (e : PluginEntry) (r : PluginRegistry)
    → get j r ≡ none
    → get k (r ++ (j, e) ∷ []) ≡ (if same j k then some e else get k r)
unfolding get
get-append k j e [] h = refl
get-append k j e ((i, x) ∷ r) h = elim (Bool-cases (same i j)) [
  | inl t ↦ absurd (ground (arith, h, t))
  | inr t ↦ elim (Bool-cases (same i k)) [
    | inl s ↦ rw (s, other j i k t s) refl
    | inr s ↦ rw s (get-append k j e r (ground (arith, h, t)))
  ]
]

registry_in : PluginRegistry → Attempt PluginRegistry → PluginRegistry
registry_in d (success r) = r
registry_in d (failure e) = d

-- `register` either refuses a name that is taken, or gives it the new plugin, and every other name
-- what it had.
pub get-register :
    (e : PluginEntry) (r : PluginRegistry) (k : Chars)
    → ((old : PluginEntry) × (get e.manifest.name r ≡ some old)
        × (register e r ≡ failure (already_registered e.manifest.name)))
      ⊎ ((r' : PluginRegistry) × (register e r ≡ success r')
          × (get k r' ≡ (if same e.manifest.name k then some e else get k r)))
unfolding register
get-register e r k = elim (Option-cases (get e.manifest.name r)) [
  | inr (old, h) ↦ inl (old, h, rw (h, register) refl)
  | inl h ↦
      inr
        (r ++ (e.manifest.name, e) ∷ [], rw (h, register) refl, get-append k e.manifest.name e r h)
]
