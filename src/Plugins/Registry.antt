-- ===== src/Plugins/Registry.antt =====
-- `PluginRegistry`: a dict from names to entries, in insertion order.
pub mod Laws
use agentcook.Prelude.{
  ℕ, Bool, true, false, List, [], ◌∷◌, ◌++◌, Option, none, some, map, length, if◌then◌else◌,
}
use agentcook.Prelude.Chars.{Chars, same}
use agentcook.Plugins.Parts.{Attempt, success, failure, already_registered}
use agentcook.Plugins.Loader.{PluginEntry}

abbrev pub PluginRegistry : Type 0
PluginRegistry = List (Chars × PluginEntry)

unfoldable pub get : Chars → PluginRegistry → Option PluginEntry
get k [] = none
get k ((j, e) ∷ r) = let rest = get k r in if same j k then some e else rest

unfoldable pub register : PluginEntry → PluginRegistry → Attempt PluginRegistry
register entry r = elim (get entry.manifest.name r) [
  | some e ↦ failure (already_registered entry.manifest.name)
  | none ↦ success (r ++ (entry.manifest.name, entry) ∷ [])
]

abbrev pub list_plugins : PluginRegistry → List PluginEntry
list_plugins r = map (λ e. e.1) r

abbrev pub size : PluginRegistry → ℕ
size r = length r

abbrev pub clear : PluginRegistry → PluginRegistry
clear r = []
