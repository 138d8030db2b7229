-- ===== src/Skills/Registry.antt =====
-- `SkillRegistry` of skill_loader.py.
pub mod Laws
use agentcook.Prelude.{
  ℕ, Bool, true, false, ◌||◌, List, [], ◌∷◌, ◌++◌, Option, none, some, map, length, ◌==◌,
  if◌then◌else◌,
}
use agentcook.Prelude.Chars.{Chars, same}
use agentcook.Skills.Frontmatter.{is_load_error, Loaded, loaded, refused}
use agentcook.Skills.Manifest.{SkillEntry, load_skill_file}

-- The dict, in insertion order: names are the keys.
abbrev pub SkillRegistry : Type 0
SkillRegistry = List (Chars × SkillEntry)

unfoldable pub get : Chars → SkillRegistry → Option SkillEntry
get k [] = none
get k ((j, e) ∷ r) = let rest = get k r in if same j k then some e else rest

abbrev pub is_in : Chars → SkillRegistry → Bool
is_in name r = elim (get name r) [ none ↦ false | some e ↦ true ]

abbrev pub list_skills : SkillRegistry → List SkillEntry
list_skills r = map (λ e. e.1) r

-- A `SkillConflictError` names the skill and the two paths; it is none here. The new key goes to the
-- end of the dict.
unfoldable pub register : SkillEntry → SkillRegistry → Option SkillRegistry
register entry r =
    if is_in entry.manifest.name r then none else some (r ++ (entry.manifest.name, entry) ∷ [])

abbrev pub is_hidden : Chars → Bool
is_hidden [] = false
is_hidden (c ∷ s) = c == b'_' || c == b'.'

-- The loop of `register_directory` over the sorted paths, each with its file name. The answer is none
-- where a conflict raises, or a file that cannot be read; the registry keeps what was registered before.
unfoldable pub register_paths :
    (Chars → Option Chars)
    → List (Chars × Chars)
    → SkillRegistry
    → List SkillEntry
    → Option (List SkillEntry) × SkillRegistry
register_paths read_text [] r registered = (some registered, r)
register_paths read_text ((name, path) ∷ paths) r registered =
    let skip = register_paths read_text paths r registered in
    if is_hidden name then skip else elim (load_skill_file read_text path) [
      | refused e ↦ if is_load_error e then skip else (none, r)
      | loaded entry ↦ elim (register entry r) [
        | none ↦ (none, r)
        | some r' ↦ register_paths read_text paths r' (registered ++ entry ∷ [])
      ]
    ]

-- `register_directory`; a directory that is missing raises before this.
abbrev pub register_directory :
    (Chars → Option Chars)
    → List (Chars × Chars)
    → SkillRegistry
    → Option (List SkillEntry) × SkillRegistry
register_directory read_text paths r = register_paths read_text paths r []

abbrev pub clear : SkillRegistry → SkillRegistry
clear r = []
