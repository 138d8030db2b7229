-- ===== src/Skills/Manifest.antt =====
-- `SkillManifest`, `manifest_from_frontmatter`, `SkillEntry` and `load_skill_file` of
-- skill_loader.py. A path is a text, and `read_text` of it an argument, none where it raises.
pub mod Laws
use agentcook.Prelude.{Bool, Option, none, some, is_empty, if◌then◌else◌}
use agentcook.Prelude.Chars.{Chars, codes}
use agentcook.Skills.Frontmatter.{
  LoadFailure, no_name, no_description, unreadable, Loaded, loaded, refused, ◌>>=◌, Fields, get,
  parse_frontmatter,
}

pub record SkillManifest : Type 0 where
  pub name : Chars
  pub description : Chars
  pub version : Chars

-- A required field, which may not be empty.
abbrev pub required : LoadFailure → Option Chars → Loaded Chars
required e none = refused e
required e (some v) = if is_empty v then refused e else loaded v

abbrev or_default : Chars → Option Chars → Chars
or_default d none = d
or_default d (some v) = v

unfoldable pub manifest_from_frontmatter : Fields → Loaded SkillManifest
manifest_from_frontmatter metadata = do
  name ← required no_name (get (codes "name") metadata)
  description ← required no_description (get (codes "description") metadata)
  loaded (record {
    name = name;
    description = description;
    version = or_default (codes "0.0.0") (get (codes "version") metadata);
  })

pub record SkillEntry : Type 0 where
  pub manifest : SkillManifest
  pub path : Chars
  pub body_cache : Option Chars

abbrev pub file_text : Option Chars → Loaded Chars
file_text none = refused unreadable
file_text (some text) = loaded text

module _ (read_text : Chars → Option Chars) where
  unfoldable pub load_skill_file : Chars → Loaded SkillEntry
  load_skill_file path = do
    text ← file_text (read_text path)
    parsed ← parse_frontmatter text
    manifest ← manifest_from_frontmatter parsed.0
    loaded (record { manifest = manifest; path = path; body_cache = none })

  -- `SkillEntry.load`: the body, and the entry with its cache.
  unfoldable pub load : SkillEntry → Loaded (Chars × SkillEntry)
  load entry = elim entry.body_cache [
    | some body ↦ loaded (body, entry)
    | none ↦ (do
      text ← file_text (read_text entry.path)
      parsed ← parse_frontmatter text
      loaded (parsed.1, record entry { body_cache = some parsed.1 }))
  ]
