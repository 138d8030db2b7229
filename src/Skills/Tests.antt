-- ===== src/Skills/Tests.antt =====
-- A skill file, parsed and registered, and the theorems at that.
use agentcook.Prelude.{◌≡◌, refl, List, [], ◌∷◌, Option, none, some}
use agentcook.Prelude.Chars.{
  Chars, codes, same, strip_by, strip_left, strip_right, split, join, has,
}
use agentcook.Skills.Frontmatter.{
  loaded, Fields, get, put, find_opening, find_closing, parse_pairs, before_colon, after_colon,
  clean_value, parse_frontmatter,
}
use agentcook.Skills.Frontmatter.Pieces.{IsPair}
use agentcook.Skills.Frontmatter.RoundTrip.{render, parse_frontmatter-render}
use agentcook.Skills.Manifest.{SkillEntry, manifest_from_frontmatter, load_skill_file}
use agentcook.Skills.Registry.{register, register_paths}
use agentcook.Skills.Registry.Laws.{IsKeyed, Ends, register_directory-IsKeyed}

abbrev fields : Fields
fields = (codes "name", codes "sum") ∷ (codes "description", codes "adds: two") ∷ []

abbrev body : Chars
body = codes "Add them."

name-IsPair : IsPair (codes "name", codes "sum")
unfolding has strip_by strip_left strip_right clean_value
name-IsPair = record {
  initial = b'n';
  others = codes "ame";
  key_eq = refl;
  no_space = refl;
  no_comment = refl;
  key_line = refl;
  key_colon = refl;
  key_strip = refl;
  value_line = refl;
  value_end = refl;
  value_clean = refl;
}

description-IsPair : IsPair (codes "description", codes "adds: two")
unfolding has strip_by strip_left strip_right clean_value
description-IsPair = record {
  initial = b'd';
  others = codes "escription";
  key_eq = refl;
  no_space = refl;
  no_comment = refl;
  key_line = refl;
  key_colon = refl;
  key_strip = refl;
  value_line = refl;
  value_end = refl;
  value_clean = refl;
}

parse_frontmatter-render_example : parse_frontmatter (render fields body) ≡ loaded (fields, body)
parse_frontmatter-render_example =
    parse_frontmatter-render fields body (name-IsPair, (description-IsPair, tt))
      (unfold get same in (refl, (refl, tt))) (unfold strip_by strip_left strip_right in refl)

-- Every path has this file.
abbrev file : Chars
file = codes "\n---\n# a skill\nname: 'sum'\ndescription: adds\n---\n\nAdd them.\n"

abbrev read_text : Chars → Option Chars
read_text path = some file

abbrev entry : SkillEntry
entry = record {
  manifest = record { name = codes "sum"; description = codes "adds"; version = codes "0.0.0" };
  path = codes "a.md";
  body_cache = none;
}

load_skill_file_run : load_skill_file read_text (codes "a.md") ≡ loaded entry
unfolding load_skill_file manifest_from_frontmatter parse_frontmatter find_opening find_closing
    parse_pairs before_colon after_colon clean_value split join has same strip_by strip_left
    strip_right get put
load_skill_file_run = refl

-- Two files with the same name: the second is a conflict, and the first stays.
abbrev paths : List (Chars × Chars)
paths = (codes "a.md", codes "a.md") ∷ (codes "b.md", codes "b.md") ∷ []

register_directory_run : register_paths read_text paths [] [] ≡ (none, (codes "sum", entry) ∷ [])
unfolding register_paths register load_skill_file manifest_from_frontmatter parse_frontmatter
    find_opening find_closing parse_pairs before_colon after_colon clean_value split join has same
    strip_by strip_left strip_right get put agentcook.Skills.Registry.get
register_directory_run = refl

register_directory-IsKeyed_example :
    Ends read_text paths [] [] (register_paths read_text paths [] [])
    × IsKeyed (register_paths read_text paths [] []).1
register_directory-IsKeyed_example = register_directory-IsKeyed read_text paths [] tt
