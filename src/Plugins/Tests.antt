-- ===== src/Plugins/Tests.antt =====
-- A bundle that is loaded, and the theorems at that.
use agentcook.Prelude.{◌≡◌, refl, true, false, List, [], ◌∷◌, Option, none, some, if◌then◌else◌}
use agentcook.Prelude.Chars.{
  Chars, codes, same, strip_by, strip_left, strip_right, split, join, has,
}
use agentcook.Skills.Frontmatter.{
  put, find_opening, find_closing, parse_pairs, before_colon, after_colon, clean_value,
  parse_frontmatter,
}
use agentcook.Skills.Manifest.{manifest_from_frontmatter, load_skill_file}
use agentcook.Plugins.Parts.{
  malformed, odd, json, success, failure, already_registered, RawManifest, missing_of, manifest_of,
  parse_manifest, model_of, model_spec, RawAgent, Child, load_child, load_agents, RawConnector,
  kind_named, connectors_of, load_connectors, load_skills,
}
use agentcook.Plugins.Loader.{PluginEntry, Bundle, load_bundle, load_plugin, activate, deactivate}
use agentcook.Plugins.Loader.Laws.{IsLoaded, load_plugin-IsLoaded, load_plugin_total}
use agentcook.Plugins.Registry.{PluginRegistry, get, register}

abbrev raw : RawManifest
raw = record {
  name = some (codes "sums");
  display_name = some (codes "Sums");
  version = some (codes "1.0.0");
  description = some (codes "adds");
  author = none;
  category = none;
  default_agent = some (codes "adder");
}

abbrev raw_agent : RawAgent
raw_agent = record {
  name = none;
  description = none;
  model = some (model_of none (some (codes "qwen-plus")));
}

abbrev children : List Child
children =
    record { name = codes "adder"; is_dir = true; agent_json = json raw_agent }
    ∷ record { name = codes "broken"; is_dir = true; agent_json = malformed }
    ∷ record { name = codes "notes"; is_dir = false; agent_json = odd }
    ∷ []

abbrev connectors : List (Option RawConnector)
connectors =
    some (record { name = some (codes "crm"); kind = some (codes "oauth"); config = none })
    ∷ some (record { name = none; kind = some (codes "grpc"); config = none })
    ∷ []

abbrev bundle : Bundle
bundle = record {
  is_dir = true;
  manifest = json raw;
  agents = some children;
  skills = some (
      (codes "_draft.md", codes "/p/skills/_draft.md")
      ∷ (codes "add.md", codes "/p/skills/add.md")
      ∷ (codes "empty.md", codes "/p/skills/empty.md")
      ∷ []);
  connectors = json connectors;
}

abbrev skill_text : Chars
skill_text = codes "---\nname: add\ndescription: adds\n---\nAdd."

-- Of the three skill files one has a hidden name and another no opening fence.
abbrev read_text : Chars → Option Chars
read_text path = if same path (codes "/p/skills/add.md") then some skill_text else some []

abbrev loaded_entry : PluginEntry
loaded_entry = record {
  manifest = record {
    name = codes "sums";
    display_name = codes "Sums";
    version = codes "1.0.0";
    description = codes "adds";
    author = none;
    category = none;
    default_agent = some (codes "adder");
  };
  agents =
      record {
        name = codes "adder";
        description = [];
        model_provider = codes "openai";
        model_name = codes "qwen-plus";
      }
      ∷ [];
  skills =
      record {
        manifest = record {
          name = codes "add";
          description = codes "adds";
          version = codes "0.0.0";
        };
        path = codes "/p/skills/add.md";
        body_cache = none;
      }
      ∷ [];
  connectors =
      record { name = codes "crm"; kind = agentcook.Connectors.Adapter.oauth; config = [] }
      ∷ record { name = codes "unnamed"; kind = agentcook.Connectors.Adapter.custom; config = [] }
      ∷ [];
  path = codes "/p";
  activated = false;
}

load_plugin_run : load_plugin read_text (codes "/p") bundle ≡ success loaded_entry
unfolding load_plugin load_bundle parse_manifest manifest_of missing_of load_agents load_child
    load_connectors connectors_of kind_named load_skills same model_spec load_skill_file
    manifest_from_frontmatter parse_frontmatter find_opening find_closing parse_pairs before_colon
    after_colon clean_value split join has strip_by strip_left strip_right
    agentcook.Skills.Frontmatter.get put
load_plugin_run = refl

load_plugin-IsLoaded_example : IsLoaded read_text (codes "/p") bundle loaded_entry
load_plugin-IsLoaded_example =
    load_plugin-IsLoaded read_text (codes "/p") bundle loaded_entry load_plugin_run

load_plugin_total_example :
    (entry : PluginEntry) × (load_plugin read_text (codes "/p") bundle ≡ success entry)
load_plugin_total_example =
    load_plugin_total read_text (codes "/p") bundle raw loaded_entry.connectors refl refl
      (unfold missing_of in refl) refl
      (unfold load_skill_file manifest_from_frontmatter parse_frontmatter find_opening find_closing
          parse_pairs before_colon after_colon clean_value split join has same strip_by strip_left
          strip_right agentcook.Skills.Frontmatter.get put in
        refl)
      (unfold load_connectors connectors_of kind_named same in refl)

activate_run : deactivate (activate loaded_entry) ≡ loaded_entry
unfolding activate deactivate
activate_run = refl

abbrev registered : PluginRegistry
registered = (codes "sums", loaded_entry) ∷ []

register_run : register loaded_entry registered ≡ failure (already_registered (codes "sums"))
unfolding register get same
register_run = refl
