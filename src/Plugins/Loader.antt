-- ===== src/Plugins/Loader.antt =====
-- `PluginEntry` and `load_plugin`. The runner of the sandbox, which is only stored, is left out.
pub mod Laws
use agentcook.Prelude.{Bool, true, false, List, [], Option, none, some, if◌then◌else◌}
use agentcook.Prelude.Chars.{Chars}
use agentcook.Skills.Manifest.{SkillEntry}
use agentcook.Plugins.Parts.{
  File, no_directory, Attempt, success, failure, ◌>>=◌, RawManifest, PluginManifest, parse_manifest,
  AgentStub, Child, load_agents, RawConnector, ConnectorStub, load_connectors, load_skills,
}

pub record PluginEntry : Type 0 where
  pub manifest : PluginManifest
  pub agents : List AgentStub
  pub skills : List SkillEntry
  pub connectors : List ConnectorStub
  pub path : Chars
  pub activated : Bool

-- What is read of a directory; `agents` and `skills` are none where they are no directories.
pub record Bundle : Type 0 where
  pub is_dir : Bool
  pub manifest : File RawManifest
  pub agents : Option (List Child)
  pub skills : Option (List (Chars × Chars))
  pub connectors : File (List (Option RawConnector))

abbrev pub or_empty : {A : Type 0} → Option (List A) → List A
or_empty none = []
or_empty (some xs) = xs

module _ (read_text : Chars → Option Chars) where
  unfoldable pub load_bundle : Chars → Bundle → Attempt PluginEntry
  load_bundle path bundle = do
    manifest ← parse_manifest bundle.manifest
    agents ← load_agents (or_empty bundle.agents)
    skills ← load_skills read_text (or_empty bundle.skills)
    connectors ← load_connectors bundle.connectors
    success (record {
      manifest = manifest;
      agents = agents;
      skills = skills;
      connectors = connectors;
      path = path;
      activated = false;
    })

  unfoldable pub load_plugin : Chars → Bundle → Attempt PluginEntry
  load_plugin path bundle = if bundle.is_dir then load_bundle path bundle else failure no_directory

unfoldable pub activate : PluginEntry → PluginEntry
activate entry = if entry.activated then entry else record entry { activated = true }

unfoldable pub deactivate : PluginEntry → PluginEntry
deactivate entry = if entry.activated then record entry { activated = false } else entry
