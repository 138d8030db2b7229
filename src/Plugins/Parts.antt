-- ===== src/Plugins/Parts.antt =====
-- The parts of a plugin: `parse_manifest`, `_load_agents`, `_load_connectors`, `_load_skills`. Of a JSON
-- object the keys that are read stand as optional values of the type that the format gives them.
pub mod Laws
use agentcook.Prelude.{
  ℕ, Bool, true, false, List, [], ◌∷◌, ◌++◌, Option, none, some, is_empty, if◌then◌else◌,
}
use agentcook.Prelude.Chars.{Chars, codes, same}
use agentcook.Connectors.Adapter.{ConnectorKind, mcp, oauth, http, custom, webhook}
use agentcook.Skills.Frontmatter.{is_load_error, loaded, refused}
use agentcook.Skills.Manifest.{SkillEntry, load_skill_file}
use agentcook.Skills.Registry.{is_hidden}

-- A file of JSON: not there, no JSON (a JSONDecodeError), not to be read (an OSError), not in UTF-8 (a
-- UnicodeDecodeError), a JSON value of another shape than is meant, or one of that shape.
pub data File (A : Type 0) : Type 0 where
  missing malformed no_access undecodable odd : File A
  json : A → File A

-- What is raised; `odd_value` is the exception that a value of another shape leads to: an
-- AttributeError, a TypeError, or for a manifest that is a list or a text mostly the PluginManifestError
-- of the fields that it does not have. `unreadable_file` is the OSError or UnicodeDecodeError of a file that cannot be read.
pub data PluginError : Type 0 where
  no_directory no_manifest bad_manifest odd_value unreadable_file : PluginError
  missing_fields : List Chars → PluginError
  already_registered : Chars → PluginError

pub data Attempt {ℓ} (A : Type ℓ) : Type ℓ where
  success : A → Attempt A
  failure : PluginError → Attempt A

infixl 10 ◌>>=◌
abbrev pub ◌>>=◌ {ℓ κ} : {A : Type ℓ} {B : Type κ} → Attempt A → (A → Attempt B) → Attempt B
success a >>= f = f a
failure e >>= f = failure e

pub record RawManifest : Type 0 where
  pub name : Option Chars
  pub display_name : Option Chars
  pub version : Option Chars
  pub description : Option Chars
  pub author : Option Chars
  pub category : Option Chars
  pub default_agent : Option Chars

pub record PluginManifest : Type 0 where
  pub name : Chars
  pub display_name : Chars
  pub version : Chars
  pub description : Chars
  pub author : Option Chars
  pub category : Option Chars
  pub default_agent : Option Chars

abbrev pub absent : Chars → Option Chars → List Chars → List Chars
absent field none fields = field ∷ fields
absent field (some v) fields = fields

-- The required fields that are missing.
unfoldable pub missing_of : RawManifest → List Chars
missing_of raw = absent (codes "name") raw.name (
    absent (codes "display_name") raw.display_name
      (absent (codes "version") raw.version (absent (codes "description") raw.description [])))

abbrev pub value_of : Option Chars → Chars
value_of none = []
value_of (some v) = v

unfoldable pub manifest_of : RawManifest → Attempt PluginManifest
manifest_of raw =
    if is_empty (missing_of raw)
    then success (record {
      name = value_of raw.name;
      display_name = value_of raw.display_name;
      version = value_of raw.version;
      description = value_of raw.description;
      author = raw.author;
      category = raw.category;
      default_agent = raw.default_agent;
    })
    else failure (missing_fields (missing_of raw))

unfoldable pub parse_manifest : File RawManifest → Attempt PluginManifest
parse_manifest missing = failure no_manifest
parse_manifest malformed = failure bad_manifest
parse_manifest no_access = failure unreadable_file
parse_manifest undecodable = failure unreadable_file
parse_manifest odd = failure odd_value
parse_manifest (json raw) = manifest_of raw

-- `d.get(key, default)`.
abbrev pub or_default : {A : Type 0} → A → Option A → A
or_default d none = d
or_default d (some a) = a

-- The value of the key `model`: no object, or an object with its keys `provider` and `name`.
pub data RawModel : Type 0 where
  odd_model : RawModel
  model_of : Option Chars → Option Chars → RawModel

pub record RawAgent : Type 0 where
  pub name : Option Chars
  pub description : Option Chars
  pub model : Option RawModel

pub record AgentStub : Type 0 where
  pub name : Chars
  pub description : Chars
  pub model_provider : Chars
  pub model_name : Chars

-- A child of the directory `agents`, in sorted order.
pub record Child : Type 0 where
  pub name : Chars
  pub is_dir : Bool
  pub agent_json : File RawAgent

-- The provider and the name of `raw.get("model", {})`.
unfoldable pub model_spec : Option RawModel → Attempt (Chars × Chars)
model_spec none = success (codes "openai", codes "gpt-4o")
model_spec (some odd_model) = failure odd_value
model_spec (some (model_of provider name)) =
    success (or_default (codes "openai") provider, or_default (codes "gpt-4o") name)

abbrev pub stub : Chars → RawAgent → Chars × Chars → AgentStub
stub child_name raw model = record {
  name = or_default child_name raw.name;
  description = or_default [] raw.description;
  model_provider = model.0;
  model_name = model.1;
}

abbrev pub file_of : Child → File RawAgent
file_of child = if child.is_dir then child.agent_json else missing

-- One turn of the loop, with what the turns after it come to.
unfoldable pub load_child :
    Chars → File RawAgent → Attempt (List AgentStub) → Attempt (List AgentStub)
load_child name missing rest = rest
load_child name malformed rest = rest
load_child name no_access rest = rest
load_child name undecodable rest = failure unreadable_file
load_child name odd rest = failure odd_value
load_child name (json raw) rest = do
  model ← model_spec raw.model
  agents ← rest
  success (stub name raw model ∷ agents)

unfoldable pub load_agents : List Child → Attempt (List AgentStub)
load_agents [] = success []
load_agents (child ∷ children) =
    let rest = load_agents children in load_child child.name (file_of child) rest

pub record RawConnector : Type 0 where
  pub name : Option Chars
  pub kind : Option Chars
  pub config : Option (List (Chars × Chars))

pub record ConnectorStub : Type 0 where
  pub name : Chars
  pub kind : ConnectorKind
  pub config : List (Chars × Chars)

-- `ConnectorKind(text)`, with `CUSTOM` where that raises a ValueError.
unfoldable pub kind_named : Chars → ConnectorKind
kind_named text =
    if same text (codes "mcp")
    then mcp
    else if same text (codes "oauth")
    then oauth
    else if same text (codes "http")
    then http
    else if same text (codes "webhook")
    then webhook
    else custom

-- An entry is none where it is no object.
unfoldable pub connectors_of : List (Option RawConnector) → Attempt (List ConnectorStub)
connectors_of [] = success []
connectors_of (none ∷ entries) = failure odd_value
connectors_of (some entry ∷ entries) = do
  stubs ← connectors_of entries
  success (
      record {
        name = or_default (codes "unnamed") entry.name;
        kind = kind_named (or_default (codes "custom") entry.kind);
        config = or_default [] entry.config;
      }
      ∷ stubs)

-- The entries are those of a list, or of the key `connectors` of an object, which may be missing.
unfoldable pub load_connectors : File (List (Option RawConnector)) → Attempt (List ConnectorStub)
load_connectors missing = success []
load_connectors malformed = success []
load_connectors no_access = success []
load_connectors undecodable = failure unreadable_file
load_connectors odd = failure odd_value
load_connectors (json entries) = connectors_of entries

-- The sorted paths of the markdown files, each with its name. A `SkillLoadError` skips the file; that a
-- file cannot be read is no such error.
unfoldable pub load_skills :
    (Chars → Option Chars) → List (Chars × Chars) → Attempt (List SkillEntry)
load_skills read_text [] = success []
load_skills read_text ((name, path) ∷ paths) =
    let rest = load_skills read_text paths in
    if is_hidden name then rest else elim (load_skill_file read_text path) [
      | loaded entry ↦ (do entries ← rest; success (entry ∷ entries))
      | refused e ↦ if is_load_error e then rest else failure unreadable_file
    ]
