-- ===== src/Plugins/Parts/Laws.antt =====
-- What each part is read from, and when reading raises.
use agentcook.Prelude.{
  ◌≡◌, ◌⊎◌, refl, ap, ◌∙◌, Bool, true, false, ◌&&◌, not, List, [], ◌∷◌, ◌++◌, Option, none, some,
  is_empty, any, inl, inr, Bool-cases, arith,
}
use agentcook.Prelude.Chars.{Chars, codes}
use agentcook.Skills.Frontmatter.{is_load_error, loaded, refused}
use agentcook.Skills.Manifest.{SkillEntry, load_skill_file}
use agentcook.Skills.Registry.{is_hidden}
use agentcook.Skills.Registry.Laws.{Loaded-cases, Loads, no_path, hidden, excluded, taken}
use agentcook.Plugins.Parts.{
  File, missing, malformed, no_access, undecodable, odd, json, PluginError, odd_value,
  unreadable_file, Attempt, success, failure, ◌>>=◌, or_default, RawManifest, PluginManifest,
  absent, missing_of, manifest_of, parse_manifest, value_of, RawModel, odd_model, model_of,
  model_spec, RawAgent, AgentStub, Child, stub, file_of, load_child, load_agents, load_skills,
}

pub Attempt-cases :
    {A : Type 0} (x : Attempt A)
    → ((a : A) × (x ≡ success a)) ⊎ ((e : PluginError) × (x ≡ failure e))
Attempt-cases (success a) = inl (a, refl)
Attempt-cases (failure e) = inr (e, refl)

-- A manifest that says what the object says, in which no required field is missing.
pub record IsOf (raw : RawManifest) (m : PluginManifest) : Type 0 where
  pub name : raw.name ≡ some m.name
  pub display_name : raw.display_name ≡ some m.display_name
  pub version : raw.version ≡ some m.version
  pub description : raw.description ≡ some m.description
  pub author : raw.author ≡ m.author
  pub category : raw.category ≡ m.category
  pub default_agent : raw.default_agent ≡ m.default_agent

absent-nil :
    (field : Chars) (v : Option Chars) (fields : List Chars)
    → is_empty (absent field v fields) ≡ true
    → (v ≡ some (value_of v)) × (is_empty fields ≡ true)
absent-nil field none fields h = absurd (ground (arith, h))
absent-nil field (some v) fields h = (refl, h)

all_present :
    (raw : RawManifest)
    → is_empty (missing_of raw) ≡ true
    → (raw.name ≡ some (value_of raw.name))
      × (raw.display_name ≡ some (value_of raw.display_name))
      × (raw.version ≡ some (value_of raw.version))
      × (raw.description ≡ some (value_of raw.description))
unfolding missing_of
all_present raw h =
    let (n, h1) = absent-nil _ raw.name _ h in
    let (d, h2) = absent-nil _ raw.display_name _ h1 in
    let (v, h3) = absent-nil _ raw.version _ h2 in
    let (t, h4) = absent-nil _ raw.description _ h3 in (n, d, v, t)

manifest_in : PluginManifest → Attempt PluginManifest → PluginManifest
manifest_in d (success m) = m
manifest_in d (failure e) = d

pub parse_manifest-IsOf :
    (file : File RawManifest) (m : PluginManifest)
    → parse_manifest file ≡ success m
    → (raw : RawManifest) × (file ≡ json raw) × IsOf raw m
unfolding parse_manifest manifest_of manifest_in
parse_manifest-IsOf missing m h = absurd (ground (arith, h))
parse_manifest-IsOf malformed m h = absurd (ground (arith, h))
parse_manifest-IsOf no_access m h = absurd (ground (arith, h))
parse_manifest-IsOf undecodable m h = absurd (ground (arith, h))
parse_manifest-IsOf odd m h = absurd (ground (arith, h))
parse_manifest-IsOf (json raw) m h = elim (Bool-cases (is_empty (missing_of raw))) [
  | inr e ↦ absurd (ground (arith, h, e))
  | inl e ↦
      let (n, d, v, t) = all_present raw e in
      let same = ap (manifest_in m) (rw e at h) in
      (
        raw,
        refl,
        record {
          name = n ∙ ap (λ m. some m.name) same;
          display_name = d ∙ ap (λ m. some m.display_name) same;
          version = v ∙ ap (λ m. some m.version) same;
          description = t ∙ ap (λ m. some m.description) same;
          author = ap (λ m. m.author) same;
          category = ap (λ m. m.category) same;
          default_agent = ap (λ m. m.default_agent) same;
        },
      )
]

pub parse_manifest_total :
    (raw : RawManifest)
    → missing_of raw ≡ []
    → (m : PluginManifest) × (parse_manifest (json raw) ≡ success m)
unfolding parse_manifest manifest_of
parse_manifest_total raw h = elim (Attempt-cases (parse_manifest (json raw))) [
  | inl returned ↦ returned
  | inr (e, r) ↦ absurd (ground (arith, (rw (h, parse_manifest, manifest_of) at r)))
]

abbrev model_error : Option RawModel → Option PluginError
model_error none = none
model_error (some odd_model) = some odd_value
model_error (some (model_of provider name)) = none

-- What a file raises, which is not skipped.
abbrev file_error : File RawAgent → Option PluginError
file_error missing = none
file_error malformed = none
file_error no_access = none
file_error undecodable = some unreadable_file
file_error odd = some odd_value
file_error (json raw) = model_error raw.model

abbrev or_else : Option PluginError → Option PluginError → Option PluginError
or_else none other = other
or_else (some e) other = some e

-- The error of the first child whose file raises one.
abbrev pub agents_error : List Child → Option PluginError
agents_error [] = none
agents_error (child ∷ children) = or_else (file_error (file_of child)) (agents_error children)

abbrev stub_in : Chars → RawAgent → Option RawModel → List AgentStub
stub_in name raw none = stub name raw (codes "openai", codes "gpt-4o") ∷ []
stub_in name raw (some odd_model) = []
stub_in name raw (some (model_of provider model)) =
    stub name raw (or_default (codes "openai") provider, or_default (codes "gpt-4o") model) ∷ []

-- The agents of a directory: those whose file is there and is JSON.
abbrev agent_in : Chars → File RawAgent → List AgentStub
agent_in name missing = []
agent_in name malformed = []
agent_in name no_access = []
agent_in name undecodable = []
agent_in name odd = []
agent_in name (json raw) = stub_in name raw raw.model

abbrev pub agents_in : List Child → List AgentStub
agents_in [] = []
agents_in (child ∷ children) = agent_in child.name (file_of child) ++ agents_in children

abbrev pub unless : Option PluginError → List AgentStub → Attempt (List AgentStub)
unless none agents = success agents
unless (some e) agents = failure e

stub-eq :
    (name : Chars) (raw : RawAgent) (model : Option RawModel) (error : Option PluginError)
    (agents : List AgentStub)
    → (do
      spec ← model_spec model
      others ← unless error agents
      success (stub name raw spec ∷ others))
      ≡ unless (or_else (model_error model) error) (stub_in name raw model ++ agents)
unfolding model_spec
stub-eq name raw none none agents = refl
stub-eq name raw none (some e) agents = refl
stub-eq name raw (some odd_model) error agents = refl
stub-eq name raw (some (model_of p n)) none agents = refl
stub-eq name raw (some (model_of p n)) (some e) agents = refl

load_child-eq :
    (name : Chars) (file : File RawAgent) (error : Option PluginError) (agents : List AgentStub)
    → load_child name file (unless error agents)
      ≡ unless (or_else (file_error file) error) (agent_in name file ++ agents)
unfolding load_child
load_child-eq name missing error agents = refl
load_child-eq name malformed error agents = refl
load_child-eq name no_access error agents = refl
load_child-eq name undecodable error agents = refl
load_child-eq name odd error agents = refl
load_child-eq name (json raw) error agents = stub-eq name raw raw.model error agents

-- Files that are missing, no JSON or not to be read are skipped; the first that is not in UTF-8, no
-- object, or has a model that is no object makes the whole loading raise.
pub load_agents-eq :
    (children : List Child)
    → load_agents children ≡ unless (agents_error children) (agents_in children)
unfolding load_agents
load_agents-eq [] = refl
load_agents-eq (child ∷ children) =
    ap (load_child child.name (file_of child)) (load_agents-eq children)
    ∙ load_child-eq child.name (file_of child) (agents_error children) (agents_in children)

module _ (read_text : Chars → Option Chars) where
  -- A path whose file is read, as its name is not hidden, and cannot be.
  abbrev pub is_unread : Chars × Chars → Bool
  is_unread (name, path) = not (is_hidden name) && elim (load_skill_file read_text path) [
    | loaded entry ↦ false
    | refused e ↦ not (is_load_error e)
  ]

  -- The skills of a directory are those of its files, or a file that cannot be read raises.
  pub load_skills-Loads :
      (paths : List (Chars × Chars))
      → ((entries : List SkillEntry) × (load_skills read_text paths ≡ success entries)
          × Loads read_text paths entries)
        ⊎ ((e : PluginError) × (load_skills read_text paths ≡ failure e)
            × (any is_unread paths ≡ true))
  unfolding load_skills
  load_skills-Loads [] = inl ([], refl, no_path)
  load_skills-Loads ((name, path) ∷ paths) = elim (Bool-cases (is_hidden name)) [
    | inl h ↦ elim (load_skills-Loads paths) [
      | inl (entries, s, l) ↦ inl (entries, (rw (h, load_skills) s), hidden h l)
      | inr (e, f, u) ↦ inr (e, (rw (h, load_skills) f), (rw h u))
    ]
    | inr h ↦ elim (Loaded-cases (load_skill_file read_text path)) [
      | inl (entry, x) ↦ elim (load_skills-Loads paths) [
        | inl (entries, s, l) ↦
            inl (entry ∷ entries, (rw (h, x, load_skills, s) refl), taken entry h x l)
        | inr (e, f, u) ↦ inr (e, (rw (h, x, load_skills, f) refl), (rw (h, x) u))
      ]
      | inr (r, x) ↦ elim (Bool-cases (is_load_error r)) [
        | inr y ↦ inr (unreadable_file, (rw (h, x, y, load_skills) refl), (rw (h, x, y) refl))
        | inl y ↦ elim (load_skills-Loads paths) [
          | inl (entries, s, l) ↦ inl (entries, (rw (h, x, y, load_skills) s), excluded r h x y l)
          | inr (e, f, u) ↦ inr (e, (rw (h, x, y, load_skills) f), (rw (h, x, y) u))
        ]
      ]
    ]
  ]
