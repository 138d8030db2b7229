-- ===== src/Plugins/Loader/Laws.antt =====
-- What a loaded plugin is, and when loading raises.
use agentcook.Prelude.{
  ◌≡◌, refl, ap, subst, true, false, List, [], any, Option, none, inl, inr, Bool-cases,
  Option-cases, arith,
}
use agentcook.Prelude.Chars.{Chars}
use agentcook.Skills.Manifest.{SkillEntry}
use agentcook.Skills.Registry.Laws.{Loads}
use agentcook.Plugins.Parts.{
  json, Attempt, success, failure, RawManifest, PluginManifest, missing_of, parse_manifest,
  ConnectorStub, load_connectors,
}
use agentcook.Plugins.Parts.Laws.{
  Attempt-cases, IsOf, parse_manifest-IsOf, parse_manifest_total, agents_error, agents_in,
  load_agents-eq, is_unread, load_skills-Loads,
}
use agentcook.Plugins.Loader.{PluginEntry, Bundle, or_empty, load_bundle, load_plugin}

entry_in : PluginEntry → Attempt PluginEntry → PluginEntry
entry_in d (success entry) = entry
entry_in d (failure e) = d

module _ (read_text : Chars → Option Chars) where
  -- What a plugin that was loaded from a directory has.
  pub record IsLoaded (path : Chars) (bundle : Bundle) (entry : PluginEntry) : Type 0 where
    pub is_dir : bundle.is_dir ≡ true
    pub raw : RawManifest
    pub manifest_read : bundle.manifest ≡ json raw
    pub manifest_of : IsOf raw entry.manifest
    pub all_agents : agents_error (or_empty bundle.agents) ≡ none
    pub agents_of : entry.agents ≡ agents_in (or_empty bundle.agents)
    pub skills_of : Loads read_text (or_empty bundle.skills) entry.skills
    pub connectors_of : load_connectors bundle.connectors ≡ success entry.connectors
    pub from_path : entry.path ≡ path
    pub inactive : entry.activated ≡ false

  bundle-IsLoaded :
      (path : Chars) (bundle : Bundle) (manifest : PluginManifest) (skills : List SkillEntry)
      (connectors : List ConnectorStub)
      → bundle.is_dir ≡ true
      → parse_manifest bundle.manifest ≡ success manifest
      → agents_error (or_empty bundle.agents) ≡ none
      → Loads read_text (or_empty bundle.skills) skills
      → load_connectors bundle.connectors ≡ success connectors
      → IsLoaded path bundle (record {
        manifest = manifest;
        agents = agents_in (or_empty bundle.agents);
        skills = skills;
        connectors = connectors;
        path = path;
        activated = false;
      })
  bundle-IsLoaded path bundle manifest skills connectors d m a s c =
      let (raw, same, of_raw) = parse_manifest-IsOf bundle.manifest manifest m in
      record {
        is_dir = d;
        raw = raw;
        manifest_read = same;
        manifest_of = of_raw;
        all_agents = a;
        agents_of = refl;
        skills_of = s;
        connectors_of = c;
        from_path = refl;
        inactive = refl;
      }

  -- `load_plugin` returns only for a directory with a manifest that is an object with the required
  -- fields, whose agents, skills and connectors raise nothing. The plugin has the seven fields of the
  -- manifest, in their order the agents of all files that are there and are JSON, the skills of all
  -- files that no hidden name and no `SkillLoadError` excludes, and the connectors; it has the path
  -- and is not active.
  pub load_plugin-IsLoaded :
      (path : Chars) (bundle : Bundle) (entry : PluginEntry)
      → load_plugin read_text path bundle ≡ success entry
      → IsLoaded path bundle entry
  unfolding load_plugin load_bundle entry_in
  load_plugin-IsLoaded path bundle entry h = elim (Bool-cases bundle.is_dir) [
    | inr d ↦ absurd (ground (arith, h, d))
    | inl d ↦ elim (Attempt-cases (parse_manifest bundle.manifest)) [
      | inr (e, m) ↦ absurd (ground (arith, (rw (d, m) at h)))
      | inl (manifest, m) ↦
          let agents = load_agents-eq (or_empty bundle.agents) in
          elim (Option-cases (agents_error (or_empty bundle.agents))) [
            | inr (e, a) ↦ absurd (ground (arith, (rw (d, m, agents, a) at h)))
            | inl a ↦ elim (load_skills-Loads read_text (or_empty bundle.skills)) [
              | inr (e, s, u) ↦ absurd (ground (arith, (rw (d, m, agents, a, s) at h)))
              | inl (skills, s, l) ↦ elim (Attempt-cases (load_connectors bundle.connectors)) [
                | inr (e, c) ↦ absurd (ground (arith, (rw (d, m, agents, a, s, c) at h)))
                | inl (connectors, c) ↦
                    subst (IsLoaded path bundle)
                      (ap (entry_in entry) (rw (d, m, agents, a, s, c) at h))
                      (bundle-IsLoaded path bundle manifest skills connectors d m a l c)
              ]
            ]
          ]
    ]
  ]

  -- For a directory with a manifest in which no required field is missing, `load_plugin` returns if
  -- no agent file is outside UTF-8, no object or has a model that is no object, every skill file whose
  -- name is not hidden can be read, and the connectors load.
  pub load_plugin_total :
      (path : Chars) (bundle : Bundle) (raw : RawManifest) (connectors : List ConnectorStub)
      → bundle.is_dir ≡ true
      → bundle.manifest ≡ json raw
      → missing_of raw ≡ []
      → agents_error (or_empty bundle.agents) ≡ none
      → any (is_unread read_text) (or_empty bundle.skills) ≡ false
      → load_connectors bundle.connectors ≡ success connectors
      → (entry : PluginEntry) × (load_plugin read_text path bundle ≡ success entry)
  unfolding load_plugin load_bundle
  load_plugin_total path bundle raw connectors d j m a n c =
      let (manifest, p) = parse_manifest_total raw m in
      let agents = load_agents-eq (or_empty bundle.agents) in
      elim (load_skills-Loads read_text (or_empty bundle.skills)) [
        | inr (e, s, u) ↦ absurd (ground (arith, n, u))
        | inl (skills, s, l) ↦ elim (Attempt-cases (load_plugin read_text path bundle)) [
          | inl returned ↦ returned
          | inr (e, h) ↦ absurd (ground (arith, (rw (d, j, p, agents, a, s, c) at h)))
        ]
      ]
