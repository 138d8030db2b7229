-- ===== src/Skills/Manifest/Laws.antt =====
-- Loading a skill, and its body.
use agentcook.Prelude.{
  ◌≡◌, refl, ap, sym, ◌∙◌, false, Option, none, some, is_empty, inl, inr, ◌⊎◌, Bool-cases,
  Option-cases, arith,
}
use agentcook.Prelude.Chars.{Chars, codes}
use agentcook.Skills.Frontmatter.{
  LoadFailure, no_name, no_description, Loaded, loaded, refused, Fields, get, parse_frontmatter,
}
use agentcook.Skills.Manifest.{
  SkillManifest, required, manifest_from_frontmatter, SkillEntry, load_skill_file, load,
}

module _ (read_text : Chars → Option Chars) where
  Loaded-cases :
      {A : Type 0} (r : Loaded A)
      → ((a : A) × (r ≡ loaded a)) ⊎ ((e : LoadFailure) × (r ≡ refused e))
  Loaded-cases (loaded a) = inl (a, refl)
  Loaded-cases (refused e) = inr (e, refl)

  required-loaded :
      (e : LoadFailure) (o : Option Chars) (v : Chars)
      → required e o ≡ loaded v
      → (o ≡ some v) × (is_empty v ≡ false)
  required-loaded e none v h = absurd (ground (arith, h))
  required-loaded e (some w) v h = elim (Bool-cases (is_empty w)) [
    | inl x ↦ absurd (ground (arith, h, x))
    | inr x ↦ (ground (arith, h, x), ground (arith, h, x))
  ]

  manifest-eq :
      (metadata : Fields) (m : SkillManifest)
      → manifest_from_frontmatter metadata ≡ loaded m
      → (get (codes "name") metadata ≡ some m.name)
        × (is_empty m.name ≡ false)
        × (get (codes "description") metadata ≡ some m.description)
        × (is_empty m.description ≡ false)
  unfolding manifest_from_frontmatter
  manifest-eq metadata m h = elim (Loaded-cases (required no_name (get (codes "name") metadata))) [
    | inr (e, x) ↦ absurd (ground (arith, h, x))
    | inl (n, x) ↦
        elim (Loaded-cases (required no_description (get (codes "description") metadata))) [
          | inr (e, y) ↦ absurd (ground (arith, h, x, y))
          | inl (d, y) ↦
              let (name, ne) = required-loaded no_name _ n x in
              let (desc, de) = required-loaded no_description _ d y in
              (
                ground (arith, h, x, y, name),
                ground (arith, h, x, y, ne),
                ground (arith, h, x, y, desc),
                ground (arith, h, x, y, de),
              )
        ]
  ]

  -- A skill that `load_skill_file` loads has the name and the description of its frontmatter, neither
  -- of them empty. While the file stays as it is, `load` of it gives the body, and gives the same
  -- again, with no change to the entry, when it is called on the entry that it left behind.
  pub load_skill_file-load :
      (path : Chars) (entry : SkillEntry)
      → load_skill_file read_text path ≡ loaded entry
      → (text : Chars) × (metadata : Fields) × (body : Chars) × (read_text path ≡ some text)
        × (parse_frontmatter text ≡ loaded (metadata, body))
        × (get (codes "name") metadata ≡ some entry.manifest.name)
        × (is_empty entry.manifest.name ≡ false)
        × (get (codes "description") metadata ≡ some entry.manifest.description)
        × (is_empty entry.manifest.description ≡ false)
        × (load read_text entry ≡ loaded (body, record entry { body_cache = some body }))
        × (load read_text (record entry { body_cache = some body })
            ≡ loaded (body, record entry { body_cache = some body }))
  unfolding load_skill_file load
  load_skill_file-load path entry h = elim (Option-cases (read_text path)) [
    | inl f ↦ absurd (ground (arith, (rw (f, load_skill_file) at h)))
    | inr (text, f) ↦ elim (Loaded-cases (parse_frontmatter text)) [
      | inr (e, x) ↦ absurd (ground (arith, h, f, x))
      | inl ((metadata, body), x) ↦ elim (Loaded-cases (manifest_from_frontmatter metadata)) [
        | inr (e, y) ↦ absurd (ground (arith, h, f, x, y))
        | inl (m, y) ↦
            let made : record { manifest = m; path = path; body_cache = none } ≡ entry =
              ground (arith, h, f, x, y) in
            let named = manifest-eq metadata m y in
            (
              text,
              metadata,
              body,
              f,
              x,
              named.0 ∙ ap (λ e. some e.manifest.name) made,
              ap (λ e. is_empty e.manifest.name) (sym made) ∙ named.1,
              named.2 ∙ ap (λ e. some e.manifest.description) made,
              ap (λ e. is_empty e.manifest.description) (sym made) ∙ named.3,
              rw (← made) (ground (arith, f, x)),
              refl,
            )
      ]
    ]
  ]
