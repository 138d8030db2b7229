-- ===== src/Skills/Registry/Laws.antt =====
-- What the registry holds, also after a conflict.
use mathlib.Core.List.{append_assoc, append-nil}
use agentcook.Prelude.{
  ◌≡◌, ◌⊎◌, refl, ap, sym, ◌∙◌, true, false, List, [], ◌∷◌, ◌++◌, Option, none, some, map, inl, inr,
  Bool-cases, Option-cases, arith,
}
use agentcook.Prelude.Chars.{Chars, same, same_iff}
use agentcook.Skills.Frontmatter.{LoadFailure, is_load_error, Loaded, loaded, refused}
use agentcook.Skills.Manifest.{SkillEntry, load_skill_file}
use agentcook.Skills.Registry.{SkillRegistry, get, register, is_hidden, register_paths}

-- Each skill stands under its name, and no name stands twice.
abbrev pub IsKeyed : SkillRegistry → Type 0
IsKeyed [] = Unit
IsKeyed ((k, e) ∷ r) = (k ≡ e.manifest.name) × (get k r ≡ none) × IsKeyed r

abbrev pub keyed : SkillEntry → Chars × SkillEntry
keyed e = (e.manifest.name, e)

get-append :
    (k j : Chars) (e : SkillEntry) (r : SkillRegistry)
    → get k r ≡ none
    → same j k ≡ false
    → get k (r ++ (j, e) ∷ []) ≡ none
unfolding get
get-append k j e [] h ne = ground (arith, ne)
get-append k j e ((i, x) ∷ r) h ne = ground (arith, h, get-append k j e r)

same_sym : (j k : Chars) → same k j ≡ false → same j k ≡ false
same_sym j k h = elim (Bool-cases (same j k)) [
  | inr e ↦ e
  | inl e ↦ absurd (ground (arith, h, (same_iff k j).1 (sym ((same_iff j k).0 e))))
]

append-IsKeyed :
    (e : SkillEntry) (r : SkillRegistry)
    → get e.manifest.name r ≡ none
    → IsKeyed r
    → IsKeyed (r ++ keyed e ∷ [])
append-IsKeyed e [] h u = (refl, unfold get in refl, tt)
append-IsKeyed e ((k, x) ∷ r) h (named, new, u) = elim (Bool-cases (same k e.manifest.name)) [
  | inl s ↦ absurd (unfold get in ground (arith, h, s))
  | inr s ↦ (
    named,
    get-append k e.manifest.name e r new (same_sym e.manifest.name k s),
    append-IsKeyed e r (unfold get in ground (arith, h, s)) u,
  )
]

register-eq :
    (e : SkillEntry) (r r' : SkillRegistry)
    → register e r ≡ some r'
    → (get e.manifest.name r ≡ none) × (r' ≡ r ++ keyed e ∷ [])
unfolding register
register-eq e r r' h = elim (Option-cases (get e.manifest.name r)) [
  | inl x ↦ (x, ground (arith, h, x))
  | inr (f, x) ↦ absurd (ground (arith, h, x))
]

pub Loaded-cases :
    {A : Type 0} (x : Loaded A) → ((a : A) × (x ≡ loaded a)) ⊎ ((e : LoadFailure) × (x ≡ refused e))
Loaded-cases (loaded a) = inl (a, refl)
Loaded-cases (refused e) = inr (e, refl)

module _ (read_text : Chars → Option Chars) where
  -- The skills of a list of paths, each with its file name: those of the files that are not hidden and
  -- that no `SkillLoadError` excludes, in their order.
  pub data Loads : List (Chars × Chars) → List SkillEntry → Type 0 where
    no_path : Loads [] []
    hidden :
        {name path : Chars} {paths : List (Chars × Chars)} {entries : List SkillEntry}
        → is_hidden name ≡ true
        → Loads paths entries
        → Loads ((name, path) ∷ paths) entries
    excluded :
        {name path : Chars} {paths : List (Chars × Chars)} {entries : List SkillEntry}
        (e : LoadFailure)
        → is_hidden name ≡ false
        → load_skill_file read_text path ≡ refused e
        → is_load_error e ≡ true
        → Loads paths entries
        → Loads ((name, path) ∷ paths) entries
    taken :
        {name path : Chars} {paths : List (Chars × Chars)} {entries : List SkillEntry}
        (entry : SkillEntry)
        → is_hidden name ≡ false
        → load_skill_file read_text path ≡ loaded entry
        → Loads paths entries
        → Loads ((name, path) ∷ paths) (entry ∷ entries)

  -- Why the scan stops at a path: its file cannot be read, or its skill has a name that is taken.
  pub data Stops (path : Chars) (r : SkillRegistry) : Type 0 where
    unread :
        (e : LoadFailure)
        → load_skill_file read_text path ≡ refused e
        → is_load_error e ≡ false
        → Stops path r
    conflict :
        (entry old : SkillEntry)
        → load_skill_file read_text path ≡ loaded entry
        → get entry.manifest.name r ≡ some old
        → Stops path r

  -- How a scan ends, which began with `registered`: it went through all paths, or stopped at one.
  pub data Ends (paths : List (Chars × Chars)) (r : SkillRegistry) (registered : List SkillEntry)
      (result : Option (List SkillEntry) × SkillRegistry) : Type 0 where
    complete :
        (added : List SkillEntry)
        → Loads paths added
        → result.0 ≡ some (registered ++ added)
        → result.1 ≡ r ++ map keyed added
        → Ends paths r registered result
    stopped :
        (before after : List (Chars × Chars)) (name path : Chars) (added : List SkillEntry)
        → paths ≡ before ++ (name, path) ∷ after
        → Loads before added
        → is_hidden name ≡ false
        → Stops path result.1
        → result.0 ≡ none
        → result.1 ≡ r ++ map keyed added
        → Ends paths r registered result

  module _ (p : Chars × Chars) (paths : List (Chars × Chars)) (r : SkillRegistry)
      (registered : List SkillEntry) (result : Option (List SkillEntry) × SkillRegistry) where
    Ends-skip :
        ((ps : List (Chars × Chars)) (es : List SkillEntry) → Loads ps es → Loads (p ∷ ps) es)
        → Ends paths r registered result
        → Ends (p ∷ paths) r registered result
    Ends-skip step (complete added l a g) = complete added (step paths added l) a g
    Ends-skip step (stopped before rest name path added s l h why a g) =
        stopped (p ∷ before) rest name path added (ap (λ ps. p ∷ ps) s) (step before added l) h why
          a g

    Ends-take :
        (entry : SkillEntry)
        → ((ps : List (Chars × Chars)) (es : List SkillEntry)
            → Loads ps es
            → Loads (p ∷ ps) (entry ∷ es))
        → Ends paths (r ++ keyed entry ∷ []) (registered ++ entry ∷ []) result
        → Ends (p ∷ paths) r registered result
    Ends-take entry step (complete added l a g) =
        complete (entry ∷ added) (step paths added l)
          (a ∙ ap some (append_assoc registered (entry ∷ []) added))
          (g ∙ append_assoc r (keyed entry ∷ []) (map keyed added))
    Ends-take entry step (stopped before rest name path added s l h why a g) =
        stopped (p ∷ before) rest name path (entry ∷ added) (ap (λ ps. p ∷ ps) s)
          (step before added l) h why a (g ∙ append_assoc r (keyed entry ∷ []) (map keyed added))

  register_paths-Ends :
      (paths : List (Chars × Chars)) (r : SkillRegistry) (registered : List SkillEntry)
      → IsKeyed r
      → Ends paths r registered (register_paths read_text paths r registered)
        × IsKeyed (register_paths read_text paths r registered).1
  unfolding register_paths register
  register_paths-Ends [] r registered u =
      (complete [] no_path (ap some (sym (append-nil registered))) (sym (append-nil r)), u)
  register_paths-Ends ((name, path) ∷ paths) r registered u = elim (Bool-cases (is_hidden name)) [
    | inl h ↦
        let (ends, u') = register_paths-Ends paths r registered u in
        rw (h, register_paths)
          (Ends-skip (name, path) paths r registered _ (λ ps es l. hidden h l) ends, u')
    | inr h ↦ elim (Loaded-cases (load_skill_file read_text path)) [
      | inr (e, x) ↦ elim (Bool-cases (is_load_error e)) [
        | inl y ↦
            let (ends, u') = register_paths-Ends paths r registered u in
            rw (h, x, y, register_paths)
              (Ends-skip (name, path) paths r registered _ (λ ps es l. excluded e h x y l) ends, u')
        | inr y ↦
            rw (h, x, y, register_paths)
              (
                stopped [] paths name path [] refl no_path h (unread e x y) refl
                    (sym (append-nil r)),
                u,
              )
      ]
      | inl (entry, x) ↦ elim (Option-cases (get entry.manifest.name r)) [
        | inr (old, taken_name) ↦
            rw (h, x, register_paths, register, taken_name)
              (
                stopped [] paths name path [] refl no_path h (conflict entry old x taken_name) refl
                    (sym (append-nil r)),
                u,
              )
        | inl new ↦
            let (ends, u') =
              register_paths-Ends paths (r ++ keyed entry ∷ []) (registered ++ entry ∷ [])
                (append-IsKeyed entry r new u) in
            rw (h, x, register_paths, register, new)
              (
                Ends-take (name, path) paths r registered _ entry (λ ps es l. taken entry h x l)
                    ends,
                u',
              )
      ]
    ]
  ]

  -- `register_directory` on a registry in which every skill stands under its name and no name twice
  -- leaves such a registry. Either it answers with the skills of all the paths, which stand at the end
  -- of the registry, in their order; or it raises at a path whose file cannot be read or whose skill
  -- has a name that is taken, and then just the skills of the paths before it stand at the end.
  pub register_directory-IsKeyed :
      (paths : List (Chars × Chars)) (r : SkillRegistry)
      → IsKeyed r
      → Ends paths r [] (register_paths read_text paths r [])
        × IsKeyed (register_paths read_text paths r []).1
  register_directory-IsKeyed paths r u = register_paths-Ends paths r [] u
