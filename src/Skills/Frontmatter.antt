-- ===== src/Skills/Frontmatter.antt =====
-- `parse_frontmatter` of skill_loader.py.
pub mod Pieces
pub mod RoundTrip
use agentcook.Prelude.{
  ℕ, ◌+◌, Bool, true, false, not, ◌||◌, List, [], ◌∷◌, ◌++◌, Option, none, some, ◌==◌, is_empty,
  if◌then◌else◌,
}
use agentcook.Prelude.Chars.{Chars, codes, same, strip, strip_by, split, join, has}

-- A `SkillLoadError`: its reason, and the number of the line where it has one. `unreadable` stands for
-- the exceptions of a file that cannot be read or decoded, which are no `SkillLoadError`.
pub data LoadFailure : Type 0 where
  not_a_fence : Chars → ℕ → LoadFailure
  no_opening no_closing : LoadFailure
  not_a_pair : ℕ → Chars → LoadFailure
  no_name no_description unreadable : LoadFailure

abbrev pub is_load_error : LoadFailure → Bool
is_load_error (not_a_fence s n) = true
is_load_error no_opening = true
is_load_error no_closing = true
is_load_error (not_a_pair n s) = true
is_load_error no_name = true
is_load_error no_description = true
is_load_error unreadable = false

pub data Loaded {ℓ} (A : Type ℓ) : Type ℓ where
  loaded : A → Loaded A
  refused : LoadFailure → Loaded A

infixl 10 ◌>>=◌
abbrev pub ◌>>=◌ {ℓ κ} : {A : Type ℓ} {B : Type κ} → Loaded A → (A → Loaded B) → Loaded B
loaded a >>= f = f a
refused e >>= f = refused e

abbrev pub Fields : Type 0
Fields = List (Chars × Chars)

unfoldable pub get : Chars → Fields → Option Chars
get k [] = none
get k ((j, v) ∷ d) = let rest = get k d in if same j k then some v else rest

unfoldable pub put : Chars → Chars → Fields → Fields
put k v [] = (k, v) ∷ []
put k v ((j, w) ∷ d) = let rest = put k v d in if same j k then (j, v) ∷ d else (j, w) ∷ rest

abbrev pub newline : ℕ
newline = b'\n'

abbrev pub colon : ℕ
colon = b':'

abbrev pub fence : Chars
fence = b'-' ∷ b'-' ∷ b'-' ∷ []

-- The search for the opening fence: the lines behind it and the number of the first of them, where
-- `i` is the index of the first line given.
unfoldable pub find_opening : ℕ → List Chars → Loaded (ℕ × List Chars)
find_opening i [] = refused no_opening
find_opening i (line ∷ lines) =
    let rest = find_opening (i + 1) lines in
    if same (strip line) fence
    then loaded (i + 1, lines)
    else if not (is_empty (strip line))
    then refused (not_a_fence (strip line) (i + 1))
    else rest

-- The lines before the closing fence, and those behind it.
unfoldable pub find_closing : List Chars → Option (List Chars × List Chars)
find_closing [] = none
find_closing (line ∷ lines) =
    let rest = find_closing lines in
    if same (strip line) fence
    then some ([], lines)
    else elim rest [ none ↦ none | some (inside, after) ↦ some (line ∷ inside, after) ]

abbrev starts_hash : Chars → Bool
starts_hash [] = false
starts_hash (c ∷ s) = c == b'#'

-- `raw.partition(":")` where there is a colon.
unfoldable pub before_colon : Chars → Chars
before_colon [] = []
before_colon (c ∷ s) = let rest = before_colon s in if c == colon then [] else c ∷ rest

unfoldable pub after_colon : Chars → Chars
after_colon [] = []
after_colon (c ∷ s) = let rest = after_colon s in if c == colon then s else rest

-- `value.strip().strip('"').strip("'")`.
unfoldable pub clean_value : Chars → Chars
clean_value v = strip_by (λ c. c == b'\'') (strip_by (λ c. c == b'"') (strip v))

-- The loop over the lines between the fences.
unfoldable pub parse_pairs : ℕ → List Chars → Fields → Loaded Fields
parse_pairs i [] metadata = loaded metadata
parse_pairs i (line ∷ lines) metadata =
    let raw = strip line in
    let skip = parse_pairs (i + 1) lines metadata in
    let next =
      parse_pairs (i + 1) lines
        (put (strip (before_colon raw)) (clean_value (after_colon raw)) metadata) in
    if is_empty raw || starts_hash raw
    then skip
    else if not (has colon raw)
    then refused (not_a_pair (i + 1) raw)
    else next

abbrev pub closing : Option (List Chars × List Chars) → Loaded (List Chars × List Chars)
closing none = refused no_closing
closing (some found) = loaded found

unfoldable pub parse_frontmatter : Chars → Loaded (Fields × Chars)
parse_frontmatter text = do
  opened ← find_opening 0 (split newline text)
  closed ← closing (find_closing opened.1)
  metadata ← parse_pairs opened.0 closed.0 []
  loaded (metadata, strip (join newline closed.1))
