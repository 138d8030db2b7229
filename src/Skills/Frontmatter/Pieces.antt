-- ===== src/Skills/Frontmatter/Pieces.antt =====
-- What the parser makes of one line, and of the lines between the fences.
use mathlib.Core.List.{append_assoc, append-nil}
use agentcook.Prelude.{
  ℕ, ◌+◌, ◌≡◌, refl, ap, sym, ◌∙◌, true, false, ◌||◌, List, [], ◌∷◌, ◌++◌, none, some, map, All,
  ◌==◌, arith, inl, inr, Bool-cases,
}
use agentcook.Prelude.Chars.{
  Chars, same, same_iff, is_space, strip, strip_by, strip_left, strip_right, strip_right-append,
  has,
}
use agentcook.Skills.Frontmatter.{
  Fields, get, put, newline, colon, fence, find_closing, before_colon, after_colon, clean_value,
  parse_pairs, loaded,
}

-- A pair that can stand on a line of its own and is read back as it is: no line break, no colon in the
-- key, a key that is stripped and no comment, and a value that stripping leaves alone.
pub record IsPair (pair : Chars × Chars) : Type 0 where
  pub initial : ℕ
  pub others : Chars
  pub key_eq : pair.0 ≡ initial ∷ others
  pub no_space : is_space initial ≡ false
  pub no_comment : (initial == b'#') ≡ false
  pub key_line : has newline pair.0 ≡ false
  pub key_colon : has colon pair.0 ≡ false
  pub key_strip : strip pair.0 ≡ pair.0
  pub value_line : has newline pair.1 ≡ false
  pub value_end : strip_right is_space pair.1 ≡ pair.1
  pub value_clean : clean_value pair.1 ≡ pair.1

abbrev pub pair_line : Chars × Chars → Chars
pair_line pair = pair.0 ++ colon ∷ pair.1

pub has-append : (sep : ℕ) (s t : Chars) → has sep (s ++ t) ≡ (has sep s || has sep t)
unfolding has
has-append sep [] t = refl
has-append sep (c ∷ s) t = ground (arith, has-append sep s t)

pub has-colon : (pair : Chars × Chars) → has colon (pair_line pair) ≡ true
unfolding has
has-colon pair = ground (arith, has-append colon pair.0 (colon ∷ pair.1))

before_colon-append : (k v : Chars) → has colon k ≡ false → before_colon (k ++ colon ∷ v) ≡ k
unfolding before_colon has
before_colon-append [] v h = refl
before_colon-append (c ∷ k) v h = ground (arith, before_colon-append k v)

after_colon-append : (k v : Chars) → has colon k ≡ false → after_colon (k ++ colon ∷ v) ≡ v
unfolding after_colon has
after_colon-append [] v h = refl
after_colon-append (c ∷ k) v h = ground (arith, after_colon-append k v)

strip_line :
    (c : ℕ) (s v : Chars)
    → is_space c ≡ false
    → strip_right is_space v ≡ v
    → strip (c ∷ (s ++ colon ∷ v)) ≡ c ∷ (s ++ colon ∷ v)
unfolding strip_by strip_left
strip_line c s v out end = rw out (strip_right-append is_space (c ∷ s) colon v refl end)

pub strip-pair_line : (pair : Chars × Chars) → IsPair pair → strip (pair_line pair) ≡ pair_line pair
strip-pair_line pair h =
    ap (λ k. strip (k ++ colon ∷ pair.1)) h.key_eq
    ∙ strip_line h.initial h.others pair.1 h.no_space h.value_end
    ∙ ap (λ k. k ++ colon ∷ pair.1) (sym h.key_eq)

same-fence : (line : Chars) → has colon line ≡ true → same line fence ≡ false
same-fence line h = elim (Bool-cases (same line fence)) [
  | inr e ↦ e
  | inl e ↦ absurd (ground (arith, h, ap (has colon) ((same_iff line fence).0 e), fence_colon))
]
  where
    fence_colon : has colon fence ≡ false
    fence_colon = unfold has in refl

pub find_closing-map :
    (m : Fields) (after : List Chars)
    → All IsPair m
    → find_closing (map pair_line m ++ fence ∷ after) ≡ some (map pair_line m, after)
unfolding find_closing
find_closing-map [] after h = unfold same strip_by strip_left strip_right in refl
find_closing-map (pair ∷ m) after h = ground (
  arith,
  find_closing-map m after h.1,
  strip-pair_line pair h.0,
  same-fence (pair_line pair) (has-colon pair),
)

pub puts : Fields → Fields → Fields
puts [] d = d
puts (pair ∷ m) d = puts m (put pair.0 pair.1 d)

pub parse_pairs-map :
    (i : ℕ) (m d : Fields) → All IsPair m → parse_pairs i (map pair_line m) d ≡ loaded (puts m d)
unfolding parse_pairs puts
parse_pairs-map i [] d h = refl
parse_pairs-map i (pair ∷ m) d h =
    let line = pair_line pair in
    ground (
      arith,
      strip-pair_line pair h.0,
      has-colon pair,
      before_colon-append pair.0 pair.1 h.0.key_colon,
      after_colon-append pair.0 pair.1 h.0.key_colon,
      h.0.key_eq,
      h.0.no_comment,
      h.0.key_strip,
      h.0.value_clean,
      parse_pairs-map (i + 1) m (put pair.0 pair.1 d) h.1,
    )

-- The keys of `m` are different from each other and from those of `d`.
abbrev pub IsNew : Fields → Fields → Type 0
IsNew d [] = Unit
IsNew d (pair ∷ m) = (get pair.0 d ≡ none) × IsNew (d ++ pair ∷ []) m

put-new : (k v : Chars) (d : Fields) → get k d ≡ none → put k v d ≡ d ++ (k, v) ∷ []
unfolding get put
put-new k v [] h = refl
put-new k v ((j, w) ∷ d) h = ground (arith, put-new k v d)

pub puts-eq : (m d : Fields) → IsNew d m → puts m d ≡ d ++ m
unfolding puts
puts-eq [] d h = sym (append-nil d)
puts-eq (pair ∷ m) d h =
    ap (puts m) (put-new pair.0 pair.1 d h.0)
    ∙ puts-eq m (d ++ pair ∷ []) h.1
    ∙ append_assoc d (pair ∷ []) m
