-- ===== src/Skills/Frontmatter/RoundTrip.antt =====
-- Printing fields and a body in the format of a skill file, and parsing that.
use agentcook.Prelude.{◌≡◌, refl, ap, ◌∙◌, false, List, [], ◌∷◌, ◌++◌, map, All, arith}
use agentcook.Prelude.Chars.{
  Chars, same, strip, strip_by, strip_left, strip_right, split, split-append, join-split, has,
}
use agentcook.Skills.Frontmatter.{
  Fields, newline, colon, fence, find_opening, parse_frontmatter, loaded,
}
use agentcook.Skills.Frontmatter.Pieces.{
  IsPair, pair_line, has-append, find_closing-map, parse_pairs-map, IsNew, puts-eq,
}

render_fields : Fields → Chars → Chars
render_fields [] body = fence ++ newline ∷ body
render_fields (pair ∷ m) body = pair_line pair ++ newline ∷ render_fields m body

-- A skill file: the fields one to a line between two fences, then the body.
unfoldable pub render : Fields → Chars → Chars
unfolding render_fields
render m body = fence ++ newline ∷ render_fields m body

fence_line : (s : Chars) → split newline (fence ++ newline ∷ s) ≡ fence ∷ split newline s
fence_line s = split-append newline fence s (unfold has in refl)

pair_one_line : (pair : Chars × Chars) → IsPair pair → has newline (pair_line pair) ≡ false
unfolding has
pair_one_line pair h =
    ground (arith, has-append newline pair.0 (colon ∷ pair.1), h.key_line, h.value_line)

split-render_fields :
    (m : Fields) (body : Chars)
    → All IsPair m
    → split newline (render_fields m body) ≡ map pair_line m ++ fence ∷ split newline body
unfolding render_fields
split-render_fields [] body h = fence_line body
split-render_fields (pair ∷ m) body h =
    split-append newline (pair_line pair) (render_fields m body) (pair_one_line pair h.0)
    ∙ ap (λ ls. pair_line pair ∷ ls) (split-render_fields m body h.1)

find_opening-fence : (lines : List Chars) → find_opening 0 (fence ∷ lines) ≡ loaded (1, lines)
unfolding find_opening same strip_by strip_left strip_right
find_opening-fence lines = refl

-- A file that is printed from fields that can stand on a line each, with different keys, and from a
-- body with no white space at its ends is parsed to these fields and this body.
pub parse_frontmatter-render :
    (m : Fields) (body : Chars)
    → All IsPair m
    → IsNew [] m
    → strip body ≡ body
    → parse_frontmatter (render m body) ≡ loaded (m, body)
unfolding parse_frontmatter render
parse_frontmatter-render m body h new stripped =
    let lines = map pair_line m ++ fence ∷ split newline body in
    ground (
      arith,
      fence_line (render_fields m body) ∙ ap (λ ls. fence ∷ ls) (split-render_fields m body h),
      find_opening-fence lines,
      find_closing-map m (split newline body) h,
      parse_pairs-map 1 m [] h,
      puts-eq m [] new,
      join-split newline body,
      stripped,
    )
