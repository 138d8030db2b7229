-- ===== src/Media/Markdown/Laws.antt =====
-- Code blocks.
use agentcook.Prelude.{◌≡◌, refl, ap, ◌∙◌, true, false, List, [], ◌∷◌, ◌++◌, none, some, All, map}
use agentcook.Prelude.Chars.{after, Chars}
use agentcook.Media.Escape.{html_escape}
use agentcook.Media.Markdown.{fence, open_block, close_block, render_lines}

abbrev pub IsOpen : Chars → Type 0
IsOpen line = after fence line ≡ none

module _ (markup : Chars → Chars) where
  code-escaped :
      (body lines : List Chars)
      → All IsOpen body
      → render_lines markup true (body ++ lines)
        ≡ map html_escape body ++ render_lines markup true lines
  unfolding render_lines
  code-escaped [] lines h = refl
  code-escaped (line ∷ body) lines h =
      rw (h.0, render_lines) (ap (λ l. html_escape line ∷ l) (code-escaped body lines h.1))

  -- A block between two fences is rendered as one block of code: its lines are escaped and nothing
  -- else, whatever markup they hold, and the lines after it are rendered as those of a text.
  pub render_lines-block :
      (first last lang after_last : Chars) (body lines : List Chars)
      → after fence first ≡ some lang
      → after fence last ≡ some after_last
      → All IsOpen body
      → render_lines markup false (first ∷ (body ++ last ∷ lines))
        ≡ open_block markup lang
          ∷ (map html_escape body ++ close_block markup ∷ render_lines markup false lines)
  unfolding render_lines
  render_lines-block first last lang after_last body lines f l h =
      rw (f, render_lines)
        (ap (λ r. open_block markup lang ∷ r)
          (code-escaped body (last ∷ lines) h
            ∙ ap (λ r. map html_escape body ++ r) (rw (l, render_lines) refl)))
