-- ===== src/Media/Tests.antt =====
-- Runs of the renderers, and the theorems at those.
use agentcook.Prelude.{
  ℕ, ◌≡◌, ◌≢◌, ◌+◌, refl, inl, inr, Bool-cases, false, [], ◌∷◌, none, some, ◌++◌, map, leb, ◌&&◌,
  if◌then◌else◌, arith,
}
use agentcook.Prelude.Chars.{after, Chars, codes, strip_by, strip_left, strip_right, split}
use agentcook.Prelude.Integers.{pos}
use agentcook.Media.Escape.{html_escape}
use agentcook.Media.Types.{image, MediaAttachment, ProcessedMedia}
use agentcook.Media.Cards.{image_renderer}
use agentcook.Media.Cards.Tag.{read_image, image_renderer-read}
use agentcook.Media.Markdown.{open_block, close_block, render_lines}
use agentcook.Media.Markdown.Laws.{render_lines-block}
use agentcook.Media.Mermaid.{type_of_line, detect_type}
use agentcook.Media.Mermaid.Laws.{IsLower, detect_type-class}
use agentcook.Media.Cards.{size_loop, format_size}
use agentcook.Media.Cards.Laws.{IsScaled, format_size-IsScaled}

html_escape_run : html_escape (codes "<a b=\"c\">") ≡ codes "&lt;a b=&quot;c&quot;&gt;"
unfolding html_escape
html_escape_run = refl

-- A URL and a name that try to end their attributes.
abbrev picture : MediaAttachment
picture = record {
  media_type = image;
  url = codes "/a?b=\"&c";
  mime_type = codes "image/png";
  size_bytes = pos 10;
  content = [];
  filename = codes "x\" onload=\"y";
  alt = none;
}

image_renderer-read_example :
    (media : ProcessedMedia) × (image_renderer.process picture ≡ some media)
    × (read_image media.rendered_html ≡ some (picture.url, picture.filename, codes " />"))
image_renderer-read_example = image_renderer-read picture

-- The markup of a line is kept.
abbrev markup : Chars → Chars
markup s = s

render_lines_run :
    render_lines markup false (codes "# T" ∷ codes "- a" ∷ [])
    ≡ codes "<h1>T</h1>" ∷ codes "<li>a</li>" ∷ []
unfolding render_lines after html_escape agentcook.Media.Markdown.render_line
render_lines_run = refl

render_lines-block_example :
    render_lines markup false
      (codes "```python" ∷ (codes "# <b>" ∷ []) ++ codes "```" ∷ codes "done" ∷ [])
    ≡ open_block markup (codes "python")
      ∷ (map html_escape (codes "# <b>" ∷ [])
          ++ close_block markup ∷ render_lines markup false (codes "done" ∷ []))
render_lines-block_example =
    render_lines-block markup (codes "```python") (codes "```") (codes "python") []
      (codes "# <b>" ∷ []) (codes "done" ∷ []) (unfold after in refl) (unfold after in refl)
      (unfold after in (refl, tt))

detect_type_run : detect_type (λ s. s) (codes " gantt\n title") ≡ codes "gantt"
unfolding detect_type type_of_line after strip_by strip_left strip_right split
detect_type_run = refl

-- `str.lower` on the letters of ASCII.
abbrev lower_code : ℕ → ℕ
lower_code c = if leb 65 c && leb c 90 then c + 32 else c

abbrev lower : Chars → Chars
lower s = map lower_code s

lower_code-IsLower : (c : ℕ) → (leb 65 (lower_code c) && leb (lower_code c) 90) ≡ false
lower_code-IsLower c = elim (Bool-cases (leb 65 c && leb c 90)) [
  | inl e ↦ rw e (ground (arith, e))
  | inr e ↦ rw e e
]

lower-IsLower : (s : Chars) → IsLower (lower s)
lower-IsLower [] = tt
lower-IsLower (c ∷ s) = (lower_code-IsLower c, lower-IsLower s)

detect_type-class_example : detect_type lower (codes "classDiagram\n  A <|-- B") ≢ codes "class"
detect_type-class_example = detect_type-class lower (codes "classDiagram\n  A <|-- B") lower-IsLower

abbrev fixed : ℕ → ℕ → Chars
fixed n d = codes "1.5"

format_size_run : format_size fixed (pos 1536) ≡ codes "1.5 KB"
unfolding format_size size_loop
format_size_run = refl

format_size-IsScaled_example : IsScaled fixed 1536 (format_size fixed (pos 1536))
format_size-IsScaled_example = format_size-IsScaled fixed 1536 (omega arith)
