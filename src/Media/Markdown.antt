-- ===== src/Media/Markdown.antt =====
-- `MarkdownRenderer` of media.py. `markup` is what the four `re.sub` of `_inline` do to escaped text.
pub mod Laws
use agentcook.Prelude.{
  ℕ, Bool, true, false, not, ◌&&◌, List, [], ◌∷◌, ◌++◌, Option, none, some, ◌==◌, length, is_empty,
  if◌then◌else◌,
}
use agentcook.Prelude.Chars.{after, Chars, codes, strip, split, join}
use agentcook.Media.Escape.{html_escape}
use agentcook.Media.Types.{MediaAttachment, markdown, MediaProcessor, or_else}

abbrev pub fence : Chars
fence = codes "```"

abbrev tagged : Chars → Chars → Chars → Chars
tagged open_tag s close_tag = open_tag ++ (s ++ close_tag)

module _ (markup : Chars → Chars) where
  abbrev pub inline : Chars → Chars
  inline s = markup (html_escape s)

  -- A line outside of a code block that is no fence.
  unfoldable pub render_line : Chars → Chars
  render_line line = elim (after (codes "### ") line) [
    | some s ↦ tagged (codes "<h3>") (html_escape s) (codes "</h3>")
    | none ↦ elim (after (codes "## ") line) [
      | some s ↦ tagged (codes "<h2>") (html_escape s) (codes "</h2>")
      | none ↦ elim (after (codes "# ") line) [
        | some s ↦ tagged (codes "<h1>") (html_escape s) (codes "</h1>")
        | none ↦ elim (after (codes "- ") line) [
          | some s ↦ tagged (codes "<li>") (inline s) (codes "</li>")
          | none ↦
              if is_empty (strip line)
              then []
              else tagged (codes "<p>") (inline line) (codes "</p>")
        ]
      ]
    ]
  ]

  abbrev pub open_block : Chars → Chars
  open_block code_lang =
      tagged (codes "<pre><code class=\"language-") (html_escape (strip code_lang)) (codes "\">")

  abbrev pub close_block : Chars
  close_block = codes "</code></pre>"

  -- The loop over the lines, where the first argument is `in_code_block`.
  unfoldable pub render_lines : Bool → List Chars → List Chars
  render_lines in_code_block [] = []
  render_lines in_code_block (line ∷ lines) =
      let toggled = render_lines (not in_code_block) lines in
      let rest = render_lines in_code_block lines in
      elim (after fence line) [
        | some s ↦ (if in_code_block then close_block else open_block s) ∷ toggled
        | none ↦ (if in_code_block then html_escape line else render_line line) ∷ rest
      ]

  unfoldable pub render : Chars → Chars
  render content = join b'\n' (render_lines false (split b'\n' content))

  abbrev content_of : MediaAttachment → Chars
  content_of attachment =
      if is_empty attachment.content && not (is_empty attachment.url)
      then codes "[Markdown file: " ++ (or_else attachment.filename attachment.url ++ codes "]")
      else attachment.content

  abbrev pub markdown_renderer : MediaProcessor
  markdown_renderer = record {
    supported_type = markdown;
    process = λ attachment. some (record {
      original = attachment;
      rendered_html = render (content_of attachment);
      rendered_text = content_of attachment;
      svg = [];
      metadata = record {
        renderer = codes "stdlib_markdown";
        input_length = some (length (content_of attachment));
        diagram_type = none;
        unsupported = false;
      };
    });
  }
