-- ===== src/Media/Mermaid.antt =====
-- `MermaidRenderer` of media.py; `lower` is Python's `str.lower`.
pub mod Laws
use agentcook.Prelude.{
  ℕ, Bool, true, false, List, [], ◌∷◌, ◌++◌, Option, none, some, is_empty, if◌then◌else◌,
}
use agentcook.Prelude.Chars.{after, Chars, codes, strip, split}
use agentcook.Media.Escape.{html_escape}
use agentcook.Media.Types.{MediaAttachment, mermaid, MediaProcessor}

abbrev pub starts : Chars → Chars → Bool
starts prefix s = elim (after prefix s) [ none ↦ false | some rest ↦ true ]

abbrev pub head_of : List Chars → Chars
head_of [] = []
head_of (line ∷ lines) = line

module _ (lower : Chars → Chars) where
  abbrev pub first_line : Chars → Chars
  first_line content = lower (strip (head_of (split b'\n' (strip content))))

  -- The type that a first line starts with.
  unfoldable pub type_of_line : Chars → Chars
  type_of_line line =
      if starts (codes "graph") line
      then codes "flowchart"
      else if starts (codes "sequencediagram") line
      then codes "sequence"
      else if starts (codes "classDiagram") line
      then codes "class"
      else if starts (codes "gantt") line
      then codes "gantt"
      else if starts (codes "pie") line
      then codes "pie"
      else codes "unknown"

  unfoldable pub detect_type : Chars → Chars
  detect_type content = type_of_line (first_line content)

  abbrev pub render_placeholder : Chars → Chars
  render_placeholder content =
      codes
        "<svg xmlns=\"http://www.w3.org/2000/svg\" class=\"mermaid-placeholder\" data-diagram-type=\""
      ++ (detect_type content
          ++ (codes
                "\"><text x=\"10\" y=\"20\" font-family=\"monospace\" font-size=\"12\">[Mermaid: "
              ++ (detect_type content
                  ++ (codes "]</text><metadata>"
                      ++ (html_escape content ++ codes "</metadata></svg>")))))

  abbrev pub mermaid_renderer : MediaProcessor
  mermaid_renderer = record {
    supported_type = mermaid;
    process = λ attachment.
        if is_empty attachment.content
        then none
        else some (record {
          original = attachment;
          rendered_html =
              codes "<div class=\"mermaid\">" ++ (html_escape attachment.content ++ codes "</div>");
          rendered_text = attachment.content;
          svg = render_placeholder attachment.content;
          metadata = record {
            renderer = codes "mermaid_placeholder";
            input_length = none;
            diagram_type = some (detect_type attachment.content);
            unsupported = false;
          };
        });
  }
