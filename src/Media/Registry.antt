-- ===== src/Media/Registry.antt =====
-- `MediaRegistry` of media.py: its dict holds a processor for each type that was registered.
pub mod Laws
use agentcook.Prelude.{
  ℕ, Bool, true, false, List, [], ◌∷◌, ◌++◌, Option, none, some, map, ◌==◌, if◌then◌else◌,
}
use agentcook.Prelude.Chars.{Chars, codes}
use agentcook.Media.Types.{
  MediaType, text, image, pdf, markdown, mermaid, file, value, MediaAttachment, ProcessedMedia,
  MediaProcessor,
}
use agentcook.Media.Markdown.{markdown_renderer}
use agentcook.Media.Mermaid.{mermaid_renderer}
use agentcook.Media.Cards.{image_renderer, file_renderer}

abbrev pub MediaRegistry : Type 0
MediaRegistry = List (MediaType × MediaProcessor)

abbrev pub index : MediaType → ℕ
index text = 0
index image = 1
index pdf = 2
index markdown = 3
index mermaid = 4
index file = 5

abbrev pub same_type : MediaType → MediaType → Bool
same_type t u = index t == index u

-- `self._processors.get(media_type)`.
unfoldable pub processor_for : MediaType → MediaRegistry → Option MediaProcessor
processor_for t [] = none
processor_for t ((u, p) ∷ r) =
    let rest = processor_for t r in if same_type u t then some p else rest

unfoldable pub put : MediaType → MediaProcessor → MediaRegistry → MediaRegistry
put t p [] = (t, p) ∷ []
put t p ((u, q) ∷ r) = let rest = put t p r in if same_type u t then (u, p) ∷ r else (u, q) ∷ rest

unfoldable pub register : MediaProcessor → MediaRegistry → MediaRegistry
register processor r = put processor.supported_type processor r

abbrev pub unsupported : MediaAttachment → ProcessedMedia
unsupported attachment = record {
  original = attachment;
  rendered_html = [];
  rendered_text = codes "[Unsupported media: " ++ (value attachment.media_type ++ codes "]");
  svg = [];
  metadata = record {
    renderer = codes "fallback";
    input_length = none;
    diagram_type = none;
    unsupported = true;
  };
}

unfoldable pub process : MediaAttachment → MediaRegistry → Option ProcessedMedia
process attachment r = elim (processor_for attachment.media_type r) [
  | none ↦ some (unsupported attachment)
  | some processor ↦ processor.process attachment
]

abbrev pub supports : MediaType → MediaRegistry → Bool
supports t r = elim (processor_for t r) [ none ↦ false | some p ↦ true ]

abbrev pub supported_types : MediaRegistry → List MediaType
supported_types r = map (λ e. e.0) r

-- `MediaRegistry(register_defaults=…)`.
unfoldable pub init : (Chars → Chars) → (Chars → Chars) → (ℕ → ℕ → Chars) → Bool → MediaRegistry
init markup lower fixed false = []
init markup lower fixed true = register (file_renderer fixed) (
    register image_renderer
      (register (mermaid_renderer lower) (register (markdown_renderer markup) [])))
