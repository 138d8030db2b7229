-- ===== src/Media/Cards.antt =====
-- `ImageRenderer` and `FileRenderer` of media.py. `fixed n d` is the text of n / d with one decimal.
pub mod Laws
pub mod Tag
use agentcook.Prelude.{
  ℕ, ◌*◌, Bool, false, List, [], ◌∷◌, ◌++◌, Option, none, some, ltb, ◌==◌, if◌then◌else◌,
}
use agentcook.Prelude.Chars.{Chars, codes}
use agentcook.Prelude.Integers.{ℤ, pos, negsuc}
use agentcook.Prelude.Strings.{show}
use agentcook.Media.Escape.{html_escape}
use agentcook.Media.Types.{MediaAttachment, image, file, MediaProcessor, RenderMetadata, or_else}

abbrev metadata_of : Chars → RenderMetadata
metadata_of renderer = record {
  renderer = renderer;
  input_length = none;
  diagram_type = none;
  unsupported = false;
}

-- `attachment.metadata.get("alt", attachment.filename or "image")`.
abbrev pub alt_of : MediaAttachment → Chars
alt_of attachment = elim attachment.alt [
  | some alt ↦ alt
  | none ↦ or_else attachment.filename (codes "image")
]

abbrev pub image_renderer : MediaProcessor
image_renderer = record {
  supported_type = image;
  process = λ attachment. some (record {
    original = attachment;
    rendered_html =
        codes "<img src=\""
        ++ (html_escape attachment.url
            ++ (codes "\" alt=\"" ++ (html_escape (alt_of attachment) ++ codes "\" />")));
    rendered_text = codes "[Image: " ++ (alt_of attachment ++ codes "]");
    svg = [];
    metadata = metadata_of (codes "image");
  });
}

module _ (fixed : ℕ → ℕ → Chars) where
  -- The loop over the units, where the size was divided down to `size / d`.
  unfoldable pub size_loop : ℕ → ℕ → List Chars → Chars
  size_loop size d [] = fixed size d ++ codes " TB"
  size_loop size d (unit ∷ units) =
      let rest = size_loop size (1024 * d) units in
      if ltb size (1024 * d)
      then (if d == 1 then codes (show size) else fixed size d) ++ b' ' ∷ unit
      else rest

  abbrev pub units : List Chars
  units = codes "B" ∷ codes "KB" ∷ codes "MB" ∷ codes "GB" ∷ []

  unfoldable pub format_size : ℤ → Chars
  format_size (negsuc n) = codes "unknown size"
  format_size (pos size) = if size == 0 then codes "unknown size" else size_loop size 1 units

  abbrev pub file_renderer : MediaProcessor
  file_renderer = record {
    supported_type = file;
    process = λ attachment.
        let filename = or_else attachment.filename (codes "unknown") in
        let size = format_size attachment.size_bytes in
        some (record {
          original = attachment;
          rendered_html =
              codes "<div class=\"file-card\"><a href=\""
              ++ (html_escape (or_else attachment.url (codes "#"))
                  ++ (codes "\" download=\""
                      ++ (html_escape filename
                          ++ (codes "\">"
                              ++ (html_escape filename
                                  ++ (codes "</a><span>" ++ (size ++ codes "</span></div>")))))));
          rendered_text = codes "[File: " ++ (filename ++ (codes " (" ++ (size ++ codes ")]")));
          svg = [];
          metadata = metadata_of (codes "file");
        });
  }
