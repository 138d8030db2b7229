-- ===== src/Media/Types.antt =====
-- The types of media.py. Of an attachment's metadata only `alt` is read, as a text; the metadata of a
-- result are those that the renderers set.
use agentcook.Prelude.{ℕ, Bool, Option, is_empty, if◌then◌else◌}
use agentcook.Prelude.Chars.{Chars, codes}
use agentcook.Prelude.Integers.{ℤ}

pub data MediaType : Type 0 where
  text image pdf markdown mermaid file : MediaType

abbrev pub value : MediaType → Chars
value text = codes "text"
value image = codes "image"
value pdf = codes "pdf"
value markdown = codes "markdown"
value mermaid = codes "mermaid"
value file = codes "file"

pub record MediaAttachment : Type 0 where
  pub media_type : MediaType
  pub url : Chars
  pub mime_type : Chars
  pub size_bytes : ℤ
  pub content : Chars
  pub filename : Chars
  pub alt : Option Chars

pub record RenderMetadata : Type 0 where
  pub renderer : Chars
  pub input_length : Option ℕ
  pub diagram_type : Option Chars
  pub unsupported : Bool

pub record ProcessedMedia : Type 0 where
  pub original : MediaAttachment
  pub rendered_html : Chars
  pub rendered_text : Chars
  pub svg : Chars
  pub metadata : RenderMetadata

-- A `MediaError` is none.
pub record MediaProcessor : Type 0 where
  pub supported_type : MediaType
  pub process : MediaAttachment → Option ProcessedMedia

-- `text or other`.
abbrev pub or_else : Chars → Chars → Chars
or_else s t = if is_empty s then t else s
