-- ===== src/Media/Cards/Tag.antt =====
-- The tag of an image, as a reader of the page takes it apart.
use agentcook.Prelude.{
  ℕ, ◌≡◌, refl, ap, ◌∙◌, true, false, [], ◌∷◌, ◌++◌, Option, none, some, ◌==◌, if◌then◌else◌, arith,
}
use agentcook.Prelude.Chars.{Chars, codes, after}
use agentcook.Media.Escape.{html_escape}
use agentcook.Media.Escape.Laws.{is_inert, IsInert, decode, html_escape-IsInert}
use agentcook.Media.Types.{MediaAttachment, ProcessedMedia}
use agentcook.Media.Cards.{alt_of, image_renderer}

-- The value of an attribute, up to the first quote with its entities read, and what stands behind it.
abbrev until_quote : Chars → Chars × Chars
until_quote [] = ([], [])
until_quote (c ∷ s) =
    let rest = until_quote s in if c == b'"' then ([], s) else (c ∷ rest.0, rest.1)

abbrev quoted : Option Chars → Option (Chars × Chars)
quoted none = none
quoted (some s) = some (decode 0 (until_quote s).0, (until_quote s).1)

abbrev end_of : Chars → Option (Chars × Chars) → Option (Chars × Chars × Chars)
end_of url none = none
end_of url (some (alt, s)) = some (url, alt, s)

abbrev alt_behind : Option (Chars × Chars) → Option (Chars × Chars × Chars)
alt_behind none = none
alt_behind (some (url, s)) = end_of url (quoted (after (codes " alt=\"") s))

-- The attributes `src` and `alt` of a tag for an image, and what stands behind them.
abbrev pub read_image : Chars → Option (Chars × Chars × Chars)
read_image html = alt_behind (quoted (after (codes "<img src=\"") html))

not_quote : (c : ℕ) → is_inert c ≡ true → (c == b'"') ≡ false
not_quote c h = ground (arith, h)

until_quote-inert : (s t : Chars) → IsInert s → until_quote (s ++ b'"' ∷ t) ≡ (s, t)
until_quote-inert [] t h = refl
until_quote-inert (c ∷ s) t (i, h) = rw (not_quote c i, until_quote-inert s t h) refl

quoted-escape : (s t : Chars) → quoted (some (html_escape s ++ b'"' ∷ t)) ≡ some (s, t)
quoted-escape s t =
    let (inert, same) = html_escape-IsInert s in
    ap (λ p. some (decode 0 p.0, p.1)) (until_quote-inert (html_escape s) t inert)
    ∙ ap (λ d. some (d, t)) same

-- The tag that `ImageRenderer.process` renders has, for a reader of the page, the attachment's URL as its
-- source and the attachment's alternative text as its `alt`, whatever their characters, and nothing but
-- its end behind them.
pub image_renderer-read :
    (attachment : MediaAttachment)
    → (media : ProcessedMedia) × (image_renderer.process attachment ≡ some media)
      × (read_image media.rendered_html ≡ some (attachment.url, alt_of attachment, codes " />"))
unfolding after
image_renderer-read attachment = (
  _,
  refl,
  ap alt_behind (quoted-escape attachment.url _)
      ∙ ap (end_of attachment.url) (quoted-escape (alt_of attachment) (codes " />")),
)
