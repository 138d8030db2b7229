-- ===== src/Media/Escape.antt =====
-- `html.escape` of Python's standard library with its default for quotes, as media.py calls it.
pub mod Laws
use agentcook.Prelude.{ℕ, List, [], ◌∷◌, ◌++◌, ◌==◌, if◌then◌else◌}
use agentcook.Prelude.Chars.{Chars, codes}

abbrev pub entity : ℕ → Chars
entity c =
    if c == b'&'
    then codes "&amp;"
    else if c == b'<'
    then codes "&lt;"
    else if c == b'>'
    then codes "&gt;"
    else if c == b'"'
    then codes "&quot;"
    else if c == b'\''
    then codes "&#x27;"
    else c ∷ []

unfoldable pub html_escape : Chars → Chars
html_escape [] = []
html_escape (c ∷ s) = entity c ++ html_escape s
