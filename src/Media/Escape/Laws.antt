-- ===== src/Media/Escape/Laws.antt =====
-- Escaped text ends neither a tag nor an attribute, and a browser reads the text back.
use agentcook.Prelude.{
  ℕ, zero, suc, ◌≡◌, refl, ap, subst, sym, ◌∙◌, Bool, true, false, not, ◌||◌, [], ◌∷◌, ◌++◌, All,
  ◌==◌, if◌then◌else◌, inl, inr, Bool-cases, arith,
}
use agentcook.Prelude.Chars.{Chars, codes}
use agentcook.Media.Escape.{entity, html_escape}

-- A character that no markup starts or ends with.
abbrev pub is_inert : ℕ → Bool
is_inert c = not (c == b'<' || c == b'>' || c == b'"' || c == b'\'')

abbrev pub IsInert : Chars → Type 0
IsInert s = All (λ c. is_inert c ≡ true) s

-- A reader of the five entities: at an ampersand, the character and how many more are read.
abbrev is_prefix : Chars → Chars → Bool
is_prefix [] s = true
is_prefix (c ∷ p) [] = false
is_prefix (c ∷ p) (d ∷ s) = let rest = is_prefix p s in if c == d then rest else false

abbrev entity_at : Chars → ℕ × ℕ
entity_at s =
    if is_prefix (codes "amp;") s
    then (b'&', 4)
    else if is_prefix (codes "lt;") s
    then (b'<', 3)
    else if is_prefix (codes "gt;") s
    then (b'>', 3)
    else if is_prefix (codes "quot;") s
    then (b'"', 5)
    else if is_prefix (codes "#x27;") s
    then (b'\'', 5)
    else (b'&', 0)

abbrev pub decode : ℕ → Chars → Chars
decode n [] = []
decode zero (c ∷ s) =
    let (d, n) = entity_at s in
    let after = decode n s in let rest = decode 0 s in if c == b'&' then d ∷ after else c ∷ rest
decode (suc n) (c ∷ s) = decode n s

eq_of_test : (c d : ℕ) → (c == d) ≡ true → c ≡ d
eq_of_test c d e = ground (arith, e)

-- A character is plain, or is one of the five.
data Kind : ℕ → Type 0 where
  ampersand : Kind b'&'
  less : Kind b'<'
  greater : Kind b'>'
  double : Kind b'"'
  single : Kind b'\''
  plain : {c : ℕ} → entity c ≡ c ∷ [] → (c == b'&') ≡ false → is_inert c ≡ true → Kind c

at_test : (c d : ℕ) → (c == d) ≡ true → Kind d → Kind c
at_test c d e k = subst Kind (sym (eq_of_test c d e)) k

classify : (c : ℕ) → Kind c
classify c = elim (Bool-cases (c == b'&')) [
  | inl e ↦ at_test c b'&' e ampersand
  | inr a ↦ elim (Bool-cases (c == b'<')) [
    | inl e ↦ at_test c b'<' e less
    | inr l ↦ elim (Bool-cases (c == b'>')) [
      | inl e ↦ at_test c b'>' e greater
      | inr g ↦ elim (Bool-cases (c == b'"')) [
        | inl e ↦ at_test c b'"' e double
        | inr d ↦ elim (Bool-cases (c == b'\'')) [
          | inl e ↦ at_test c b'\'' e single
          | inr s ↦ plain (rw (a, l, g, d, s) refl) a (rw (l, g, d, s) refl)
        ]
      ]
    ]
  ]
]

decode-entity : {c : ℕ} (s : Chars) → Kind c → decode 0 (entity c ++ s) ≡ c ∷ decode 0 s
decode-entity s ampersand = refl
decode-entity s less = refl
decode-entity s greater = refl
decode-entity s double = refl
decode-entity s single = refl
decode-entity s (plain e a i) = rw (e, a) refl

entity-IsInert : {c : ℕ} (s : Chars) → Kind c → IsInert s → IsInert (entity c ++ s)
entity-IsInert s ampersand h = (refl, (refl, (refl, (refl, (refl, h)))))
entity-IsInert s less h = (refl, (refl, (refl, (refl, h))))
entity-IsInert s greater h = (refl, (refl, (refl, (refl, h))))
entity-IsInert s double h = (refl, (refl, (refl, (refl, (refl, (refl, h))))))
entity-IsInert s single h = (refl, (refl, (refl, (refl, (refl, (refl, h))))))
entity-IsInert s (plain e a i) h = rw e (i, h)

-- Escaped text has no character that starts or ends a tag or a quoted attribute, and reading its
-- entities gives the text back.
pub html_escape-IsInert : (s : Chars) → IsInert (html_escape s) × (decode 0 (html_escape s) ≡ s)
unfolding html_escape
html_escape-IsInert [] = (tt, refl)
html_escape-IsInert (c ∷ s) =
    let (inert, same) = html_escape-IsInert s in
    (
      entity-IsInert (html_escape s) (classify c) inert,
      decode-entity (html_escape s) (classify c) ∙ ap (λ t. c ∷ t) same,
    )
