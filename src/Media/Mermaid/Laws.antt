-- ===== src/Media/Mermaid/Laws.antt =====
-- The types of diagrams that are told apart.
use agentcook.Prelude.{
  ℕ, ◌≡◌, ◌≢◌, sym, subst, true, false, ◌&&◌, [], ◌∷◌, ◌==◌, leb, All, inl, inr, Bool-cases, arith,
}
use agentcook.Prelude.Chars.{after, Chars, codes}
use agentcook.Media.Mermaid.{starts, first_line, type_of_line, detect_type}

eq_of_test : (c d : ℕ) → (c == d) ≡ true → c ≡ d
eq_of_test c d e = ground (arith, e)

-- No character is an upper case letter of ASCII.
abbrev pub IsLower : Chars → Type 0
IsLower s = All (λ c. (leb 65 c && leb c 90) ≡ false) s

-- What a text starts with has the characters of that text.
All-starts : (P : ℕ → Type 0) (p s : Chars) → starts p s ≡ true → All P s → All P p
unfolding after
All-starts P [] s t h = tt
All-starts P (c ∷ p) [] t h = absurd (ground (arith, t))
All-starts P (c ∷ p) (d ∷ s) t h = elim (Bool-cases (c == d)) [
  | inl e ↦
      (subst P (sym (eq_of_test c d e)) h.0, All-starts P p s (rw (e, starts, after) at t) h.1)
  | inr e ↦ absurd (ground (arith, t, e))
]

not_class : (line : Chars) → IsLower line → starts (codes "classDiagram") line ≡ false
not_class line h = elim (Bool-cases (starts (codes "classDiagram") line)) [
  | inr e ↦ e
  | inl e ↦
      let upper =
        All-starts (λ c. (leb 65 c && leb c 90) ≡ false) (codes "classDiagram") line e h in
      absurd (ground (arith, upper.1.1.1.1.1.0))
]

module _ (lower : Chars → Chars) where
  -- Where the lower case of a text has no upper case letter, the type that is detected is never
  -- "class": a diagram of classes is taken for an unknown one.
  pub detect_type-class :
      (content : Chars)
      → ((s : Chars) → IsLower (lower s))
      → detect_type lower content ≢ codes "class"
  unfolding detect_type type_of_line
  detect_type-class content h e = ground (arith, e, not_class (first_line lower content) (h _))
