-- ===== src/Media/Registry/Laws.antt =====
-- How attachments are dispatched.
use agentcook.Prelude.{
  ℕ, ◌≡◌, refl, sym, ◌∙◌, ◌==◌, true, false, not, ◌||◌, [], ◌∷◌, some, if◌then◌else◌, inl, inr,
  Bool-cases, arith,
}
use agentcook.Prelude.Chars.{Chars}
use agentcook.Media.Types.{
  MediaType, text, image, pdf, markdown, mermaid, file, MediaAttachment, MediaProcessor,
}
use agentcook.Media.Registry.{
  MediaRegistry, index, same_type, processor_for, put, register, process, supports, init,
}

eq_of_test : (c d : ℕ) → (c == d) ≡ true → c ≡ d
eq_of_test c d e = ground (arith, e)

other_test : (a b c : ℕ) → (a == b) ≡ false → (a == c) ≡ true → (b == c) ≡ false
other_test a b c h e = ground (arith, h, e)

test_of_eq : (t u : MediaType) → index t ≡ index u → same_type t u ≡ true
test_of_eq t u e = ground (arith, e)

other_eq :
    (v t u : MediaType) → same_type v t ≡ true → same_type v u ≡ false → same_type t u ≡ false
other_eq v t u e f = rw (eq_of_test _ _ e) at f

processor_for-put :
    (t u : MediaType) (p : MediaProcessor) (r : MediaRegistry)
    → processor_for u (put t p r) ≡ (if same_type t u then some p else processor_for u r)
unfolding processor_for put
processor_for-put t u p [] = refl
processor_for-put t u p ((v, q) ∷ r) = elim (Bool-cases (same_type v t)) [
  | inl e ↦ elim (Bool-cases (same_type v u)) [
    | inl f ↦ rw (e, f, test_of_eq t u (sym (eq_of_test _ _ e) ∙ eq_of_test _ _ f)) refl
    | inr f ↦ rw (e, f, other_eq v t u e f) refl
  ]
  | inr e ↦ elim (Bool-cases (same_type v u)) [
    | inl f ↦ rw (e, f, other_test (index v) (index t) (index u) e f) refl
    | inr f ↦ rw (e, f) (processor_for-put t u p r)
  ]
]

-- A processor is used for the attachments of its own type, also where another one was registered for
-- that before, and all other attachments are processed as without it.
pub process-register :
    (p : MediaProcessor) (attachment : MediaAttachment) (r : MediaRegistry)
    → process attachment (register p r) ≡ (
        if same_type p.supported_type attachment.media_type
        then p.process attachment
        else process attachment r)
unfolding process register
process-register p attachment r =
    elim (Bool-cases (same_type p.supported_type attachment.media_type)) [
      | inl e ↦
          rw (processor_for-put p.supported_type attachment.media_type p r, e, process, register)
            refl
      | inr e ↦
          rw (processor_for-put p.supported_type attachment.media_type p r, e, process, register)
            refl
    ]

-- With the built-in renderers, all types are supported but texts and PDFs.
pub supports-init :
    (markup lower : Chars → Chars) (fixed : ℕ → ℕ → Chars) (t : MediaType)
    → supports t (init markup lower fixed true) ≡ not (same_type t text || same_type t pdf)
unfolding init register put processor_for
supports-init markup lower fixed text = refl
supports-init markup lower fixed image = refl
supports-init markup lower fixed pdf = refl
supports-init markup lower fixed markdown = refl
supports-init markup lower fixed mermaid = refl
supports-init markup lower fixed file = refl
