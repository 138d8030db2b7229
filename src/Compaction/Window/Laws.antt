-- ===== src/Compaction/Window/Laws.antt =====
-- What `SlidingWindowCompaction.compact` keeps.
use agentcook.Prelude.{
  ℕ, ◌+◌, ◌-◌, ◌≤◌, ◌<◌, ◌≡◌, ◌≢◌, refl, ap, List, ◌++◌, arith, inl, inr, length, leb, leb→le,
  leb→lt, ◌∙◌, Bool-cases, last_slice, length-last_slice, length-append, drop-length-append, ◌==◌,
}
use agentcook.Prelude.Floats.{Floats}
use agentcook.Chat.{Message}
use agentcook.Compaction.Window.{SlidingWindowCompaction, compact}

-- The newest turns of a list that ends in `ys`, when the window is as long as `ys`.
last_slice-append :
    (k : ℕ) (xs ys : List Message) → k ≢ 0 → length ys ≡ k → last_slice k (xs ++ ys) ≡ ys
last_slice-append k xs ys h e = elim (Bool-cases (k == 0)) [
  | inl z ↦ absurd (h (ground arith))
  | inr z ↦
      let n : length (xs ++ ys) - k ≡ length xs = omega (arith, length-append xs ys) in
      rw z (rw n (drop-length-append xs ys))
]

module _ (fl : Floats) (s : SlidingWindowCompaction fl) (messages : List Message) where
  -- What is dropped and what is kept make up the history: the result is the preamble before the
  -- newest `window_size` turns, and `dropped_count` is the number of turns left out. A history that
  -- fits the window comes back as it is.
  pub compact-last_slice :
      s.window ≢ 0
      → (length messages ≤ s.window
          → ((compact fl s messages).messages ≡ messages)
            × ((compact fl s messages).dropped_count ≡ 0))
        × (s.window < length messages
            → ((compact fl s messages).messages ≡ s.preamble ++ last_slice s.window messages)
              × (length (last_slice s.window messages) ≡ s.window)
              × ((compact fl s messages).dropped_count + s.window ≡ length messages))
  unfolding compact
  compact-last_slice h =
      (λ short. ground arith, λ long. ground (arith, length-last_slice s.window messages h))

-- To compact what was compacted changes no message: the preamble is not repeated, and the window
-- does not slide on.
pub compact-compact :
    (fl : Floats) (s : SlidingWindowCompaction fl) (messages : List Message)
    → s.window ≢ 0
    → (compact fl s (compact fl s messages).messages).messages ≡ (compact fl s messages).messages
compact-compact fl s messages h = elim (Bool-cases (leb (length messages) s.window)) [
  | inl short ↦
      ap (λ l. (compact fl s l).messages)
        (((compact-last_slice fl s messages h).0 (ground arith)).0)
  | inr long ↦
      let (e, l, _) = (compact-last_slice fl s messages h).1 (ground arith) in
      rw e (again s.preamble (last_slice s.window messages) refl l)
]
  where
    again :
        (xs ys : List Message)
        → xs ≡ s.preamble
        → length ys ≡ s.window
        → (compact fl s (xs ++ ys)).messages ≡ s.preamble ++ ys
    again xs ys x l = elim (Bool-cases (leb (length (xs ++ ys)) s.window)) [
      | inl short ↦
          ((compact-last_slice fl s (xs ++ ys) h).0 (leb→le _ _ short)).0 ∙ ap (λ l. l ++ ys) x
      | inr long ↦
          ((compact-last_slice fl s (xs ++ ys) h).1 (leb→lt _ _ long)).0
          ∙ ap (λ l. s.preamble ++ l) (last_slice-append s.window xs ys h l)
    ]
