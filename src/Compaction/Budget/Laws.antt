-- ===== src/Compaction/Budget/Laws.antt =====
-- What `TokenBudgetPruning.compact` keeps.
use mathlib.Core.List.{
  append-nil, append_cancel_right, concat-ne-nil, append_assoc, reverse-append, reverse-reverse,
}
use agentcook.Prelude.{
  String, ℕ, ◌+◌, ◌-◌, ◌≤◌, ◌<◌, min, ◌≡◌, ◌⊎◌, ◌∙◌, refl, sym, ap, Bool, false, List, [], ◌∷◌,
  ◌++◌, arith, inl, inr, length, leb, ltb, ◌||◌, ◌&&◌, Bool-cases, take, reverse, length-append,
  take-length-append, length-reverse, not, is_empty, none,
}
use agentcook.Prelude.Results.{Result, ok, raise}
use agentcook.Chat.{Value, Message}
use agentcook.Compaction.Count.{CompactionResult, count, count-append, count-cons, count-nil}
use agentcook.Compaction.Budget.{
  TokenBudgetPruning, should_compact, collect, recent_of, pruned_of, compact, summary_of,
}

module _ (str_arguments : List (String × Value) → String) (p : TokenBudgetPruning) (pre : ℕ) where
  abbrev tokens : List Message → ℕ
  tokens = count str_arguments p.counter

  -- What the loop leaves in `recent`, from `rev` to go and `recent` already there.
  record Collected (rev recent r : List Message) : Type 0 where
    front : List Message
    split : reverse rev ++ recent ≡ front ++ r
    enough : min p.min_recent (length rev + length recent) ≤ length r
    fits : (length r ≤ p.min_recent) ⊎ (tokens r + pre ≤ p.budget)
    full :
        (front ≡ [])
        ⊎ ((f : List Message) × (m : Message) × (front ≡ f ++ m ∷ [])
            × (p.budget ≤ tokens (m ∷ r) + pre))

  reverse-cons : (m : Message) (ms : List Message) → reverse (m ∷ ms) ≡ reverse ms ++ m ∷ []
  reverse-cons m ms = reverse-append (m ∷ []) ms

  reverse-cons-append :
      (m : Message) (ms recent : List Message)
      → reverse (m ∷ ms) ++ recent ≡ reverse ms ++ m ∷ recent
  reverse-cons-append m ms recent =
      ap (λ l. l ++ recent) (reverse-cons m ms) ∙ append_assoc (reverse ms) (m ∷ []) recent

  -- The loop stops with messages to go.
  Collected-stop :
      (rev recent : List Message)
      → p.min_recent ≤ length recent
      → (length recent ≤ p.min_recent) ⊎ (tokens recent + pre ≤ p.budget)
      → ((m : Message) (ms : List Message) → rev ≡ m ∷ ms → p.budget ≤ tokens (m ∷ recent) + pre)
      → Collected rev recent recent
  Collected-stop [] recent e f h = record {
    front = [];
    split = refl;
    enough = omega arith;
    fits = f;
    full = inl refl;
  }
  Collected-stop (m ∷ ms) recent e f h = record {
    front = reverse (m ∷ ms);
    split = refl;
    enough = omega arith;
    fits = f;
    full = inr (reverse ms, m, reverse-cons m ms, h m ms refl);
  }

  Collected-cons :
      {m : Message} {ms recent r : List Message}
      → Collected ms (m ∷ recent) r
      → Collected (m ∷ ms) recent r
  Collected-cons {m} {ms} {recent} c = record {
    front = c.front;
    split = reverse-cons-append m ms recent ∙ c.split;
    enough = omega (arith, c.enough);
    fits = c.fits;
    full = c.full;
  }

  -- The two tests of the loop body.
  abbrev takes : Message → List Message → ℕ → Bool
  takes m recent n = ltb (length recent) p.min_recent || leb (n + tokens (m ∷ []) + pre) p.budget

  abbrev breaks : Message → List Message → ℕ → Bool
  breaks m recent n =
      leb p.min_recent (length (m ∷ recent)) && leb p.budget (n + tokens (m ∷ []) + pre)

  collect-Collected :
      (rev recent : List Message) (n : ℕ)
      → n ≡ tokens recent
      → (length recent ≤ p.min_recent) ⊎ (tokens recent + pre ≤ p.budget)
      → Collected rev recent (collect str_arguments p pre rev recent n)
  unfolding collect
  collect-Collected [] recent n e f = record {
    front = [];
    split = refl;
    enough = omega arith;
    fits = f;
    full = inl refl;
  }
  collect-Collected (m ∷ ms) recent n e f =
      let c : tokens (m ∷ recent) ≡ tokens (m ∷ []) + tokens recent =
        count-cons str_arguments p.counter m recent in
      elim (Bool-cases (takes m recent n)) [
        | inl taken ↦ elim (Bool-cases (breaks m recent n)) [
          | inl full ↦
              rw (taken, full)
                (Collected-cons (
                  Collected-stop ms (m ∷ recent) (ground arith) (ground arith)
                    (λ m' _ _. ground (arith, count-cons str_arguments p.counter m' (m ∷ recent)))))
          | inr more ↦
              rw (taken, more)
                (Collected-cons (
                  collect-Collected ms (m ∷ recent) (n + tokens (m ∷ [])) (omega arith)
                    (ground arith)))
        ]
        | inr over ↦
            rw over
              (Collected-stop (m ∷ ms) recent (ground arith) f (λ m' ms' same. ground (arith, c)))
      ]

last_of_snoc : (xs ys : List Message) (a b : Message) → xs ++ a ∷ [] ≡ ys ++ b ∷ [] → a ≡ b
last_of_snoc xs ys a b e = cc (reverse-append xs (a ∷ []), reverse-append ys (b ∷ []), ap reverse e)

module _ (str_arguments : List (String × Value) → String) (p : TokenBudgetPruning)
    (messages : List Message) where
  abbrev total : List Message → ℕ
  total = count str_arguments p.counter

  abbrev kept : List Message
  kept = recent_of str_arguments p messages

  abbrev pruned : List Message
  pruned = pruned_of str_arguments p messages

  kept-Collected : Collected str_arguments p (total p.preamble) (reverse messages) [] kept
  unfolding recent_of
  kept-Collected =
      collect-Collected str_arguments p (total p.preamble) (reverse messages) [] 0
        (sym (count-nil str_arguments p.counter)) (inl (omega arith))

  messages-split : messages ≡ (kept-Collected).front ++ kept
  messages-split =
      sym (reverse-reverse messages)
      ∙ sym (append-nil (reverse (reverse messages)))
      ∙ kept-Collected.split

  pruned-front : pruned ≡ kept-Collected.front
  unfolding pruned_of
  pruned-front =
      let front = kept-Collected.front in
      let n : length messages - length kept ≡ length front =
        omega (arith, ap length messages-split, length-append front kept) in
      ap (λ (k : ℕ). take k messages) n
      ∙ ap (take (length front)) messages-split
      ∙ take-length-append front kept

  -- The turns that are kept are at least the newest `min_recent_turns`, or all of a shorter history.
  pub min_recent-le-length :
      min p.min_recent (length messages) ≤ length (recent_of str_arguments p messages)
  min_recent-le-length = omega (arith, kept-Collected.enough, length-reverse messages)

  -- No turn is left out without need: with the newest of the turns that were left out, preamble and
  -- kept turns would use up the whole budget or more.
  pub budget-le-count :
      (older : List Message) (m : Message)
      → messages ≡ (older ++ m ∷ []) ++ recent_of str_arguments p messages
      → p.budget
        ≤ count str_arguments p.counter (m ∷ recent_of str_arguments p messages)
          + count str_arguments p.counter p.preamble
  budget-le-count older m e =
      let front = append_cancel_right _ _ kept (sym e ∙ messages-split) in
      elim kept-Collected.full [
        | inl none_left ↦ absurd (concat-ne-nil m older (front ∙ none_left))
        | inr (f, m', last, h) ↦ rw (last_of_snoc older f m m' (front ∙ last)) h
      ]

  -- Pruned and kept turns, one after the other, are the history. If it is over the budget and
  -- `compact` returns, the result is the preamble, the summary of the pruned turns if there is one,
  -- and the kept turns; the counts are those of the pruned turns and of that summary.
  pub compact-split :
      (r : CompactionResult)
      → p.budget < count str_arguments p.counter messages
      → compact str_arguments p messages ≡ ok r
      → (pruned_of str_arguments p messages ++ recent_of str_arguments p messages ≡ messages)
        × (r.dropped_count ≡ length (pruned_of str_arguments p messages))
        × (summary : List Message) × (summary_of p.summarizer (pruned_of str_arguments p messages)
            ≡ ok summary)
        × (r.messages ≡ p.preamble ++ (summary ++ recent_of str_arguments p messages))
        × (r.summary_inserted ≡ not (is_empty summary))
  unfolding compact
  compact-split r over h = split_by (summary_of p.summarizer pruned) refl
    where
      split_by :
          (s : Result (List Message))
          → summary_of p.summarizer pruned ≡ s
          → (pruned ++ kept ≡ messages)
            × (r.dropped_count ≡ length pruned)
            × (summary : List Message) × (summary_of p.summarizer pruned ≡ ok summary)
            × (r.messages ≡ p.preamble ++ (summary ++ kept))
            × (r.summary_inserted ≡ not (is_empty summary))
      split_by (ok summary) e = (
        ap (λ l. l ++ kept) pruned-front ∙ sym messages-split,
        ground arith,
        summary,
        e,
        ground arith,
        ground arith,
      )
      split_by (raise x) e = absurd (ground arith)

  -- Without a summarizer, the result of a history over the budget fits the budget, unless it keeps
  -- no more than the `min_recent_turns` turns that are always kept.
  pub count-compact :
      (r : CompactionResult)
      → p.summarizer ≡ none
      → p.budget < count str_arguments p.counter messages
      → compact str_arguments p messages ≡ ok r
      → (length (recent_of str_arguments p messages) ≤ p.min_recent)
        ⊎ (count str_arguments p.counter r.messages ≤ p.budget)
  unfolding summary_of
  count-compact r none_given over h =
      let (_, _, summary, made, e, _) = compact-split r over h in
      let empty : summary ≡ [] = ground (arith, made) in
      elim kept-Collected.fits [
        | inl few ↦ inl few
        | inr fits ↦ inr (
            rw e (
              rw empty (omega (arith, count-append str_arguments p.counter p.preamble kept, fits))))
      ]

  -- Where `should_compact` answers no, whatever the model window, `compact` returns the history
  -- as it is.
  pub compact-should_compact :
      (window : ℕ)
      → should_compact str_arguments p messages window ≡ false
      → compact str_arguments p messages
        ≡ ok (record {
          messages = messages;
          dropped_count = 0;
          summary_inserted = false;
          metadata = [];
        })
  unfolding should_compact compact
  compact-should_compact window h = ground arith
