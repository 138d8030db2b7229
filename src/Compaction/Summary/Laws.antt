-- ===== src/Compaction/Summary/Laws.antt =====
-- What `SummaryCompaction.compact` keeps, and how long its result is.
use agentcook.Prelude.{
  String, ◌+◌, ◌≤◌, ◌<◌, min, ◌≡◌, ◌≢◌, inl, inr, refl, ap, true, false, List, ◌∷◌, ◌++◌, arith,
  length, ltb, leb, Bool-cases, last_slice, init_slice, init-append-last, length-last_slice,
  length-append,
}
use agentcook.Prelude.Floats.{Floats}
use agentcook.Prelude.Results.{Error, Result, ok, raise, ok_of_ne_raise}
use agentcook.Chat.{Message}
use agentcook.Compaction.Count.{CompactionResult, summarize}
use agentcook.Compaction.Summary.{SummaryCompaction, compact, summary_message}

-- The three shapes of a result: the input itself, the preamble before the whole input, and the
-- preamble and one summary before the newest turns.
pub data Outcome {fl : Floats} (s : SummaryCompaction fl) (messages : List Message)
    (r : CompactionResult) : Type 0 where
  untouched :
      length messages ≤ s.keep_recent
      → r.messages ≡ messages
      → r.dropped_count ≡ 0
      → r.summary_inserted ≡ false
      → Outcome s messages r
  preamble_only :
      s.keep_recent < length messages
      → length messages < s.keep_recent + s.min_to_summarize
      → r.messages ≡ s.preamble ++ messages
      → r.dropped_count ≡ 0
      → r.summary_inserted ≡ false
      → Outcome s messages r
  summarized :
      (older recent : List Message) (summary : String)
      → older ++ recent ≡ messages
      → length recent ≡ s.keep_recent
      → s.min_to_summarize ≤ length older
      → s.summarizer older ≡ ok summary
      → r.messages ≡ s.preamble ++ (summary_message fl summary older ∷ recent)
      → r.dropped_count ≡ length older
      → r.summary_inserted ≡ true
      → Outcome s messages r

module _ (fl : Floats) (s : SummaryCompaction fl) (messages : List Message)
    (keeps : s.keep_recent ≢ 0) where
  abbrev older : List Message
  older = init_slice s.keep_recent messages

  abbrev recent : List Message
  recent = last_slice s.keep_recent messages

  length-older : length older + min s.keep_recent (length messages) ≡ length messages
  length-older = omega (
    arith,
    ap length (init-append-last s.keep_recent messages keeps),
    length-append older recent,
    length-last_slice s.keep_recent messages keeps,
  )

  compact_summarized :
      (r : CompactionResult) (summary : Result String)
      → s.summarizer older ≡ summary
      → s.keep_recent < length messages
      → s.min_to_summarize ≤ length older
      → compact fl s messages ≡ ok r
      → Outcome s messages r
  unfolding compact
  compact_summarized r (ok summary) e long enough h =
      summarized older recent summary (init-append-last s.keep_recent messages keeps)
        (omega (arith, length-last_slice s.keep_recent messages keeps)) enough e (ground arith)
        (ground arith) (ground arith)
  compact_summarized r (raise x) e long enough h = absurd (ground arith)

  compact_preamble_only :
      (r : CompactionResult)
      → s.keep_recent < length messages
      → length older < s.min_to_summarize
      → compact fl s messages ≡ ok r
      → Outcome s messages r
  unfolding compact
  compact_preamble_only r long few h =
      preamble_only long (omega (arith, length-older))
        (ground (arith, init-append-last s.keep_recent messages keeps)) (ground arith)
        (ground arith)

  -- If `compact` returns, and `keep_recent` is not 0, the result has one of the three shapes, with
  -- the conditions under which each arises and the counts that go with it.
  pub compact-Outcome : (r : CompactionResult) → compact fl s messages ≡ ok r → Outcome s messages r
  unfolding compact
  compact-Outcome r h = elim (Bool-cases (leb (length messages) s.keep_recent)) [
    | inl short ↦ untouched (ground arith) (ground arith) (ground arith) (ground arith)
    | inr long ↦ elim (Bool-cases (ltb (length older) s.min_to_summarize)) [
      | inl few ↦ compact_preamble_only r (ground arith) (ground arith) h
      | inr enough ↦ compact_summarized r _ refl (ground arith) (ground arith) h
    ]
  ]

Outcome-length :
    {fl : Floats} (s : SummaryCompaction fl) (messages : List Message) (r : CompactionResult)
    → Outcome s messages r
    → 0 < s.min_to_summarize
    → length r.messages ≤ length s.preamble + s.keep_recent + s.min_to_summarize
Outcome-length s messages r (untouched short e _ _) pos = omega (arith, ap length e)
Outcome-length s messages r (preamble_only _ few e _ _) pos =
    omega (arith, ap length e, length-append s.preamble messages)
Outcome-length {fl} s messages r (summarized older recent summary _ l _ _ e _ _) pos =
    omega (arith, ap length e, length-append s.preamble (summary_message fl summary older ∷ recent))

-- If `compact` of a validated strategy returns, its result is no longer than the preamble, the
-- recent turns and `min_to_summarize` together, however long the history was.
pub length-compact :
    (fl : Floats) (s : SummaryCompaction fl) (messages : List Message) (r : CompactionResult)
    → 0 < s.keep_recent
    → 0 < s.min_to_summarize
    → compact fl s messages ≡ ok r
    → length r.messages ≤ length s.preamble + s.keep_recent + s.min_to_summarize
length-compact fl s messages r keeps pos h =
    Outcome-length s messages r (compact-Outcome fl s messages (omega arith) r h) pos

summarize-ne-raise :
    (fn : String → Result String) (messages : List Message) (x : Error)
    → summarize fn messages ≢ raise x
unfolding summarize
summarize-ne-raise fn messages x = ground arith

compact-ne-raise :
    (fl : Floats) (s : SummaryCompaction fl) (messages : List Message)
    → ((older : List Message) (x : Error) → s.summarizer older ≢ raise x)
    → (x : Error) → compact fl s messages ≢ raise x
unfolding compact
compact-ne-raise fl s messages never x = ground (arith, never (init_slice s.keep_recent messages) x)

-- With `MemorySummarizer` as its summarizer, `compact` returns on every history, whatever the
-- injected callable does, also when it raises.
pub compact-summarize :
    (fl : Floats) (s : SummaryCompaction fl) (fn : String → Result String) (messages : List Message)
    → s.summarizer ≡ summarize fn
    → (r : CompactionResult) × (compact fl s messages ≡ ok r)
compact-summarize fl s fn messages e =
    ok_of_ne_raise (compact fl s messages)
      (compact-ne-raise fl s messages (λ older x. rw e (summarize-ne-raise fn older x)))
