-- ===== src/Pruning/Duplicate/Repeats.antt =====
-- Which of two equal user messages `DuplicatePruning.prune` drops.
use agentcook.Prelude.{
  String, ℕ, ◌+◌, ◌-◌, ◌≤◌, ◌<◌, ◌≡◌, refl, ap, sym, ◌∙◌, false, List, [], ◌∷◌, ◌++◌, some, arith,
  length, leb, le→ltb, eq_refl, eq_iff, Option-cases, inl, inr, All, length-append,
}
use agentcook.Prelude.Strings.{truthy}
use agentcook.Chat.{Value, Message, user, assistant}
use agentcook.Pruning.Scan.{scan}
use agentcook.Pruning.Scan.Laws.{scan-cons_eq, scan_dropped}
use agentcook.Pruning.Duplicate.{DuplicatePruning, Trackers, reset, judge, visit, prune}

-- An assistant turn with no text: empty, or tool calls only.
abbrev pub IsQuiet : Message → Type 0
IsQuiet m = (m.role ≡ assistant) × (truthy m.content ≡ false)

module _ (repr_items : List (String × Value) → String) where
  -- After a user turn before the floor, its text is the last one, kept or not.
  judge-user :
      (t : Trackers) (m : Message)
      → m.role ≡ user
      → (judge repr_items false t m).1.last_user ≡ some m.content
  unfolding judge
  judge-user t m h = elim (Option-cases t.last_user) [
    | inl e ↦ ground arith
    | inr (last, e) ↦ ground (arith, eq_iff m.content last)
  ]

  judge_quiet :
      (t : Trackers) (m : Message)
      → IsQuiet m
      → (judge repr_items false t m).1.last_user ≡ t.last_user
  unfolding judge
  judge_quiet t m h = ground arith

  judge_repeat :
      (t : Trackers) (m : Message)
      → m.role ≡ user
      → t.last_user ≡ some m.content
      → judge repr_items false t m ≡ (false, t)
  unfolding judge
  judge_repeat t m r h = ground (arith, eq_refl m.content)

  scan_shift :
      (floor floor' idx idx' : ℕ) (t : Trackers) (ms : List Message)
      → floor - idx ≡ floor' - idx'
      → (scan (visit repr_items floor) idx t ms).0 ≡ (scan (visit repr_items floor') idx' t ms).0
  scan_shift floor floor' idx idx' t [] h = unfold scan in refl
  scan_shift floor floor' idx idx' t (m ∷ ms) h =
      let zone : leb floor idx ≡ leb floor' idx' = ground arith in
      scan-cons_eq (visit repr_items floor) (visit repr_items floor') idx idx' t m ms ms
        (ap (λ b. judge repr_items b t m) zone)
        (scan_shift floor floor' (idx + 1) (idx' + 1) _ ms (omega arith))

  -- The turns between keep the last user text, so that `b` falls out, and the rest goes on alike.
  scan_between :
      (floor idx : ℕ) (t : Trackers) (between : List Message) (b : Message) (rest : List Message)
      → All IsQuiet between
      → b.role ≡ user
      → t.last_user ≡ some b.content
      → idx + length between < floor
      → (scan (visit repr_items floor) idx t (between ++ b ∷ rest)).0
        ≡ (scan (visit repr_items (floor - 1)) idx t (between ++ rest)).0
  scan_between floor idx t [] b rest q r h lt =
      let before : leb floor idx ≡ false = ground arith in
      let out = judge_repeat t b r h in
      ap (λ x. x.0)
        (scan_dropped (visit repr_items floor) idx t b rest (rw before (ap (λ x. x.0) out)))
      ∙ (rw (before, out) (scan_shift floor (floor - 1) (idx + 1) idx t rest (omega arith)))
  scan_between floor idx t (m ∷ ms) b rest q r h lt =
      let before : leb floor idx ≡ false = ground arith in
      let before' : leb (floor - 1) idx ≡ false = ground arith in
      scan-cons_eq (visit repr_items floor) (visit repr_items (floor - 1)) idx idx t m _ _
        (ap (λ z. judge repr_items z t m) (before ∙ sym before'))
        (rw before (
          scan_between floor (idx + 1) (judge repr_items false t m).1 ms b rest q.1 r
            (judge_quiet t m q.0 ∙ h) (omega arith)))

  scan_front :
      (floor idx : ℕ) (t : Trackers) (front : List Message) (a : Message) (between : List Message)
      (b : Message) (rest : List Message)
      → a.role ≡ user
      → All IsQuiet between
      → b.role ≡ user
      → a.content ≡ b.content
      → idx + length front + length between + 1 < floor
      → (scan (visit repr_items floor) idx t (front ++ a ∷ (between ++ b ∷ rest))).0
        ≡ (scan (visit repr_items (floor - 1)) idx t (front ++ a ∷ (between ++ rest))).0
  scan_front floor idx t [] a between b rest ra q rb same lt =
      let before : leb floor idx ≡ false = ground arith in
      let before' : leb (floor - 1) idx ≡ false = ground arith in
      scan-cons_eq (visit repr_items floor) (visit repr_items (floor - 1)) idx idx t a _ _
        (ap (λ z. judge repr_items z t a) (before ∙ sym before'))
        (rw before (
          scan_between floor (idx + 1) (judge repr_items false t a).1 between b rest q rb
            (judge-user t a ra ∙ ap some same) (omega arith)))
  scan_front floor idx t (m ∷ ms) a between b rest ra q rb same lt =
      let before : leb floor idx ≡ false = ground arith in
      let before' : leb (floor - 1) idx ≡ false = ground arith in
      scan-cons_eq (visit repr_items floor) (visit repr_items (floor - 1)) idx idx t m _ _
        (ap (λ z. judge repr_items z t m) (before ∙ sym before'))
        (rw before (
          scan_front floor (idx + 1) (judge repr_items false t m).1 ms a between b rest ra q rb same
            (omega arith)))

  length-history :
      (front : List Message) (a : Message) (between rest : List Message)
      → length (front ++ a ∷ (between ++ rest)) ≡ length front + length between + length rest + 1
  length-history front a between rest =
      omega (arith, length-append front (a ∷ (between ++ rest)), length-append between rest)

  -- Where at least one turn is protected: of two user turns with the same text, both before the
  -- protected turns and with nothing but text-free assistant turns between, the later has no part in
  -- the result. The history without it is pruned to the same messages.
  pub prune-repeat :
      (p : DuplicatePruning) (front : List Message) (a : Message) (between : List Message)
      (b : Message) (rest : List Message)
      → a.role ≡ user
      → All IsQuiet between
      → b.role ≡ user
      → a.content ≡ b.content
      → 0 < p.protect_recent
      → p.protect_recent ≤ length rest
      → (prune repr_items p (front ++ a ∷ (between ++ b ∷ rest))).messages
        ≡ (prune repr_items p (front ++ a ∷ (between ++ rest))).messages
  unfolding prune
  prune-repeat p front a between b rest ra q rb same pos enough =
      let n = length-history front a between (b ∷ rest) in
      let n' = length-history front a between rest in
      rw (le→ltb (length (front ++ a ∷ (between ++ b ∷ rest))) 2 (omega (arith, n))) (
        rw (le→ltb (length (front ++ a ∷ (between ++ rest))) 2 (omega (arith, n'))) (
          scan_front _ 0 reset front a between b rest ra q rb same (omega (arith, n))
          ∙ ap (λ k. (scan (visit repr_items k) 0 reset (front ++ a ∷ (between ++ rest))).0)
              (omega (arith, n, n'))))
