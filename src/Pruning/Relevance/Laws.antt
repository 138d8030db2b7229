-- ===== src/Pruning/Relevance/Laws.antt =====
-- What `RelevancePruning.prune` keeps.
use mathlib.Core.List.Sublistᴰ
use mathlib.Core.List.{Sublistᴰ}
use agentcook.Prelude.{
  String, ℕ, ◌+◌, ◌-◌, ◌≤◌, ◌≡◌, refl, Bool, true, List, [], ◌∷◌, arith, length, inl, inr,
  Bool-cases,
}
use agentcook.Prelude.Strings.{truthy}
use agentcook.Prelude.Floats.{Floats}
use agentcook.Chat.{Message, is_system}
use agentcook.Pruning.Scan.{scan}
use agentcook.Pruning.Scan.Laws.{
  IsFaithful, scan-IsFaithful, no_change-IsFaithful, scan_kept, scan_dropped,
}
use agentcook.Pruning.Relevance.{RelevancePruning, visit, score, anchor_of, prune}

module _ (fl : Floats) (p : RelevancePruning fl) where
  visit_system :
      (anchor : String) (count idx : ℕ) (s : Unit {0}) (m : Message)
      → is_system m ≡ true
      → (visit fl p anchor count idx s m).0 ≡ true
  unfolding visit
  visit_system anchor count idx s m h = rw h

  visit_protected :
      (anchor : String) (count idx : ℕ) (s : Unit {0}) (m : Message)
      → count - p.protect_recent ≤ idx
      → (visit fl p anchor count idx s m).0 ≡ true
  unfolding visit
  visit_protected anchor count idx s m h = ground arith

  -- The result of `RelevancePruning.prune`, whatever the embeddings, is a sublist of the history in
  -- which every turn is kept or counted, every system turn stays, and the last `protect_recent` turns
  -- stay.
  pub prune_relevant-IsFaithful :
      (messages : List Message) → IsFaithful p.protect_recent messages (prune fl p messages)
  unfolding prune
  prune_relevant-IsFaithful [] = no_change-IsFaithful p.protect_recent []
  prune_relevant-IsFaithful (m ∷ ms) =
      let anchor = anchor_of fl p (m ∷ ms) in
      elim (Bool-cases (truthy anchor)) [
        | inl known ↦ rw known (
            scan-IsFaithful (visit fl p anchor (length (m ∷ ms))) p.protect_recent tt (m ∷ ms)
              (visit_system anchor _) (visit_protected anchor _))
        | inr missing ↦ rw missing (no_change-IsFaithful p.protect_recent (m ∷ ms))
      ]

-- What is kept by a test that passes less often is a sublist of what is kept by the other.
scan_mono :
    (strict loose : ℕ → Unit {0} → Message → Bool × Unit {0}) (idx : ℕ) (s s' : Unit {0})
    (ms : List Message)
    → ((idx : ℕ) (s s' : Unit {0}) (m : Message)
        → (strict idx s m).0 ≡ true
        → (loose idx s' m).0 ≡ true)
    → Sublistᴰ (scan strict idx s ms).0 (scan loose idx s' ms).0
scan_mono strict loose idx s s' [] h = unfold scan in Sublistᴰ.slnil
scan_mono strict loose idx s s' (m ∷ ms) h =
    let rest = scan_mono strict loose (idx + 1) (strict idx s m).1 (loose idx s' m).1 ms h in
    elim (Bool-cases (strict idx s m).0) [
      | inl keep ↦
          rw (scan_kept strict idx s m ms keep)
            (rw (scan_kept loose idx s' m ms (h idx s s' m keep)) (Sublistᴰ.cons-cons refl rest))
      | inr drop ↦ rw (scan_dropped strict idx s m ms drop) (elim (Bool-cases (loose idx s' m).0) [
        | inl keep ↦ rw (scan_kept loose idx s' m ms keep) (Sublistᴰ.cons rest)
        | inr out ↦ rw (scan_dropped loose idx s' m ms out) rest
      ])
    ]

module _ (fl : Floats) (p : RelevancePruning fl) (higher : fl.Float) where
  abbrev stricter : RelevancePruning fl
  stricter = record p { min_score = higher }

  visit-stricter :
      (anchor : String) (count : ℕ)
      → ((x : fl.Float) → fl.le higher x ≡ true → fl.le p.min_score x ≡ true)
      → (idx : ℕ) (s s' : Unit {0}) (m : Message)
      → (visit fl stricter anchor count idx s m).0 ≡ true
      → (visit fl p anchor count idx s' m).0 ≡ true
  unfolding visit score
  visit-stricter anchor count above idx s s' m h =
      ground (arith, above (score fl p anchor (count - 1 - idx) m.content))

  -- A higher `min_score` only drops more: the turns kept under it are a sublist of those kept under
  -- the lower one.
  pub prune_stricter-sublist :
      (messages : List Message)
      → ((x : fl.Float) → fl.le higher x ≡ true → fl.le p.min_score x ≡ true)
      → Sublistᴰ (prune fl stricter messages).messages (prune fl p messages).messages
  unfolding prune
  prune_stricter-sublist [] above = Sublistᴰ.refl []
  prune_stricter-sublist (m ∷ ms) above =
      let anchor = anchor_of fl p (m ∷ ms) in
      elim (Bool-cases (truthy anchor)) [
        | inl known ↦ rw known (
            scan_mono (visit fl stricter anchor (length (m ∷ ms)))
              (visit fl p anchor (length (m ∷ ms))) 0 tt tt (m ∷ ms)
              (visit-stricter anchor (length (m ∷ ms)) above))
        | inr missing ↦ rw missing (Sublistᴰ.refl (m ∷ ms))
      ]
