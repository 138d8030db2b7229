-- ===== src/Pruning/Duplicate/Laws.antt =====
-- What `DuplicatePruning.prune` keeps, and that a second run drops nothing.
use agentcook.Prelude.{
  String, ℕ, ◌+◌, ◌-◌, ◌≤◌, ◌≡◌, refl, ap, ◌∙◌, Bool, true, false, List, [], ◌∷◌, inl, inr, arith,
  length, drop, leb, ltb, le→leb, Bool-cases,
}
use agentcook.Chat.{Value, Message, is_system}
use agentcook.Pruning.Scan.{no_change, scan}
use agentcook.Pruning.Scan.Laws.{
  IsFaithful, scan-IsFaithful, no_change-IsFaithful, length-scan, scan_kept, scan_dropped,
  dropped-le,
}
use agentcook.Pruning.Duplicate.{DuplicatePruning, Trackers, reset, judge, visit, prune}

module _ (repr_items : List (String × Value) → String) where
  judge_system :
      (b : Bool) (t : Trackers) (m : Message)
      → is_system m ≡ true
      → (judge repr_items b t m).0 ≡ true
  unfolding judge
  judge_system b t m h = rw h

  judge_protected : (t : Trackers) (m : Message) → judge repr_items true t m ≡ (true, reset)
  unfolding judge
  judge_protected t m = ground arith

  -- A turn that is dropped leaves the trackers as they are.
  judge_dropped :
      (b : Bool) (t : Trackers) (m : Message)
      → (judge repr_items b t m).0 ≡ false
      → (judge repr_items b t m).1 ≡ t
  unfolding judge
  judge_dropped b t m h = ground arith

  module _ (floor : ℕ) where
    visit_protected :
        (idx : ℕ) (t : Trackers) (m : Message)
        → floor ≤ idx
        → (visit repr_items floor idx t m).0 ≡ true
    visit_protected idx t m h = rw (le→leb floor idx h) (ap (λ r. r.0) (judge_protected t m))

  -- The result of `DuplicatePruning.prune` is a sublist of the history in which every turn is kept or
  -- counted, every system turn stays, and the last `protect_recent` turns stay.
  pub prune-IsFaithful :
      (p : DuplicatePruning) (messages : List Message)
      → IsFaithful p.protect_recent messages (prune repr_items p messages)
  unfolding prune
  prune-IsFaithful p messages =
      let floor = length messages - p.protect_recent in
      elim (Bool-cases (ltb (length messages) 2)) [
        | inl short ↦ rw short (no_change-IsFaithful p.protect_recent messages)
        | inr long ↦ rw long (
            scan-IsFaithful (visit repr_items floor) p.protect_recent reset messages
              (λ idx t m. judge_system (leb floor idx) t m) (visit_protected floor))
      ]

  -- A second run of the loop over what the first kept, at a floor lower by what the first dropped,
  -- makes the same decisions.
  scan_again :
      (floor floor' idx idx' : ℕ) (t : Trackers) (ms : List Message)
      → floor' - idx' ≡ floor - idx - (scan (visit repr_items floor) idx t ms).1
      → scan (visit repr_items floor') idx' t (scan (visit repr_items floor) idx t ms).0
        ≡ ((scan (visit repr_items floor) idx t ms).0, 0)
  scan_again floor floor' idx idx' t [] h = unfold scan in refl
  scan_again floor floor' idx idx' t (m ∷ ms) h =
      elim (Bool-cases (visit repr_items floor idx t m).0) [
        | inl keep ↦
            let one = scan_kept (visit repr_items floor) idx t m ms keep in
            kept_again keep one (
              scan_again floor floor' (idx + 1) (idx' + 1) t' ms (omega (arith, ap (λ r. r.1) one)))
        | inr drop ↦
            let one = scan_dropped (visit repr_items floor) idx t m ms drop in
            let same = judge_dropped (leb floor idx) t m drop in
            rw one (
              rw same (
                scan_again floor floor' (idx + 1) idx' t ms (
                  omega (
                    arith,
                    ap (λ r. r.1) one,
                    ap (λ u. (scan (visit repr_items floor) (idx + 1) u ms).1) same,
                  ))))
      ]
    where
      t' : Trackers
      t' = (visit repr_items floor idx t m).1

      rest : List Message × ℕ
      rest = scan (visit repr_items floor) (idx + 1) t' ms

      kept_again :
          (visit repr_items floor idx t m).0 ≡ true
          → scan (visit repr_items floor) idx t (m ∷ ms) ≡ (m ∷ rest.0, rest.1)
          → scan (visit repr_items floor') (idx' + 1) t' rest.0 ≡ (rest.0, 0)
          → scan (visit repr_items floor') idx' t (scan (visit repr_items floor) idx t (m ∷ ms)).0
            ≡ ((scan (visit repr_items floor) idx t (m ∷ ms)).0, 0)
      kept_again keep one again =
          let few : rest.1 ≤ floor - (idx + 1) =
            dropped-le (visit repr_items floor) floor (visit_protected floor) (idx + 1) t' ms in
          let d : (scan (visit repr_items floor) idx t (m ∷ ms)).1 ≡ rest.1 = ap (λ r. r.1) one in
          let zone : leb floor' idx' ≡ leb floor idx = ground arith in
          let same = ap (λ b. judge repr_items b t m) zone in
          rw one (
            scan_kept (visit repr_items floor') idx' t m rest.0 (ap (λ r. r.0) same ∙ keep)
            ∙ ap
                (λ (u : Trackers). (
                  m ∷ (scan (visit repr_items floor') (idx' + 1) u rest.0).0,
                  (scan (visit repr_items floor') (idx' + 1) u rest.0).1,
                ))
                (ap (λ r. r.1) same)
            ∙ ap (λ (r : List Message × ℕ). (m ∷ r.0, r.1)) again)

  -- Pruning what `DuplicatePruning.prune` left drops nothing more.
  pub prune-prune :
      (p : DuplicatePruning) (messages : List Message)
      → prune repr_items p (prune repr_items p messages).messages
        ≡ no_change (prune repr_items p messages).messages
  unfolding prune
  prune-prune p messages = elim (Bool-cases (ltb (length messages) 2)) [
    | inl short ↦ rw short (rw short refl)
    | inr long ↦
        let floor = length messages - p.protect_recent in
        let kept = (scan (visit repr_items floor) 0 reset messages).0 in
        let floor' = length kept - p.protect_recent in
        let again =
          scan_again floor floor' 0 0 reset messages
            (omega (arith, length-scan (visit repr_items floor) 0 reset messages)) in
        rw long (elim (Bool-cases (ltb (length kept) 2)) [
          | inl few ↦ rw few
          | inr many ↦ rw (many, again)
        ])
  ]
