-- ===== src/Pruning/Scan/Laws.antt =====
-- What the shared loop keeps, from what one visit keeps.
use mathlib.Core.List.Sublistᴰ
use mathlib.Core.List.{Sublistᴰ}
use agentcook.Prelude.{
  ℕ, suc, ◌+◌, ◌-◌, ◌≤◌, ◌≡◌, refl, ap, sym, ◌∙◌, Bool, true, false, List, [], ◌∷◌, ◌++◌, inl, inr,
  arith, subst, take, take-append-drop, length, drop, drop-nil, leb, leb→le, keep_if, Bool-cases,
}
use agentcook.Chat.{Message, is_system}
use agentcook.Pruning.Scan.{PruningResult, no_change, scan}

module _ {S : Type 0} (visit : ℕ → S → Message → Bool × S) where
  -- One step of the loop, with its two outcomes.
  pub scan_kept :
      (idx : ℕ) (s : S) (m : Message) (ms : List Message)
      → (visit idx s m).0 ≡ true
      → scan visit idx s (m ∷ ms) ≡ (
        m ∷ (scan visit (idx + 1) (visit idx s m).1 ms).0,
        (scan visit (idx + 1) (visit idx s m).1 ms).1,
      )
  unfolding scan
  scan_kept idx s m ms e = rw e

  pub scan_dropped :
      (idx : ℕ) (s : S) (m : Message) (ms : List Message)
      → (visit idx s m).0 ≡ false
      → scan visit idx s (m ∷ ms) ≡ (
        (scan visit (idx + 1) (visit idx s m).1 ms).0,
        (scan visit (idx + 1) (visit idx s m).1 ms).1 + 1,
      )
  unfolding scan
  scan_dropped idx s m ms e = rw e

  -- Every turn is kept or counted.
  pub length-scan :
      (idx : ℕ) (s : S) (ms : List Message)
      → length (scan visit idx s ms).0 + (scan visit idx s ms).1 ≡ length ms
  unfolding scan
  length-scan idx s [] = omega arith
  length-scan idx s (m ∷ ms) = ground (arith, length-scan (idx + 1) (visit idx s m).1 ms)

  pub scan-sublist : (idx : ℕ) (s : S) (ms : List Message) → Sublistᴰ (scan visit idx s ms).0 ms
  scan-sublist idx s [] = unfold scan in Sublistᴰ.slnil
  scan-sublist idx s (m ∷ ms) = elim (Bool-cases (visit idx s m).0) [
    | inl e ↦
        rw (scan_kept idx s m ms e)
          (Sublistᴰ.cons-cons refl (scan-sublist (idx + 1) (visit idx s m).1 ms))
    | inr e ↦
        rw (scan_dropped idx s m ms e) (Sublistᴰ.cons (scan-sublist (idx + 1) (visit idx s m).1 ms))
  ]

  -- Two loops go on alike if they judge a turn alike and then go on alike.
  pub scan-cons_eq :
      (visit' : ℕ → S → Message → Bool × S) (idx idx' : ℕ) (s : S) (m : Message)
      (ms ms' : List Message)
      → visit idx s m ≡ visit' idx' s m
      → (scan visit (idx + 1) (visit idx s m).1 ms).0
        ≡ (scan visit' (idx' + 1) (visit idx s m).1 ms').0
      → (scan visit idx s (m ∷ ms)).0 ≡ (scan visit' idx' s (m ∷ ms')).0
  unfolding scan
  scan-cons_eq visit' idx idx' s m ms ms' v e = ground arith

  module _ (p : Message → Bool)
      (keeps : (idx : ℕ) (s : S) (m : Message) → p m ≡ true → (visit idx s m).0 ≡ true) where
    -- The turns of a kind that is always kept are all there, in their order.
    pub keep_if-scan :
        (idx : ℕ) (s : S) (ms : List Message) → keep_if p (scan visit idx s ms).0 ≡ keep_if p ms
    unfolding scan
    keep_if-scan idx s [] = refl
    keep_if-scan idx s (m ∷ ms) =
        ground (arith, keeps idx s m, keep_if-scan (idx + 1) (visit idx s m).1 ms)

  module _ (floor : ℕ)
      (protects : (idx : ℕ) (s : S) (m : Message) → floor ≤ idx → (visit idx s m).0 ≡ true) where
    -- From the floor on nothing is dropped.
    pub scan_protected :
        (idx : ℕ) (s : S) (ms : List Message) → floor ≤ idx → scan visit idx s ms ≡ (ms, 0)
    unfolding scan
    scan_protected idx s [] h = refl
    scan_protected idx s (m ∷ ms) h =
        ground (arith, protects idx s m, scan_protected (idx + 1) (visit idx s m).1 ms)

    -- What is kept ends with the protected turns.
    pub scan-tail :
        (idx : ℕ) (s : S) (ms : List Message)
        → (front : List Message) × ((scan visit idx s ms).0 ≡ front ++ drop (floor - idx) ms)
    scan-tail idx s [] = ([], unfold scan in sym (drop-nil (floor - idx)))
    scan-tail idx s (m ∷ ms) = elim (Bool-cases (leb floor idx)) [
      | inl over ↦
          let none_left : floor - idx ≡ 0 = ground arith in
          ([], rw none_left (ap (λ r. r.0) (scan_protected idx s (m ∷ ms) (leb→le _ _ over))))
      | inr below ↦
          let one_more : floor - idx ≡ suc (floor - (idx + 1)) = ground arith in
          let (front, e) = scan-tail (idx + 1) (visit idx s m).1 ms in
          elim (Bool-cases (visit idx s m).0) [
            | inl keep ↦ (
              m ∷ front,
              ap (λ r. r.0) (scan_kept idx s m ms keep) ∙ rw one_more (ap (λ l. m ∷ l) e),
            )
            | inr dropped ↦ (front, ap (λ r. r.0) (scan_dropped idx s m ms dropped) ∙ rw one_more e)
          ]
    ]

    pub dropped-le : (idx : ℕ) (s : S) (ms : List Message) → (scan visit idx s ms).1 ≤ floor - idx
    unfolding scan
    dropped-le idx s [] = omega arith
    dropped-le idx s (m ∷ ms) =
        ground (arith, protects idx s m, dropped-le (idx + 1) (visit idx s m).1 ms)

-- What every pruning of a history promises: no turn is changed, moved or made up, each one is kept
-- or counted, the system turns all stay, and so do the last `recent` turns.
pub record IsFaithful (recent : ℕ) (messages : List Message) (r : PruningResult) : Type 0 where
  pub sublist : Sublistᴰ r.messages messages
  pub counted : length r.messages + r.dropped_count ≡ length messages
  pub systems : keep_if is_system r.messages ≡ keep_if is_system messages
  pub tail :
      (front : List Message) × (r.messages ≡ front ++ drop (length messages - recent) messages)

pub no_change-IsFaithful :
    (recent : ℕ) (messages : List Message) → IsFaithful recent messages (no_change messages)
no_change-IsFaithful recent messages = record {
  sublist = Sublistᴰ.refl messages;
  counted = omega arith;
  systems = refl;
  tail = (take (length messages - recent) messages, sym (take-append-drop _ messages));
}

module _ {S : Type 0} (visit : ℕ → S → Message → Bool × S) (recent : ℕ) (s : S)
    (messages : List Message) where
  -- The loop is faithful if each visit keeps system turns, and those from the floor on.
  pub scan-IsFaithful :
      ((idx : ℕ) (s : S) (m : Message) → is_system m ≡ true → (visit idx s m).0 ≡ true)
      → ((idx : ℕ) (s : S) (m : Message)
          → length messages - recent ≤ idx
          → (visit idx s m).0 ≡ true)
      → IsFaithful recent messages (record {
        messages = (scan visit 0 s messages).0;
        dropped_count = (scan visit 0 s messages).1;
        metadata = [];
      })
  scan-IsFaithful systems protects = record {
    sublist = scan-sublist visit 0 s messages;
    counted = length-scan visit 0 s messages;
    systems = keep_if-scan visit is_system systems 0 s messages;
    tail =
        let whole : length messages - recent - 0 ≡ length messages - recent = omega arith in
        subst
          (λ k. (front : List Message) × ((scan visit 0 s messages).0 ≡ front ++ drop k messages))
          whole (scan-tail visit (length messages - recent) protects 0 s messages);
  }
