-- ===== src/Pruning/Scan.antt =====
-- The loop that both pruning strategies share: `for idx, msg in enumerate(msg_list)`, where each
-- turn is appended to `kept` or counted in `dropped`, and a state goes from turn to turn.
pub mod Laws
use agentcook.Prelude.{ℕ, ◌+◌, Bool, List, [], ◌∷◌, if◌then◌else◌}
use agentcook.Chat.{Metadata, Message}

pub record PruningResult : Type 0 where
  pub messages : List Message
  pub dropped_count : ℕ
  pub metadata : Metadata

abbrev pub no_change : List Message → PruningResult
no_change messages = record { messages = messages; dropped_count = 0; metadata = [] }

module _ {S : Type 0} (visit : ℕ → S → Message → Bool × S) where
  unfoldable pub scan : ℕ → S → List Message → List Message × ℕ
  scan idx s [] = ([], 0)
  scan idx s (m ∷ ms) =
      let (keep, s') = visit idx s m in
      let (kept, dropped) = scan (idx + 1) s' ms in
      if keep then (m ∷ kept, dropped) else (kept, dropped + 1)
