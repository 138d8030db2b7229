-- ===== src/Pruning/Relevance.antt =====
-- `RelevancePruning` of pruning.py.
pub mod Laws
use agentcook.Prelude.{
  String, ℕ, ◌+◌, ◌-◌, Bool, true, false, List, [], ◌∷◌, Option, none, some, not, ◌&&◌, ◌||◌, leb,
  length, reverse, is_empty, if◌then◌else◌, ltb,
}
use agentcook.Prelude.Strings.{truthy, truthy?}
use agentcook.Prelude.Floats.{Floats}
use agentcook.Prelude.Results.{Result, ok, raise, value_error}
use agentcook.Chat.{Message, has_tool_calls, is_system, is_user}
use agentcook.Memory.Embedding.{EmbeddingProvider}
use agentcook.Pruning.Scan.{PruningResult, no_change, scan}

-- `_last_user_text`, on the reversed messages.
unfoldable pub first_user_text : List Message → String
first_user_text [] = ""
first_user_text (m ∷ ms) =
    let rest = first_user_text ms in if is_user m && truthy m.content then m.content else rest

unfoldable pub last_user_text : List Message → String
unfolding first_user_text
last_user_text messages = first_user_text (reverse messages)

module _ (fl : Floats) where
  open fl use {Float}

  pub record RelevancePruning : Type 1 where
    pub embedder : EmbeddingProvider Float
    pub min_score : Float
    pub protect_recent : ℕ
    pub half_life : ℕ
    pub anchor_text : Option String

  -- `__init__`: the checks; the one on `protect_recent` is about negative numbers only.
  unfoldable pub init :
      EmbeddingProvider Float → Float → ℕ → ℕ → Option String → Result RelevancePruning
  init embedder min_score protect_recent half_life anchor_text =
      if not (fl.le fl.zero min_score && fl.le min_score fl.one)
      then raise (value_error "min_score must be in [0, 1]")
      else if ltb half_life 1
      then raise (value_error "decay_half_life_turns must be >= 1")
      else ok (record {
        embedder = embedder;
        min_score = min_score;
        protect_recent = protect_recent;
        half_life = half_life;
        anchor_text = anchor_text;
      })

  -- `similarity * decay`, for a turn that is `age` turns old.
  unfoldable pub score : RelevancePruning → String → ℕ → String → Float
  score p anchor age text =
      fl.mul (p.embedder.similarity (p.embedder.embed anchor) (p.embedder.embed text))
        (fl.half_pow age p.half_life)

  -- The body of the loop over `count` turns. It carries no state.
  unfoldable pub visit : RelevancePruning → String → ℕ → ℕ → Unit {0} → Message → Bool × Unit {0}
  visit p anchor count idx s m =
      if is_system m || leb (count - p.protect_recent) idx
      then (true, s)
      else if not (truthy m.content)
      then (has_tool_calls m, s)
      else (fl.le p.min_score (score p anchor (count - 1 - idx) m.content), s)

  -- `self._anchor_text or _last_user_text(msg_list)`.
  abbrev pub anchor_of : RelevancePruning → List Message → String
  anchor_of p messages = elim p.anchor_text [
    | none ↦ last_user_text messages
    | some text ↦ if truthy text then text else last_user_text messages
  ]

  unfoldable pub prune : RelevancePruning → List Message → PruningResult
  prune p messages =
      let anchor = anchor_of p messages in
      let (kept, dropped) = scan (visit p anchor (length messages)) 0 tt messages in
      if is_empty messages
      then no_change []
      else if not (truthy anchor)
      then no_change messages
      else record { messages = kept; dropped_count = dropped; metadata = [] }
