-- ===== src/Pruning/Duplicate.antt =====
-- `DuplicatePruning` of pruning.py.
pub mod Laws
pub mod Repeats
use agentcook.Prelude.{
  String, ℕ, ◌+◌, ◌-◌, Bool, true, false, List, [], ◌∷◌, Option, none, some, not, ◌&&◌, ◌||◌, ltb,
  leb, length, map, is_empty, if◌then◌else◌, str_eq,
}
use agentcook.Prelude.Strings.{fmt, truthy, join}
use agentcook.Prelude.Sorting.{str_le, sort_by}
use agentcook.Chat.{
  Value, Role, system, user, assistant, tool, ToolCall, Message, has_tool_calls, is_system, is_user,
  is_assistant,
}
use agentcook.Pruning.Scan.{PruningResult, no_change, scan}

-- `__init__` takes the number of protected turns; it raises for a negative one.
pub record DuplicatePruning : Type 0 where
  pub protect_recent : ℕ

-- `text == last`, where `last` may be `None`.
abbrev pub same_text : String → Option String → Bool
same_text t none = false
same_text t (some last) = str_eq t last

-- `last_tool_call_sig` and `last_user_content`.
pub record Trackers : Type 0 where
  pub last_sig : Option String
  pub last_user : Option String

abbrev pub reset : Trackers
reset = record { last_sig = none; last_user = none }

module _ (repr_items : List (String × Value) → String) where
  unfoldable pub arguments_repr : List (String × Value) → String
  arguments_repr arguments =
      if is_empty arguments then "{}" else repr_items (sort_by (λ a b. str_le a.0 b.0) arguments)

  -- `_tool_call_signature`.
  unfoldable pub tool_call_signature : List ToolCall → String
  unfolding arguments_repr
  tool_call_signature calls =
      join "||" (map (λ tc. fmt (tc.name ∷ "|" ∷ arguments_repr tc.arguments ∷ [])) calls)

  abbrev pub signature : Message → String
  signature m = elim m.tool_calls [ none ↦ "" | some calls ↦ tool_call_signature calls ]

  -- The body of the loop: whether the turn is kept, and the trackers after it.
  unfoldable pub judge : Bool → Trackers → Message → Bool × Trackers
  judge protected t m =
      if is_system m || protected
      then (true, reset)
      else if is_assistant m && not (truthy m.content) && not (has_tool_calls m)
      then (false, t)
      else if is_user m && same_text m.content t.last_user
      then (false, t)
      else if is_user m
      then (true, record { last_sig = none; last_user = some m.content })
      else if is_assistant m && has_tool_calls m && not (truthy m.content)
      then (if same_text (signature m) t.last_sig
          then (false, t)
          else (true, record t { last_sig = some (signature m) }))
      else (true, reset)

  abbrev pub visit : ℕ → ℕ → Trackers → Message → Bool × Trackers
  visit floor idx t m = judge (leb floor idx) t m

  unfoldable pub prune : DuplicatePruning → List Message → PruningResult
  prune p messages =
      let floor = length messages - p.protect_recent in
      let (kept, dropped) = scan (visit floor) 0 reset messages in
      if ltb (length messages) 2
      then no_change messages
      else record { messages = kept; dropped_count = dropped; metadata = [] }
