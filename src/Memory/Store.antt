-- ===== src/Memory/Store.antt =====
-- `InMemoryStore` of memory.py: a dict of agents, each with a dict of its entries.
pub mod Keys
pub mod Invariant
pub mod Reach
pub mod Views
pub mod Expiry
pub mod Deletion
pub mod Listing
use agentcook.Prelude.{
  String, ℕ, ◌+◌, Bool, true, false, not, ◌&&◌, ◌||◌, List, [], ◌∷◌, ◌++◌, Option, none, some, map,
  length, leb, keep_if, if◌then◌else◌, starts_with,
}
use agentcook.Prelude.Strings.{fmt, truthy}
use agentcook.Prelude.Dict
use agentcook.Prelude.Dict.{Dict}
use agentcook.Memory.Entry.{MemoryLayer, layer_value, MemoryEntry, is_expired}

abbrev pub Entries : Type 0
Entries = Dict MemoryEntry

abbrev pub InMemoryStore : Type 0
InMemoryStore = Dict Entries

-- `_agent_key`.
unfoldable pub agent_key : String → MemoryLayer → String → String
agent_key agent layer key = fmt (agent ∷ ":" ∷ layer_value layer ∷ ":" ∷ key ∷ [])

-- `self._data.get(agent_id, {})`.
unfoldable pub entries_of : String → InMemoryStore → Entries
entries_of agent store = elim (Dict.get agent store) [ none ↦ [] | some es ↦ es ]

-- A change made in place to the entries of an agent. It is lost where the agent is not known.
unfoldable pub change : String → (Entries → Entries) → InMemoryStore → InMemoryStore
change agent f store = elim (Dict.get agent store) [
  | none ↦ store
  | some es ↦ Dict.put agent (f es) store
]

unfoldable pub write : String → MemoryEntry → InMemoryStore → InMemoryStore
write agent entry store =
    Dict.put agent (Dict.put (agent_key agent entry.layer entry.key) entry (entries_of agent store))
      store

unfoldable pub read :
    ℕ → String → MemoryLayer → String → InMemoryStore → Option MemoryEntry × InMemoryStore
read now agent layer key store =
    let compound_key = agent_key agent layer key in
    elim (Dict.get compound_key (entries_of agent store)) [
      | none ↦ (none, store)
      | some entry ↦
          if is_expired now entry
          then (none, change agent (Dict.remove compound_key) store)
          else (some entry, store)
    ]

-- `prefix and not entry.key.startswith(prefix)`.
abbrev pub is_filtered : Option String → String → Bool
is_filtered none key = false
is_filtered (some prefix) key = truthy prefix && not (starts_with key prefix)

-- The loop of `list_entries` over a copy of the items: the results, and the keys of the entries that
-- it deletes on its way.
unfoldable pub list_loop :
    ℕ
    → String
    → Option String
    → ℕ
    → List (String × MemoryEntry)
    → List MemoryEntry
    → List MemoryEntry × List String
list_loop now layer_prefix prefix limit [] results = (results, [])
list_loop now layer_prefix prefix limit ((compound_key, entry) ∷ items) results =
    let skip = list_loop now layer_prefix prefix limit items results in
    let more = list_loop now layer_prefix prefix limit items (results ++ entry ∷ []) in
    if not (starts_with compound_key layer_prefix)
    then skip
    else if is_expired now entry
    then (skip.0, compound_key ∷ skip.1)
    else if is_filtered prefix entry.key
    then skip
    else if leb limit (length (results ++ entry ∷ []))
    then (results ++ entry ∷ [], [])
    else more

-- `del` of each key.
unfoldable pub remove_keys : List String → Entries → Entries
remove_keys [] es = es
remove_keys (k ∷ ks) es = remove_keys ks (Dict.remove k es)

unfoldable pub list_entries :
    ℕ → String → MemoryLayer → Option String → ℕ → InMemoryStore → List MemoryEntry × InMemoryStore
unfolding list_loop
list_entries now agent layer prefix limit store =
    let layer_prefix = fmt (agent ∷ ":" ∷ layer_value layer ∷ ":" ∷ []) in
    let (results, stale) = list_loop now layer_prefix prefix limit (entries_of agent store) [] in
    (results, change agent (remove_keys stale) store)

unfoldable pub delete : String → MemoryLayer → String → InMemoryStore → Bool × InMemoryStore
delete agent layer key store =
    let compound_key = agent_key agent layer key in
    elim (Dict.get compound_key (entries_of agent store)) [
      | none ↦ (false, store)
      | some _ ↦ (true, change agent (Dict.remove compound_key) store)
    ]

unfoldable pub expired_keys : ℕ → Entries → List String
expired_keys now es = map (λ i. i.0) (keep_if (λ i. is_expired now i.1) es)

unfoldable pub expire : ℕ → String → InMemoryStore → ℕ × InMemoryStore
unfolding remove_keys expired_keys
expire now agent store =
    let stale = expired_keys now (entries_of agent store) in
    (length stale, change agent (remove_keys stale) store)
