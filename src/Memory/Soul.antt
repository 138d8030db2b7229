-- ===== src/Memory/Soul.antt =====
-- `SoulManager` of memory.py, over the in-memory store.
pub mod Laws
use agentcook.Prelude.{String, ℕ, ◌+◌, Bool, List, [], ◌∷◌, Option, none, some, length}
use agentcook.Prelude.Dict
use agentcook.Prelude.Dict.{Dict}
use agentcook.Chat.{Metadata}
use agentcook.Memory.Entry.{MemoryEntry, soul}
use agentcook.Memory.Store.{InMemoryStore, write, read, list_entries, delete}

abbrev pub trait_entry : ℕ → String → String → Metadata → MemoryEntry
trait_entry now key value metadata = record {
  layer = soul;
  key = key;
  content = value;
  embedding_ref = none;
  timestamp = now;
  ttl = 0;
  metadata = metadata;
}

unfoldable pub set_trait : ℕ → String → String → String → Metadata → InMemoryStore → InMemoryStore
set_trait now agent key value metadata store =
    write agent (trait_entry now key value metadata) store

-- `entry.content if entry else None`.
abbrev pub content? : Option MemoryEntry → Option String
content? none = none
content? (some e) = some e.content

unfoldable pub get_trait : ℕ → String → String → InMemoryStore → Option String × InMemoryStore
get_trait now agent key store =
    let (entry, store') = read now agent soul key store in (content? entry, store')

-- `{e.key: e.content for e in entries}`.
unfoldable pub traits_of : List MemoryEntry → Dict String → Dict String
traits_of [] d = d
traits_of (e ∷ es) d = traits_of es (Dict.put e.key e.content d)

-- The default limit of `list_entries` is 100.
unfoldable pub list_traits :
    ℕ → String → Option String → InMemoryStore → Dict String × InMemoryStore
unfolding traits_of
list_traits now agent prefix store =
    let (entries, store') = list_entries now agent soul prefix 100 store in
    (traits_of entries [], store')

unfoldable pub delete_trait : String → String → InMemoryStore → Bool × InMemoryStore
delete_trait agent key store = delete agent soul key store

unfoldable pub set_traits : ℕ → String → Dict String → InMemoryStore → InMemoryStore
set_traits now agent [] store = store
set_traits now agent ((key, value) ∷ traits) store =
    set_traits now agent traits (set_trait now agent key value [] store)

unfoldable pub bulk_set : ℕ → String → Dict String → InMemoryStore → ℕ × InMemoryStore
unfolding set_traits
bulk_set now agent traits store = (length traits, set_traits now agent traits store)
