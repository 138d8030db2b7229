-- ===== src/Memory/Manager.antt =====
-- `MemoryManager` of memory.py, over the in-memory store.
pub mod Laws
pub mod Search
use agentcook.Prelude.{
  String, ℕ, ◌+◌, ◌/◌, Bool, true, false, ◌&&◌, List, [], ◌∷◌, ◌++◌, Option, none, some, map,
  keep_if, take, is_empty, if◌then◌else◌,
}
use agentcook.Prelude.Strings.{fmt, show, truthy, truthy?}
use agentcook.Prelude.Floats.{Floats}
use agentcook.Prelude.Results.{Result, ok, raise, memory_error}
use agentcook.Prelude.Sorting.{sort_by}
use agentcook.Chat.{Metadata}
use agentcook.Memory.Embedding.{EmbeddingProvider}
use agentcook.Memory.Entry.{MemoryLayer, identity, soul, memory, diary, layer_value, MemoryEntry}
use agentcook.Memory.Store.{InMemoryStore, write, read, list_entries, expire}
use agentcook.Memory.Soul.{content?}

-- The layers whose entries get an embedding.
abbrev pub is_searchable : MemoryLayer → Bool
is_searchable diary = true
is_searchable memory = true
is_searchable _ = false

-- The first argument of each operation that writes tells whether an embedder is configured.
abbrev pub entry_for :
    Bool → ℕ → String → MemoryLayer → String → String → ℕ → Metadata → MemoryEntry
entry_for embeds now agent layer key content ttl metadata = record {
  layer = layer;
  key = key;
  content = content;
  embedding_ref =
      if embeds && is_searchable layer
      then some (fmt ("emb:" ∷ agent ∷ ":" ∷ layer_value layer ∷ ":" ∷ key ∷ []))
      else none;
  timestamp = now;
  ttl = ttl;
  metadata = metadata;
}

unfoldable pub write_to_layer :
    Bool
    → ℕ
    → String
    → MemoryLayer
    → String
    → String
    → ℕ
    → Metadata
    → InMemoryStore
    → MemoryEntry × InMemoryStore
write_to_layer embeds now agent layer key content ttl metadata store =
    let entry = entry_for embeds now agent layer key content ttl metadata in
    (entry, write agent entry store)

unfoldable pub read_from_layer :
    ℕ → String → MemoryLayer → String → InMemoryStore → Option MemoryEntry × InMemoryStore
read_from_layer now agent layer key store = read now agent layer key store

unfoldable pub list_layer :
    ℕ → String → MemoryLayer → Option String → ℕ → InMemoryStore → List MemoryEntry × InMemoryStore
list_layer now agent layer prefix limit store = list_entries now agent layer prefix limit store

unfoldable pub gc : ℕ → String → InMemoryStore → ℕ × InMemoryStore
gc now agent store = expire now agent store

-- `key or f"diary_{int(time.time() * 1000)}"`.
unfoldable pub diary_key : ℕ → Option String → String
diary_key now none = fmt ("diary_" ∷ show (now / 1000) ∷ [])
diary_key now (some key) = if truthy key then key else fmt ("diary_" ∷ show (now / 1000) ∷ [])

unfoldable pub append_diary :
    Bool
    → ℕ
    → String
    → String
    → Option String
    → ℕ
    → Metadata
    → InMemoryStore
    → MemoryEntry × InMemoryStore
append_diary embeds now agent content key ttl metadata store =
    write_to_layer embeds now agent diary (diary_key now key) content ttl metadata store

unfoldable pub remember :
    Bool → ℕ → String → String → String → ℕ → Metadata → InMemoryStore → MemoryEntry × InMemoryStore
unfolding write_to_layer
remember embeds now agent key content ttl metadata store =
    write_to_layer embeds now agent memory key content ttl metadata store

unfoldable pub recall : ℕ → String → String → InMemoryStore → Option String × InMemoryStore
unfolding read_from_layer
recall now agent key store =
    let (entry, store') = read_from_layer now agent memory key store in (content? entry, store')

-- `SearchResult`.
pub record SearchResult (Float : Type 0) : Type 0 where
  pub entry : MemoryEntry
  pub score : Float
  pub source_layer : MemoryLayer

module _ (fl : Floats) (embedder : EmbeddingProvider fl.Float) where
  -- The candidates of one layer: the entries with an embedding, each with its score.
  unfoldable pub candidates_in :
      embedder.Vector → MemoryLayer → List MemoryEntry → List (SearchResult fl.Float)
  candidates_in query layer entries =
      map
        (λ e. record {
          entry = e;
          score = embedder.similarity query (embedder.embed e.content);
          source_layer = layer;
        })
        (keep_if (λ e. truthy? e.embedding_ref) entries)

  -- The loop over the layers. Listing deletes expired entries, so the store goes along.
  unfoldable pub collect :
      ℕ
      → String
      → embedder.Vector
      → List MemoryLayer
      → InMemoryStore
      → List (SearchResult fl.Float) × InMemoryStore
  collect now agent query [] store = ([], store)
  collect now agent query (layer ∷ layers) store =
      let (entries, store') = list_entries now agent layer none 1000 store in
      let (rest, store'') = collect now agent query layers store' in
      (candidates_in query layer entries ++ rest, store'')

  -- `sort(key=..., reverse=True)` keeps the order of equal scores.
  abbrev pub by_score : SearchResult fl.Float → SearchResult fl.Float → Bool
  by_score a b = fl.le b.score a.score

  abbrev pub search_layers : Option (List MemoryLayer) → List MemoryLayer
  search_layers none = memory ∷ diary ∷ []
  search_layers (some layers) = if is_empty layers then memory ∷ diary ∷ [] else layers

unfoldable pub semantic_search :
    (fl : Floats)
    → Option (EmbeddingProvider fl.Float)
    → ℕ
    → String
    → String
    → Option (List MemoryLayer)
    → ℕ
    → InMemoryStore
    → Result (List (SearchResult fl.Float)) × InMemoryStore
semantic_search fl none now agent query layers top_k store =
    (raise (memory_error "No EmbeddingProvider configured for semantic search"), store)
semantic_search fl (some embedder) now agent query layers top_k store =
    let (candidates, store') =
      collect fl embedder now agent (embedder.embed query) (search_layers fl embedder layers)
        store in
    (ok (take top_k (sort_by (by_score fl embedder) candidates)), store')
