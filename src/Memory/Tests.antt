-- ===== src/Memory/Tests.antt =====
-- Runs of the store and its managers, and the theorems at those.
use mathlib.Core.List.{Perm}
use agentcook.Prelude.{
  ap, String, ℕ, ◌+◌, ◌*◌, ◌≡◌, refl, true, List, [], ◌++◌, none, some, ltb, ◌==◌, if◌then◌else◌,
  arith, length, take, min, str_eq,
}
use agentcook.Prelude.Dict
use agentcook.Prelude.Dict.{Dict}
use agentcook.Prelude.Results.{ok}
use agentcook.Prelude.Sorting.{IsSorted}
use agentcook.Samples.{hundredths}
use agentcook.Memory.Embedding.{EmbeddingProvider}
use agentcook.Memory.Entry.{soul, MemoryLayer, memory, MemoryEntry, is_expired, tick}
use agentcook.Memory.Store.{InMemoryStore, agent_key, entries_of, write, read, list_entries, expire}
use agentcook.Memory.Store.Invariant.{IsValid}
use agentcook.Memory.Store.Reach.{Reachable, Reachable-IsValid}
use agentcook.Memory.Store.Views.{view, read-write}
use agentcook.Memory.Store.Expiry.{fresh_entries, expire-eq}
use agentcook.Memory.Store.Listing.{matches, layer_prefix, list_entries-eq}
use agentcook.Memory.Manager.{
  SearchResult, collect, semantic_search, by_score, search_layers, remember, recall, entry_for,
}
use agentcook.Memory.Manager.Laws.{recall-remember}
use agentcook.Memory.Manager.Search.{semantic_search-IsSorted}

abbrev note : String → ℕ → MemoryEntry
note key ttl = entry_for true 5 "bot" memory key "text" ttl []

-- A note that stays and one that expires.
abbrev store : InMemoryStore
store = write "bot" (note "b" 1) (write "bot" (note "a" 0) [])

store-IsValid : IsValid store
store-IsValid =
    Reachable-IsValid
      (Reachable.written "bot" (note "b" 1) (Reachable.written "bot" (note "a" 0) Reachable.fresh))

read_run :
    (read 2000000 "bot" memory "a" store ≡ (some (note "a" 0), store))
    × ((read 2000000 "bot" memory "b" store).0 ≡ none)
unfolding write Dict.put read entries_of agent_key Dict.get is_expired
read_run = (refl, refl)

Reachable-IsValid_example : IsValid store
Reachable-IsValid_example =
    Reachable-IsValid
      (Reachable.written "bot" (note "b" 1) (Reachable.written "bot" (note "a" 0) Reachable.fresh))

code : MemoryLayer → ℕ
code memory = 0
code _ = 1

other_layer : {a b c d : String} → ¬ ((a ≡ b) × (memory ≡ soul) × (c ≡ d))
unfolding code
other_layer (_, l, _) = omega (arith, ap code l)

read-write_example :
    ((read 7 "bot" memory "b" (write "bot" (note "b" 1) store)).0
      ≡ (if is_expired 7 (note "b" 1) then none else some (note "b" 1)))
    × (view 7 "bot" soul "b" (write "bot" (note "b" 1) store) ≡ view 7 "bot" soul "b" store)
read-write_example = read-write "bot" (note "b" 1) store 7 "bot" soul "b" other_layer

expire-eq_example :
    (entries_of "bot" (expire 2000000 "bot" store).1
      ≡ fresh_entries 2000000 (entries_of "bot" store))
    × ((expire 2000000 "bot" store).0 + length (entries_of "bot" (expire 2000000 "bot" store).1)
        ≡ length (entries_of "bot" store))
    × (view 3000000 "bot" memory "b" (expire 2000000 "bot" store).1
        ≡ view 3000000 "bot" memory "b" store)
expire-eq_example =
    expire-eq 2000000 "bot" store store-IsValid 3000000 "bot" memory "b" (omega arith)

list_entries-eq_example :
    (list_entries 2000000 "bot" memory (some "a") 10 store).0
    ≡ take 10 (
        matches 2000000
          (layer_prefix 2000000 "bot" memory (some "a") store)
          (some "a")
          (entries_of "bot" store))
list_entries-eq_example = list_entries-eq 2000000 "bot" memory (some "a") store 10 (omega arith)

recall-remember_example :
    ((recall 9 "bot" "c" (remember true 5 "bot" "c" "text" 60 [] store).1).0
      ≡ (if 60 == 0 then some "text" else (if ltb (5 + 60 * tick) 9 then none else some "text")))
    × (view 9 "bot" soul "c" (remember true 5 "bot" "c" "text" 60 [] store).1
        ≡ view 9 "bot" soul "c" store)
recall-remember_example =
    recall-remember true 5 "bot" "c" "text" 60 [] store 9 "bot" soul "c" other_layer

-- A vector is the length of its text here.
abbrev embedder : EmbeddingProvider ℕ
embedder = record {
  Vector = ℕ;
  embed = λ text. if str_eq text "" then 0 else 7;
  similarity = λ a b. min a b;
}

semantic_search-IsSorted_example :
    (results : List (SearchResult ℕ)) × (rest : List (SearchResult ℕ)) × ((semantic_search
        hundredths
        (some embedder)
        7
        "bot"
        "text"
        none
        1
        store).0
      ≡ ok results)
    × Perm
        (results ++ rest)
        (collect hundredths embedder 7 "bot"
          (embedder.embed "text")
          (search_layers hundredths embedder none)
          store).0
    × IsSorted (by_score hundredths embedder) (results ++ rest)
    × (length results
        ≡ min 1 (
            length
              (collect hundredths embedder 7 "bot"
                (embedder.embed "text")
                (search_layers hundredths embedder none)
                store).0))
semantic_search-IsSorted_example =
    semantic_search-IsSorted hundredths embedder (λ a b h. ground arith) (λ a b c h k. ground arith)
      7 "bot" "text" none 1 store
