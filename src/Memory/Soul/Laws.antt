-- ===== src/Memory/Soul/Laws.antt =====
-- What `SoulManager` promises.
use agentcook.Prelude.{
  String, ℕ, suc, ◌+◌, ◌≤◌, ◌≡◌, ap, ◌∙◌, List, [], ◌∷◌, Option, none, some, length, arith,
  length-take,
}
use agentcook.Prelude.Strings.{fmt}
use agentcook.Prelude.Dict
use agentcook.Prelude.Dict.{Dict}
use agentcook.Chat.{Metadata}
use agentcook.Memory.Entry.{MemoryEntry, soul, is_expired, layer_value}
use agentcook.Memory.Store.{InMemoryStore, entries_of, list_entries, write, delete}
use agentcook.Memory.Store.Views.{read-view, view-write_self}
use agentcook.Memory.Store.Deletion.{view_deleted}
use agentcook.Memory.Store.Listing.{list_entries-eq, matches}
use agentcook.Memory.Soul.{
  trait_entry, content?, set_trait, get_trait, delete_trait, traits_of, list_traits,
}

length-put : (k v : String) (d : Dict String) → length (Dict.put k v d) ≤ suc (length d)
unfolding Dict.put
length-put k v [] = omega arith
length-put k v ((j, w) ∷ d) = ground (arith, length-put k v d)

length-traits_of :
    (es : List MemoryEntry) (d : Dict String) → length (traits_of es d) ≤ length es + length d
unfolding traits_of
length-traits_of [] d = omega arith
length-traits_of (e ∷ es) d =
    omega (arith, length-traits_of es (Dict.put e.key e.content d), length-put e.key e.content d)

-- `list_traits` lists no more than 100 traits, however many are stored.
pub length-list_traits :
    (now : ℕ) (agent : String) (prefix : Option String) (store : InMemoryStore)
    → length (list_traits now agent prefix store).0 ≤ 100
unfolding list_traits
length-list_traits now agent prefix store = omega (
  arith,
  length-traits_of (list_entries now agent soul prefix 100 store).0 [],
  ap length (list_entries-eq now agent soul prefix store 100 (omega arith)),
  length-take 100 (
      matches now (fmt (agent ∷ ":" ∷ layer_value soul ∷ ":" ∷ [])) prefix
        (entries_of agent store)),
)

-- A trait that was set is what `get_trait` answers, whatever the time; a trait that was deleted is
-- gone.
pub get_trait-set_trait :
    (now later : ℕ) (agent key value : String) (metadata : Metadata) (store : InMemoryStore)
    → ((get_trait later agent key (set_trait now agent key value metadata store)).0 ≡ some value)
      × ((get_trait later agent key (delete_trait agent key store).1).0 ≡ none)
unfolding get_trait set_trait delete_trait is_expired
get_trait-set_trait now later agent key value metadata store =
    let e = trait_entry now key value metadata in
    (
      ap content? (
          read-view later agent soul key (write agent e store)
          ∙ view-write_self agent e store later),
      ap content? (
          read-view later agent soul key (delete agent soul key store).1
          ∙ view_deleted agent soul key store later),
    )
