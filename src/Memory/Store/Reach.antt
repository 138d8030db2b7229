-- ===== src/Memory/Store/Reach.antt =====
-- The stores that the operations lead to are valid.
use agentcook.Prelude.{
  String, ℕ, sym, subst, [], ◌∷◌, Option, str_eq, eq_iff, if◌then◌else◌, inl, inr, Bool-cases,
  Option-cases,
}
use agentcook.Prelude.Dict
use agentcook.Prelude.Dict.{Dict, get-put, get-remove}
use agentcook.Memory.Entry.{MemoryLayer, MemoryEntry, is_expired}
use agentcook.Memory.Store.{
  Entries, InMemoryStore, agent_key, entries_of, change, write, read, list_entries, remove_keys,
  delete, expire,
}
use agentcook.Prelude.Strings.{fmt}
use agentcook.Memory.Entry.{layer_value}
use agentcook.Memory.Store.{expired_keys, list_loop}
use agentcook.Memory.Store.Invariant.{
  IsKeyed, IsValid, put-IsKeyed, entries_of-put, change_keys-IsValid,
}

module _ {store : InMemoryStore} (v : IsValid store) where
  pub write-IsValid : (agent : String) (e : MemoryEntry) → IsValid (write agent e store)
  unfolding write
  write-IsValid agent e = record {
    keyed = λ other.
        subst (IsKeyed other)
          (sym (
            entries_of-put agent other
              (Dict.put (agent_key agent e.layer e.key) e (entries_of agent store)) store))
          (choose other);
  }
    where
      new : Entries
      new = Dict.put (agent_key agent e.layer e.key) e (entries_of agent store)

      choose :
          (other : String)
          → IsKeyed other (if str_eq agent other then new else entries_of other store)
      choose other = elim (Bool-cases (str_eq agent other)) [
        | inl same ↦
            subst (λ o. IsKeyed o (if str_eq agent other then new else entries_of other store))
              ((eq_iff agent other).0 same)
              (rw same (put-IsKeyed agent e (entries_of agent store) (v.keyed agent)))
        | inr ne ↦ rw ne (v.keyed other)
      ]

  one_key-IsValid : (agent k : String) → IsValid (change agent (Dict.remove k) store)
  one_key-IsValid agent k = unfold remove_keys in change_keys-IsValid v agent (k ∷ [])

  pub read-IsValid :
      (now : ℕ) (agent : String) (layer : MemoryLayer) (key : String)
      → IsValid (read now agent layer key store).1
  unfolding read
  read-IsValid now agent layer key =
      elim (Option-cases (Dict.get (agent_key agent layer key) (entries_of agent store))) [
        | inl e ↦ rw (e, read) v
        | inr (x, e) ↦ elim (Bool-cases (is_expired now x)) [
          | inl old ↦ rw (e, read) (rw old (one_key-IsValid agent (agent_key agent layer key)))
          | inr fresh ↦ rw (e, read) (rw fresh v)
        ]
      ]

  pub delete-IsValid :
      (agent : String) (layer : MemoryLayer) (key : String)
      → IsValid (delete agent layer key store).1
  unfolding delete
  delete-IsValid agent layer key =
      elim (Option-cases (Dict.get (agent_key agent layer key) (entries_of agent store))) [
        | inl e ↦ rw (e, delete) v
        | inr (x, e) ↦ rw (e, delete) (one_key-IsValid agent (agent_key agent layer key))
      ]

  pub expire-IsValid : (now : ℕ) (agent : String) → IsValid (expire now agent store).1
  unfolding expire
  expire-IsValid now agent = change_keys-IsValid v agent (expired_keys now (entries_of agent store))

  pub list_entries-IsValid :
      (now : ℕ) (agent : String) (layer : MemoryLayer) (prefix : Option String) (limit : ℕ)
      → IsValid (list_entries now agent layer prefix limit store).1
  unfolding list_entries
  list_entries-IsValid now agent layer prefix limit =
      change_keys-IsValid v agent
        (list_loop now (fmt (agent ∷ ":" ∷ layer_value layer ∷ ":" ∷ [])) prefix limit
          (entries_of agent store) []).1

-- The stores that the operations lead to, each at a time of its own.
pub data Reachable : InMemoryStore → Type 0 where
  fresh : Reachable []
  written :
      {store : InMemoryStore} (agent : String) (e : MemoryEntry)
      → Reachable store
      → Reachable (write agent e store)
  was_read :
      {store : InMemoryStore} (now : ℕ) (agent : String) (layer : MemoryLayer) (key : String)
      → Reachable store
      → Reachable (read now agent layer key store).1
  listed :
      {store : InMemoryStore} (now : ℕ) (agent : String) (layer : MemoryLayer)
      (prefix : Option String) (limit : ℕ)
      → Reachable store
      → Reachable (list_entries now agent layer prefix limit store).1
  deleted :
      {store : InMemoryStore} (agent : String) (layer : MemoryLayer) (key : String)
      → Reachable store
      → Reachable (delete agent layer key store).1
  collected :
      {store : InMemoryStore} (now : ℕ) (agent : String)
      → Reachable store
      → Reachable (expire now agent store).1

-- In every store that the operations lead to from the empty one, each agent's keys are different and
-- each entry stands under the key of its own layer and key.
pub Reachable-IsValid : {store : InMemoryStore} → Reachable store → IsValid store
unfolding entries_of Dict.get
Reachable-IsValid fresh = record { keyed = λ agent. tt }
Reachable-IsValid (written agent e r) = write-IsValid (Reachable-IsValid r) agent e
Reachable-IsValid (was_read now agent layer key r) =
    read-IsValid (Reachable-IsValid r) now agent layer key
Reachable-IsValid (listed now agent layer prefix limit r) =
    list_entries-IsValid (Reachable-IsValid r) now agent layer prefix limit
Reachable-IsValid (deleted agent layer key r) = delete-IsValid (Reachable-IsValid r) agent layer key
Reachable-IsValid (collected now agent r) = expire-IsValid (Reachable-IsValid r) now agent
