-- ===== src/Memory/Store/Views.antt =====
-- What a client of the store sees: for each agent, layer and key, the entry that has not expired.
use agentcook.Prelude.{
  String, ℕ, ◌≤◌, ◌≡◌, ◌⊎◌, refl, ap, sym, ◌∙◌, subst, List, [], ◌∷◌, Option, none, some, arith,
  str_eq, eq_iff, eq_refl, if◌then◌else◌, inl, inr, Bool-cases, Option-cases,
}
use agentcook.Prelude.Dict
use agentcook.Prelude.Dict.{get-put, get-remove}
use agentcook.Prelude.Members.{In}
use agentcook.Memory.Entry.{MemoryLayer, MemoryEntry, is_expired, is_expired_later}
use agentcook.Memory.Store.{
  Entries, InMemoryStore, agent_key, entries_of, change, write, read, remove_keys,
}
use agentcook.Memory.Store.Keys.{agent_key-inj}
use agentcook.Memory.Store.Invariant.{entries_of-change, entries_of-put, remove_keys-nil}

abbrev pub live : ℕ → Option MemoryEntry → Option MemoryEntry
live now none = none
live now (some e) = if is_expired now e then none else some e

unfoldable pub view : ℕ → String → MemoryLayer → String → InMemoryStore → Option MemoryEntry
view now agent layer key store =
    live now (Dict.get (agent_key agent layer key) (entries_of agent store))

-- Keys under which nothing live stands.
abbrev pub Stale : ℕ → Entries → List String → Type 0
Stale now es ks = (k : String) → In k ks → live now (Dict.get k es) ≡ none

live-remove :
    (now : ℕ) (k j : String) (es : Entries)
    → live now (Dict.get k es) ≡ none
    → live now (Dict.get j (Dict.remove k es)) ≡ live now (Dict.get j es)
live-remove now k j es h = elim (Bool-cases (str_eq k j)) [
  | inl same ↦
      rw (get-remove k j es)
        (rw same (sym (subst (λ i. live now (Dict.get i es) ≡ none) ((eq_iff k j).0 same) h)))
  | inr ne ↦ rw (get-remove k j es) (rw ne refl)
]

pub live-remove_keys :
    (now : ℕ) (ks : List String) (j : String) (es : Entries)
    → Stale now es ks
    → live now (Dict.get j (remove_keys ks es)) ≡ live now (Dict.get j es)
unfolding remove_keys
live-remove_keys now [] j es h = refl
live-remove_keys now (k ∷ ks) j es h =
    live-remove_keys now ks j (Dict.remove k es)
      (λ i m. live-remove now k i es (h k (inl refl)) ∙ h i (inr m))
    ∙ live-remove now k j es (h k (inl refl))

-- Deleting stale keys changes no view.
pub view-change :
    (now : ℕ) (agent : String) (ks : List String) (store : InMemoryStore)
    → Stale now (entries_of agent store) ks
    → (other : String) (layer : MemoryLayer) (key : String)
    → view now other layer key (change agent (remove_keys ks) store)
      ≡ view now other layer key store
unfolding view
view-change now agent ks store h other layer key =
    let at_key = agent_key other layer key in
    ap (λ es. live now (Dict.get at_key es))
      (entries_of-change agent other (remove_keys ks) store (remove_keys-nil ks))
    ∙ (elim (Bool-cases (str_eq agent other)) [
      | inl same ↦ rw same (
          live-remove_keys now ks at_key (entries_of agent store) h
          ∙ ap (λ a. live now (Dict.get at_key (entries_of a store))) ((eq_iff agent other).0 same))
      | inr ne ↦ rw ne refl
    ])

pub live_later :
    (now later : ℕ) (o : Option MemoryEntry) → now ≤ later → live now o ≡ none → live later o ≡ none
live_later now later none h e = refl
live_later now later (some x) h e = ground (arith, is_expired_later now later x h)

module _ (now : ℕ) (agent : String) (layer : MemoryLayer) (key : String)
    (store : InMemoryStore) where
  pub read-view : (read now agent layer key store).0 ≡ view now agent layer key store
  unfolding read view
  read-view = ground arith

  read-store :
      ((read now agent layer key store).1 ≡ store)
      ⊎ ((read now agent layer key store).1
          ≡ change agent (remove_keys (agent_key agent layer key ∷ [])) store)
        × (live now (Dict.get (agent_key agent layer key) (entries_of agent store)) ≡ none)
  unfolding read remove_keys
  read-store = elim (Option-cases (Dict.get (agent_key agent layer key) (entries_of agent store))) [
    | inl e ↦ inl (ground arith)
    | inr (x, e) ↦ elim (Bool-cases (is_expired now x)) [
      | inl old ↦ inr (ground arith, ground arith)
      | inr fresh ↦ inl (ground arith)
    ]
  ]

  Stale-one :
      (later : ℕ)
      → live later (Dict.get (agent_key agent layer key) (entries_of agent store)) ≡ none
      → Stale later (entries_of agent store) (agent_key agent layer key ∷ [])
  Stale-one later gone i (inl e) =
      subst (λ j. live later (Dict.get j (entries_of agent store)) ≡ none) (sym e) gone
  Stale-one later gone i (inr m) = elim m [ ]

  view-read :
      (later : ℕ) (other : String) (l : MemoryLayer) (k : String)
      → now ≤ later
      → view later other l k (read now agent layer key store).1 ≡ view later other l k store
  view-read later other l k h = elim read-store [
    | inl e ↦ ap (view later other l k) e
    | inr (e, gone) ↦
        ap (view later other l k) e
        ∙ view-change later agent (agent_key agent layer key ∷ []) store
            (Stale-one later (live_later now later _ h gone)) other l k
  ]

  -- `read` answers with the entry of the key that has not expired, or with none; it may delete the
  -- expired entry, and whatever it does, no later reader of any agent, layer or key sees a difference.
  pub read-eq-view :
      (later : ℕ) (other : String) (l : MemoryLayer) (k : String)
      → now ≤ later
      → ((read now agent layer key store).0 ≡ view now agent layer key store)
        × (view later other l k (read now agent layer key store).1 ≡ view later other l k store)
  read-eq-view later other l k h = (read-view, view-read later other l k h)

get-write :
    (agent other k : String) (e : MemoryEntry) (store : InMemoryStore)
    → Dict.get k (entries_of other (write agent e store)) ≡ (
        if str_eq agent other
        then (if str_eq (agent_key agent e.layer e.key) k
            then some e
            else Dict.get k (entries_of agent store))
        else Dict.get k (entries_of other store))
unfolding write
get-write agent other k e store =
    let key = agent_key agent e.layer e.key in
    ap (Dict.get k) (entries_of-put agent other (Dict.put key e (entries_of agent store)) store)
    ∙ ground (arith, get-put key k e (entries_of agent store))

pub view-write_self :
    (agent : String) (e : MemoryEntry) (store : InMemoryStore) (now : ℕ)
    → view now agent e.layer e.key (write agent e store) ≡ live now (some e)
unfolding view
view-write_self agent e store now = ap (live now) {y = some e} (
    get-write agent agent (agent_key agent e.layer e.key) e store
    ∙ rw (eq_refl agent) (rw (eq_refl (agent_key agent e.layer e.key)) refl))

pub view-write_ne :
    (agent : String) (e : MemoryEntry) (store : InMemoryStore) (now : ℕ) (other : String)
    (layer : MemoryLayer) (key : String)
    → ¬ ((agent ≡ other) × (e.layer ≡ layer) × (e.key ≡ key))
    → view now other layer key (write agent e store) ≡ view now other layer key store
unfolding view
view-write_ne agent e store now other layer key differ = ap (live now) (
    get-write agent other at_key e store ∙ (elim (Bool-cases (str_eq agent other)) [
      | inr ne ↦ rw ne refl
      | inl same ↦ rw same (kept ((eq_iff agent other).0 same))
    ]))
  where
    at_key : String
    at_key = agent_key other layer key

    kept :
        agent ≡ other
        → (if str_eq (agent_key agent e.layer e.key) at_key
            then some e
            else Dict.get at_key (entries_of agent store))
          ≡ Dict.get at_key (entries_of other store)
    kept same = elim (Bool-cases (str_eq (agent_key agent e.layer e.key) at_key)) [
      | inl hit ↦
          let (l, k) = agent_key-inj agent e.layer layer e.key key (
            (eq_iff (agent_key agent e.layer e.key) at_key).0 hit
            ∙ ap (λ a. agent_key a layer key) (sym same)) in
          absurd (differ (same, l, k))
      | inr miss ↦ rw miss (ap (λ a. Dict.get at_key (entries_of a store)) same)
    ]

-- After `write`, `read` of the same agent, layer and key answers with the entry until it expires.
-- For any other agent, layer or key, the view is what it was.
pub read-write :
    (agent : String) (e : MemoryEntry) (store : InMemoryStore) (now : ℕ) (other : String)
    (layer : MemoryLayer) (key : String)
    → ¬ ((agent ≡ other) × (e.layer ≡ layer) × (e.key ≡ key))
    → ((read now agent e.layer e.key (write agent e store)).0
        ≡ (if is_expired now e then none else some e))
      × (view now other layer key (write agent e store) ≡ view now other layer key store)
read-write agent e store now other layer key differ = (
  read-view now agent e.layer e.key (write agent e store) ∙ view-write_self agent e store now,
  view-write_ne agent e store now other layer key differ,
)
