-- ===== src/Memory/Store/Deletion.antt =====
-- What `delete` removes.
use agentcook.Prelude.{
  String, ℕ, ◌≡◌, ◌⊎◌, refl, ap, sym, ◌∙◌, Bool, true, false, ◌&&◌, Option, none, some, arith,
  str_eq, eq_iff, eq_refl, if◌then◌else◌, inl, inr, Bool-cases, Option-cases,
}
use agentcook.Prelude.Dict
use agentcook.Prelude.Dict.{get-put, get-remove}
use agentcook.Memory.Entry.{MemoryLayer, MemoryEntry}
use agentcook.Memory.Store.{InMemoryStore, agent_key, entries_of, change, delete}
use agentcook.Memory.Store.Invariant.{entries_of-change}
use agentcook.Memory.Store.Views.{live, view}
use agentcook.Memory.Store.Keys.{agent_key-inj}

abbrev pub is_some : Option MemoryEntry → Bool
is_some none = false
is_some (some e) = true

module _ (agent : String) (layer : MemoryLayer) (key : String) (store : InMemoryStore) where
  abbrev at_key : String
  at_key = agent_key agent layer key

  delete-store :
      (delete agent layer key store).1 ≡ change agent (Dict.remove at_key) store
      ⊎ ((delete agent layer key store).1 ≡ store)
        × (Dict.get at_key (entries_of agent store) ≡ none)
  unfolding delete
  delete-store = elim (Option-cases (Dict.get at_key (entries_of agent store))) [
    | inl e ↦ inr (ground arith, e)
    | inr (x, e) ↦ inl (ground arith)
  ]

  -- What stands under the keys of the store after `delete`.
  get-delete :
      (other k : String)
      → Dict.get k (entries_of other (delete agent layer key store).1) ≡ (
          if str_eq agent other && str_eq at_key k
          then none
          else Dict.get k (entries_of other store))
  get-delete other k = elim delete-store [
    | inl e ↦ ap (λ s. Dict.get k (entries_of other s)) e ∙ removed
    | inr (e, absent) ↦ ap (λ s. Dict.get k (entries_of other s)) e ∙ nothing absent
  ]
    where
      known :
          str_eq agent other ≡ true
          → Dict.get k (entries_of agent store) ≡ Dict.get k (entries_of other store)
      known same = ap (λ a. Dict.get k (entries_of a store)) ((eq_iff agent other).0 same)

      removed : Dict.get k (entries_of other (change agent (Dict.remove at_key) store)) ≡ (
          if str_eq agent other && str_eq at_key k
          then none
          else Dict.get k (entries_of other store))
      removed =
          ap (Dict.get k)
            (entries_of-change agent other (Dict.remove at_key) store (unfold Dict.remove in refl))
          ∙ (elim (Bool-cases (str_eq agent other)) [
            | inl same ↦
                rw same (ground (arith, get-remove at_key k (entries_of agent store), known same))
            | inr ne ↦ rw ne refl
          ])

      nothing :
          Dict.get at_key (entries_of agent store) ≡ none
          → Dict.get k (entries_of other store) ≡ (
              if str_eq agent other && str_eq at_key k
              then none
              else Dict.get k (entries_of other store))
      nothing absent = elim (Bool-cases (str_eq agent other && str_eq at_key k)) [
        | inl hit ↦ rw hit (cc (absent, known (ground arith), (eq_iff at_key k).0 (ground arith)))
        | inr miss ↦ rw miss refl
      ]

  pub view_deleted : (now : ℕ) → view now agent layer key (delete agent layer key store).1 ≡ none
  unfolding view
  view_deleted now = ap (live now) {y = none} (
      get-delete agent (agent_key agent layer key)
      ∙ rw (eq_refl agent) (rw (eq_refl (agent_key agent layer key)) refl))

  -- After `delete` the key has no entry, whatever the time, and the views of all others are what they
  -- were. The answer tells whether there was an entry, expired or not.
  pub view-delete :
      (now : ℕ) (other : String) (l : MemoryLayer) (k : String)
      → ¬ ((agent ≡ other) × (layer ≡ l) × (key ≡ k))
      → ((delete agent layer key store).0
          ≡ is_some (Dict.get (agent_key agent layer key) (entries_of agent store)))
        × (view now agent layer key (delete agent layer key store).1 ≡ none)
        × (view now other l k (delete agent layer key store).1 ≡ view now other l k store)
  unfolding view
  view-delete now other l k differ = (
    answer,
    view_deleted now,
    ap (live now) (get-delete other (agent_key other l k) ∙ kept other l k differ),
  )
    where
      answer :
          (delete agent layer key store).0
          ≡ is_some (Dict.get (agent_key agent layer key) (entries_of agent store))
      answer =
          unfold delete in
          elim (Option-cases (Dict.get at_key (entries_of agent store))) [
            | inl e ↦ ground arith
            | inr (x, e) ↦ ground arith
          ]

      kept :
          (other : String) (l : MemoryLayer) (k : String)
          → ¬ ((agent ≡ other) × (layer ≡ l) × (key ≡ k))
          → (if str_eq agent other && str_eq at_key (agent_key other l k)
              then none
              else Dict.get (agent_key other l k) (entries_of other store))
            ≡ Dict.get (agent_key other l k) (entries_of other store)
      kept other l k differ =
          elim (Bool-cases (str_eq agent other && str_eq at_key (agent_key other l k))) [
            | inl hit ↦
                let same = (eq_iff agent other).0 (ground arith) in
                let (one_layer, one_key) = agent_key-inj agent layer l key k (
                  (eq_iff at_key (agent_key other l k)).0 (ground arith)
                  ∙ ap (λ a. agent_key a l k) (sym same)) in
                absurd (differ (same, one_layer, one_key))
            | inr miss ↦ rw miss refl
          ]
