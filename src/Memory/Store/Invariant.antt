-- ===== src/Memory/Store/Invariant.antt =====
-- The shape of a store: the keys of an agent are different, and each entry stands under its own.
use agentcook.Prelude.{
  String, ◌≡◌, refl, ap, sym, subst, List, [], ◌∷◌, none, arith, str_eq, eq_iff, if◌then◌else◌, inl,
  inr, Bool-cases, Option-cases,
}
use agentcook.Prelude.Dict
use agentcook.Prelude.Dict.{Dict, get-put, get-remove}
use agentcook.Memory.Entry.{MemoryEntry}
use agentcook.Memory.Store.{Entries, InMemoryStore, agent_key, entries_of, change, remove_keys}

-- No key twice, and each entry under the key of its layer and key.
abbrev pub IsKeyed : String → Entries → Type 0
IsKeyed agent [] = Unit
IsKeyed agent ((k, e) ∷ es) =
    (k ≡ agent_key agent e.layer e.key) × (Dict.get k es ≡ none) × IsKeyed agent es

pub record IsValid (store : InMemoryStore) : Type 0 where
  pub keyed : (agent : String) → IsKeyed agent (entries_of agent store)

pub put-IsKeyed :
    (agent : String) (e : MemoryEntry) (es : Entries)
    → IsKeyed agent es
    → IsKeyed agent (Dict.put (agent_key agent e.layer e.key) e es)
unfolding Dict.put
put-IsKeyed agent e [] h = (refl, unfold Dict.get in refl, tt)
put-IsKeyed agent e ((k, e') ∷ es) h =
    let key = agent_key agent e.layer e.key in
    ground (arith, put-IsKeyed agent e es h.2, get-put key k e es, eq_iff k key, eq_iff key k)

remove-IsKeyed :
    (agent k : String) (es : Entries) → IsKeyed agent es → IsKeyed agent (Dict.remove k es)
unfolding Dict.remove
remove-IsKeyed agent k [] h = tt
remove-IsKeyed agent k ((j, e) ∷ es) h =
    ground (arith, remove-IsKeyed agent k es h.2, get-remove k j es)

pub remove_keys-IsKeyed :
    (agent : String) (ks : List String) (es : Entries)
    → IsKeyed agent es
    → IsKeyed agent (remove_keys ks es)
unfolding remove_keys
remove_keys-IsKeyed agent [] es h = h
remove_keys-IsKeyed agent (k ∷ ks) es h =
    remove_keys-IsKeyed agent ks (Dict.remove k es) (remove-IsKeyed agent k es h)

pub remove_keys-nil : (ks : List String) → remove_keys ks [] ≡ []
unfolding remove_keys Dict.remove
remove_keys-nil [] = refl
remove_keys-nil (k ∷ ks) = remove_keys-nil ks

-- The entries of an agent after a change to those of another or the same agent.
pub entries_of-change :
    (agent other : String) (f : Entries → Entries) (store : InMemoryStore)
    → f [] ≡ []
    → entries_of other (change agent f store)
      ≡ (if str_eq agent other then f (entries_of agent store) else entries_of other store)
unfolding entries_of change
entries_of-change agent other f store nothing = elim (Option-cases (Dict.get agent store)) [
  | inl e ↦ elim (Bool-cases (str_eq agent other)) [
    | inl same ↦ ground (
      arith,
      nothing,
      ap (λ a. Dict.get a store) ((eq_iff agent other).0 same),
      ap f (unfold entries_of in get_none e),
    )
    | inr ne ↦ ground arith
  ]
  | inr (es, e) ↦ ground (arith, get-put agent other (f es) store)
]
  where
    get_none : Dict.get agent store ≡ none → entries_of agent store ≡ []
    get_none e = ground arith

pub entries_of-put :
    (agent other : String) (es : Entries) (store : InMemoryStore)
    → entries_of other (Dict.put agent es store)
      ≡ (if str_eq agent other then es else entries_of other store)
unfolding entries_of
entries_of-put agent other es store = ground (arith, get-put agent other es store)

module _ {store : InMemoryStore} (v : IsValid store) where
  pub change_keys-IsValid :
      (agent : String) (ks : List String) → IsValid (change agent (remove_keys ks) store)
  change_keys-IsValid agent ks = record {
    keyed = λ other.
        subst (IsKeyed other)
          (sym (entries_of-change agent other (remove_keys ks) store (remove_keys-nil ks)))
          (choose other);
  }
    where
      choose :
          (other : String)
          → IsKeyed other (
              if str_eq agent other
              then remove_keys ks (entries_of agent store)
              else entries_of other store)
      choose other = elim (Bool-cases (str_eq agent other)) [
        | inl same ↦
            subst
              (λ o. IsKeyed o (
                if str_eq agent other
                then remove_keys ks (entries_of agent store)
                else entries_of other store))
              ((eq_iff agent other).0 same)
              (rw same (remove_keys-IsKeyed agent ks (entries_of agent store) (v.keyed agent)))
        | inr ne ↦ rw ne (v.keyed other)
      ]
