-- ===== src/Memory/Identity/Laws.antt =====
-- What loading an identity promises.
use agentcook.Prelude.{
  String, ℕ, ◌≡◌, refl, ap, sym, ◌∙◌, [], ◌∷◌, Option, none, some, length, arith, str_eq, eq_iff,
  inl, inr, Bool-cases, false,
}
use agentcook.Prelude.Dict
use agentcook.Prelude.Dict.{Dict}
use agentcook.Memory.Entry.{MemoryEntry, identity, is_expired}
use agentcook.Memory.Store.{InMemoryStore, write}
use agentcook.Memory.Store.Views.{view, live, view-write_self, view-write_ne}
use agentcook.Memory.Identity.{Field, identity_entry, load_from_dict}

-- The keys of a dict are different.
abbrev pub IsDict : {V : Type 0} → Dict V → Type 0
IsDict [] = Unit
IsDict ((k, v) ∷ d) = (Dict.get k d ≡ none) × IsDict d

module _ (Json : Type 0) (dumps : Json → String) (now : ℕ) (agent : String) where
  length-load_from_dict :
      (fields : Dict (Field Json)) (store : InMemoryStore)
      → (load_from_dict Json dumps now agent fields store).0 ≡ length fields
  unfolding load_from_dict
  length-load_from_dict [] store = refl
  length-load_from_dict ((k, v) ∷ fields) store =
      omega (
        arith,
        length-load_from_dict fields (write agent (identity_entry Json dumps now k v) store),
      )

  -- What is seen under a key: the field's entry, or what was seen before.
  abbrev pub loaded : ℕ → String → InMemoryStore → Option (Field Json) → Option MemoryEntry
  loaded later key store none = view later agent identity key store
  loaded later key store (some v) = some (identity_entry Json dumps now key v)

  identity_live :
      (later : ℕ) (key : String) (v : Field Json)
      → live later (some (identity_entry Json dumps now key v))
        ≡ some (identity_entry Json dumps now key v)
  unfolding is_expired
  identity_live later key v = refl

  view-load_from_dict :
      (fields : Dict (Field Json)) (store : InMemoryStore) (later : ℕ) (key : String)
      → IsDict fields
      → view later agent identity key (load_from_dict Json dumps now agent fields store).1
        ≡ loaded later key store (Dict.get key fields)
  unfolding load_from_dict Dict.get
  view-load_from_dict [] store later key u = refl
  view-load_from_dict ((k, v) ∷ fields) store later key (new, u) =
      let e = identity_entry Json dumps now k v in
      let rest = view-load_from_dict fields (write agent e store) later key u in
      elim (Bool-cases (str_eq k key)) [
        | inl same ↦
            let eq = (eq_iff k key).0 same in
            let gone : Dict.get key fields ≡ none = ap (λ j. Dict.get j fields) (sym eq) ∙ new in
            rest
            ∙ ap (loaded later key (write agent e store)) gone
            ∙ ap (λ j. view later agent identity j (write agent e store)) (sym eq)
            ∙ view-write_self agent e store later
            ∙ identity_live later k v
            ∙ ap (λ j. some (identity_entry Json dumps now j v)) eq
            ∙ rw same refl
        | inr ne ↦ rest ∙ kept k v store later key (Dict.get key fields) ne ∙ rw ne refl
      ]
    where
      differ : (k key : String) → str_eq k key ≡ false → ¬ (k ≡ key)
      differ k key ne e = ground (arith, ne, (eq_iff k key).1 e)

      kept :
          (k : String) (v : Field Json) (store : InMemoryStore) (later : ℕ) (key : String)
          (o : Option (Field Json))
          → str_eq k key ≡ false
          → loaded later key (write agent (identity_entry Json dumps now k v) store) o
            ≡ loaded later key store o
      kept k v store later key (some w) ne = refl
      kept k v store later key none ne =
          view-write_ne agent (identity_entry Json dumps now k v) store later agent identity key
            (λ d. differ k key ne d.2)

  -- `load_from_dict` of a dict answers with the number of its fields. From then on, whatever the time,
  -- each of its keys shows the field's entry in the identity layer, and every other key of that layer
  -- shows what it showed before.
  pub load_from_dict-view :
      (fields : Dict (Field Json)) (store : InMemoryStore)
      → IsDict fields
      → ((load_from_dict Json dumps now agent fields store).0 ≡ length fields)
        × ((later : ℕ) (key : String)
            → view later agent identity key (load_from_dict Json dumps now agent fields store).1
              ≡ loaded later key store (Dict.get key fields))
  load_from_dict-view fields store u = (
    length-load_from_dict fields store,
    λ later key. view-load_from_dict fields store later key u,
  )
