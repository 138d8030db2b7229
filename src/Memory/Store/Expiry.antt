-- ===== src/Memory/Store/Expiry.antt =====
-- What `delete` and `expire` remove.
use agentcook.Prelude.{
  String, ℕ, ◌+◌, ◌≤◌, ◌≡◌, refl, ap, sym, ◌∙◌, subst, true, false, List, [], ◌∷◌, none, some,
  arith, str_eq, eq_iff, eq_refl, inl, inr, Bool-cases, keep_if, length, not,
}
use agentcook.Prelude.Dict
use agentcook.Prelude.Dict.{get-put, get-remove}
use agentcook.Prelude.Members.{In, In-of_map, In-of_keep_if}
use agentcook.Memory.Entry.{MemoryLayer, MemoryEntry, is_expired}
use agentcook.Memory.Store.{
  Entries, InMemoryStore, entries_of, change, remove_keys, expire, expired_keys,
}
use agentcook.Memory.Store.Invariant.{IsKeyed, IsValid, entries_of-change, remove_keys-nil}
use agentcook.Memory.Store.Views.{live, view, Stale, view-change, live_later}

-- The keys that `expire` deletes are stale.
get_of_In :
    (agent : String) (k : String) (e : MemoryEntry) (es : Entries)
    → IsKeyed agent es
    → In (k, e) es
    → Dict.get k es ≡ some e
unfolding Dict.get
get_of_In agent k e [] h i = elim i [ ]
get_of_In agent k e ((j, x) ∷ es) h (inl same) = ground (arith, eq_refl j)
get_of_In agent k e ((j, x) ∷ es) h (inr i) =
    ground (arith, get_of_In agent k e es h.2 i, eq_iff j k)

pub Stale-of_In :
    (now : ℕ) (agent : String) (es : Entries) (ks : List String)
    → IsKeyed agent es
    → ((k : String) → In k ks → (e : MemoryEntry) × In (k, e) es × (is_expired now e ≡ true))
    → Stale now es ks
Stale-of_In now agent es ks h f k i =
    let (e, m, old) = f k i in ap (live now) (get_of_In agent k e es h m) ∙ rw old refl

expired_keys-In :
    (now : ℕ) (es : Entries) (k : String)
    → In k (expired_keys now es)
    → (e : MemoryEntry) × In (k, e) es × (is_expired now e ≡ true)
unfolding expired_keys
expired_keys-In now es k i =
    let (p, m, named) = In-of_map (λ (x : String × MemoryEntry). x.0) k _ i in
    let (m', old) = In-of_keep_if (λ (x : String × MemoryEntry). is_expired now x.1) p es m in
    (p.1, subst (λ j. In (j, p.1) es) (sym named) m', old)

remove_absent : (k : String) (es : Entries) → Dict.get k es ≡ none → Dict.remove k es ≡ es
unfolding Dict.get Dict.remove
remove_absent k [] h = refl
remove_absent k ((j, e) ∷ es) h = ground (arith, remove_absent k es)

remove_keys-cons :
    (k : String) (e : MemoryEntry) (ks : List String) (es : Entries)
    → ((i : String) → In i ks → str_eq k i ≡ false)
    → remove_keys ks ((k, e) ∷ es) ≡ (k, e) ∷ remove_keys ks es
unfolding remove_keys Dict.remove
remove_keys-cons k e [] es h = refl
remove_keys-cons k e (i ∷ ks) es h =
    rw (h i (inl refl)) (remove_keys-cons k e ks (Dict.remove i es) (λ j m. h j (inr m)))

not_among :
    (now : ℕ) (agent k : String) (es : Entries)
    → IsKeyed agent es
    → Dict.get k es ≡ none
    → (i : String) → In i (expired_keys now es)
    → str_eq k i ≡ false
not_among now agent k es h absent i m =
    let (e, there, _) = expired_keys-In now es i m in
    elim (Bool-cases (str_eq k i)) [
      | inl same ↦ absurd (cc ((eq_iff k i).0 same, absent, get_of_In agent i e es h there))
      | inr ne ↦ ne
    ]

remove_keys_head :
    (k : String) (e : MemoryEntry) (ks : List String) (es : Entries)
    → Dict.get k es ≡ none
    → remove_keys (k ∷ ks) ((k, e) ∷ es) ≡ remove_keys ks es
unfolding remove_keys Dict.remove
remove_keys_head k e ks es absent = rw (eq_refl k) (ap (remove_keys ks) (remove_absent k es absent))

expired_keys_old :
    (now : ℕ) (k : String) (e : MemoryEntry) (es : Entries)
    → is_expired now e ≡ true
    → expired_keys now ((k, e) ∷ es) ≡ k ∷ expired_keys now es
unfolding expired_keys
expired_keys_old now k e es old = rw old

expired_keys_fresh :
    (now : ℕ) (k : String) (e : MemoryEntry) (es : Entries)
    → is_expired now e ≡ false
    → expired_keys now ((k, e) ∷ es) ≡ expired_keys now es
unfolding expired_keys
expired_keys_fresh now k e es fresh = rw fresh

abbrev pub fresh_entries : ℕ → Entries → Entries
fresh_entries now es = keep_if (λ i. not (is_expired now i.1)) es

-- Deleting the expired keys leaves the entries that are not expired, in their order.
remove_keys-expired :
    (now : ℕ) (agent : String) (es : Entries)
    → IsKeyed agent es
    → remove_keys (expired_keys now es) es ≡ fresh_entries now es
remove_keys-expired now agent [] h = unfold remove_keys expired_keys in refl
remove_keys-expired now agent ((k, e) ∷ es) h = elim (Bool-cases (is_expired now e)) [
  | inl old ↦ rw (expired_keys_old now k e es old) (
      rw old
        (remove_keys_head k e (expired_keys now es) es h.1 ∙ remove_keys-expired now agent es h.2))
  | inr fresh ↦ rw (expired_keys_fresh now k e es fresh) (
      rw fresh (
        remove_keys-cons k e (expired_keys now es) es (not_among now agent k es h.2 h.1)
        ∙ ap (λ l. (k, e) ∷ l) (remove_keys-expired now agent es h.2)))
]

length-expired :
    (now : ℕ) (es : Entries)
    → length (expired_keys now es) + length (fresh_entries now es) ≡ length es
unfolding expired_keys
length-expired now [] = omega arith
length-expired now ((k, e) ∷ es) = ground (arith, length-expired now es)

module _ (now : ℕ) (agent : String) (store : InMemoryStore) (v : IsValid store) where
  -- In a store that the operations can produce, `expire` leaves the agent its entries that are not
  -- expired, in their order; it answers how many it deleted; and no later reader of any agent, layer
  -- or key sees a difference.
  pub expire-eq :
      (later : ℕ) (other : String) (layer : MemoryLayer) (key : String)
      → now ≤ later
      → (entries_of agent (expire now agent store).1 ≡ fresh_entries now (entries_of agent store))
        × ((expire now agent store).0 + length (entries_of agent (expire now agent store).1)
            ≡ length (entries_of agent store))
        × (view later other layer key (expire now agent store).1 ≡ view later other layer key store)
  unfolding expire
  expire-eq later other layer key h = (
    left,
    ap (λ l. length (expired_keys now es) + length l) left ∙ length-expired now es,
    view-change later agent (expired_keys now es) store
        (λ k m. live_later now later _ h (
          Stale-of_In now agent es (expired_keys now es) (v.keyed agent) (expired_keys-In now es) k
            m))
        other layer key,
  )
    where
      es : Entries
      es = entries_of agent store

      left :
          entries_of agent (change agent (remove_keys (expired_keys now es)) store)
          ≡ fresh_entries now es
      left =
          entries_of-change agent agent (remove_keys (expired_keys now es)) store
            (remove_keys-nil (expired_keys now es))
          ∙ rw (eq_refl agent) (remove_keys-expired now agent es (v.keyed agent))
