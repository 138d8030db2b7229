-- ===== src/Memory/Store/Listing.antt =====
-- What `list_entries` answers and deletes.
use mathlib.Core.List.{append-nil, append_assoc}
use agentcook.Prelude.{
  String, ℕ, suc, ◌-◌, ◌≤◌, ◌<◌, ◌≡◌, refl, ap, sym, ◌∙◌, Bool, true, false, not, ◌&&◌, List, [],
  ◌∷◌, ◌++◌, Option, arith, inl, inr, Bool-cases, keep_if, map, length, take, leb, leb→le, leb→lt,
  take-nil, ◌⊎◌, length-append, starts_with,
}
use agentcook.Prelude.Strings.{fmt}
use agentcook.Prelude.Members.{In}
use agentcook.Memory.Entry.{MemoryLayer, layer_value, MemoryEntry, is_expired}
use agentcook.Memory.Store.{
  InMemoryStore, entries_of, change, is_filtered, list_loop, list_entries, remove_keys,
}
use agentcook.Memory.Store.Invariant.{IsValid}
use agentcook.Memory.Store.Views.{view, view-change, live_later}
use agentcook.Memory.Store.Expiry.{Stale-of_In}

module _ (now : ℕ) (layer_prefix : String) (prefix : Option String) where
  -- The entries that the listing is about: of the layer, not expired, and with the prefix.
  abbrev pub is_match : String × MemoryEntry → Bool
  is_match i =
      starts_with i.0 layer_prefix && not (is_expired now i.1) && not (is_filtered prefix i.1.key)

  abbrev pub matches : List (String × MemoryEntry) → List MemoryEntry
  matches items = map (λ i. i.1) (keep_if is_match items)

  list_loop_miss :
      (limit : ℕ) (k : String) (e : MemoryEntry) (items : List (String × MemoryEntry))
      (results : List MemoryEntry)
      → is_match (k, e) ≡ false
      → (list_loop now layer_prefix prefix limit ((k, e) ∷ items) results).0
        ≡ (list_loop now layer_prefix prefix limit items results).0
  unfolding list_loop
  list_loop_miss limit k e items results h = ground arith

  list_loop_full :
      (limit : ℕ) (k : String) (e : MemoryEntry) (items : List (String × MemoryEntry))
      (results : List MemoryEntry)
      → is_match (k, e) ≡ true
      → limit ≤ length (results ++ e ∷ [])
      → (list_loop now layer_prefix prefix limit ((k, e) ∷ items) results).0 ≡ results ++ e ∷ []
  unfolding list_loop
  list_loop_full limit k e items results h full = ground arith

  list_loop_more :
      (limit : ℕ) (k : String) (e : MemoryEntry) (items : List (String × MemoryEntry))
      (results : List MemoryEntry)
      → is_match (k, e) ≡ true
      → length (results ++ e ∷ []) < limit
      → (list_loop now layer_prefix prefix limit ((k, e) ∷ items) results).0
        ≡ (list_loop now layer_prefix prefix limit items (results ++ e ∷ [])).0
  unfolding list_loop
  list_loop_more limit k e items results h more = ground arith

  list_loop-eq :
      (limit : ℕ) (items : List (String × MemoryEntry)) (results : List MemoryEntry)
      → length results < limit
      → (list_loop now layer_prefix prefix limit items results).0
        ≡ results ++ take (limit - length results) (matches items)
  list_loop-eq limit [] results h =
      unfold list_loop in sym (ap (λ l. results ++ l) (take-nil _) ∙ append-nil results)
  list_loop-eq limit ((k, e) ∷ items) results h = elim (Bool-cases (is_match (k, e))) [
    | inl hit ↦
        let one = length-append results (e ∷ []) in
        let room : limit - length results ≡ suc (limit - length (results ++ e ∷ [])) =
          omega (arith, one) in
        rw hit (
          rw room (elim (Bool-cases (leb limit (length (results ++ e ∷ [])))) [
            | inl full ↦
                let last : limit - length (results ++ e ∷ []) ≡ 0 = ground arith in
                list_loop_full limit k e items results hit (leb→le _ _ full)
                ∙ ap (λ n. results ++ e ∷ take n (matches items)) (sym last)
            | inr more ↦
                list_loop_more limit k e items results hit (leb→lt _ _ more)
                ∙ list_loop-eq limit items (results ++ e ∷ []) (leb→lt _ _ more)
                ∙ append_assoc results (e ∷ []) _
          ]))
    | inr miss ↦
        list_loop_miss limit k e items results miss ∙ rw miss (list_loop-eq limit items results h)
  ]

  In-later :
      (key k : String) (e : MemoryEntry) (items : List (String × MemoryEntry))
      → (x : MemoryEntry) × In (key, x) items × (is_expired now x ≡ true)
      → (x : MemoryEntry) × In (key, x) ((k, e) ∷ items) × (is_expired now x ≡ true)
  In-later key k e items (x, i, old) = (x, inr i, old)

  list_loop-stale :
      (limit : ℕ) (items : List (String × MemoryEntry)) (results : List MemoryEntry) (key : String)
      → In key (list_loop now layer_prefix prefix limit items results).1
      → (e : MemoryEntry) × In (key, e) items × (is_expired now e ≡ true)
  unfolding list_loop
  list_loop-stale limit [] results key i = elim i [ ]
  list_loop-stale limit ((k, e) ∷ items) results key i =
      elim (Bool-cases (starts_with k layer_prefix)) [
        | inr out ↦ In-later key k e items (list_loop-stale limit items results key (rw out at i))
        | inl layer ↦ elim (Bool-cases (is_expired now e)) [
          | inl old ↦ elim (member key k _ (rw (layer, old) at i)) [
            | inl same ↦ (e, inl (ap (λ j. (j, e)) same), old)
            | inr rest ↦ In-later key k e items (list_loop-stale limit items results key rest)
          ]
          | inr new ↦ elim (Bool-cases (is_filtered prefix e.key)) [
            | inl filtered ↦
                In-later key k e items
                  (list_loop-stale limit items results key (rw (layer, new, filtered) at i))
            | inr hit ↦ elim (Bool-cases (leb limit (length (results ++ e ∷ [])))) [
              | inl full ↦ elim (rw (layer, new, hit, full) at i) [ ]
              | inr more ↦ In-later key k e items (
                  list_loop-stale limit items (results ++ e ∷ []) key
                    (rw (layer, new, hit, more) at i))
            ]
          ]
        ]
      ]
    where
      member : (x y : String) (ys : List String) → In x (y ∷ ys) → (x ≡ y) ⊎ In x ys
      member x y ys j = j

module _ (now : ℕ) (agent : String) (layer : MemoryLayer) (prefix : Option String)
    (store : InMemoryStore) where
  abbrev pub layer_prefix : String
  layer_prefix = fmt (agent ∷ ":" ∷ layer_value layer ∷ ":" ∷ [])

  -- With a limit of at least 1 the listing is the first `limit` of the agent's entries, in insertion
  -- order, that stand under the layer's prefix, have not expired, and pass the key filter.
  pub list_entries-eq :
      (limit : ℕ)
      → 0 < limit
      → (list_entries now agent layer prefix limit store).0
        ≡ take limit (matches now layer_prefix prefix (entries_of agent store))
  unfolding list_entries
  list_entries-eq limit pos =
      let whole : limit - 0 ≡ limit = omega arith in
      list_loop-eq now layer_prefix prefix limit (entries_of agent store) [] pos
      ∙ ap (λ n. take n (matches now layer_prefix prefix (entries_of agent store))) whole

  -- The listing deletes expired entries only: in a valid store no later reader of any agent, layer or
  -- key sees a difference.
  pub view-list_entries :
      (v : IsValid store) (limit later : ℕ) (other : String) (l : MemoryLayer) (key : String)
      → now ≤ later
      → view later other l key (list_entries now agent layer prefix limit store).1
        ≡ view later other l key store
  unfolding list_entries
  view-list_entries v limit later other l key h =
      let es = entries_of agent store in
      let stale = (list_loop now layer_prefix prefix limit es []).1 in
      view-change later agent stale store
        (λ k m. live_later now later _ h (
          Stale-of_In now agent es stale (v.keyed agent)
            (list_loop-stale now layer_prefix prefix limit es []) k m))
        other l key

list_loop-limit_zero :
    (now : ℕ) (layer_prefix : String) (prefix : Option String) (items : List (String × MemoryEntry))
    (results : List MemoryEntry)
    → list_loop now layer_prefix prefix 0 items results
      ≡ list_loop now layer_prefix prefix 1 items results
unfolding list_loop
list_loop-limit_zero now layer_prefix prefix [] results = refl
list_loop-limit_zero now layer_prefix prefix ((k, e) ∷ items) results = ground (
  arith,
  list_loop-limit_zero now layer_prefix prefix items results,
  length-append results (e ∷ []),
)

-- A limit of 0 lists as many entries as a limit of 1.
pub list_entries-limit_zero :
    (now : ℕ) (agent : String) (layer : MemoryLayer) (prefix : Option String)
    (store : InMemoryStore)
    → list_entries now agent layer prefix 0 store ≡ list_entries now agent layer prefix 1 store
unfolding list_entries
list_entries-limit_zero now agent layer prefix store =
    ap (λ (r : List MemoryEntry × List String). (r.0, change agent (remove_keys r.1) store))
      (list_loop-limit_zero now (fmt (agent ∷ ":" ∷ layer_value layer ∷ ":" ∷ [])) prefix
        (entries_of agent store) [])
