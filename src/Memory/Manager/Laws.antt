-- ===== src/Memory/Manager/Laws.antt =====
-- What the operations of `MemoryManager` on memory and diary promise.
use agentcook.Prelude.{
  String, ℕ, ◌+◌, ◌*◌, ◌/◌, ◌≡◌, refl, ap, ◌∙◌, Bool, none, some, ltb, ◌==◌, if◌then◌else◌, arith,
}
use agentcook.Chat.{Metadata}
use agentcook.Memory.Entry.{MemoryLayer, memory, diary, MemoryEntry, is_expired, tick}
use agentcook.Memory.Store.{InMemoryStore, write}
use agentcook.Memory.Store.Views.{view, live, read-view, view-write_self, view-write_ne}
use agentcook.Memory.Soul.{content?}
use agentcook.Memory.Manager.{
  entry_for, diary_key, append_diary, remember, recall, write_to_layer, read_from_layer,
}

module _ (embeds : Bool) (now : ℕ) (agent key content : String) (ttl : ℕ) (metadata : Metadata)
    (store : InMemoryStore) where
  abbrev entry : MemoryEntry
  entry = entry_for embeds now agent memory key content ttl metadata

  content-live :
      (later : ℕ)
      → content? (live later (some entry)) ≡ (
          if ttl == 0
          then some content
          else (if ltb (now + ttl * tick) later then none else some content))
  unfolding is_expired
  content-live later = ground arith

  recall_entry :
      (later : ℕ)
      → (recall later agent key (write agent entry store)).0 ≡ content? (live later (some entry))
  unfolding recall read_from_layer
  recall_entry later = ap content? (
      read-view later agent memory key (write agent entry store)
      ∙ view-write_self agent entry store later)

  -- After `remember`, `recall` of the key answers with the content, forever if the lifetime is 0 and
  -- otherwise until the lifetime in seconds is over. No other layer, key or agent sees a difference.
  pub recall-remember :
      (later : ℕ) (other : String) (layer : MemoryLayer) (k : String)
      → ¬ ((agent ≡ other) × (memory ≡ layer) × (key ≡ k))
      → ((recall later agent key (remember embeds now agent key content ttl metadata store).1).0 ≡ (
          if ttl == 0
          then some content
          else (if ltb (now + ttl * tick) later then none else some content)))
        × (view later other layer k (remember embeds now agent key content ttl metadata store).1
            ≡ view later other layer k store)
  unfolding remember write_to_layer
  recall-remember later other layer k differ = (
    recall_entry later ∙ content-live later,
    view-write_ne agent entry store later other layer k differ,
  )

-- Two diary entries without a key of their own, appended within one millisecond, have the same key:
-- what stands under the key of the first is the second.
pub append_diary-append_diary :
    (embeds : Bool) (now later : ℕ) (agent first second : String) (ttl : ℕ) (metadata : Metadata)
    (store : InMemoryStore)
    → now / 1000 ≡ later / 1000
    → (time : ℕ)
    → view time agent diary
        (append_diary embeds now agent first none ttl metadata store).0.key
        (append_diary embeds later agent second none ttl metadata
          (append_diary embeds now agent first none ttl metadata store).1).1
      ≡ live time (
          some
            (append_diary embeds later agent second none ttl metadata
              (append_diary embeds now agent first none ttl metadata store).1).0)
unfolding append_diary write_to_layer diary_key
append_diary-append_diary embeds now later agent first second ttl metadata store h time =
    let key = diary_key now none in
    let same : diary_key now none ≡ diary_key later none = rw h refl in
    let old = entry_for embeds now agent diary key first ttl metadata in
    let new = entry_for embeds later agent diary (diary_key later none) second ttl metadata in
    ap (λ k. view time agent diary k (write agent new (write agent old store))) same
    ∙ view-write_self agent new (write agent old store) time
