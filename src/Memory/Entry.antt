-- ===== src/Memory/Entry.antt =====
-- `MemoryLayer` and `MemoryEntry` of memory.py.
use agentcook.Prelude.{
  String, ℕ, ◌+◌, ◌*◌, ◌≤◌, ◌≡◌, Bool, true, false, Option, ltb, ◌==◌, if◌then◌else◌, arith,
}
use agentcook.Chat.{Metadata}

pub data MemoryLayer : Type 0 where
  identity soul memory diary : MemoryLayer

abbrev pub layer_value : MemoryLayer → String
layer_value identity = "identity"
layer_value soul = "soul"
layer_value memory = "memory"
layer_value diary = "diary"

pub record MemoryEntry : Type 0 where
  pub layer : MemoryLayer
  pub key : String
  pub content : String
  pub embedding_ref : Option String
  pub timestamp : ℕ
  pub ttl : ℕ
  pub metadata : Metadata

-- The ticks of the clock in a second. Lifetimes are in seconds.
abbrev pub tick : ℕ
tick = 1000000

-- `MemoryEntry.is_expired`. A lifetime of 0 or less never ends.
unfoldable pub is_expired : ℕ → MemoryEntry → Bool
is_expired now e = if e.ttl == 0 then false else ltb (e.timestamp + e.ttl * tick) now

-- What has expired stays expired.
pub is_expired_later :
    (now later : ℕ) (e : MemoryEntry)
    → now ≤ later
    → is_expired now e ≡ true
    → is_expired later e ≡ true
unfolding is_expired
is_expired_later now later e h x = ground arith
