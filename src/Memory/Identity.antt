-- ===== src/Memory/Identity.antt =====
-- `IdentityLoader` of memory.py. JSON values that are no texts, `json.dumps` and `json.loads` are
-- arguments.
pub mod Laws
use agentcook.Prelude.{String, ℕ, ◌+◌, ◌≡◌, refl, List, [], ◌∷◌, Option, none, some, length, arith}
use agentcook.Prelude.Strings.{fmt}
use agentcook.Prelude.Dict.{Dict}
use agentcook.Prelude.Results.{Result, ok, raise, memory_error}
use agentcook.Memory.Entry.{MemoryEntry, identity}
use agentcook.Memory.Store.{InMemoryStore, write}
use agentcook.Memory.Store.Invariant.{IsValid}
use agentcook.Memory.Store.Reach.{write-IsValid}

module _ (Json : Type 0) where
  -- A value of a JSON object, as the loader tells them apart.
  pub data Field : Type 0 where
    plain : String → Field
    structured : Json → Field

  -- What `json.loads` answers: the message of a decoding error, an object, or another value.
  pub data Parsed : Type 0 where
    malformed : String → Parsed
    object : Dict Field → Parsed
    other : Parsed

  module _ (dumps : Json → String) where
    abbrev content_of : Field → String
    content_of (plain text) = text
    content_of (structured value) = dumps value

    -- The entry of one key. Identity never expires.
    abbrev pub identity_entry : ℕ → String → Field → MemoryEntry
    identity_entry now key value = record {
      layer = identity;
      key = key;
      content = content_of value;
      embedding_ref = none;
      timestamp = now;
      ttl = 0;
      metadata = [];
    }

    unfoldable pub load_from_dict : ℕ → String → Dict Field → InMemoryStore → ℕ × InMemoryStore
    load_from_dict now agent [] store = (0, store)
    load_from_dict now agent ((key, value) ∷ fields) store =
        let (count, store') =
          load_from_dict now agent fields (write agent (identity_entry now key value) store) in
        (count + 1, store')

    unfoldable pub load_from_json :
        (String → Parsed) → ℕ → String → String → InMemoryStore → Result ℕ × InMemoryStore
    load_from_json loads now agent json_string store = elim (loads json_string) [
      | malformed e ↦ (raise (memory_error (fmt ("Invalid JSON for identity: " ∷ e ∷ []))), store)
      | other ↦ (raise (memory_error "Identity JSON must be a top-level object"), store)
      | object fields ↦
          let (count, store') = load_from_dict now agent fields store in (ok count, store')
    ]
