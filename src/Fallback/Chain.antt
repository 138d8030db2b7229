-- ===== src/Fallback/Chain.antt =====
-- `FallbackProvider` of fallback.py. A provider's call is its outcome; `lower` is Python's `str.lower`
-- and `contains` the test for a substring. Names in log lines are left out.
use agentcook.Prelude.{
  String, ℕ, Bool, false, ◌||◌, List, [], ◌∷◌, ◌++◌, Option, none, some, any, is_empty, ◌==◌,
  if◌then◌else◌,
}

-- An exception: its HTTP status, if it carries one, and its text.
pub record Failure : Type 0 where
  pub status : Option ℕ
  pub text : String

-- What a call of `chat` does.
pub data Reply (Response : Type 0) : Type 0 where
  answered : Response → Reply Response
  failed : Failure → Reply Response

-- What a run of `stream_chat` does: the chunks that it yields, and the failure that ends it, if one
-- does.
pub record Stream (Chunk : Type 0) : Type 0 where
  pub chunks : List Chunk
  pub ending : Option Failure

-- A provider that is given the messages and options `Request`; `World` is what the calls change.
pub record Provider (Request Response Chunk World : Type 0) : Type 0 where
  pub model_name : String
  pub context_window : ℕ
  pub count_tokens : String → ℕ
  pub chat : Request → World → Reply Response × World
  pub stream_chat : Request → World → Stream Chunk × World

abbrev pub default_codes : List ℕ
default_codes = 429 ∷ 500 ∷ 502 ∷ 503 ∷ 504 ∷ 529 ∷ []

abbrev pub default_keywords : List String
default_keywords =
    "overloaded" ∷ "rate limit" ∷ "capacity" ∷ "try again" ∷ "temporarily unavailable" ∷ []

-- The settings of the chain; its providers are the first and the others.
pub record FallbackProvider (Request Response Chunk World : Type 0) : Type 0 where
  pub first : Provider Request Response Chunk World
  pub others : List (Provider Request Response Chunk World)
  pub retryable_codes : List ℕ
  pub retryable_keywords : List String

-- `x or default` for a collection.
abbrev or_default : {A : Type 0} → List A → Option (List A) → List A
or_default d none = d
or_default d (some xs) = if is_empty xs then d else xs

abbrev has_code : List ℕ → Option ℕ → Bool
has_code codes none = false
has_code codes (some status) = any (λ c. c == status) codes

module _ {Request Response Chunk World : Type 0} where
  -- None where the constructor raises a ValueError.
  unfoldable pub init :
      List (Provider Request Response Chunk World)
      → Option (List ℕ)
      → Option (List String)
      → Option (FallbackProvider Request Response Chunk World)
  init [] codes keywords = none
  init (p ∷ ps) codes keywords = some record {
    first = p;
    others = ps;
    retryable_codes = or_default default_codes codes;
    retryable_keywords = or_default default_keywords keywords;
  }

  abbrev pub model_name : FallbackProvider Request Response Chunk World → String
  model_name f = f.first.model_name

  abbrev pub context_window : FallbackProvider Request Response Chunk World → ℕ
  context_window f = f.first.context_window

  abbrev pub count_tokens : FallbackProvider Request Response Chunk World → String → ℕ
  count_tokens f text = f.first.count_tokens text

  module _ (lower : String → String) (contains : String → String → Bool) where
    unfoldable pub is_retryable : FallbackProvider Request Response Chunk World → Failure → Bool
    is_retryable f e =
        let text = lower e.text in
        has_code f.retryable_codes e.status
        || any (λ keyword. contains text keyword) f.retryable_keywords

    module _ (f : FallbackProvider Request Response Chunk World) where
      -- The loop over the providers, from one provider on.
      unfoldable pub chat_loop :
          Provider Request Response Chunk World
          → List (Provider Request Response Chunk World)
          → Request
          → World
          → Reply Response × World
      chat_loop p [] request world = p.chat request world
      chat_loop p (next ∷ rest) request world =
          let (reply, world') = p.chat request world in
          let again = chat_loop next rest request world' in
          elim reply [
            | answered r ↦ (answered r, world')
            | failed e ↦ if is_retryable f e then again else (failed e, world')
          ]

      unfoldable pub chat : Request → World → Reply Response × World
      chat request world = chat_loop f.first f.others request world

      -- Chunks are yielded as they come, also those of a provider that fails later.
      unfoldable pub stream_loop :
          Provider Request Response Chunk World
          → List (Provider Request Response Chunk World)
          → Request
          → World
          → Stream Chunk × World
      stream_loop p [] request world = p.stream_chat request world
      stream_loop p (next ∷ rest) request world =
          let (stream, world') = p.stream_chat request world in
          let again = stream_loop next rest request world' in
          elim stream.ending [
            | none ↦ (stream, world')
            | some e ↦
                if is_retryable f e
                then (
                  record { chunks = stream.chunks ++ again.0.chunks; ending = again.0.ending },
                  again.1,
                )
                else (stream, world')
          ]

      unfoldable pub stream_chat : Request → World → Stream Chunk × World
      stream_chat request world = stream_loop f.first f.others request world
