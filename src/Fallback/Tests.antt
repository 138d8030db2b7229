-- ===== src/Fallback/Tests.antt =====
-- Runs of a chain of two providers, and the theorems at those.
use agentcook.Prelude.{
  String, ℕ, ◌≡◌, refl, Bool, true, List, [], ◌∷◌, ◌++◌, none, some, str_eq, if◌then◌else◌,
}
use agentcook.Fallback.Chain.{
  Failure, answered, failed, Provider, FallbackProvider, default_codes, is_retryable, chat_loop,
  chat, stream_loop, stream_chat,
}
use agentcook.Fallback.Laws.{Falls, EndsWith, Passes, StopsWith, chat-Falls, stream_chat-Passes}

abbrev overloaded : Failure
overloaded = record { status = some 529; text = "overloaded" }

-- It yields one chunk and is overloaded then.
abbrev busy : Provider String String String ℕ
busy = record {
  model_name = "busy";
  context_window = 1000;
  count_tokens = λ text. 1;
  chat = λ request w. (failed overloaded, w);
  stream_chat = λ request w. (record { chunks = "He" ∷ []; ending = some overloaded }, w);
}

abbrev free : Provider String String String ℕ
free = record {
  model_name = "free";
  context_window = 1000;
  count_tokens = λ text. 1;
  chat = λ request w. (answered "Hello", w);
  stream_chat = λ request w. (record { chunks = "He" ∷ "llo" ∷ []; ending = none }, w);
}

abbrev chain : FallbackProvider String String String ℕ
chain = record {
  first = busy;
  others = free ∷ [];
  retryable_codes = default_codes;
  retryable_keywords = "" ∷ [];
}

abbrev lower : String → String
lower text = text

-- The empty keyword is in every text.
abbrev contains : String → String → Bool
contains text keyword = if str_eq keyword "" then true else str_eq text keyword

chat_run : chat lower contains chain "Hi" 0 ≡ (answered "Hello", 0)
unfolding chat chat_loop is_retryable
chat_run = refl

-- The partial text of the first provider stays in front of the second one's.
stream_run : (stream_chat lower contains chain "Hi" 0).0.chunks ≡ "He" ∷ "He" ∷ "llo" ∷ []
unfolding stream_chat stream_loop is_retryable
stream_run = refl

chat-Falls_example :
    (q : Provider String String String ℕ) × (qs : List (Provider String String String ℕ)) × (w' : ℕ)
    × Falls lower contains chain "Hi" busy (free ∷ []) 0 q qs w'
    × (chat lower contains chain "Hi" 0 ≡ q.chat "Hi" w')
    × EndsWith lower contains chain "Hi" (q.chat "Hi" w').0 qs
chat-Falls_example = chat-Falls lower contains chain "Hi" 0

stream_chat-Passes_example :
    (yielded : List String) × (q : Provider String String String ℕ) × (qs : List
      (Provider String String String ℕ))
    × (w' : ℕ) × Passes lower contains chain "Hi" busy (free ∷ []) 0 yielded q qs w'
    × ((stream_chat lower contains chain "Hi" 0).0.chunks
        ≡ yielded ++ (q.stream_chat "Hi" w').0.chunks)
    × ((stream_chat lower contains chain "Hi" 0).0.ending ≡ (q.stream_chat "Hi" w').0.ending)
    × StopsWith lower contains chain "Hi" (q.stream_chat "Hi" w').0.ending qs
stream_chat-Passes_example = stream_chat-Passes lower contains chain "Hi" 0
